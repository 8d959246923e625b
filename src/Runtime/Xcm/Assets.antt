-- ===== src/Runtime/Xcm/Assets.antt =====
-- runtime/src/configs/xcm_config.rs, `LocalAssetTransactor`: which assets of messages are balances on
-- this chain, and whose.
pub mod Balances
mod Examples
use swarm_robotics_parachain.Frame.Origin.{Origins}
use swarm_robotics_parachain.Frame.Transactor.{Transact, Transactors}
use swarm_robotics_parachain.Frame.Xcm.{XcmCrates}
use swarm_robotics_parachain.Frame.XcmOrigin.{XcmOrigins}
use swarm_robotics_parachain.Runtime.Xcm.Origins.{relay_location, location_to_account_id}

-- `FungibleAdapter`, by its two operations that move balances; no teleports are tracked.
module _ (X : XcmCrates) (O : Origins) (G : XcmOrigins X O) (S : Type 0)
    (T : Transactors X O S) where
  unfoldable pub deposit_asset : Transact X O S T.Asset
  deposit_asset = T.deposit_by (T.is_concrete (relay_location X O G)) (location_to_account_id X O G)

  unfoldable pub withdraw_asset : Transact X O S T.Asset
  withdraw_asset =
      T.withdraw_by (T.is_concrete (relay_location X O G)) (location_to_account_id X O G)
