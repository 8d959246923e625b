-- ===== src/Runtime/Xcm/Origins.antt =====
-- runtime/src/configs/xcm_config.rs and runtime/src/configs/mod.rs: which account and which origin a
-- location has on this chain, and who may change the collators.
pub mod Accounts
pub mod Transact
pub mod Authority
mod Examples
use swarm_robotics_parachain.Common.{Option, none, or_else}
use swarm_robotics_parachain.Frame.Origin.{Origins}
use swarm_robotics_parachain.Frame.Xcm.{XcmCrates}
use swarm_robotics_parachain.Frame.XcmOrigin.{
  LocationConverter, OriginConverter, OriginTest, XcmOrigins,
}

module _ (X : XcmCrates) (O : Origins) (G : XcmOrigins X O) where
  abbrev pub relay_location : X.Location
  relay_location = G.parent

  abbrev pub relay_network : Option G.NetworkId
  relay_network = none

  abbrev pub relay_chain_origin : O.RuntimeOrigin
  relay_chain_origin = G.relay

  unfoldable pub location_to_account_id : LocationConverter X O
  location_to_account_id l =
      or_else (G.parent_is_preset l)
        (or_else (G.sibling_parachain_converts_via l) (G.account_id32_aliases relay_network l))

  -- `XcmOriginToTransactDispatchOrigin`
  unfoldable pub transact_dispatch_origin : OriginConverter X O
  transact_dispatch_origin l k =
      or_else (G.sovereign_signed_via_location location_to_account_id l k) (
        or_else (G.relay_chain_as_native relay_chain_origin l k) (
          or_else (G.sibling_parachain_as_native l k)
            (or_else (G.signed_account_id32_as_native relay_network l k) (G.xcm_passthrough l k))))

  unfoldable pub local_origin_to_location : O.RuntimeOrigin → Option X.Location
  local_origin_to_location = G.signed_to_account_id32 relay_network

  abbrev pub staking_admin_body_id : X.BodyId
  staking_admin_body_id = G.defense

  unfoldable pub collator_selection_update_origin : OriginTest X O
  collator_selection_update_origin =
      G.either_of_diverse G.ensure_root
        (G.ensure_xcm (G.is_voice_of_body relay_location staking_admin_body_id))
