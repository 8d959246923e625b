-- ===== src/Runtime/Xcm/Executor.antt =====
-- runtime/src/configs/xcm_config.rs, `XcmConfig`: the configuration of the executor of messages.
use swarm_robotics_parachain.Common.{ℕ, Bool, true, false}
use swarm_robotics_parachain.Frame.Executor.{ExecutorConfig, Executors}
use swarm_robotics_parachain.Frame.Origin.{Origins}
use swarm_robotics_parachain.Frame.Weight.{Weights}
use swarm_robotics_parachain.Frame.Xcm.{XcmCrates, Barriers}
use swarm_robotics_parachain.Frame.XcmOrigin.{XcmOrigins}
use swarm_robotics_parachain.Frame.XcmRouter.{XcmRouters}
use swarm_robotics_parachain.Runtime.Pallets.{Pallet, polkadot_xcm}
use swarm_robotics_parachain.Runtime.Xcm.{
  unit_weight_cost, max_instructions, max_assets_into_holding, universal_location, barrier,
}
use swarm_robotics_parachain.Runtime.Xcm.Origins.{transact_dispatch_origin}
use swarm_robotics_parachain.Runtime.Xcm.Router.{xcm_router}

-- The associated types of `XcmConfig` that are pallets.
pub record ExecutorPallets : Type 0 where
  pub xcm_event_emitter : Pallet
  pub response_handler : Pallet
  pub asset_trap : Pallet
  pub asset_claims : Pallet
  pub subscription_service : Pallet
  pub xcm_recorder : Pallet

abbrev pub executor_pallets : ExecutorPallets
executor_pallets = record {
  xcm_event_emitter = polkadot_xcm;
  response_handler = polkadot_xcm;
  asset_trap = polkadot_xcm;
  asset_claims = polkadot_xcm;
  subscription_service = polkadot_xcm;
  xcm_recorder = polkadot_xcm;
}

-- `Everything`
abbrev pub safe_call_filter : {Call : Type 0} → Call → Bool
safe_call_filter call = true

module _ (X : XcmCrates) (O : Origins) (G : XcmOrigins X O) (R : XcmRouters X) (B : Barriers X)
    (W : Weights) (Asset S : Type 0) (E : Executors X O R W Asset S) (parachain_id : ℕ) where
  open X use {Location, Junction}

  -- `()` in the place of a filter of assets.
  abbrev pub no_teleporter : Asset → Location → Bool
  no_teleporter asset location = false

  -- `Nothing`
  abbrev pub nothing : {A C : Type 0} → A → C → Bool
  nothing a c = false

  unfoldable pub xcm_config : ExecutorConfig X O R W Asset
  xcm_config = record {
    xcm_sender = xcm_router X R;
    origin_converter = transact_dispatch_origin X O G;
    is_reserve = E.native_asset;
    is_teleporter = no_teleporter;
    universal_location = universal_location X B parachain_id;
    barrier = barrier X B parachain_id;
    unit_weight = unit_weight_cost W;
    max_instructions = max_instructions;
    max_assets_into_holding = max_assets_into_holding;
    universal_aliases = nothing;
    aliasers = nothing;
  }
