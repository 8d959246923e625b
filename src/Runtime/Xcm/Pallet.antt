-- ===== src/Runtime/Xcm/Pallet.antt =====
-- runtime/src/configs/xcm_config.rs, `impl pallet_xcm::Config for Runtime`: what users may do with
-- messages on this chain.
pub mod Sends
use swarm_robotics_parachain.Common.{ℕ, ◌⊎◌, Bool, true, false, Option}
use swarm_robotics_parachain.Frame.Origin.{Origins}
use swarm_robotics_parachain.Frame.Weight.{Weights}
use swarm_robotics_parachain.Frame.Xcm.{XcmCrates, Barriers}
use swarm_robotics_parachain.Frame.XcmOrigin.{LocationConverter, OriginTest, XcmOrigins}
use swarm_robotics_parachain.Frame.XcmRouter.{XcmRouters}
use swarm_robotics_parachain.Runtime.Xcm.{unit_weight_cost, max_instructions, universal_location}
use swarm_robotics_parachain.Runtime.Xcm.Origins.{location_to_account_id, local_origin_to_location}
use swarm_robotics_parachain.Runtime.Xcm.Router.{xcm_router}

module _ (X : XcmCrates) (O : Origins) (G : XcmOrigins X O) (R : XcmRouters X) (B : Barriers X)
    (W : Weights) (Asset : Type 0) (parachain_id : ℕ) where
  open X use {Location, InteriorLocation, Message}
  open O use {RuntimeOrigin}

  -- The associated types that are functions or constants. A filter is asked about a location with a
  -- message or with assets; the weigher is `FixedWeightBounds`, by its parameters.
  pub record PalletXcmConfig : Type 0 where
    pub send_xcm_origin : RuntimeOrigin → Option Location
    pub xcm_router : Location → Message → R.SendError ⊎ R.Delivery
    pub execute_xcm_origin : RuntimeOrigin → Option Location
    pub xcm_execute_filter : Location → Message → Bool
    pub xcm_teleport_filter : Location → Asset → Bool
    pub xcm_reserve_transfer_filter : Location → Asset → Bool
    pub unit_weight : W.Weight
    pub max_instructions : ℕ
    pub universal_location : InteriorLocation
    pub version_discovery_queue_size : ℕ
    pub sovereign_account_of : LocationConverter X O
    pub max_lockers : ℕ
    pub admin_origin : OriginTest X O
    pub max_remote_lock_consumers : ℕ

  abbrev pub pallet_xcm_config : PalletXcmConfig
  pallet_xcm_config = record {
    send_xcm_origin = G.ensure_xcm_origin (local_origin_to_location X O G);
    xcm_router = xcm_router X R;
    execute_xcm_origin = G.ensure_xcm_origin (local_origin_to_location X O G);
    xcm_execute_filter = λ location message. false;
    xcm_teleport_filter = λ location asset. true;
    xcm_reserve_transfer_filter = λ location asset. false;
    unit_weight = unit_weight_cost W;
    max_instructions = max_instructions;
    universal_location = universal_location X B parachain_id;
    version_discovery_queue_size = 100;
    sovereign_account_of = location_to_account_id X O G;
    max_lockers = 8;
    admin_origin = G.ensure_root;
    max_remote_lock_consumers = 0;
  }
