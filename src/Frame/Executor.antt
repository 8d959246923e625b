-- ===== src/Frame/Executor.antt =====
-- `XcmExecutor` of staging_xcm_executor: what its configuration decides, and when a message is
-- executed under it.
use swarm_robotics_parachain.Common.{ℕ, ◌≡◌, ◌⊎◌, Bool, true, false}
use swarm_robotics_parachain.Frame.Origin.{Origins}
use swarm_robotics_parachain.Frame.Weight.{Weights}
use swarm_robotics_parachain.Frame.Xcm.{XcmCrates, Test}
use swarm_robotics_parachain.Frame.XcmOrigin.{OriginConverter}
use swarm_robotics_parachain.Frame.XcmRouter.{XcmRouters}

module _ (X : XcmCrates) (O : Origins) (R : XcmRouters X) (W : Weights) (Asset : Type 0) where
  open X use {Location, Junction, InteriorLocation, Message, Properties}

  -- The associated types of `xcm_executor::Config` that are functions or constants, but for the asset
  -- transactor. The weigher is `FixedWeightBounds`, by its two parameters.
  pub record ExecutorConfig : Type 0 where
    pub xcm_sender : Location → Message → R.SendError ⊎ R.Delivery
    pub origin_converter : OriginConverter X O
    pub is_reserve : Asset → Location → Bool
    pub is_teleporter : Asset → Location → Bool
    pub universal_location : InteriorLocation
    pub barrier : Test X
    pub unit_weight : W.Weight
    pub max_instructions : ℕ
    pub max_assets_into_holding : ℕ
    pub universal_aliases : Location → Junction → Bool
    pub aliasers : Location → Location → Bool

  -- Over the storage `S`.
  pub record Executors (S : Type 0) : Type 1 where
    pub Outcome : Type 0
    pub barrier_error : Outcome
    pub native_asset : Asset → Location → Bool
    -- `XcmExecutor::execute`, and the run of the instructions in it.
    pub execute : ExecutorConfig → Location → Message → Properties → S → Outcome × S
    pub run_instructions : ExecutorConfig → Location → Message → Properties → S → Outcome × S
    pub execute_allowed :
        (c : ExecutorConfig) (l : Location) (m : Message) (p : Properties) (s : S)
        → c.barrier l m p ≡ true
        → execute c l m p s ≡ run_instructions c l m p s
    pub execute_denied :
        (c : ExecutorConfig) (l : Location) (m : Message) (p : Properties) (s : S)
        → c.barrier l m p ≡ false
        → execute c l m p s ≡ (barrier_error, s)
