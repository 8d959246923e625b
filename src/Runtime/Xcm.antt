-- ===== src/Runtime/Xcm.antt =====
-- runtime/src/configs/xcm_config.rs: who may execute messages on the chain without paying.
pub mod Free
pub mod Origins
pub mod Router
pub mod Executor
pub mod Assets
pub mod Pallet
mod Examples
use swarm_robotics_parachain.Common.{
  ℕ, ℕ_discrete, ◌*◌, Bool, true, false, Option, none, some, List, [], ◌∷◌,
}
use swarm_robotics_parachain.Frame.Weight.{Weights}
use swarm_robotics_parachain.Frame.Xcm.{XcmCrates, Test, Barriers}

abbrev pub unit_weight_cost : (W : Weights) → W.Weight
unit_weight_cost W = W.from_parts 1_000_000_000 (64 * 1024)

abbrev pub max_instructions : ℕ
max_instructions = 100

abbrev pub max_assets_into_holding : ℕ
max_assets_into_holding = 64

module _ (X : XcmCrates) where
  open X use {Junction, Location}

  abbrev pub is_body : Option (X.BodyId × X.BodyPart) → Bool
  is_body none = false
  is_body (some (id, part)) = elim (X.body_id_eq id X.executive) [ yes e ↦ true | no ne ↦ false ]

  abbrev pub of_parent : List Junction → Bool
  of_parent [] = true
  of_parent (j ∷ []) = is_body (X.as_plurality j)
  of_parent (j ∷ k ∷ js) = false

  abbrev pub matches : ℕ → List Junction → Bool
  matches parents interior = elim (ℕ_discrete parents 1) [
    | yes e ↦ of_parent interior
    | no ne ↦ false
  ]

  -- `ParentOrParentsExecutivePlurality::contains`
  unfoldable pub contains : Location → Bool
  contains location = let (parents, interior) = X.unpack location in matches parents interior

  -- `Everything`
  abbrev pub everything : Location → Bool
  everything location = true

  module _ (B : Barriers X) (parachain_id : ℕ) where
    -- `ParachainInfo::parachain_id`, read from storage, is the argument.
    abbrev pub universal_location : X.InteriorLocation
    universal_location = X.parachain parachain_id

    abbrev pub origin_tests : Test X
    origin_tests =
        B.either (B.allow_top_level_paid_execution_from everything)
          (B.allow_explicit_unpaid_execution_from contains)

    unfoldable pub barrier : Test X
    barrier = B.trailing_set_topic_as_id (
        B.deny_then_try (B.deny_recursively B.deny_reserve_transfer_to_relay_chain) (
          B.either B.take_weight_credit (B.with_computed_origin origin_tests universal_location 8)))
