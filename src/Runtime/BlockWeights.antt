-- ===== src/Runtime/BlockWeights.antt =====
-- runtime/src/lib.rs and runtime/src/configs/mod.rs: how much weight a block takes, and what is kept
-- free in it.
pub mod Limits
mod Examples
use swarm_robotics_parachain.Common.{ℕ, ◌*◌, none, some, Option, List, [], ◌∷◌}
use swarm_robotics_parachain.Frame.Weight.{Weights, saturating}
use swarm_robotics_parachain.Frame.Fee.{Perbills}
use swarm_robotics_parachain.Frame.BlockWeights.{
  WeightArithmetic, WeightsPerClass, BlockWeightsBuilder,
}
use swarm_robotics_parachain.Runtime.Weights.{block_execution_weight, extrinsic_base_weight}

-- `max_pov_size` is the relay chain's bound on a proof of validity, in bytes, a constant of
-- cumulus_primitives_core.
module _ (W : Weights) (P : Perbills) (A : WeightArithmetic W P) (B : BlockWeightsBuilder W P)
    (max_pov_size : ℕ) where
  open W use {Weight}

  abbrev pub average_on_initialize_ratio : P.Perbill
  average_on_initialize_ratio = A.from_percent 5

  abbrev pub normal_dispatch_ratio : P.Perbill
  normal_dispatch_ratio = A.from_percent 75

  abbrev pub maximum_block_weight : Weight
  maximum_block_weight = W.from_parts (saturating (W.weight_ref_time_per_second * 2)) max_pov_size

  abbrev pub with_base_extrinsic : WeightsPerClass W → WeightsPerClass W
  with_base_extrinsic weights = record weights { base_extrinsic = extrinsic_base_weight W }

  abbrev pub with_normal_limit : WeightsPerClass W → WeightsPerClass W
  with_normal_limit weights = record weights {
    max_total = some (A.scale normal_dispatch_ratio maximum_block_weight);
  }

  abbrev pub with_operational_limit : WeightsPerClass W → WeightsPerClass W
  with_operational_limit weights = record weights {
    max_total = some maximum_block_weight;
    reserved =
        some (A.subtract maximum_block_weight (A.scale normal_dispatch_ratio maximum_block_weight));
  }

  -- The builder, in the order of its calls.
  unfoldable pub block_weights_builder : B.Builder
  block_weights_builder =
      let b1 = B.base_block (block_execution_weight W) B.builder in
      let b2 = B.for_class B.all with_base_extrinsic b1 in
      let b3 = B.for_class (B.normal ∷ []) with_normal_limit b2 in
      let b4 = B.for_class (B.operational ∷ []) with_operational_limit b3 in
      B.avg_block_initialization average_on_initialize_ratio b4

  -- `none` is a panic of the builder.
  unfoldable pub runtime_block_weights : Option B.BlockWeights
  runtime_block_weights = B.build_or_panic block_weights_builder

  abbrev pub reserved_xcmp_weight : Weight
  reserved_xcmp_weight = A.saturating_div maximum_block_weight 4

  abbrev pub reserved_dmp_weight : Weight
  reserved_dmp_weight = A.saturating_div maximum_block_weight 4

  -- `RuntimeBlockWeights::get()` panics where the builder does.
  abbrev service_share : Option B.BlockWeights → Option Weight
  service_share none = none
  service_share (some weights) = some (A.scale (A.from_percent 35) (B.max_block weights))

  pub message_queue_service_weight : Option Weight
  unfolding runtime_block_weights
  message_queue_service_weight = service_share runtime_block_weights

  module _ {BlockLength : Type 0} (max_with_normal_ratio : ℕ → P.Perbill → BlockLength) where
    -- `BlockLength::max_with_normal_ratio` is the argument.
    abbrev pub runtime_block_length : BlockLength
    runtime_block_length = max_with_normal_ratio (5 * 1024 * 1024) normal_dispatch_ratio
