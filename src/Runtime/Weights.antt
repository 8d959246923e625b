-- ===== src/Runtime/Weights.antt =====
-- runtime/src/weights: the weight constants of the runtime.
use swarm_robotics_parachain.Common.{ℕ, ◌*◌, ◌≤◌, ◌≡◌, arith}
use swarm_robotics_parachain.Frame.Weight.{RuntimeDbWeight, Weights, saturating}

module _ (W : Weights) where
  open W use {
    Weight, from_parts, reads, writes, ref_time, weight_ref_time_per_nanos,
    weight_ref_time_per_micros, weight_ref_time_per_millis,
  }

  -- Importing a block with no extrinsic.
  pub block_execution_weight : Weight
  block_execution_weight = from_parts (saturating (weight_ref_time_per_nanos * 5_000_000)) 0

  -- Executing an extrinsic that does nothing.
  unfoldable pub extrinsic_base_weight : Weight
  extrinsic_base_weight = from_parts (saturating (weight_ref_time_per_nanos * 125_000)) 0

  unfoldable pub rocks_db_weight : RuntimeDbWeight
  rocks_db_weight = record {
    read = 25_000 * weight_ref_time_per_nanos;
    write = 100_000 * weight_ref_time_per_nanos;
  }

  pub parity_db_weight : RuntimeDbWeight
  parity_db_weight = record {
    read = 8_000 * weight_ref_time_per_nanos;
    write = 50_000 * weight_ref_time_per_nanos;
  }

  abbrev pub Between : ℕ → ℕ → ℕ → Type 0
  Between lo hi n = (lo ≤ n) × (n ≤ hi)

  per_nanos : weight_ref_time_per_nanos ≡ 1000
  per_nanos = omega (arith, W.per_second_lem, W.per_millis_lem, W.per_micros_lem, W.per_nanos_lem)

  pub ref_time-block_execution_weight : ref_time block_execution_weight ≡ 5_000_000_000
  unfolding block_execution_weight
  ref_time-block_execution_weight = omega (
    arith,
    per_nanos,
    W.ref_time-from_parts (saturating (weight_ref_time_per_nanos * 5_000_000)) 0,
  )

  pub ref_time-extrinsic_base_weight : ref_time extrinsic_base_weight ≡ 125_000_000
  unfolding extrinsic_base_weight
  ref_time-extrinsic_base_weight =
      omega (
        arith,
        per_nanos,
        W.ref_time-from_parts (saturating (weight_ref_time_per_nanos * 125_000)) 0,
      )

  -- The tests of the four files.
  abbrev pub BlockIsSane : Type 0
  BlockIsSane =
      Between (100 * weight_ref_time_per_micros) (50 * weight_ref_time_per_millis)
        (ref_time block_execution_weight)

  abbrev pub ExtrinsicIsSane : Type 0
  ExtrinsicIsSane =
      Between (10 * weight_ref_time_per_micros) weight_ref_time_per_millis
        (ref_time extrinsic_base_weight)

  abbrev pub RocksDbIsSane : Type 0
  RocksDbIsSane =
      Between weight_ref_time_per_micros weight_ref_time_per_millis
        (ref_time (reads rocks_db_weight 1))
      × Between weight_ref_time_per_micros weight_ref_time_per_millis
          (ref_time (writes rocks_db_weight 1))

  abbrev pub ParityDbIsSane : Type 0
  ParityDbIsSane =
      Between weight_ref_time_per_micros weight_ref_time_per_millis
        (ref_time (reads parity_db_weight 1))
      × Between weight_ref_time_per_micros weight_ref_time_per_millis
          (ref_time (writes parity_db_weight 1))

  -- Every bound that the tests of the four files check: a block takes 100 µs to 50 ms, an
  -- extrinsic 10 µs to 1 ms, and a read and a write of either database 1 µs to 1 ms each.
  pub weights-IsSane : BlockIsSane × ExtrinsicIsSane × RocksDbIsSane × ParityDbIsSane
  unfolding rocks_db_weight parity_db_weight
  weights-IsSane = omega (
    arith,
    per_nanos,
    W.per_nanos_lem,
    W.per_micros_lem,
    ref_time-block_execution_weight,
    ref_time-extrinsic_base_weight,
    W.ref_time-reads rocks_db_weight 1,
    W.ref_time-writes rocks_db_weight 1,
    W.ref_time-reads parity_db_weight 1,
    W.ref_time-writes parity_db_weight 1,
  )
