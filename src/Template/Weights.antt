-- ===== src/Template/Weights.antt =====
-- pallets/template/src/weights.rs, and the weights that the `#[pallet::weight]` attributes of
-- pallets/template/src/lib.rs charge.
use swarm_robotics_parachain.Common.{ℕ, ◌+◌, ◌≤◌, ◌≡◌, arith}
use swarm_robotics_parachain.Frame.Weight.{RuntimeDbWeight, Weights, u64_max}
use swarm_robotics_parachain.Template.Types.{Call, does_something, causes_error}

module _ (W : Weights) where
  open W use {
    Weight, from_parts, saturating_add, add, reads, writes, reads_writes, ref_time, proof_size,
  }

  -- `SubstrateWeight<T>`; `()` is the same at frame_support's `RocksDbWeight`.
  pub weight_info : RuntimeDbWeight → Call → Weight
  weight_info db (does_something bn) = saturating_add (from_parts 9_000_000 0) (writes db 1)
  weight_info db causes_error =
      saturating_add (saturating_add (from_parts 6_000_000 1489) (reads db 1)) (writes db 1)

  -- What the attributes say.
  pub declared_weight : RuntimeDbWeight → Call → Weight
  declared_weight db (does_something bn) = add (from_parts 10_000 0) (writes db 1)
  declared_weight db causes_error = add (from_parts 10_000 0) (reads_writes db 1 1)

  -- The benchmarked time of a call's own work, in picoseconds, above the declared one.
  abbrev pub shortfall : Call → ℕ
  shortfall (does_something bn) = 8_990_000
  shortfall causes_error = 5_990_000

  -- While nothing saturates, a call is charged less than its benchmark: the declared weight of
  -- `do_something` is short of the benchmarked one by 8 990 000 ps, that of `cause_error` by
  -- 5 990 000 ps, whatever the database weights.
  pub declared_weight_short :
      (db : RuntimeDbWeight) (c : Call)
      → db.read + db.write + 9_000_000 ≤ u64_max
      → ref_time (declared_weight db c) + shortfall c ≡ ref_time (weight_info db c)
  unfolding weight_info declared_weight
  declared_weight_short db (does_something bn) h = omega (
    arith,
    W.ref_time-add (from_parts 10_000 0) (writes db 1),
    W.ref_time-writes db 1,
    W.ref_time-from_parts 10_000 0,
    W.ref_time-from_parts 9_000_000 0,
    W.ref_time-saturating_add (from_parts 9_000_000 0) (writes db 1),
  )
  declared_weight_short db causes_error h = omega (
    arith,
    W.ref_time-add (from_parts 10_000 0) (reads_writes db 1 1),
    W.ref_time-reads_writes db 1 1,
    W.ref_time-reads db 1,
    W.ref_time-writes db 1,
    W.ref_time-from_parts 10_000 0,
    W.ref_time-from_parts 6_000_000 1489,
    W.ref_time-saturating_add (from_parts 6_000_000 1489) (reads db 1),
    W.ref_time-saturating_add (saturating_add (from_parts 6_000_000 1489) (reads db 1))
        (writes db 1),
  )
