-- ===== src/Frame/Weight.antt =====
-- `Weight` and `RuntimeDbWeight` of sp_weights, with the constants that measure time: a weight is a
-- reference time in picoseconds and a proof size in bytes, both u64.
use swarm_robotics_parachain.Common.{ℕ, ◌+◌, ◌*◌, ◌^◌, ◌-◌, ◌≤◌, min, ◌≡◌}

abbrev pub u64_max : ℕ
u64_max = 2 ^ 64 - 1

-- Saturating arithmetic of u64.
abbrev pub saturating : ℕ → ℕ
saturating n = min n u64_max

pub record RuntimeDbWeight : Type 0 where
  pub read : ℕ
  pub write : ℕ

pub record Weights : Type 1 where
  pub Weight : Type 0
  pub from_parts : ℕ → ℕ → Weight
  pub ref_time : Weight → ℕ
  pub proof_size : Weight → ℕ
  pub saturating_add : Weight → Weight → Weight
  -- The operator `+`.
  pub add : Weight → Weight → Weight
  pub reads : RuntimeDbWeight → ℕ → Weight
  pub writes : RuntimeDbWeight → ℕ → Weight
  pub reads_writes : RuntimeDbWeight → ℕ → ℕ → Weight
  pub weight_ref_time_per_nanos : ℕ
  pub weight_ref_time_per_micros : ℕ
  pub weight_ref_time_per_millis : ℕ
  pub weight_ref_time_per_second : ℕ
  pub per_second_lem : weight_ref_time_per_second ≡ 1_000_000_000_000
  pub per_millis_lem : weight_ref_time_per_millis * 1000 ≡ weight_ref_time_per_second
  pub per_micros_lem : weight_ref_time_per_micros * 1000 ≡ weight_ref_time_per_millis
  pub per_nanos_lem : weight_ref_time_per_nanos * 1000 ≡ weight_ref_time_per_micros
  pub ref_time-from_parts : (r p : ℕ) → r ≤ u64_max → ref_time (from_parts r p) ≡ r
  pub proof_size-from_parts : (r p : ℕ) → p ≤ u64_max → proof_size (from_parts r p) ≡ p
  pub ref_time-saturating_add :
      (a b : Weight) → ref_time (saturating_add a b) ≡ saturating (ref_time a + ref_time b)
  pub proof_size-saturating_add :
      (a b : Weight) → proof_size (saturating_add a b) ≡ saturating (proof_size a + proof_size b)
  pub ref_time-add :
      (a b : Weight)
      → ref_time a + ref_time b ≤ u64_max
      → ref_time (add a b) ≡ ref_time a + ref_time b
  pub proof_size-add :
      (a b : Weight)
      → proof_size a + proof_size b ≤ u64_max
      → proof_size (add a b) ≡ proof_size a + proof_size b
  pub ref_time-reads :
      (d : RuntimeDbWeight) (n : ℕ) → ref_time (reads d n) ≡ saturating (d.read * n)
  pub proof_size-reads : (d : RuntimeDbWeight) (n : ℕ) → proof_size (reads d n) ≡ 0
  pub ref_time-writes :
      (d : RuntimeDbWeight) (n : ℕ) → ref_time (writes d n) ≡ saturating (d.write * n)
  pub proof_size-writes : (d : RuntimeDbWeight) (n : ℕ) → proof_size (writes d n) ≡ 0
  pub ref_time-reads_writes :
      (d : RuntimeDbWeight) (r w : ℕ)
      → ref_time (reads_writes d r w)
        ≡ saturating (saturating (d.read * r) + saturating (d.write * w))
  pub proof_size-reads_writes :
      (d : RuntimeDbWeight) (r w : ℕ) → proof_size (reads_writes d r w) ≡ 0
