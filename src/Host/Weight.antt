-- ===== src/Host/Weight.antt =====
-- Weights as pairs of numbers, and fees by whole division: instances of `Weights`, `Perbills` and
-- `FeePolynomials`.
use swarm_robotics_parachain.Common.{ℕ, ◌+◌, ◌*◌, ◌/◌, ◌≤◌, ◌≡◌, refl, List, [], ◌∷◌, false, arith}
use swarm_robotics_parachain.Frame.Weight.{Weights, u64_max, saturating}
use swarm_robotics_parachain.Frame.Fee.{
  Perbills, WeightToFeeCoefficient, FeePolynomials, billion, u128_max,
}

pub min_u64 : (n : ℕ) → n ≤ u64_max → saturating n ≡ n
min_u64 n h = omega arith

abbrev pub host_weights : Weights
host_weights = record {
  Weight = ℕ × ℕ;
  from_parts = λ r p. (saturating r, saturating p);
  ref_time = λ w. w.0;
  proof_size = λ w. w.1;
  saturating_add = λ a b. (saturating (a.0 + b.0), saturating (a.1 + b.1));
  add = λ a b. (saturating (a.0 + b.0), saturating (a.1 + b.1));
  reads = λ d n. (saturating (d.read * n), 0);
  writes = λ d n. (saturating (d.write * n), 0);
  reads_writes = λ d r w. (saturating (saturating (d.read * r) + saturating (d.write * w)), 0);
  weight_ref_time_per_nanos = 1_000;
  weight_ref_time_per_micros = 1_000_000;
  weight_ref_time_per_millis = 1_000_000_000;
  weight_ref_time_per_second = 1_000_000_000_000;
  per_second_lem = refl;
  per_millis_lem = refl;
  per_micros_lem = refl;
  per_nanos_lem = refl;
  ref_time-from_parts = λ r p h. min_u64 r h;
  proof_size-from_parts = λ r p h. min_u64 p h;
  ref_time-saturating_add = λ a b. refl;
  proof_size-saturating_add = λ a b. refl;
  ref_time-add = λ a b h. min_u64 (a.0 + b.0) h;
  proof_size-add = λ a b h. min_u64 (a.1 + b.1) h;
  ref_time-reads = λ d n. refl;
  proof_size-reads = λ d n. refl;
  ref_time-writes = λ d n. refl;
  proof_size-writes = λ d n. refl;
  ref_time-reads_writes = λ d r w. refl;
  proof_size-reads_writes = λ d r w. refl;
}

abbrev pub host_perbills : Perbills
host_perbills = record {
  Perbill = ℕ;
  parts = λ p. p;
  from_rational = λ n d. n * billion / d;
  parts-from_rational = λ n d h k. refl;
}

abbrev pub evaluate : List (WeightToFeeCoefficient host_perbills) → ℕ → ℕ
evaluate [] t = 0
evaluate (c ∷ cs) t = c.coeff_integer * t + c.coeff_frac * t / billion

pub evaluate_linear :
    (c : WeightToFeeCoefficient host_perbills) (t n : ℕ)
    → c.degree ≡ 1
    → c.negative ≡ false
    → c.coeff_frac * t ≡ n * billion
    → c.coeff_integer * t + n ≤ u128_max
    → evaluate (c ∷ []) t ≡ c.coeff_integer * t + n
evaluate_linear c t n d s h f = omega arith

abbrev pub host_polynomials : FeePolynomials host_perbills
host_polynomials = record { weight_to_fee = evaluate; weight_to_fee_linear = evaluate_linear }
