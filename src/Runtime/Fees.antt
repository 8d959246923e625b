-- ===== src/Runtime/Fees.antt =====
-- runtime/src/lib.rs, `WeightToFee`: what an extrinsic pays for its weight.
use swarm_robotics_parachain.Common.{
  ℕ, ◌*◌, ◌/◌, ◌%◌, ◌≤◌, ◌≡◌, refl, ◌∙◌, ap, false, List, [], ◌∷◌, arith,
}
use swarm_robotics_parachain.Frame.Weight.{Weights, u64_max}
use swarm_robotics_parachain.Frame.Fee.{Perbills, WeightToFeeCoefficient, FeePolynomials}
use swarm_robotics_parachain.Runtime.Constants.{milli_unit, micro_unit}
use swarm_robotics_parachain.Runtime.Weights.{extrinsic_base_weight, ref_time-extrinsic_base_weight}

module _ (W : Weights) (P : Perbills) (L : FeePolynomials P) where
  -- The one coefficient, from the reference time of the base weight; `u128::from` of a u64 keeps
  -- its value.
  coefficient : ℕ → WeightToFeeCoefficient P
  coefficient base =
      let p : ℕ = milli_unit / 10 in
      let q : ℕ = 100 * base in
      record {
        degree = 1;
        negative = false;
        coeff_frac = P.from_rational (p % q) q;
        coeff_integer = p / q;
      }

  polynomial : List (WeightToFeeCoefficient P)
  unfolding coefficient
  polynomial = coefficient (W.ref_time (extrinsic_base_weight W)) ∷ []

  -- `TransactionPayment::weight_to_fee`
  pub fee : W.Weight → ℕ
  fee w = L.weight_to_fee polynomial (W.ref_time w)

  frac : P.parts (coefficient 125_000_000).coeff_frac ≡ 8_000_000
  unfolding coefficient
  frac = P.parts-from_rational 100_000_000 12_500_000_000 (omega arith) (omega arith)

  fee_at :
      (k t : ℕ)
      → t ≡ k * 125_000_000
      → t ≤ u64_max
      → L.weight_to_fee (coefficient 125_000_000 ∷ []) t ≡ k * micro_unit
  unfolding coefficient
  fee_at k t h fits =
      L.weight_to_fee_linear (coefficient 125_000_000) t (k * micro_unit) refl refl
        (rw (frac, h) (omega arith)) (omega arith)
      ∙ omega arith

  -- A weight of `k` times the base weight of an extrinsic costs `k` times a `MICRO_UNIT`, a
  -- thousandth of a `MILLI_UNIT`.
  pub fee-base_weight :
      (k : ℕ) (w : W.Weight)
      → W.ref_time w ≡ k * W.ref_time (extrinsic_base_weight W)
      → W.ref_time w ≤ u64_max
      → fee w ≡ k * micro_unit
  unfolding fee polynomial
  fee-base_weight k w h fits =
      let base = ref_time-extrinsic_base_weight W in
      ap (λ b. L.weight_to_fee (coefficient b ∷ []) (W.ref_time w)) base
      ∙ fee_at k (W.ref_time w) (h ∙ ap (λ b. k * b) base) fits
