-- ===== src/Frame/Fee.antt =====
-- `Perbill` of sp_arithmetic, and `WeightToFeePolynomial` of frame_support: a fee is the value of a
-- polynomial at the reference time of a weight, over u128 balances.
use swarm_robotics_parachain.Common.{
  ℕ, ◌+◌, ◌*◌, ◌/◌, ◌^◌, ◌-◌, ◌≤◌, ◌<◌, ◌≡◌, Bool, false, List, [], ◌∷◌,
}

abbrev pub u128_max : ℕ
u128_max = 2 ^ 128 - 1

abbrev pub billion : ℕ
billion = 1_000_000_000

-- `from_rational` rounds down.
pub record Perbills : Type 1 where
  pub Perbill : Type 0
  pub parts : Perbill → ℕ
  pub from_rational : ℕ → ℕ → Perbill
  pub parts-from_rational : (n d : ℕ) → 0 < d → n ≤ d → parts (from_rational n d) ≡ n * billion / d

pub record WeightToFeeCoefficient (P : Perbills) : Type 0 where
  pub coeff_integer : ℕ
  pub coeff_frac : P.Perbill
  pub negative : Bool
  pub degree : ℕ

-- The value of a polynomial at a reference time. What the rounding of a fraction is does not
-- matter here: the law speaks of times at which the fraction comes out even.
pub record FeePolynomials (P : Perbills) : Type 0 where
  pub weight_to_fee : List (WeightToFeeCoefficient P) → ℕ → ℕ
  pub weight_to_fee_linear :
      (c : WeightToFeeCoefficient P) (t n : ℕ)
      → c.degree ≡ 1
      → c.negative ≡ false
      → P.parts c.coeff_frac * t ≡ n * billion
      → c.coeff_integer * t + n ≤ u128_max
      → weight_to_fee (c ∷ []) t ≡ c.coeff_integer * t + n
