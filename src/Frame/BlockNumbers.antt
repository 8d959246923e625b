-- ===== src/Frame/BlockNumbers.antt =====
-- `BlockNumberFor<T>`, an unsigned integer type at least as wide as u32, by its bounds `From<u32>`,
-- `One` and `CheckedAdd`.
use swarm_robotics_parachain.Common.{ℕ, ◌+◌, ◌^◌, ◌≤◌, ◌<◌, ◌≡◌, Option, none, some}

pub record BlockNumbers : Type 1 where
  pub BlockNumber : Type 0
  pub value : BlockNumber → ℕ
  pub max_value : ℕ
  pub u32_into : ℕ → BlockNumber
  pub one : BlockNumber
  pub checked_add : BlockNumber → BlockNumber → Option BlockNumber
  pub value-le-max_value : (b : BlockNumber) → value b ≤ max_value
  pub value-u32_into : (n : ℕ) → n < 2 ^ 32 → value (u32_into n) ≡ n
  pub value-one : value one ≡ 1
  pub checked_add_fits :
      (a b : BlockNumber)
      → value a + value b ≤ max_value
      → (c : BlockNumber) × (checked_add a b ≡ some c) × (value c ≡ value a + value b)
  pub checked_add_overflow :
      (a b : BlockNumber) → max_value < value a + value b → checked_add a b ≡ none
