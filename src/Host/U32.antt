-- ===== src/Host/U32.antt =====
-- u32 block numbers and the instance of `BlockNumbers` on them.
use swarm_robotics_parachain.Common.{
  ℕ, ◌+◌, ◌^◌, ◌≤◌, ◌<◌, min, ◌≡◌, refl, Option, none, some, arith, dec_le,
}
use swarm_robotics_parachain.Frame.BlockNumbers.{BlockNumbers}

abbrev pub largest_u32 : ℕ
largest_u32 = 4294967295

abbrev pub U32 : Type 0
U32 = (n : ℕ) × (n ≤ largest_u32)

pub min-le_largest : (n : ℕ) → min n largest_u32 ≤ largest_u32
min-le_largest n = omega arith

pub min_of_u32 : (n : ℕ) → n < 2 ^ 32 → min n largest_u32 ≡ n
min_of_u32 n h = omega arith

pub one_fits : 1 ≤ largest_u32
one_fits = omega arith

abbrev pub add_by : (a b : U32) → Dec (a.0 + b.0 ≤ largest_u32) → Option U32
add_by a b (yes h) = some (a.0 + b.0, h)
add_by a b (no h) = none

abbrev pub checked_add : U32 → U32 → Option U32
checked_add a b = add_by a b (dec_le (a.0 + b.0) largest_u32)

add_by_fits :
    (a b : U32) (d : Dec (a.0 + b.0 ≤ largest_u32))
    → a.0 + b.0 ≤ largest_u32
    → (c : U32) × (add_by a b d ≡ some c) × (c.0 ≡ a.0 + b.0)
add_by_fits a b (yes p) h = ((a.0 + b.0, p), refl, refl)
add_by_fits a b (no p) h = absurd (p h)

add_by_overflow :
    (a b : U32) (d : Dec (a.0 + b.0 ≤ largest_u32)) → largest_u32 < a.0 + b.0 → add_by a b d ≡ none
add_by_overflow a b (yes p) h = absurd (omega arith)
add_by_overflow a b (no p) h = refl

pub checked_add_fits :
    (a b : U32)
    → a.0 + b.0 ≤ largest_u32
    → (c : U32) × (checked_add a b ≡ some c) × (c.0 ≡ a.0 + b.0)
checked_add_fits a b h = add_by_fits a b (dec_le (a.0 + b.0) largest_u32) h

pub checked_add_overflow : (a b : U32) → largest_u32 < a.0 + b.0 → checked_add a b ≡ none
checked_add_overflow a b h = add_by_overflow a b (dec_le (a.0 + b.0) largest_u32) h

abbrev pub host_u32 : BlockNumbers
host_u32 = record {
  BlockNumber = U32;
  value = λ b. b.0;
  max_value = largest_u32;
  u32_into = λ n. (min n largest_u32, min-le_largest n);
  one = (1, one_fits);
  checked_add = checked_add;
  value-le-max_value = λ b. b.1;
  value-u32_into = min_of_u32;
  value-one = refl;
  checked_add_fits = checked_add_fits;
  checked_add_overflow = checked_add_overflow;
}
