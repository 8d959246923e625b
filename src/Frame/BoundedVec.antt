-- ===== src/Frame/BoundedVec.antt =====
-- `BoundedVec` of sp_core: a vector of at most `bound` elements.
use swarm_robotics_parachain.Common.{
  ℕ, ◌≤◌, ◌<◌, ◌≡◌, Option, none, some, List, [], ◌∷◌, ◌++◌, length, get_elem?, erase_idx,
}

pub record BoundedVec (A : Type 0) (bound : ℕ) : Type 1 where
  pub Vec : Type 0
  pub elements : Vec → List A
  pub default : Vec
  -- `none` is `Err`: the vector is left as it was.
  pub try_push : Vec → A → Option Vec
  pub get : Vec → ℕ → Option A
  -- `none` is the panic of an index out of bounds.
  pub remove : Vec → ℕ → Option (A × Vec)
  pub elements-default : elements default ≡ []
  pub length-elements : (v : Vec) → length (elements v) ≤ bound
  pub try_push_full : (v : Vec) (a : A) → bound ≤ length (elements v) → try_push v a ≡ none
  pub try_push_fits :
      (v : Vec) (a : A)
      → length (elements v) < bound
      → (w : Vec) × (try_push v a ≡ some w) × (elements w ≡ elements v ++ a ∷ [])
  pub get_lem : (v : Vec) (i : ℕ) → get v i ≡ get_elem? (elements v) i
  pub remove_lem :
      (v : Vec) (i : ℕ) (a : A)
      → get_elem? (elements v) i ≡ some a
      → (w : Vec) × (remove v i ≡ some (a, w)) × (elements w ≡ erase_idx (elements v) i)
