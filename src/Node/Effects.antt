-- ===== src/Node/Effects.antt =====
-- How the node runs: a step fails, panics or returns a value, and leaves a record of the calls that
-- it made of the crates around it. What such a call returns is a function of the calls before it;
-- `E ⊎ A` is its `Result`.
pub mod Ends
pub mod Laws
pub mod Lift
use swarm_robotics_parachain.Common.{
  Bool, true, false, Option, none, some, List, [], ◌∷◌, ◌++◌, map, ◌⊎◌, inl, inr,
}

pub data Outcome (E A : Type 0) : Type 0 where
  done : A → Outcome E A
  failed : E → Outcome E A
  panicked : Outcome E A

-- The calls made so far, in order, go in and come out.
pub data Io (C E A : Type 0) : Type 0 where
  io : (List C → Outcome E A × List C) → Io C E A

module _ {C E A : Type 0} where
  abbrev pub run : Io C E A → List C → Outcome E A × List C
  run (io f) = f

module _ {C E A B : Type 0} where
  abbrev pub continue : Outcome E A → (A → Io C E B) → List C → Outcome E B × List C
  continue (done a) f h = run (f a) h
  continue (failed e) f h = (failed e, h)
  continue panicked f h = (panicked, h)

  infixl 10 ◌>>=◌ ◌>>◌
  unfoldable pub ◌>>=◌ : Io C E A → (A → Io C E B) → Io C E B
  m >>= f = io (λ h. continue (run m h).0 f (run m h).1)

  abbrev pub ◌>>◌ : Io C E A → Io C E B → Io C E B
  m >> n = m >>= λ _. n

module _ {E A : Type 0} where
  abbrev pub outcome : E ⊎ A → Outcome E A
  outcome (inl e) = failed e
  outcome (inr a) = done a

module _ {C E A : Type 0} where
  unfoldable pub pure : A → Io C E A
  pure a = io (λ h. (done a, h))

  -- A call, and what it returns after the calls before it.
  unfoldable pub call : C → (List C → E ⊎ A) → Io C E A
  call c answer = io (λ h. (outcome (answer h), h ++ (c ∷ [])))

  -- `Option::expect`
  unfoldable pub expect : Option A → Io C E A
  expect none = io (λ h. (panicked, h))
  expect (some a) = io (λ h. (done a, h))

  unfoldable pub fail : E → Io C E A
  fail e = io (λ h. (failed e, h))

  -- `Option::ok_or(e)?`
  unfoldable pub ok_or : Option A → E → Io C E A
  ok_or none e = io (λ h. (failed e, h))
  ok_or (some a) e = io (λ h. (done a, h))

module _ {C E : Type 0} where
  -- A call that returns nothing and does not fail.
  unfoldable pub notify : C → Io C E (Unit {0})
  notify c = io (λ h. (done tt, h ++ (c ∷ [])))

  unfoldable pub when : Bool → Io C E (Unit {0}) → Io C E (Unit {0})
  unfolding pure
  when true m = m
  when false m = pure tt

-- A run of a part of the program within the whole, with its calls and its errors as the whole has
-- them.
module _ {E E' A : Type 0} where
  abbrev pub map_error : (E → E') → Outcome E A → Outcome E' A
  map_error k (done a) = done a
  map_error k (failed e) = failed (k e)
  map_error k panicked = panicked

module _ {C D E E' A : Type 0} where
  unfoldable pub lift : (D → C) → (E → E') → Io D E A → Io C E' A
  lift g k m = io (λ h. (map_error k (run m []).0, h ++ map g (run m []).1))
