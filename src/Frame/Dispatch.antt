-- ===== src/Frame/Dispatch.antt =====
-- A dispatchable function reads and writes the storage, and returns `Ok`, returns an error through
-- `?`, or panics. What was written before the error stays written: nothing is rolled back here.
use swarm_robotics_parachain.Common.{Bool, true, false, Option, none, some}

-- `DispatchError`: `BadOrigin`, or an error of the pallet.
pub data DispatchError (E : Type 0) : Type 0 where
  bad_origin : DispatchError E
  module_error : E → DispatchError E

pub data Result (E A : Type 0) : Type 0 where
  ok : A → Result E A
  err : DispatchError E → Result E A
  panic : Result E A

abbrev pub Dispatch : Type 0 → Type 0 → Type 0 → Type 0
Dispatch S E A = S → Result E A × S

module _ {S E A B : Type 0} where
  abbrev pub continue : Result E A → (A → Dispatch S E B) → Dispatch S E B
  continue (ok a) f s = f a s
  continue (err e) f s = (err e, s)
  continue panic f s = (panic, s)

  infixl 10 ◌>>=◌ ◌>>◌
  abbrev pub ◌>>=◌ : Dispatch S E A → (A → Dispatch S E B) → Dispatch S E B
  ◌>>=◌ m f s = let (r, s') = m s in continue r f s'

  abbrev pub ◌>>◌ : Dispatch S E A → Dispatch S E B → Dispatch S E B
  m >> n = m >>= λ _. n

module _ {S E A : Type 0} where
  abbrev pub pure : A → Dispatch S E A
  pure a s = (ok a, s)

  abbrev pub gets : (S → A) → Dispatch S E A
  gets f s = (ok (f s), s)

  -- `Option::ok_or(e)?`
  abbrev pub ok_or : Option A → DispatchError E → Dispatch S E A
  ok_or none e s = (err e, s)
  ok_or (some a) e s = (ok a, s)

  -- A call that panics when it returns nothing.
  abbrev pub or_panic : Option A → Dispatch S E A
  or_panic none s = (panic, s)
  or_panic (some a) s = (ok a, s)

module _ {S E : Type 0} where
  abbrev pub modify : (S → S) → Dispatch S E (Unit {0})
  modify f s = (ok tt, f s)

  -- `ensure!(test, error)`
  abbrev pub ensure : Bool → DispatchError E → Dispatch S E (Unit {0})
  ensure true e s = (ok tt, s)
  ensure false e s = (err e, s)
