-- ===== src/Template/Counter.antt =====
-- The stored block number as a counter that stops at the largest block number.
use swarm_robotics_parachain.Common.{
  ℕ, ◌+◌, ◌^◌, ◌<◌, min, ◌≡◌, ◌≢◌, refl, ◌∙◌, ap, if◌then◌else◌, Option, none, some, arith, List,
  [], ◌∷◌, All, ltb,
}
use mathlib.Core.Option
use swarm_robotics_parachain.Frame.Dispatch.{Result, module_error, ok, err, panic}
use swarm_robotics_parachain.Template.Types.{
  Error, none_value, storage_overflow, Deps, State, Call, does_something, causes_error,
}
use swarm_robotics_parachain.Template.{dispatch, run}
use swarm_robotics_parachain.Template.Branch.{
  Outcome, Branch, unsigned, stored, nothing, overflow, bumped, dispatch-Branch,
}

module _ (F : Deps) where
  open F use {numbers, origins, system}
  open origins use {RuntimeOrigin, AccountId, ensure_signed, signed}

  Branch-noop :
      {origin : RuntimeOrigin} {s : State F} {o : Outcome F} (c : Call)
      → Branch F origin s o c
      → o.0 ≢ ok tt
      → (o.1 ≡ s) × (o.0 ≢ panic)
  Branch-noop c (unsigned e p) h = ground arith
  Branch-noop _ (stored bn w e p) h = ground arith
  Branch-noop _ (nothing w e n p) h = ground arith
  Branch-noop _ (overflow w old e n m p) h = ground arith
  Branch-noop _ (bumped w old new e f m v p) h = ground arith

  -- A call of the template pallet that does not return `Ok` returns an error, not a panic, and
  -- leaves the storage as it was, events included.
  pub template_noop :
      (origin : RuntimeOrigin) (c : Call) (s : State F)
      → (dispatch F origin c s).0 ≢ ok tt
      → ((dispatch F origin c s).1 ≡ s) × ((dispatch F origin c s).0 ≢ panic)
  template_noop origin c s h = Branch-noop c (dispatch-Branch F origin c s) h

  -- The stored number, if there is one.
  abbrev pub counter : State F → Option ℕ
  counter s = Option.map (λ v. numbers.value v.block_number) s.something

  -- What a call is to make of the counter.
  abbrev pub bump : Option ℕ → Option ℕ
  bump none = none
  bump (some n) = some (min (n + 1) numbers.max_value)

  abbrev pub counted : Option AccountId → Call → Option ℕ → Option ℕ
  counted none c n = n
  counted (some who) (does_something bn) n = some bn
  counted (some who) causes_error n = bump n

  abbrev pub counted_all : List (RuntimeOrigin × Call) → Option ℕ → Option ℕ
  counted_all [] n = n
  counted_all ((origin, c) ∷ cs) n = counted_all cs (counted (ensure_signed origin) c n)

  -- The argument of `do_something` is a u32.
  abbrev pub IsU32 : RuntimeOrigin × Call → Type 0
  IsU32 (origin, does_something bn) = bn < 2 ^ 32
  IsU32 (origin, causes_error) = Unit {0}

  pub Branch-counter :
      {origin : RuntimeOrigin} {s : State F} {o : Outcome F} (c : Call)
      → Branch F origin s o c
      → IsU32 (origin, c)
      → counter o.1 ≡ counted (ensure_signed origin) c (counter s)
  Branch-counter c (unsigned e p) h = rw (e, p) refl
  Branch-counter _ (stored bn w e p) h = rw (e, p) (ap some (numbers.value-u32_into bn h))
  Branch-counter _ (nothing w e n p) h = rw (e, p, n) refl
  Branch-counter _ (overflow w old e n m p) h =
      rw (e, p) (rw n (ap some (omega (arith, numbers.value-le-max_value old.block_number))))
  Branch-counter _ (bumped w old new e f m v p) h = rw (e, p, f) (ap some (omega arith))

  -- Any calls from any origins make of the stored number what they make of a counter that a signed
  -- `do_something` sets and a signed `cause_error` raises by one, up to the largest block number,
  -- if it was set; no other call changes it.
  pub counter-run :
      (cs : List (RuntimeOrigin × Call)) (s : State F)
      → All IsU32 cs
      → counter (run F cs s) ≡ counted_all cs (counter s)
  unfolding run
  counter-run [] s h = refl
  counter-run ((origin, c) ∷ cs) s h =
      counter-run cs _ h.1
      ∙ ap (counted_all cs) (Branch-counter c (dispatch-Branch F origin c s) h.0)

  -- What a signed `cause_error` is to return.
  abbrev pub reply_at : Option ℕ → Result Error (Unit {0})
  reply_at none = err (module_error none_value)
  reply_at (some n) = if ltb n numbers.max_value then ok tt else err (module_error storage_overflow)

  Branch-reply :
      {s : State F} {o : Outcome F} (who : AccountId) (c : Call)
      → Branch F (signed who) s o c
      → c ≡ causes_error
      → o.0 ≡ reply_at (counter s)
  Branch-reply who c (unsigned e p) eq = absurd (cc (origins.ensure_signed-signed who))
  Branch-reply who _ (stored bn w e p) eq = cc
  Branch-reply who _ (nothing w e n p) eq = rw (p, n) refl
  Branch-reply who _ (overflow w old e n m p) eq = rw (p, n) (ground arith)
  Branch-reply who _ (bumped w old new e f m v p) eq = rw (p, f) (ground arith)

  -- A signed `cause_error` fails with `NoneValue` exactly where nothing is stored, with
  -- `StorageOverflow` exactly at the largest block number, and succeeds otherwise.
  pub cause_error_reply :
      (who : AccountId) (s : State F)
      → (dispatch F (signed who) causes_error s).0 ≡ reply_at (counter s)
  cause_error_reply who s =
      Branch-reply who causes_error (dispatch-Branch F (signed who) causes_error s) refl
