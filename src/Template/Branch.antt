-- ===== src/Template/Branch.antt =====
-- Which branch a call of the template pallet takes, and what it does there.
use swarm_robotics_parachain.Common.{
  ℕ, ◌+◌, ◌≤◌, ◌<◌, ◌≡◌, inl, inr, none, some, Option-cases, arith, dec_le,
}
use swarm_robotics_parachain.Frame.Dispatch.{Result, bad_origin, module_error, ok, err}
use swarm_robotics_parachain.Template.Types.{
  CompositeStruct, Error, none_value, storage_overflow, something_stored, Deps, State, Call,
  does_something, causes_error,
}
use swarm_robotics_parachain.Template.{do_something, cause_error, dispatch}

module _ (F : Deps) where
  open F use {numbers, origins, system, from_event}
  open origins use {RuntimeOrigin, AccountId, ensure_signed}

  abbrev pub Outcome : Type 0
  Outcome = Result Error (Unit {0}) × State F

  pub data Branch (origin : RuntimeOrigin) (s : State F) (o : Outcome) : Call → Type 0 where
    unsigned :
        {c : Call} → ensure_signed origin ≡ none → o ≡ (err bad_origin, s) → Branch origin s o c
    stored :
        (bn : ℕ) (who : AccountId)
        → ensure_signed origin ≡ some who
        → o ≡ (
          ok tt,
          record {
            something = some (record { block_number = numbers.u32_into bn });
            system =
                system.deposit_event s.system
                  (from_event (something_stored (numbers.u32_into bn) who));
          },
        )
        → Branch origin s o (does_something bn)
    nothing :
        (who : AccountId)
        → ensure_signed origin ≡ some who
        → s.something ≡ none
        → o ≡ (err (module_error none_value), s)
        → Branch origin s o causes_error
    overflow :
        (who : AccountId) (old : CompositeStruct numbers)
        → ensure_signed origin ≡ some who
        → s.something ≡ some old
        → numbers.max_value ≤ numbers.value old.block_number
        → o ≡ (err (module_error storage_overflow), s)
        → Branch origin s o causes_error
    bumped :
        (who : AccountId) (old new : CompositeStruct numbers)
        → ensure_signed origin ≡ some who
        → s.something ≡ some old
        → numbers.value old.block_number < numbers.max_value
        → numbers.value new.block_number ≡ numbers.value old.block_number + 1
        → o ≡ (ok tt, record s { something = some new })
        → Branch origin s o causes_error

  do_something-Branch :
      (origin : RuntimeOrigin) (bn : ℕ) (s : State F)
      → Branch origin s (do_something F origin bn s) (does_something bn)
  unfolding do_something
  do_something-Branch origin bn s = elim (Option-cases (ensure_signed origin)) [
    | inl e ↦ unsigned e (rw e)
    | inr (who, e) ↦ stored bn who e (rw e)
  ]

  cause_error-Branch :
      (origin : RuntimeOrigin) (s : State F) → Branch origin s (cause_error F origin s) causes_error
  unfolding cause_error
  cause_error-Branch origin s = elim (Option-cases (ensure_signed origin)) [
    | inl e ↦ unsigned e (rw e)
    | inr (who, e) ↦ elim (Option-cases s.something) [
      | inl n ↦ nothing who e n (ground arith)
      | inr (old, f) ↦
          elim (dec_le (numbers.value old.block_number + numbers.value numbers.one)
            numbers.max_value) [
              | yes fits ↦
                  let (b, c, v) = numbers.checked_add_fits old.block_number numbers.one fits in
                  bumped who old (record { block_number = b }) e f
                    (omega (arith, numbers.value-one)) (omega (arith, v, numbers.value-one))
                    (ground arith)
              | no big ↦
                  let c = numbers.checked_add_overflow old.block_number numbers.one (omega arith) in
                  overflow who old e f (omega (arith, numbers.value-one)) (ground arith)
            ]
    ]
  ]

  -- Every call from every origin takes one of the branches; none panics.
  pub dispatch-Branch :
      (origin : RuntimeOrigin) (call : Call) (s : State F)
      → Branch origin s (dispatch F origin call s) call
  unfolding dispatch
  dispatch-Branch origin (does_something bn) s = do_something-Branch origin bn s
  dispatch-Branch origin causes_error s = cause_error-Branch origin s
