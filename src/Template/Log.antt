-- ===== src/Template/Log.antt =====
-- The events of the template pallet.
use swarm_robotics_parachain.Common.{
  ◌≡◌, ◌∙◌, sym, ap, false, Option, none, some, List, [], ◌∷◌, ◌++◌, append-nil, append_assoc,
  filter_map, filter_map-append,
}
use swarm_robotics_parachain.Template.Types.{
  Event, something_stored, Deps, State, Call, does_something, causes_error,
}
use swarm_robotics_parachain.Template.{run}
use swarm_robotics_parachain.Template.Branch.{
  Outcome, Branch, unsigned, stored, nothing, overflow, bumped, dispatch-Branch,
}

module _ (F : Deps) where
  open F use {numbers, origins, system}
  open origins use {RuntimeOrigin, AccountId, ensure_signed}

  abbrev pub IsLive : State F → Type 0
  IsLive s = system.is_genesis s.system ≡ false

  abbrev pub pallet_events : State F → List (Event numbers origins)
  pallet_events s = filter_map F.as_event (system.events s.system)

  abbrev pub report : Option AccountId → Call → List (Event numbers origins)
  report none c = []
  report (some who) (does_something bn) = something_stored (numbers.u32_into bn) who ∷ []
  report (some who) causes_error = []

  -- One event for each signed `do_something`, with its number and its signer.
  abbrev pub reports : List (RuntimeOrigin × Call) → List (Event numbers origins)
  reports [] = []
  reports ((origin, c) ∷ cs) = report (ensure_signed origin) c ++ reports cs

  Branch-report :
      {origin : RuntimeOrigin} {s : State F} {o : Outcome F} (c : Call)
      → Branch F origin s o c
      → IsLive s
      → IsLive o.1 × (pallet_events o.1 ≡ pallet_events s ++ report (ensure_signed origin) c)
  Branch-report c (unsigned e p) live = rw (e, p) (live, sym (append-nil _))
  Branch-report {s} _ (stored bn w e p) live =
      let event : Event numbers origins = something_stored (numbers.u32_into bn) w in
      rw (e, p)
        (
          system.is_genesis-deposit_event s.system (F.from_event event) ∙ live,
          rw (
            system.events-deposit_event s.system (F.from_event event) live,
            filter_map-append F.as_event (system.events s.system) (F.from_event event ∷ []),
            F.as_event-from_event event,
          ),
        )
  Branch-report _ (nothing w e n p) live = rw (e, p) (live, sym (append-nil _))
  Branch-report _ (overflow w old e n m p) live = rw (e, p) (live, sym (append-nil _))
  Branch-report _ (bumped w old new e f m v p) live = rw (e, p) (live, sym (append-nil _))

  -- Outside the genesis block the pallet's events are, after any calls, those that were there,
  -- followed by one `SomethingStored` for each signed `do_something`, in order, with its number
  -- and its signer, and no other.
  pub run-reports :
      (cs : List (RuntimeOrigin × Call)) (s : State F)
      → IsLive s
      → pallet_events (run F cs s) ≡ pallet_events s ++ reports cs
  unfolding run
  run-reports [] s live = sym (append-nil _)
  run-reports ((origin, c) ∷ cs) s live =
      let (live', new) = Branch-report c (dispatch-Branch F origin c s) live in
      run-reports cs _ live'
      ∙ ap (λ l. l ++ reports cs) new
      ∙ append_assoc (pallet_events s) (report (ensure_signed origin) c) (reports cs)
