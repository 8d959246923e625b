-- ===== src/Swarm/Fifo.antt =====
-- The queue over any sequence of calls: what goes in, in which order it comes out, and what the
-- events say of it.
use swarm_robotics_parachain.Common.{
  ◌≡◌, ◌∙◌, ap, sym, ◌↔◌, true, some, List, [], ◌∷◌, ◌++◌, append-nil, append_assoc, arith, All,
  All-append, All-mono, some,
}
use swarm_robotics_parachain.Swarm.Types.{
  Config, Command, go_to_location, perform_task, halt, wait_for_command, Event, command_enqueued,
  command_pulled, Deps, State, Call,
}
use swarm_robotics_parachain.Swarm.{coordinate_of, dispatch, run}
use swarm_robotics_parachain.Swarm.Branch.{queued}
use swarm_robotics_parachain.Swarm.Registry.{IsRegistered, dispatch-IsRegistered}
use swarm_robotics_parachain.Swarm.Log.{
  IsLive, pallet_events, enqueued_of, pulled_of, of_enqueued, of_pulled, enqueued_of-nil,
  pulled_of-nil, Effect, quiet, grows, shrinks, dispatch-Effect,
}

append_both :
    {A : Type 0} (q e p r : List A) (c : A)
    → q ++ e ≡ p ++ r
    → q ++ (e ++ c ∷ []) ≡ p ++ (r ++ c ∷ [])
append_both q e p r c h =
    sym (append_assoc q e (c ∷ [])) ∙ ap (λ l. l ++ c ∷ []) h ∙ append_assoc p r (c ∷ [])

module _ {T : Config} (F : Deps T) where
  open F use {system, origins, robots}
  open origins use {RuntimeOrigin}

  -- From a queue `q`, the events up to `s` account for what is in the queue now.
  abbrev Accounts : List (Command T) → State F → Type 0
  Accounts q s = q ++ enqueued_of (pallet_events F s) ≡ pulled_of (pallet_events F s) ++ queued F s

  Effect-Accounts :
      (q : List (Command T)) (s t : State F) → Effect F s t → Accounts q s → Accounts q t
  Effect-Accounts q s t (quiet a b) h = rw (a, b) h
  Effect-Accounts q s t (grows c a b) h =
      let (e, p) = of_enqueued (pallet_events F s) c in
      rw (a, b, e, p) (append_both q _ (pulled_of (pallet_events F s)) (queued F s) c h)
  Effect-Accounts q s t (shrinks r c _ a b) h =
      let (e, p) = of_pulled (pallet_events F s) r c (coordinate_of c) in
      rw (b, e, p)
        (h ∙ ap (◌++◌ (pulled_of (pallet_events F s))) a ∙ sym (append_assoc _ (c ∷ []) _))

  run-Accounts :
      (q : List (Command T)) (cs : List (RuntimeOrigin × Call T)) (s : State F)
      → IsLive F s
      → Accounts q s
      → Accounts q (run F cs s)
  unfolding run
  run-Accounts q [] s live h = h
  run-Accounts q ((origin, c) ∷ cs) s live h =
      let (e, live') = dispatch-Effect F origin c s live in
      run-Accounts q cs (dispatch F origin c s).1 live' (Effect-Accounts q s _ e h)

  -- First in, first out, with nothing lost, added or reordered: after any calls from any origins,
  -- in a block that had no event of the pallet before them, the commands that were queued at the
  -- start, followed by those reported as enqueued, are those reported as pulled, followed by
  -- those in the queue.
  pub run_fifo :
      (cs : List (RuntimeOrigin × Call T)) (s : State F)
      → IsLive F s
      → pallet_events F s ≡ []
      → queued F s ++ enqueued_of (pallet_events F (run F cs s))
        ≡ pulled_of (pallet_events F (run F cs s)) ++ queued F (run F cs s)
  run_fifo cs s live none_yet =
      run-Accounts (queued F s) cs s live
        (rw (none_yet, enqueued_of-nil, pulled_of-nil) (append-nil (queued F s)))

  -- The robot of a pull is registered, and the location beside its command is the one to go to.
  abbrev pub IsTruthful : State F → Event T → Type 0
  IsTruthful s (command_enqueued c) = Unit {0}
  IsTruthful s (command_pulled r c l) =
      (robots.contains_key s.registered_robots r ≡ true)
      × ((p : T.Location) → (l ≡ some p) ↔ (c ≡ go_to_location p))

  coordinate_of_iff :
      (c : Command T) (p : T.Location) → (coordinate_of c ≡ some p) ↔ (c ≡ go_to_location p)
  unfolding coordinate_of
  coordinate_of_iff (go_to_location x) p = (λ h. ground arith, λ h. ground arith)
  coordinate_of_iff (perform_task x) p = (λ h. ground arith, λ h. ground arith)
  coordinate_of_iff halt p = (λ h. ground arith, λ h. ground arith)
  coordinate_of_iff wait_for_command p = (λ h. ground arith, λ h. ground arith)

  IsTruthful-mono :
      (s t : State F)
      → ((r : T.RobotId) → IsRegistered F r s → IsRegistered F r t)
      → (e : Event T) → IsTruthful s e
      → IsTruthful t e
  IsTruthful-mono s t keeps (command_enqueued c) h = tt
  IsTruthful-mono s t keeps (command_pulled r c l) h = (keeps r h.0, h.1)

  Effect-IsTruthful :
      (s t : State F)
      → ((r : T.RobotId) → IsRegistered F r s → IsRegistered F r t)
      → Effect F s t
      → All (IsTruthful s) (pallet_events F s)
      → All (IsTruthful t) (pallet_events F t)
  Effect-IsTruthful s t keeps e h =
      let old : All (IsTruthful t) (pallet_events F s) =
        All-mono _ _ (pallet_events F s) (IsTruthful-mono s t keeps) h in
      elim e [
        | quiet a b ↦ rw b old
        | grows c a b ↦ rw b (All-append _ (pallet_events F s) _ old (tt, tt))
        | shrinks r c known a b ↦
            rw b (All-append _ (pallet_events F s) _ old ((known, coordinate_of_iff c), tt))
      ]

  run_onwards-IsTruthful :
      (cs : List (RuntimeOrigin × Call T)) (s : State F)
      → IsLive F s
      → All (IsTruthful s) (pallet_events F s)
      → All (IsTruthful (run F cs s)) (pallet_events F (run F cs s))
  unfolding run
  run_onwards-IsTruthful [] s live h = h
  run_onwards-IsTruthful ((origin, c) ∷ cs) s live h =
      let (e, live') = dispatch-Effect F origin c s live in
      run_onwards-IsTruthful cs (dispatch F origin c s).1 live'
        (Effect-IsTruthful s _ (λ r. dispatch-IsRegistered F r origin c s) e h)

  -- Every pull that the block reports, after any calls in a block that had no event of the pallet
  -- before them, is by a registered robot, and carries a location exactly when the command is to go
  -- to it.
  pub run-IsTruthful :
      (cs : List (RuntimeOrigin × Call T)) (s : State F)
      → IsLive F s
      → pallet_events F s ≡ []
      → All (IsTruthful (run F cs s)) (pallet_events F (run F cs s))
  run-IsTruthful cs s live none_yet = run_onwards-IsTruthful cs s live (rw none_yet tt)
