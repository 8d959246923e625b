-- ===== src/Swarm/Log.antt =====
-- The pallet's own events in the record of the block, and what a call adds to them.
use swarm_robotics_parachain.Common.{
  ◌≡◌, refl, ◌∙◌, ap, true, false, Option, List, [], ◌∷◌, ◌++◌, append-nil, filter_map,
  filter_map-append,
}
use swarm_robotics_parachain.Swarm.Types.{
  Config, Command, Event, command_enqueued, command_pulled, Deps, State, Call,
}
use swarm_robotics_parachain.Swarm.{coordinate_of, dispatch}
use swarm_robotics_parachain.Swarm.Branch.{
  queued, deposited, Outcome, Branch, unsigned, registered, full, enqueued, unknown, drained,
  pulled, dispatch-Branch,
}

module _ {T : Config} where
  -- The commands that a list of events reports as enqueued.
  pub enqueued_of : List (Event T) → List (Command T)
  enqueued_of [] = []
  enqueued_of (command_enqueued c ∷ es) = c ∷ enqueued_of es
  enqueued_of (command_pulled r c l ∷ es) = enqueued_of es

  -- The commands that a list of events reports as pulled.
  pub pulled_of : List (Event T) → List (Command T)
  pulled_of [] = []
  pulled_of (command_enqueued c ∷ es) = pulled_of es
  pulled_of (command_pulled r c l ∷ es) = c ∷ pulled_of es

  pub enqueued_of-append :
      (xs ys : List (Event T)) → enqueued_of (xs ++ ys) ≡ enqueued_of xs ++ enqueued_of ys
  unfolding enqueued_of
  enqueued_of-append [] ys = refl
  enqueued_of-append (command_enqueued c ∷ xs) ys = ap (◌∷◌ c) (enqueued_of-append xs ys)
  enqueued_of-append (command_pulled r c l ∷ xs) ys = enqueued_of-append xs ys

  pub pulled_of-append :
      (xs ys : List (Event T)) → pulled_of (xs ++ ys) ≡ pulled_of xs ++ pulled_of ys
  unfolding pulled_of
  pulled_of-append [] ys = refl
  pulled_of-append (command_enqueued c ∷ xs) ys = pulled_of-append xs ys
  pulled_of-append (command_pulled r c l ∷ xs) ys = ap (◌∷◌ c) (pulled_of-append xs ys)

  pub enqueued_of-nil : enqueued_of [] ≡ []
  unfolding enqueued_of
  enqueued_of-nil = refl

  pub pulled_of-nil : pulled_of [] ≡ []
  unfolding pulled_of
  pulled_of-nil = refl

  pub of_enqueued :
      (es : List (Event T)) (c : Command T)
      → (enqueued_of (es ++ command_enqueued c ∷ []) ≡ enqueued_of es ++ c ∷ [])
        × (pulled_of (es ++ command_enqueued c ∷ []) ≡ pulled_of es)
  unfolding enqueued_of pulled_of
  of_enqueued es c = (
    enqueued_of-append es (command_enqueued c ∷ []),
    pulled_of-append es (command_enqueued c ∷ []) ∙ append-nil (pulled_of es),
  )

  pub of_pulled :
      (es : List (Event T)) (r : T.RobotId) (c : Command T) (l : Option T.Location)
      → (enqueued_of (es ++ command_pulled r c l ∷ []) ≡ enqueued_of es)
        × (pulled_of (es ++ command_pulled r c l ∷ []) ≡ pulled_of es ++ c ∷ [])
  unfolding enqueued_of pulled_of
  of_pulled es r c l = (
    enqueued_of-append es (command_pulled r c l ∷ []) ∙ append-nil (enqueued_of es),
    pulled_of-append es (command_pulled r c l ∷ []),
  )

module _ {T : Config} (F : Deps T) where
  open F use {system, origins}
  open origins use {RuntimeOrigin}

  -- The block is not the genesis block, so that events are kept.
  abbrev pub IsLive : State F → Type 0
  IsLive s = system.is_genesis s.system ≡ false

  -- The pallet's events of the block, oldest first.
  abbrev pub pallet_events : State F → List (Event T)
  pallet_events s = filter_map F.as_event (system.events s.system)

  pub events-deposited :
      (s : State F) (e : Event T)
      → IsLive s
      → filter_map F.as_event (system.events (deposited F s e)) ≡ pallet_events s ++ e ∷ []
  events-deposited s e live = rw (
    system.events-deposit_event s.system (F.from_event e) live,
    filter_map-append F.as_event (system.events s.system) (F.from_event e ∷ []),
    F.as_event-from_event e,
  )

  pub live-deposited :
      (s : State F) (e : Event T) → IsLive s → system.is_genesis (deposited F s e) ≡ false
  live-deposited s e live = system.is_genesis-deposit_event s.system (F.from_event e) ∙ live

  -- What a call does, as far as the queue and the pallet's events show.
  pub data Effect (s t : State F) : Type 0 where
    quiet : queued F t ≡ queued F s → pallet_events t ≡ pallet_events s → Effect s t
    grows :
        (c : Command T)
        → queued F t ≡ queued F s ++ c ∷ []
        → pallet_events t ≡ pallet_events s ++ command_enqueued c ∷ []
        → Effect s t
    shrinks :
        (r : T.RobotId) (c : Command T)
        → F.robots.contains_key t.registered_robots r ≡ true
        → queued F s ≡ c ∷ queued F t
        → pallet_events t ≡ pallet_events s ++ command_pulled r c (coordinate_of c) ∷ []
        → Effect s t

  Branch-Effect :
      {origin : RuntimeOrigin} {s : State F} {o : Outcome F} (c : Call T)
      → Branch F origin s o c
      → IsLive s
      → Effect s o.1 × IsLive o.1
  Branch-Effect c (unsigned e p) live = rw p (quiet refl refl, live)
  Branch-Effect _ (registered r w e p) live = rw p (quiet refl refl, live)
  Branch-Effect _ (full d w e n p) live = rw p (quiet refl refl, live)
  Branch-Effect {s} _ (enqueued d w v e n q p) live = rw p (
    grows d q (events-deposited s (command_enqueued d) live),
    live-deposited s (command_enqueued d) live,
  )
  Branch-Effect _ (unknown r w e n p) live = rw p (quiet refl refl, live)
  Branch-Effect _ (drained r w e n q p) live = rw p (quiet refl refl, live)
  Branch-Effect {s} _ (pulled r w d v e n q p) live =
      let event : Event T = command_pulled r d (coordinate_of d) in
      rw p (shrinks r d n q (events-deposited s event live), live-deposited s event live)

  pub dispatch-Effect :
      (origin : RuntimeOrigin) (c : Call T) (s : State F)
      → IsLive s
      → Effect s (dispatch F origin c s).1 × IsLive (dispatch F origin c s).1
  dispatch-Effect origin c s live = Branch-Effect c (dispatch-Branch F origin c s) live
