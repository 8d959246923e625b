-- ===== src/Swarm/Delivery.antt =====
-- Robots that pull a filled queue, and commands on their way through it.
use swarm_robotics_parachain.Common.{
  ◌≤◌, ◌≡◌, refl, ◌∙◌, sym, ap, ap₂, List, [], ◌∷◌, ◌++◌, length, map, take, drop, List-cases, inl,
  inr, arith, All, append-nil, append_assoc,
}
use swarm_robotics_parachain.Frame.Dispatch.{ok}
use swarm_robotics_parachain.Swarm.Types.{Config, Command, command_pulled, Deps, State, Call, pulls}
use swarm_robotics_parachain.Swarm.{coordinate_of, dispatch, run, replies}
use swarm_robotics_parachain.Swarm.Branch.{
  queued, Outcome, Branch, unsigned, registered, full, enqueued, unknown, drained, pulled,
  dispatch-Branch,
}
use swarm_robotics_parachain.Swarm.Log.{
  IsLive, pallet_events, pulled_of, of_pulled, events-deposited, live-deposited,
}
use swarm_robotics_parachain.Swarm.Registry.{IsRegistered}

module _ {T : Config} (F : Deps T) where
  open F use {origins, robots, system}
  open origins use {RuntimeOrigin, AccountId, ensure_signed, signed}

  -- A pull by a robot, in a transaction that the account signed.
  abbrev pub pull_by : AccountId × T.RobotId → RuntimeOrigin × Call T
  pull_by (who, r) = (signed who, pulls r)

  abbrev pub AreRegistered : List (AccountId × T.RobotId) → State F → Type 0
  AreRegistered xs s = All (λ x. IsRegistered F x.1 s) xs

  -- What a pull does that finds the command `c` at the front.
  record Pulls (s : State F) (r : T.RobotId) (c : Command T) (rest : List (Command T))
      (o : Outcome F) : Type 0 where
    succeeds : o.0 ≡ ok tt
    live : IsLive F o.1
    left : queued F o.1 ≡ rest
    robots : o.1.registered_robots ≡ s.registered_robots
    events : pallet_events F o.1 ≡ pallet_events F s ++ command_pulled r c (coordinate_of c) ∷ []

  Branch-Pulls :
      {s : State F} {o : Outcome F} (who : AccountId) (r : T.RobotId) (c : Command T)
      (rest : List (Command T)) (k : Call T)
      → Branch F (signed who) s o k
      → k ≡ pulls r
      → IsLive F s
      → IsRegistered F r s
      → queued F s ≡ c ∷ rest
      → Pulls s r c rest o
  Branch-Pulls who r c rest k (unsigned e p) eq live known front =
      absurd (cc (origins.ensure_signed-signed who))
  Branch-Pulls who r c rest _ (registered j w e p) eq live known front = absurd (cc)
  Branch-Pulls who r c rest _ (full d w e n p) eq live known front = absurd (cc)
  Branch-Pulls who r c rest _ (enqueued d w v e n q p) eq live known front = absurd (cc)
  Branch-Pulls who r c rest _ (unknown j w e n p) eq live known front =
      let same : j ≡ r = ground arith in absurd (cc (n, rw (← same) at known))
  Branch-Pulls who r c rest _ (drained j w e n q p) eq live known front = absurd (cc (q, front))
  Branch-Pulls {s} who r c rest _ (pulled j w d v e n q p) eq live known front =
      let same : j ≡ r = ground arith in
      let first : d ≡ c = ground arith in
      let others : F.commands.elements v ≡ rest = ground arith in
      rw (p, same, first)
        (record {
          succeeds = refl;
          live = live-deposited F s (command_pulled r c (coordinate_of c)) live;
          left = others;
          robots = refl;
          events = events-deposited F s (command_pulled r c (coordinate_of c)) live;
        })

  dispatch-Pulls :
      (s : State F) (who : AccountId) (r : T.RobotId) (c : Command T) (rest : List (Command T))
      → IsLive F s
      → IsRegistered F r s
      → queued F s ≡ c ∷ rest
      → Pulls s r c rest (dispatch F (signed who) (pulls r) s)
  dispatch-Pulls s who r c rest live known front =
      Branch-Pulls who r c rest (pulls r) (dispatch-Branch F (signed who) (pulls r) s) refl live
        known front

  AreRegistered-eq :
      (s t : State F) (xs : List (AccountId × T.RobotId))
      → t.registered_robots ≡ s.registered_robots
      → AreRegistered xs s
      → AreRegistered xs t
  AreRegistered-eq s t [] e h = tt
  AreRegistered-eq s t (x ∷ xs) e h = (rw e h.0, AreRegistered-eq s t xs e h.1)

  -- Registered robots that pull no more often than there are commands are all served, whatever
  -- the order of the robots: every pull succeeds, the commands go out in the order of the queue,
  -- and the rest of the queue stays.
  pub run_pulls :
      (xs : List (AccountId × T.RobotId)) (s : State F)
      → IsLive F s
      → AreRegistered xs s
      → length xs ≤ length (queued F s)
      → let cs = map pull_by xs in
        All (λ r. r ≡ ok tt) (replies F cs s)
        × (queued F (run F cs s) ≡ drop (length xs) (queued F s))
        × (pulled_of (pallet_events F (run F cs s))
            ≡ pulled_of (pallet_events F s) ++ take (length xs) (queued F s))
  unfolding run replies
  run_pulls [] s live known enough = (tt, refl, sym (append-nil _))
  run_pulls ((who, r) ∷ xs) s live known enough = elim (List-cases (queued F s)) [
    | inl e ↦ absurd (omega (arith, ap length e))
    | inr (c, rest, front) ↦
        let one = dispatch-Pulls s who r c rest live known.0 front in
        let t : State F = (dispatch F (signed who) (pulls r) s).1 in
        let (oks, left, out) =
          run_pulls xs t one.live (AreRegistered-eq s t xs one.robots known.1)
            (omega (arith, ap length one.left, ap length front)) in
        rw front (
          (one.succeeds, oks),
          left ∙ ap (drop (length xs)) one.left,
          out
              ∙ ap₂ (λ l q. l ++ take (length xs) q)
                  (ap pulled_of one.events
                    ∙ (of_pulled (pallet_events F s) r c (coordinate_of c)).1)
                  one.left
              ∙ append_assoc (pulled_of (pallet_events F s)) (c ∷ []) (take (length xs) rest),
        )
  ]
