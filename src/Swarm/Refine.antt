-- ===== src/Swarm/Refine.antt =====
-- The pallet against its specification.
use swarm_robotics_parachain.Common.{
  ℕ, ◌≤◌, ◌<◌, ◌≡◌, refl, ◌∙◌, sym, ap, ap₂, Bool, true, false, Option, none, some, List, [], ◌∷◌,
  ◌++◌, length, map, arith, ltb,
}
use swarm_robotics_parachain.Frame.Dispatch.{Result}
use swarm_robotics_parachain.Swarm.Types.{
  Config, Command, go_to_location, perform_task, halt, wait_for_command, Error, command_enqueued,
  command_pulled, Deps, State, Call,
}
use swarm_robotics_parachain.Swarm.{coordinate_of, dispatch, run, replies}
use swarm_robotics_parachain.Swarm.Branch.{
  queued, Outcome, Branch, unsigned, registered, full, enqueued, unknown, drained, pulled,
  dispatch-Branch,
}
use swarm_robotics_parachain.Swarm.Log.{IsLive, pallet_events, events-deposited, live-deposited}
use swarm_robotics_parachain.Swarm.Spec
use swarm_robotics_parachain.Swarm.Spec.{Swarm, is_member, destination}

destination-eq : {T : Config} (c : Command T) → coordinate_of c ≡ destination c
unfolding coordinate_of
destination-eq (go_to_location x) = refl
destination-eq (perform_task x) = refl
destination-eq halt = refl
destination-eq wait_for_command = refl

lt→ltb : {a b : ℕ} → a < b → ltb a b ≡ true
lt→ltb h = ground arith

not_ltb : {a b : ℕ} → b ≤ a → ltb a b ≡ false
not_ltb h = ground arith

module _ {T : Config} (F : Deps T) where
  open F use {origins, robots, system}
  open origins use {RuntimeOrigin, ensure_signed}

  abbrev is_some : {A : Type 0} → Option A → Bool
  is_some none = false
  is_some (some a) = true

  -- A call as the specification sees it.
  abbrev pub seen : RuntimeOrigin × Call T → Bool × Call T
  seen (origin, c) = (is_some (ensure_signed origin), c)

  pub record Refines (s : State F) (a : Swarm T) : Type 0 where
    pub live : IsLive F s
    pub queue : queued F s ≡ a.queue
    pub robots :
        (r : T.RobotId)
        → F.robots.contains_key s.registered_robots r ≡ is_member T.robot_id_eq r a.robots
    pub log : pallet_events F s ≡ a.log

  -- One call, in outcome `o`, and what the specification makes of it.
  abbrev pub Agrees : Outcome F → Result Error (Unit {0}) × Swarm T → Type 0
  Agrees o b = (o.0 ≡ b.0) × Refines o.1 b.1

  insert-is_member :
      (s : State F) (a : Swarm T) (j : T.RobotId)
      → Refines s a
      → (r : T.RobotId)
      → F.robots.contains_key (F.robots.insert s.registered_robots j tt) r
        ≡ is_member T.robot_id_eq r (j ∷ a.robots)
  insert-is_member s a j h r =
      elim (T.robot_id_eq j r)
        as (λ d.
          F.robots.contains_key (F.robots.insert s.registered_robots j tt) r
          ≡ elim d [ yes e ↦ true | no ne ↦ is_member T.robot_id_eq r a.robots ]) [
            | yes e ↦ rw e (F.robots.contains_key-insert_self s.registered_robots r tt)
            | no ne ↦ F.robots.contains_key-insert_ne s.registered_robots j r tt ne ∙ h.robots r
          ]

  Branch-Agrees :
      {origin : RuntimeOrigin} {s : State F} {o : Outcome F} (a : Swarm T) (c : Call T)
      → Branch F origin s o c
      → Refines s a
      → Agrees o (Spec.step (seen (origin, c)) a)
  unfolding Spec.step
  Branch-Agrees a c (unsigned e p) h = rw (e, p) (refl, h)
  Branch-Agrees {s} a _ (registered r w e p) h =
      rw (e, p)
        (
          refl,
          record { live = h.live; queue = h.queue; robots = insert-is_member s a r h; log = h.log },
        )
  Branch-Agrees {s} a _ (full d w e n p) h =
      let many : T.max_global_commands ≤ length a.queue = rw h.queue at n in
      rw (e, p, not_ltb many) (refl, h)
  Branch-Agrees {s} a _ (enqueued d w v e n q p) h =
      let fits : length a.queue < T.max_global_commands = rw h.queue at n in
      rw (e, p, lt→ltb fits)
        (
          refl,
          record {
            live = live-deposited F s (command_enqueued d) h.live;
            queue = q ∙ ap (λ l. l ++ d ∷ []) h.queue;
            robots = h.robots;
            log =
                events-deposited F s (command_enqueued d) h.live
                ∙ ap (λ l. l ++ command_enqueued d ∷ []) h.log;
          },
        )
  Branch-Agrees a _ (unknown r w e n p) h = rw (e, p, sym (h.robots r) ∙ n) (refl, h)
  Branch-Agrees a _ (drained r w e n q p) h =
      let none_left : a.queue ≡ [] = sym h.queue ∙ q in
      rw (e, p, sym (h.robots r) ∙ n, none_left)
        (refl, record { live = h.live; queue = q; robots = h.robots; log = h.log })
  Branch-Agrees {s} a _ (pulled r w d v e n q p) h =
      let front : a.queue ≡ d ∷ F.commands.elements v = sym h.queue ∙ q in
      rw (e, p, sym (h.robots r) ∙ n, front)
        (
          refl,
          record {
            live = live-deposited F s (command_pulled r d (coordinate_of d)) h.live;
            queue = refl;
            robots = h.robots;
            log =
                events-deposited F s (command_pulled r d (coordinate_of d)) h.live
                ∙ ap₂ (λ l p. l ++ command_pulled r d p ∷ []) h.log (destination-eq d);
          },
        )

  pub dispatch-Agrees :
      (s : State F) (a : Swarm T) (x : RuntimeOrigin × Call T)
      → Refines s a
      → Agrees (dispatch F x.0 x.1 s) (Spec.step (seen x) a)
  dispatch-Agrees s a (origin, c) h = Branch-Agrees a c (dispatch-Branch F origin c s) h

  -- No sequence of calls tells the pallet from its specification, a registry of robots with one
  -- bounded queue and a log: every call gets the same result, error or not, and at the end the
  -- queue, the registered robots and the events are again those of the specification.
  pub run-Refines :
      (cs : List (RuntimeOrigin × Call T)) (s : State F) (a : Swarm T)
      → Refines s a
      → (replies F cs s ≡ Spec.replies (map seen cs) a)
        × Refines (run F cs s) (Spec.run (map seen cs) a)
  unfolding run replies Spec.run Spec.replies
  run-Refines [] s a h = (refl, h)
  run-Refines ((origin, c) ∷ cs) s a h =
      let (same, h') = dispatch-Agrees s a (origin, c) h in
      let (rest, end) = run-Refines cs _ _ h' in (ap₂ ◌∷◌ same rest, end)
