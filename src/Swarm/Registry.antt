-- ===== src/Swarm/Registry.antt =====
-- Which robots are registered after a sequence of calls.
use mathlib.Core.List.{Memᴰ}
use swarm_robotics_parachain.Common.{
  ◌≡◌, ◌∙◌, sym, ap, ◌↔◌, ◌⊎◌, inl, inr, ap₂, true, List, [], ◌∷◌, arith,
}
use swarm_robotics_parachain.Swarm.Types.{Config, Deps, State, Call, registers}
use swarm_robotics_parachain.Swarm.{dispatch, run}
use swarm_robotics_parachain.Swarm.Branch.{
  Outcome, Branch, unsigned, registered, full, enqueued, unknown, drained, pulled, dispatch-Branch,
}

module _ {T : Config} (F : Deps T) where
  open F use {origins, robots}
  open origins use {RuntimeOrigin, AccountId, signed}

  abbrev pub IsRegistered : T.RobotId → State F → Type 0
  IsRegistered r s = robots.contains_key s.registered_robots r ≡ true

  -- A signed registration of the robot.
  abbrev pub Asks : T.RobotId → RuntimeOrigin × Call T → Type 0
  Asks r (origin, c) = (who : AccountId) × (origin ≡ signed who) × (c ≡ registers r)

  insert-IsRegistered :
      (r j : T.RobotId) (s : State F)
      → IsRegistered r s
      → robots.contains_key (robots.insert s.registered_robots j tt) r ≡ true
  insert-IsRegistered r j s h = elim (T.robot_id_eq j r) [
    | yes e ↦ rw e (robots.contains_key-insert_self s.registered_robots r tt)
    | no ne ↦ robots.contains_key-insert_ne s.registered_robots j r tt ne ∙ h
  ]

  Branch-keeps :
      {origin : RuntimeOrigin} {s : State F} {o : Outcome F} (r : T.RobotId) (c : Call T)
      → Branch F origin s o c
      → IsRegistered r s
      → IsRegistered r o.1
  Branch-keeps r c (unsigned e p) h = rw p h
  Branch-keeps {s} r _ (registered j w e p) h = rw p (insert-IsRegistered r j s h)
  Branch-keeps r _ (full d w e n p) h = rw p h
  Branch-keeps r _ (enqueued d w v e n q p) h = rw p h
  Branch-keeps r _ (unknown j w e n p) h = rw p h
  Branch-keeps r _ (drained j w e n q p) h = rw p h
  Branch-keeps r _ (pulled j w d v e n q p) h = rw p h

  -- A robot stays registered.
  pub dispatch-IsRegistered :
      (r : T.RobotId) (origin : RuntimeOrigin) (c : Call T) (s : State F)
      → IsRegistered r s
      → IsRegistered r (dispatch F origin c s).1
  dispatch-IsRegistered r origin c s h = Branch-keeps r c (dispatch-Branch F origin c s) h

  Branch-Asks :
      {origin : RuntimeOrigin} {s : State F} {o : Outcome F} (r : T.RobotId) (c : Call T)
      → Branch F origin s o c
      → Asks r (origin, c)
      → IsRegistered r o.1
  Branch-Asks r c (unsigned e p) (who, a, b) = absurd (cc (origins.ensure_signed-signed who))
  Branch-Asks {s} r _ (registered j w e p) (who, a, b) =
      let same : j ≡ r = ground arith in
      rw (p, same) (robots.contains_key-insert_self s.registered_robots r tt)
  Branch-Asks r _ (full d w e n p) (who, a, b) = cc
  Branch-Asks r _ (enqueued d w v e n q p) (who, a, b) = cc
  Branch-Asks r _ (unknown j w e n p) (who, a, b) = cc
  Branch-Asks r _ (drained j w e n q p) (who, a, b) = cc
  Branch-Asks r _ (pulled j w d v e n q p) (who, a, b) = cc

  -- A robot that a call registers was registered before, or the call asks for it.
  Branch-origin :
      {origin : RuntimeOrigin} {s : State F} {o : Outcome F} (r : T.RobotId) (c : Call T)
      → Branch F origin s o c
      → IsRegistered r o.1
      → IsRegistered r s ⊎ Asks r (origin, c)
  Branch-origin r c (unsigned e p) h = inl (rw p at h)
  Branch-origin {origin} {s} r _ (registered j w e p) h = elim (T.robot_id_eq j r) [
    | yes same ↦ inr (w, origins.ensure_signed_sound origin w e, ap registers same)
    | no ne ↦ inl (sym (robots.contains_key-insert_ne s.registered_robots j r tt ne) ∙ (rw p at h))
  ]
  Branch-origin r _ (full d w e n p) h = inl (rw p at h)
  Branch-origin r _ (enqueued d w v e n q p) h = inl (rw p at h)
  Branch-origin r _ (unknown j w e n p) h = inl (rw p at h)
  Branch-origin r _ (drained j w e n q p) h = inl (rw p at h)
  Branch-origin r _ (pulled j w d v e n q p) h = inl (rw p at h)

  run-IsRegistered :
      (r : T.RobotId) (cs : List (RuntimeOrigin × Call T)) (s : State F)
      → IsRegistered r s
      → IsRegistered r (run F cs s)
  unfolding run
  run-IsRegistered r [] s h = h
  run-IsRegistered r ((origin, c) ∷ cs) s h =
      run-IsRegistered r cs _ (dispatch-IsRegistered r origin c s h)

  run_complete :
      (r : T.RobotId) (who : AccountId) (cs : List (RuntimeOrigin × Call T)) (s : State F)
      → Memᴰ (signed who, registers r) cs
      → IsRegistered r (run F cs s)
  unfolding run
  run_complete r who [] s m = elim m [ ]
  run_complete r who ((origin, c) ∷ cs) s (Memᴰ.head e) =
      run-IsRegistered r cs (dispatch F origin c s).1 (
        Branch-Asks r c (dispatch-Branch F origin c s)
          (who, sym (ap (λ x. x.0) e), sym (ap (λ x. x.1) e)))
  run_complete r who ((origin, c) ∷ cs) s (Memᴰ.tail m) =
      run_complete r who cs (dispatch F origin c s).1 m

  run_sound :
      (r : T.RobotId) (cs : List (RuntimeOrigin × Call T)) (s : State F)
      → IsRegistered r (run F cs s)
      → IsRegistered r s ⊎ ((who : AccountId) × Memᴰ (signed who, registers r) cs)
  unfolding run
  run_sound r [] s h = inl h
  run_sound r ((origin, c) ∷ cs) s h = elim (run_sound r cs (dispatch F origin c s).1 h) [
    | inr (who, m) ↦ inr (who, Memᴰ.tail m)
    | inl old ↦ elim (Branch-origin r c (dispatch-Branch F origin c s) old) [
      | inl older ↦ inl older
      | inr (who, a, b) ↦ inr (who, Memᴰ.head (ap₂ (λ o k. (o, k)) (sym a) (sym b)))
    ]
  ]

  -- After any calls a robot is registered exactly when it was before them, or one of them is a
  -- signed registration of it: no other call, and no failure, adds or removes a robot.
  pub run-IsRegistered_iff :
      (r : T.RobotId) (cs : List (RuntimeOrigin × Call T)) (s : State F)
      → IsRegistered r (run F cs s)
        ↔ (IsRegistered r s ⊎ ((who : AccountId) × Memᴰ (signed who, registers r) cs))
  run-IsRegistered_iff r cs s = (
    run_sound r cs s,
    elim [ inl h ↦ run-IsRegistered r cs s h | inr (who, m) ↦ run_complete r who cs s m ],
  )
