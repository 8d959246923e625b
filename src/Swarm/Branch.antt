-- ===== src/Swarm/Branch.antt =====
-- Which branch a call takes, and what it does there. The other modules' proofs go by these cases,
-- with the dispatchable functions shut.
use swarm_robotics_parachain.Common.{
  ℕ, ◌≤◌, ◌<◌, ◌≡◌, ap, ◌∙◌, ◌⊎◌, inl, inr, true, false, Bool-cases, none, some, Option-cases, List,
  [], ◌∷◌, ◌++◌, List-cases, length, get_elem?, arith, dec_lt, unwrap_or,
}
use swarm_robotics_parachain.Frame.BoundedVec.{BoundedVec}
use swarm_robotics_parachain.Frame.Dispatch.{Result, bad_origin, module_error, ok, err}
use swarm_robotics_parachain.Swarm.Types.{
  Config, Command, Error, invalid_robot_id, queue_full, queue_empty, Event, command_enqueued,
  command_pulled, Deps, State, Call, registers, enqueues, pulls,
}
use swarm_robotics_parachain.Swarm.{
  coordinate_of, register_robot, enqueue_command, pull_next, dispatch,
}

module _ {A : Type 0} {bound : ℕ} (V : BoundedVec A bound) (v : V.Vec) where
  push_cases :
      (a : A)
      → ((bound ≤ length (V.elements v)) × (V.try_push v a ≡ none))
        ⊎ ((w : V.Vec) × (length (V.elements v) < bound)
            × (V.try_push v a ≡ some w)
            × (V.elements w ≡ V.elements v ++ a ∷ []))
  push_cases a = elim (dec_lt (length (V.elements v)) bound) [
    | yes fits ↦ let (w, e, c) = V.try_push_fits v a fits in inr (w, fits, e, c)
    | no full ↦ inl (omega arith, V.try_push_full v a (omega arith))
  ]

  pop_cases :
      ((V.elements v ≡ []) × (V.get v 0 ≡ none))
      ⊎ ((a : A) × (w : V.Vec) × (V.elements v ≡ a ∷ V.elements w)
          × (V.get v 0 ≡ some a)
          × (V.remove v 0 ≡ some (a, w)))
  pop_cases = elim (List-cases (V.elements v)) [
    | inl e ↦ inl (e, V.get_lem v 0 ∙ ap (λ l. get_elem? l 0) e)
    | inr (a, rest, e) ↦
        let first : get_elem? (V.elements v) 0 ≡ some a = ap (λ l. get_elem? l 0) e in
        let (w, r, c) = V.remove_lem v 0 a first in
        inr (a, w, rw c (rw e), V.get_lem v 0 ∙ first, r)
  ]

module _ {T : Config} (F : Deps T) where
  open F use {from_event, origins, system, robots, commands}
  open origins use {RuntimeOrigin, AccountId, ensure_signed}

  -- The commands in the queue, oldest first.
  abbrev pub queued : State F → List (Command T)
  queued s = commands.elements (unwrap_or s.global_command_queue commands.default)

  abbrev pub deposited : State F → Event T → F.system.State
  deposited s e = system.deposit_event s.system (from_event e)

  abbrev pub Outcome : Type 0
  Outcome = Result Error (Unit {0}) × State F

  -- The ways in which a call from an origin can turn the state `s` into the outcome `o`.
  pub data Branch (origin : RuntimeOrigin) (s : State F) (o : Outcome) : Call T → Type 0 where
    unsigned :
        {c : Call T} → ensure_signed origin ≡ none → o ≡ (err bad_origin, s) → Branch origin s o c
    registered :
        (robot_id : T.RobotId) (who : AccountId)
        → ensure_signed origin ≡ some who
        → o
          ≡ (ok tt, record s { registered_robots = robots.insert s.registered_robots robot_id tt })
        → Branch origin s o (registers robot_id)
    full :
        (command : Command T) (who : AccountId)
        → ensure_signed origin ≡ some who
        → T.max_global_commands ≤ length (queued s)
        → o ≡ (err (module_error queue_full), s)
        → Branch origin s o (enqueues command)
    enqueued :
        (command : Command T) (who : AccountId) (w : commands.Vec)
        → ensure_signed origin ≡ some who
        → length (queued s) < T.max_global_commands
        → commands.elements w ≡ queued s ++ command ∷ []
        → o ≡ (
          ok tt,
          record s {
            global_command_queue = some w;
            system = deposited s (command_enqueued command);
          },
        )
        → Branch origin s o (enqueues command)
    unknown :
        (robot_id : T.RobotId) (who : AccountId)
        → ensure_signed origin ≡ some who
        → robots.contains_key s.registered_robots robot_id ≡ false
        → o ≡ (err (module_error invalid_robot_id), s)
        → Branch origin s o (pulls robot_id)
    drained :
        (robot_id : T.RobotId) (who : AccountId)
        → ensure_signed origin ≡ some who
        → robots.contains_key s.registered_robots robot_id ≡ true
        → queued s ≡ []
        → o ≡ (err (module_error queue_empty), s)
        → Branch origin s o (pulls robot_id)
    pulled :
        (robot_id : T.RobotId) (who : AccountId) (command : Command T) (w : commands.Vec)
        → ensure_signed origin ≡ some who
        → robots.contains_key s.registered_robots robot_id ≡ true
        → queued s ≡ command ∷ commands.elements w
        → o ≡ (
          ok tt,
          record s {
            global_command_queue = some w;
            system = deposited s (command_pulled robot_id command (coordinate_of command));
          },
        )
        → Branch origin s o (pulls robot_id)

  enqueue_command-Branch :
      (origin : RuntimeOrigin) (command : Command T) (s : State F)
      → Branch origin s (enqueue_command F origin command s) (enqueues command)
  unfolding enqueue_command
  enqueue_command-Branch origin command s = elim (Option-cases (ensure_signed origin)) [
    | inl e ↦ unsigned e (rw e)
    | inr (who, e) ↦
        elim (push_cases commands (unwrap_or s.global_command_queue commands.default) command) [
          | inl (many, p) ↦ full command who e many (ground arith)
          | inr (w, fits, p, c) ↦ enqueued command who w e fits c (ground arith)
        ]
  ]

  pull_next-Branch :
      (origin : RuntimeOrigin) (robot_id : T.RobotId) (s : State F)
      → Branch origin s (pull_next F origin robot_id s) (pulls robot_id)
  unfolding pull_next
  pull_next-Branch origin robot_id s = elim (Option-cases (ensure_signed origin)) [
    | inl e ↦ unsigned e (rw e)
    | inr (who, e) ↦ elim (Bool-cases (robots.contains_key s.registered_robots robot_id)) [
      | inr new ↦ unknown robot_id who e new (ground arith)
      | inl old ↦ elim (pop_cases commands (unwrap_or s.global_command_queue commands.default)) [
        | inl (none_left, p) ↦ drained robot_id who e old none_left (ground arith)
        | inr (command, w, front, p, q) ↦ pulled robot_id who command w e old front (ground arith)
      ]
    ]
  ]

  register_robot-Branch :
      (origin : RuntimeOrigin) (robot_id : T.RobotId) (s : State F)
      → Branch origin s (register_robot F origin robot_id s) (registers robot_id)
  unfolding register_robot
  register_robot-Branch origin robot_id s = elim (Option-cases (ensure_signed origin)) [
    | inl e ↦ unsigned e (rw e)
    | inr (who, e) ↦ registered robot_id who e (rw e)
  ]

  -- Every call from every origin takes one of the branches; none panics.
  pub dispatch-Branch :
      (origin : RuntimeOrigin) (call : Call T) (s : State F)
      → Branch origin s (dispatch F origin call s) call
  unfolding dispatch
  dispatch-Branch origin (registers robot_id) s = register_robot-Branch origin robot_id s
  dispatch-Branch origin (enqueues command) s = enqueue_command-Branch origin command s
  dispatch-Branch origin (pulls robot_id) s = pull_next-Branch origin robot_id s
