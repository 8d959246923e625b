-- ===== src/Swarm/Spec.antt =====
-- What the pallet promises, with no storage, no events record and no bounded vector: a registry, a
-- bounded queue and a log, all lists.
use swarm_robotics_parachain.Common.{
  Bool, true, false, if◌then◌else◌, ltb, Option, none, some, List, [], ◌∷◌, ◌++◌, length,
}
use swarm_robotics_parachain.Frame.Dispatch.{Result, bad_origin, module_error, ok, err}
use swarm_robotics_parachain.Swarm.Types.{
  Config, Command, go_to_location, Error, invalid_robot_id, queue_full, queue_empty, Event,
  command_enqueued, command_pulled, Call, registers, enqueues, pulls,
}

pub record Swarm (T : Config) : Type 0 where
  pub robots : List T.RobotId
  pub queue : List (Command T)
  pub log : List (Event T)

abbrev pub Reply : Type 0
Reply = Result Error (Unit {0})

abbrev pub is_member {ℓ} : {A : Type ℓ} → Discrete A → A → List A → Bool
is_member d r [] = false
is_member d r (j ∷ js) = elim (d j r) [ yes e ↦ true | no ne ↦ is_member d r js ]

module _ {T : Config} where
  abbrev pub destination : Command T → Option T.Location
  destination (go_to_location p) = some p
  destination _ = none

  take_front : T.RobotId → Swarm T → List (Command T) → Reply × Swarm T
  take_front r a [] = (err (module_error queue_empty), a)
  take_front r a (c ∷ rest) =
      (ok tt, record a { queue = rest; log = a.log ++ command_pulled r c (destination c) ∷ [] })

  admit : Call T → Swarm T → Reply × Swarm T
  unfolding take_front
  admit (registers r) a = (ok tt, record a { robots = r ∷ a.robots })
  admit (enqueues c) a =
      if ltb (length a.queue) T.max_global_commands
      then (ok tt, record a { queue = a.queue ++ c ∷ []; log = a.log ++ command_enqueued c ∷ [] })
      else (err (module_error queue_full), a)
  admit (pulls r) a =
      if is_member T.robot_id_eq r a.robots
      then take_front r a a.queue
      else (err (module_error invalid_robot_id), a)

  -- The flag says whether the call is signed.
  unfoldable pub step : Bool × Call T → Swarm T → Reply × Swarm T
  unfolding admit
  step (true, c) a = admit c a
  step (false, c) a = (err bad_origin, a)

  unfoldable pub run : List (Bool × Call T) → Swarm T → Swarm T
  run [] a = a
  run (x ∷ xs) a = run xs (step x a).1

  unfoldable pub replies : List (Bool × Call T) → Swarm T → List Reply
  replies [] a = []
  replies (x ∷ xs) a = (step x a).0 ∷ replies xs (step x a).1
