-- ===== src/Swarm.antt =====
-- pallets/swarm-robot-pallet/src/lib.rs: the three dispatchable functions of the pallet, each a
-- `Dispatch` over the pallet's storage.
pub mod Types
pub mod Branch
pub mod Errors
pub mod Log
pub mod Registry
pub mod Fifo
pub mod Spec
pub mod Refine
pub mod Delivery
mod Examples
use swarm_robotics_parachain.Common.{
  Option, none, some, Bool, true, false, zero, unwrap_or, if◌then◌else◌, List, [], ◌∷◌,
}
use swarm_robotics_parachain.Frame.Dispatch.{
  Dispatch, Result, DispatchError, bad_origin, module_error, ok, err, panic, ◌>>=◌, ◌>>◌, pure,
  gets, modify, ok_or, or_panic, ensure,
}
use Types.{
  Config, Command, go_to_location, perform_task, halt, wait_for_command, Error, invalid_robot_id,
  queue_full, queue_empty, Event, command_enqueued, command_pulled, Deps, State, Call, registers,
  enqueues, pulls,
}

-- The location that `pull_next` puts beside a command.
unfoldable pub coordinate_of : {T : Config} → Command T → Option T.Location
coordinate_of (go_to_location c) = some c
coordinate_of (perform_task t) = none
coordinate_of halt = none
coordinate_of wait_for_command = none

module _ {T : Config} (F : Deps T) where
  open F use {from_event, origins, system, robots, commands}
  open origins use {RuntimeOrigin, AccountId, ensure_signed}

  -- `GlobalCommandQueue::get()`, a `ValueQuery`: the default if the value was never put.
  unfoldable pub global_command_queue : State F → commands.Vec
  global_command_queue s = unwrap_or s.global_command_queue commands.default

  -- `Self::deposit_event`
  unfoldable pub deposit_event : Event T → Dispatch (State F) Error (Unit {0})
  deposit_event e = modify λ s. record s { system = system.deposit_event s.system (from_event e) }

  put_queue : commands.Vec → Dispatch (State F) Error (Unit {0})
  put_queue v = modify λ s. record s { global_command_queue = some v }

  unfoldable pub register_robot : RuntimeOrigin → T.RobotId → Dispatch (State F) Error (Unit {0})
  register_robot origin robot_id = do
    ok_or (ensure_signed origin) bad_origin
    modify λ s. record s { registered_robots = robots.insert s.registered_robots robot_id tt }

  unfoldable pub enqueue_command : RuntimeOrigin → Command T → Dispatch (State F) Error (Unit {0})
  unfolding put_queue global_command_queue deposit_event
  enqueue_command origin command = do
    ok_or (ensure_signed origin) bad_origin
    queue ← gets global_command_queue
    queue' ← ok_or (commands.try_push queue command) (module_error queue_full)
    put_queue queue'
    deposit_event (command_enqueued command)

  unfoldable pub pull_next : RuntimeOrigin → T.RobotId → Dispatch (State F) Error (Unit {0})
  unfolding put_queue global_command_queue deposit_event
  pull_next origin robot_id = do
    ok_or (ensure_signed origin) bad_origin
    registered ← gets λ s. robots.contains_key s.registered_robots robot_id
    ensure registered (module_error invalid_robot_id)
    queue ← gets global_command_queue
    cmd ← ok_or (commands.get queue 0) (module_error queue_empty)
    removed ← or_panic (commands.remove queue 0)
    put_queue removed.1
    deposit_event (command_pulled robot_id cmd (coordinate_of cmd))

  unfoldable pub dispatch : RuntimeOrigin → Call T → Dispatch (State F) Error (Unit {0})
  dispatch origin (registers robot_id) = register_robot origin robot_id
  dispatch origin (enqueues command) = enqueue_command origin command
  dispatch origin (pulls robot_id) = pull_next origin robot_id

  -- The calls of a block in order, the failed ones included: each goes on from the state that the
  -- one before it left.
  unfoldable pub run : List (RuntimeOrigin × Call T) → State F → State F
  run [] s = s
  run ((origin, call) ∷ rest) s = run rest (dispatch origin call s).1

  -- What the callers get.
  unfoldable pub replies : List (RuntimeOrigin × Call T) → State F → List (Result Error (Unit {0}))
  replies [] s = []
  replies ((origin, call) ∷ rest) s =
      (dispatch origin call s).0 ∷ replies rest (dispatch origin call s).1
