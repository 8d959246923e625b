-- ===== src/Swarm/Types.antt =====
-- pallets/swarm-robot-pallet/src/lib.rs: the pallet's configuration, its commands, events and
-- errors, and its storage.
use swarm_robotics_parachain.Common.{ℕ, ◌≡◌, Option, some}
use swarm_robotics_parachain.Frame.Origin.{Origins}
use swarm_robotics_parachain.Frame.System.{System}
use swarm_robotics_parachain.Frame.StorageMap.{StorageMap}
use swarm_robotics_parachain.Frame.BoundedVec.{BoundedVec}

-- `Coordinate`, the location of this repository's runtime. Both fields are u32.
pub record Coordinate : Type 0 where
  pub x : ℕ
  pub y : ℕ

-- `trait Config`, less the event and call types, which `Deps` and the runtime have.
pub record Config : Type 1 where
  pub Location : Type 0
  pub RobotId : Type 0
  -- The bounds `PartialEq + Eq`.
  pub robot_id_eq : Discrete RobotId
  pub TaskDefinition : Type 0
  pub max_global_commands : ℕ

pub data Command (T : Config) : Type 0 where
  go_to_location : T.Location → Command T
  perform_task : T.TaskDefinition → Command T
  halt : Command T
  wait_for_command : Command T

pub data Error : Type 0 where
  invalid_robot_id queue_full queue_empty : Error

pub data Event (T : Config) : Type 0 where
  command_enqueued : Command T → Event T
  command_pulled : T.RobotId → Command T → Option T.Location → Event T

-- What the pallet takes from FRAME, and the runtime's event type with its `From<Event>`.
pub record Deps (T : Config) : Type 1 where
  pub RuntimeEvent : Type 0
  pub from_event : Event T → RuntimeEvent
  -- The `TryInto` of the runtime's event enum.
  pub as_event : RuntimeEvent → Option (Event T)
  pub as_event-from_event : (e : Event T) → as_event (from_event e) ≡ some e
  pub origins : Origins
  pub system : System RuntimeEvent
  pub robots : StorageMap T.RobotId (Unit {0})
  pub commands : BoundedVec (Command T) T.max_global_commands

-- The pallet's storage items, beside the part of frame_system's storage that it writes. A
-- `StorageValue` that was never put is `none`.
pub record State {T : Config} (F : Deps T) : Type 0 where
  pub registered_robots : F.robots.Map
  pub global_command_queue : Option F.commands.Vec
  pub system : F.system.State

-- The pallet's `Call`: one constructor for each dispatchable function.
pub data Call (T : Config) : Type 0 where
  registers : T.RobotId → Call T
  enqueues : Command T → Call T
  pulls : T.RobotId → Call T
