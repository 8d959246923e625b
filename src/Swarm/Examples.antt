-- ===== src/Swarm/Examples.antt =====
-- The theorems of the pallet at concrete inputs, and tests: this repository's types, with room for
-- two commands.
use swarm_robotics_parachain.Common.{
  ℕ, ◌≡◌, ◌≢◌, refl, false, none, some, List, [], ◌∷◌, ◌++◌, arith, ℕ_discrete, dec_lt, map,
}
use swarm_robotics_parachain.Host.{
  HostOrigin, root, account, host_origins, host_system, host_map, host_vec,
}
use swarm_robotics_parachain.Frame.Dispatch.{bad_origin, module_error, ok, err, panic}
use swarm_robotics_parachain.Swarm.Types.{
  Coordinate, Config, Command, go_to_location, halt, wait_for_command, invalid_robot_id, queue_full,
  queue_empty, Event, Deps, State, Call, registers, enqueues, pulls,
}
use swarm_robotics_parachain.Swarm.{
  dispatch, run, replies, register_robot, enqueue_command, pull_next,
}
use mathlib.Core.List.{Memᴰ}
use swarm_robotics_parachain.Common.{◌↔◌, ◌⊎◌, All}
use swarm_robotics_parachain.Swarm.Branch.{queued}
use swarm_robotics_parachain.Swarm.Errors.{IsSigned, Admits, dispatch-ok_iff, dispatch_noop}
use swarm_robotics_parachain.Swarm.Log.{pallet_events, enqueued_of, pulled_of}
use swarm_robotics_parachain.Swarm.Registry.{IsRegistered, run-IsRegistered_iff}
use swarm_robotics_parachain.Swarm.Fifo.{IsTruthful, run_fifo, run-IsTruthful}
use swarm_robotics_parachain.Swarm.Spec
use swarm_robotics_parachain.Swarm.Spec.{Swarm}
use swarm_robotics_parachain.Swarm.Refine.{Refines, seen, run-Refines}
use swarm_robotics_parachain.Swarm.Delivery.{AreRegistered, pull_by, run_pulls}

abbrev small : Config
small = record {
  Location = Coordinate;
  RobotId = ℕ;
  robot_id_eq = ℕ_discrete;
  TaskDefinition = ℕ;
  max_global_commands = 2;
}

abbrev host : Deps small
host = record {
  RuntimeEvent = Event small;
  from_event = λ e. e;
  as_event = some;
  as_event-from_event = λ e. refl;
  origins = host_origins;
  system = host_system (Event small);
  robots = host_map ℕ_discrete;
  commands = host_vec (Command small) 2;
}

abbrev start : State host
start = record {
  registered_robots = [];
  global_command_queue = none;
  system = record { genesis = false; record_of_events = [] };
}

abbrev move : Command small
move = go_to_location (record { x = 3; y = 4 })

abbrev script : List (HostOrigin × Call small)
script =
    (account 1, registers 7)
    ∷ (root, registers 8)
    ∷ (account 2, pulls 7)
    ∷ (account 1, enqueues move)
    ∷ (account 1, enqueues halt)
    ∷ (account 1, enqueues wait_for_command)
    ∷ (account 2, pulls 8)
    ∷ (account 2, pulls 7)
    ∷ []

replies-script :
    replies host script start
    ≡ ok tt
      ∷ err bad_origin
      ∷ err (module_error queue_empty)
      ∷ ok tt
      ∷ ok tt
      ∷ err (module_error queue_full)
      ∷ err (module_error invalid_robot_id)
      ∷ ok tt
      ∷ []
unfolding replies dispatch register_robot enqueue_command pull_next ℕ_discrete dec_lt
replies-script = refl

dispatch-ok_iff_example :
    ((dispatch host (account 1) (enqueues move) start).0 ≡ ok tt)
    ↔ (IsSigned host (account 1) × Admits host start (enqueues move))
dispatch-ok_iff_example = dispatch-ok_iff host (account 1) (enqueues move) start

early_pull : (dispatch host (account 2) (pulls 7) start).0 ≢ ok tt
unfolding dispatch pull_next
early_pull = λ e. ground arith

dispatch_noop_example :
    ((dispatch host (account 2) (pulls 7) start).1 ≡ start)
    × ((dispatch host (account 2) (pulls 7) start).0 ≢ panic)
dispatch_noop_example = dispatch_noop host (account 2) (pulls 7) start early_pull

run_fifo_example :
    queued host start ++ enqueued_of (pallet_events host (run host script start))
    ≡ pulled_of (pallet_events host (run host script start)) ++ queued host (run host script start)
run_fifo_example = run_fifo host script start refl refl

-- In the script one command goes out and one stays.
queued-script : queued host (run host script start) ≡ halt ∷ []
unfolding run dispatch register_robot enqueue_command pull_next ℕ_discrete dec_lt
queued-script = refl

run-IsTruthful_example :
    All (IsTruthful host (run host script start)) (pallet_events host (run host script start))
run-IsTruthful_example = run-IsTruthful host script start refl refl

run-IsRegistered_iff_example :
    IsRegistered host 7 (run host script start)
    ↔ (IsRegistered host 7 start ⊎ ((who : ℕ) × Memᴰ (account who, registers 7) script))
run-IsRegistered_iff_example = run-IsRegistered_iff host 7 script start

blank : Swarm small
blank = record { robots = []; queue = []; log = [] }

start-Refines : Refines host start blank
unfolding blank
start-Refines = record { live = refl; queue = refl; robots = λ r. refl; log = refl }

run-Refines_example :
    (replies host script start ≡ Spec.replies (map (seen host) script) blank)
    × Refines host (run host script start) (Spec.run (map (seen host) script) blank)
run-Refines_example = run-Refines host script start blank start-Refines

-- Two robots and two commands.
abbrev stocked : State host
stocked = record {
  registered_robots = 7 ∷ 8 ∷ [];
  global_command_queue = some (move ∷ halt ∷ [], omega arith);
  system = record { genesis = false; record_of_events = [] };
}

abbrev turns : List (ℕ × ℕ)
turns = (1, 8) ∷ (2, 7) ∷ []

known_robots : AreRegistered host turns stocked
unfolding ℕ_discrete
known_robots = (refl, (refl, tt))

run_pulls_example :
    let cs = map (pull_by host) turns in
    All (λ r. r ≡ ok tt) (replies host cs stocked)
    × (queued host (run host cs stocked) ≡ [])
    × (pulled_of (pallet_events host (run host cs stocked)) ≡ pulled_of [] ++ move ∷ halt ∷ [])
run_pulls_example = run_pulls host turns stocked refl known_robots (omega arith)
