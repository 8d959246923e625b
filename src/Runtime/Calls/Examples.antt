-- ===== src/Runtime/Calls/Examples.antt =====
-- The theorems of the composed runtime at a concrete runtime and concrete calls.
use swarm_robotics_parachain.Common.{
  ◌≡◌, ◌≢◌, refl, false, Option, none, some, List, [], ◌∷◌, map, arith, ℕ_discrete,
}
use swarm_robotics_parachain.Host.{
  HostOrigin, root, account, host_origins, host_system, host_map, host_vec,
}
use swarm_robotics_parachain.Host.U32.{host_u32}
use swarm_robotics_parachain.Frame.Dispatch.{ok}
use swarm_robotics_parachain.Swarm.Types as SwarmTypes
use swarm_robotics_parachain.Swarm.Types.{Command, halt, registers, enqueues, pulls}
use swarm_robotics_parachain.Swarm.Spec
use swarm_robotics_parachain.Swarm.Refine.{Refines, seen}
use swarm_robotics_parachain.Template
use swarm_robotics_parachain.Template.Types as TemplateTypes
use swarm_robotics_parachain.Template.Types.{does_something, causes_error}
use swarm_robotics_parachain.Runtime.Calls.{
  Platform, swarm_config, swarm_deps, RuntimeState, swarm_part, RuntimeCall, template_pallet,
  swarm_robot_pallet, dispatch, run, swarm_calls,
}
use swarm_robotics_parachain.Runtime.Calls.Isolation.{run_swarm-Refines, runtime_noop}

data HostEvent : Type 0 where
  of_template : TemplateTypes.Event host_u32 host_origins → HostEvent
  of_swarm : SwarmTypes.Event swarm_config → HostEvent

abbrev to_template : HostEvent → Option (TemplateTypes.Event host_u32 host_origins)
to_template (of_template e) = some e
to_template (of_swarm e) = none

abbrev to_swarm : HostEvent → Option (SwarmTypes.Event swarm_config)
to_swarm (of_template e) = none
to_swarm (of_swarm e) = some e

abbrev host : Platform
host = record {
  origins = host_origins;
  numbers = host_u32;
  RuntimeEvent = HostEvent;
  from_template = of_template;
  from_swarm = of_swarm;
  as_template = to_template;
  as_swarm = to_swarm;
  as_template-from_template = λ e. refl;
  as_template-from_swarm = λ e. refl;
  as_swarm-from_swarm = λ e. refl;
  as_swarm-from_template = λ e. refl;
  system = host_system HostEvent;
  robots = host_map ℕ_discrete;
  commands = host_vec (Command swarm_config) 64;
}

abbrev start : RuntimeState host
start = record {
  something = none;
  registered_robots = [];
  global_command_queue = none;
  system = record { genesis = false; record_of_events = [] };
}

abbrev script : List (HostOrigin × RuntimeCall host)
script =
    (account 1, swarm_robot_pallet (registers 7))
    ∷ (account 2, template_pallet (does_something 41))
    ∷ (account 1, swarm_robot_pallet (enqueues halt))
    ∷ (account 2, template_pallet causes_error)
    ∷ (account 3, swarm_robot_pallet (pulls 7))
    ∷ []

abbrev blank : Spec.Swarm swarm_config
blank = record { robots = []; queue = []; log = [] }

start-Refines : Refines (swarm_deps host) (swarm_part host start) blank
start-Refines = record { live = refl; queue = refl; robots = λ r. refl; log = refl }

swarm_is_refined :
    Refines
      (swarm_deps host)
      (swarm_part host (run host script start))
      (Spec.run (map (seen (swarm_deps host)) (swarm_calls host script)) blank)
swarm_is_refined = run_swarm-Refines host script start blank start-Refines

refused : (dispatch host root (template_pallet causes_error) start).0 ≢ ok tt
unfolding dispatch Template.dispatch Template.cause_error
refused = λ e. ground arith

nothing_changed : (dispatch host root (template_pallet causes_error) start).1 ≡ start
nothing_changed = runtime_noop host root (template_pallet causes_error) start refused
