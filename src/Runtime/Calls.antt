-- ===== src/Runtime/Calls.antt =====
-- runtime/src/lib.rs and runtime/src/configs/mod.rs: the two pallets of this repository in one
-- runtime, over one storage and one record of events. The calls of the SDK's pallets are left out.
pub mod Isolation
mod Examples
use swarm_robotics_parachain.Common.{ℕ, ◌≡◌, Option, none, some, List, [], ◌∷◌, ℕ_discrete}
use swarm_robotics_parachain.Frame.Origin.{Origins}
use swarm_robotics_parachain.Frame.System.{System}
use swarm_robotics_parachain.Frame.StorageMap.{StorageMap}
use swarm_robotics_parachain.Frame.BoundedVec.{BoundedVec}
use swarm_robotics_parachain.Frame.BlockNumbers.{BlockNumbers}
use swarm_robotics_parachain.Frame.Dispatch.{
  Dispatch, DispatchError, Result, bad_origin, module_error, ok, err, panic,
}
use swarm_robotics_parachain.Runtime.Constants.{max_global_commands}
use swarm_robotics_parachain.Swarm
use swarm_robotics_parachain.Swarm.Types as SwarmTypes
use swarm_robotics_parachain.Swarm.Types.{Coordinate, Config, Command}
use swarm_robotics_parachain.Template
use swarm_robotics_parachain.Template.Types as TemplateTypes

-- `impl swarm_robot_pallet::Config for Runtime`; u32 is a number here.
abbrev pub swarm_config : Config
swarm_config = record {
  Location = Coordinate;
  RobotId = ℕ;
  robot_id_eq = ℕ_discrete;
  TaskDefinition = ℕ;
  max_global_commands = max_global_commands;
}

-- What the runtime takes from the SDK, and its event enum: each pallet's events go in and come out
-- by a variant of their own.
pub record Platform : Type 1 where
  pub origins : Origins
  pub numbers : BlockNumbers
  pub RuntimeEvent : Type 0
  pub from_template : TemplateTypes.Event numbers origins → RuntimeEvent
  pub from_swarm : SwarmTypes.Event swarm_config → RuntimeEvent
  pub as_template : RuntimeEvent → Option (TemplateTypes.Event numbers origins)
  pub as_swarm : RuntimeEvent → Option (SwarmTypes.Event swarm_config)
  pub as_template-from_template :
      (e : TemplateTypes.Event numbers origins) → as_template (from_template e) ≡ some e
  pub as_template-from_swarm :
      (e : SwarmTypes.Event swarm_config) → as_template (from_swarm e) ≡ none
  pub as_swarm-from_swarm : (e : SwarmTypes.Event swarm_config) → as_swarm (from_swarm e) ≡ some e
  pub as_swarm-from_template :
      (e : TemplateTypes.Event numbers origins) → as_swarm (from_template e) ≡ none
  pub system : System RuntimeEvent
  pub robots : StorageMap ℕ (Unit {0})
  pub commands : BoundedVec (Command swarm_config) max_global_commands

module _ (H : Platform) where
  open H use {origins, numbers}
  open origins use {RuntimeOrigin}

  abbrev pub swarm_deps : SwarmTypes.Deps swarm_config
  swarm_deps = record {
    RuntimeEvent = H.RuntimeEvent;
    from_event = H.from_swarm;
    as_event = H.as_swarm;
    as_event-from_event = H.as_swarm-from_swarm;
    origins = H.origins;
    system = H.system;
    robots = H.robots;
    commands = H.commands;
  }

  abbrev pub template_deps : TemplateTypes.Deps
  template_deps = record {
    numbers = H.numbers;
    origins = H.origins;
    RuntimeEvent = H.RuntimeEvent;
    from_event = H.from_template;
    as_event = H.as_template;
    as_event-from_event = H.as_template-from_template;
    system = H.system;
  }

  pub record RuntimeState : Type 0 where
    pub something : Option (TemplateTypes.CompositeStruct numbers)
    pub registered_robots : H.robots.Map
    pub global_command_queue : Option H.commands.Vec
    pub system : H.system.State

  abbrev pub template_part : RuntimeState → TemplateTypes.State template_deps
  template_part s = record { something = s.something; system = s.system }

  abbrev pub swarm_part : RuntimeState → SwarmTypes.State swarm_deps
  swarm_part s = record {
    registered_robots = s.registered_robots;
    global_command_queue = s.global_command_queue;
    system = s.system;
  }

  -- `RuntimeCall`, for these two pallets.
  pub data RuntimeCall : Type 0 where
    template_pallet : TemplateTypes.Call → RuntimeCall
    swarm_robot_pallet : SwarmTypes.Call swarm_config → RuntimeCall

  pub data RuntimeError : Type 0 where
    template_error : TemplateTypes.Error → RuntimeError
    swarm_error : SwarmTypes.Error → RuntimeError

  abbrev as_runtime :
      {E : Type 0} → (E → RuntimeError) → Result E (Unit {0}) → Result RuntimeError (Unit {0})
  as_runtime f (ok u) = ok u
  as_runtime f (err bad_origin) = err bad_origin
  as_runtime f (err (module_error e)) = err (module_error (f e))
  as_runtime f panic = panic

  unfoldable pub dispatch :
      RuntimeOrigin → RuntimeCall → Dispatch RuntimeState RuntimeError (Unit {0})
  dispatch origin (template_pallet c) s =
      let (r, t) = Template.dispatch template_deps origin c (template_part s) in
      (as_runtime template_error r, record s { something = t.something; system = t.system })
  dispatch origin (swarm_robot_pallet c) s =
      let (r, t) = Swarm.dispatch swarm_deps origin c (swarm_part s) in
      (
        as_runtime swarm_error r,
        record s {
          registered_robots = t.registered_robots;
          global_command_queue = t.global_command_queue;
          system = t.system;
        },
      )

  unfoldable pub run : List (RuntimeOrigin × RuntimeCall) → RuntimeState → RuntimeState
  run [] s = s
  run ((origin, c) ∷ cs) s = run cs (dispatch origin c s).1

  -- The calls of one pallet among those of a block.
  pub swarm_calls :
      List (RuntimeOrigin × RuntimeCall) → List (RuntimeOrigin × SwarmTypes.Call swarm_config)
  swarm_calls [] = []
  swarm_calls ((origin, template_pallet c) ∷ cs) = swarm_calls cs
  swarm_calls ((origin, swarm_robot_pallet c) ∷ cs) = (origin, c) ∷ swarm_calls cs

  pub template_calls :
      List (RuntimeOrigin × RuntimeCall) → List (RuntimeOrigin × TemplateTypes.Call)
  template_calls [] = []
  template_calls ((origin, template_pallet c) ∷ cs) = (origin, c) ∷ template_calls cs
  template_calls ((origin, swarm_robot_pallet c) ∷ cs) = template_calls cs
