-- ===== src/Node/Service/Plan.antt =====
-- The calls that starting a node makes, in order, as the configuration determines them.
use swarm_robotics_parachain.Common.{
  ℕ, Bool, true, false, Option, none, some, List, [], ◌∷◌, ◌++◌, if◌then◌else◌,
}
use swarm_robotics_parachain.Node.Effects.Laws.{planned}
use swarm_robotics_parachain.Node.Service.{
  Crates, Configuration, DaRecoveryProfile, collator, full_node, SybilResistance, resistant, Call,
  telemetry_worker_new, new_full_parts, spawn_telemetry, build_pool, verifying_import_queue,
  build_relay_chain_interface, build_network, offchain_workers_new, spawn_offchain_workers,
  spawn_tasks, print_hwbench, warn_hardware, spawn_telemetry_hwbench, get_overseer_handle,
  start_relay_chain_tasks, spawn_aura, non_empty,
}

abbrev pub is_some : {A : Type 0} → Option A → Bool
is_some none = false
is_some (some a) = true

module _ (K : Crates) where
  open K use {HwBench, ParaId, meets_reference}

  -- A call, with those of its arguments that the configuration determines.
  pub data Step : Type 0 where
    telemetry_worker : Step
    node_parts : Bool → Step
    telemetry_task : Step
    pool : Bool → Step
    import_queue : Step
    relay_chain : Step
    network : ParaId → SybilResistance K → Step
    offchain : Bool → Bool → Step
    offchain_task : Step
    tasks : Step
    hwbench_printed : Step
    hardware_warning : Step
    hwbench_telemetry : Step
    overseer : Step
    relay_tasks : ParaId → DaRecoveryProfile K → ℕ → Step
    aura : ParaId → ℕ → ℕ → Step

  abbrev pub step : Call K → Step
  step (telemetry_worker_new n) = telemetry_worker
  step (new_full_parts handle executor record_import) = node_parts record_import
  step (spawn_telemetry worker) = telemetry_task
  step (build_pool client authority options registry) = pool authority
  step (verifying_import_queue client import registry handle) = import_queue
  step (build_relay_chain_interface polkadot config handle options bench) = relay_chain
  step (build_network params) = network (params.para_id) (params.sybil_resistance_level)
  step (offchain_workers_new options) =
      offchain (options.is_validator) (options.enable_http_requests)
  step (spawn_offchain_workers workers client) = offchain_task
  step (spawn_tasks params) = tasks
  step (print_hwbench bench) = hwbench_printed
  step warn_hardware = hardware_warning
  step (spawn_telemetry_hwbench handle bench) = hwbench_telemetry
  step (get_overseer_handle relay) = overseer
  step (start_relay_chain_tasks params) =
      relay_tasks (params.para_id) (params.da_recovery_profile) (params.relay_chain_slot_duration)
  step (spawn_aura params) =
      aura (params.para_id) (params.relay_chain_slot_duration) (params.authoring_duration)

  abbrev pub has_endpoints : Configuration K → Bool
  has_endpoints config = is_some (non_empty K (config.telemetry_endpoints))

  abbrev pub partial_plan : Configuration K → List Step
  partial_plan config =
      planned (has_endpoints config) (telemetry_worker ∷ [])
      ++ (node_parts true
          ∷ (planned (has_endpoints config) (telemetry_task ∷ [])
              ++ (pool (config.is_authority) ∷ import_queue ∷ [])))

  abbrev pub report_plan : Configuration K → Option HwBench → List Step
  report_plan config none = []
  report_plan config (some bench) =
      hwbench_printed
      ∷ (planned (if meets_reference bench then false else config.is_authority)
            (hardware_warning ∷ [])
          ++ planned (has_endpoints config) (hwbench_telemetry ∷ []))

  abbrev pub join_plan : Configuration K → ParaId → List Step
  join_plan config id =
      overseer
      ∷ relay_tasks id (if config.is_authority then collator else full_node) 6000
      ∷ planned (config.is_authority) (aura id 6000 2000 ∷ [])

  abbrev pub plan : Configuration K → ParaId → Option HwBench → List Step
  plan config id bench =
      partial_plan config
      ++ (relay_chain
          ∷ network id resistant
          ∷ (planned (config.offchain_worker_enabled)
                (offchain (config.is_authority) false ∷ offchain_task ∷ [])
              ++ (tasks ∷ (report_plan config bench ++ join_plan config id))))
