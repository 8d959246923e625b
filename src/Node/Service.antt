-- ===== src/Node/Service.antt =====
-- node/src/service.rs: how the node's services are put together and started.
pub mod Examples
pub mod Partial
pub mod Plan
pub mod Promises
pub mod Start
pub mod Timing
pub mod Types
use swarm_robotics_parachain.Common.{
  ℕ, ◌*◌, Bool, true, false, Option, none, some, List, [], ◌∷◌, ◌⊎◌, inl, inr, if◌then◌else◌,
}
use swarm_robotics_parachain.Node.Effects.{Io, ◌>>=◌, ◌>>◌, pure, call, expect, notify, when}
pub use swarm_robotics_parachain.Node.Service.Types.{
  Crates, Configuration, HeapAllocStrategy, default_heap_alloc_strategy, static_pages, Executor,
  DaRecoveryProfile, collator, full_node, SybilResistance, resistant, unresistant, Service,
  NetworkParams, OffchainOptions, TaskParams, RelayTaskParams, AuraParams, Call,
  telemetry_worker_new, new_full_parts, spawn_telemetry, build_pool, verifying_import_queue,
  build_relay_chain_interface, build_network, offchain_workers_new, spawn_offchain_workers,
  spawn_tasks, print_hwbench, warn_hardware, spawn_telemetry_hwbench, get_overseer_handle,
  start_relay_chain_tasks, spawn_aura, Answers,
}
unfoldable pub use swarm_robotics_parachain.Node.Service.Partial.{
  Run, map_option, non_empty, heap_pages, executor, start_telemetry, run_worker, build_import_queue,
  new_partial,
}

module _ (K : Crates) where
  open K use {
    Error, Endpoint, Worker, Telemetry, TelemetryHandle, Client, Backend, Keystore, Pool,
    BlockImport, ImportQueue, CollatorOptions, RelayChain, CollatorPair, Overseer, Network,
    SyncService, HwBench, ParaId, new_telemetry, worker_handle, telemetry_handle, block_import,
    queue_service, meets_reference,
  }

  module _ (N : Answers K) where
    abbrev pub start_consensus :
        Client
        → Backend
        → BlockImport
        → Option (K.Registry)
        → Option TelemetryHandle
        → RelayChain
        → Pool
        → Keystore
        → ℕ
        → ParaId
        → CollatorPair
        → Overseer
        → SyncService
        → Run K (Unit {0})
    start_consensus client backend import registry telemetry relay pool keystore slot id key
          overseer sync =
        do
          notify (
              spawn_aura record {
                import_block = import;
                para_client = client;
                para_backend = backend;
                relay_client = relay;
                keystore = keystore;
                collator_key = key;
                para_id = id;
                overseer_handle = overseer;
                relay_chain_slot_duration = slot;
                transaction_pool = pool;
                prometheus_registry = registry;
                telemetry = telemetry;
                sync_service = sync;
                authoring_duration = 2000;
                reinitialize = false;
                max_pov_percentage = none;
              })
          pure tt

    abbrev pub start_offchain : Configuration K → Service K → Network → Run K (Unit {0})
    start_offchain config params network = do
      workers ←
          call
            (offchain_workers_new record {
              client = params.client;
              keystore = some (params.keystore);
              transaction_pool = some (params.transaction_pool);
              network = network;
              is_validator = config.is_authority;
              enable_http_requests = false;
            })
            (N.offchain_workers)
      notify (spawn_offchain_workers workers (params.client))

    abbrev pub report_telemetry : Option Telemetry → HwBench → Run K (Unit {0})
    report_telemetry none bench = pure tt
    report_telemetry (some t) bench = notify (spawn_telemetry_hwbench (telemetry_handle t) bench)

    abbrev pub report_hwbench : Bool → Option Telemetry → Option HwBench → Run K (Unit {0})
    report_hwbench validator telemetry none = pure tt
    report_hwbench validator telemetry (some bench) = do
      notify (print_hwbench bench)
      when (if meets_reference bench then false else validator) (notify warn_hardware)
      report_telemetry telemetry bench

    abbrev pub recovery_profile : Bool → DaRecoveryProfile K
    recovery_profile validator = if validator then collator else full_node

    -- `Duration::from_secs(6)`
    abbrev pub relay_chain_slot_duration : ℕ
    relay_chain_slot_duration = 6 * 1000

    -- From the overseer handle on.
    abbrev pub join_relay_chain :
        Configuration K
        → Service K
        → RelayChain
        → Option CollatorPair
        → SyncService
        → ParaId
        → Run K Client
    join_relay_chain config params relay key sync id = do
      overseer ← call (get_overseer_handle relay) (N.overseer)
      call
          (start_relay_chain_tasks record {
            client = params.client;
            para_id = id;
            relay_chain = relay;
            da_recovery_profile = recovery_profile (config.is_authority);
            import_queue = queue_service (params.import_queue);
            relay_chain_slot_duration = relay_chain_slot_duration;
            recovery_handle = overseer;
            sync_service = sync;
          })
          (N.relay_tasks)
      when (config.is_authority) (do
        collator_key ← expect key
        start_consensus (params.client) (params.backend) (params.import_block)
            (config.prometheus_registry) (map_option K telemetry_handle (params.telemetry)) relay
            (params.transaction_pool) (params.keystore) relay_chain_slot_duration id collator_key
            overseer sync)
      pure (params.client)

    -- The first argument is the configuration that `prepare_node_config` returns.
    pub start_prepared :
        Configuration K → Configuration K → CollatorOptions → ParaId → Option HwBench → Run K Client
    unfolding new_partial
    start_prepared config polkadot_config options id hwbench = do
      params ← new_partial K N config
      (relay, collator_key) ←
          call
            (build_relay_chain_interface polkadot_config config (params.worker_handle) options
              hwbench)
            (N.relay_chain)
      (network, sync) ←
          call
            (build_network record {
              client = params.client;
              transaction_pool = params.transaction_pool;
              para_id = id;
              relay_chain = relay;
              import_queue = params.import_queue;
              sybil_resistance_level = resistant;
            })
            (N.network)
      when (config.offchain_worker_enabled) (start_offchain config params network)
      call
          (spawn_tasks record {
            client = params.client;
            transaction_pool = params.transaction_pool;
            keystore = params.keystore;
            backend = params.backend;
            network = network;
            sync_service = sync;
            telemetry = params.telemetry;
          })
          (N.tasks)
      report_hwbench (config.is_authority) (params.telemetry) hwbench
      join_relay_chain config params relay collator_key sync id

    pub start_parachain_node :
        (Configuration K → Configuration K)
        → Configuration K
        → Configuration K
        → CollatorOptions
        → ParaId
        → Option HwBench
        → Run K Client
    start_parachain_node prepare_node_config parachain_config =
        start_prepared (prepare_node_config parachain_config)
