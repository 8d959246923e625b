-- ===== src/Node/Service/Types.antt =====
-- node/src/service.rs: the configuration it reads, what it takes from the crates around it, and the
-- calls it makes of them.
use swarm_robotics_parachain.Common.{ℕ, Bool, Option, List, ◌⊎◌}

-- The types of the crates around the node, and their functions that only compute a value.
pub record Crates : Type 1 where
  pub Error : Type 0
  pub Endpoint : Type 0
  pub WasmMethod : Type 0
  pub PoolOptions : Type 0
  pub Registry : Type 0
  pub Worker : Type 0
  pub Telemetry : Type 0
  pub TelemetryHandle : Type 0
  pub WorkerHandle : Type 0
  pub Client : Type 0
  pub Backend : Type 0
  pub Keystore : Type 0
  pub Pool : Type 0
  pub BlockImport : Type 0
  pub ImportQueue : Type 0
  pub QueueService : Type 0
  pub CollatorOptions : Type 0
  pub RelayChain : Type 0
  pub CollatorPair : Type 0
  pub Overseer : Type 0
  pub Network : Type 0
  pub SyncService : Type 0
  pub OffchainWorkers : Type 0
  pub HwBench : Type 0
  pub ParaId : Type 0
  pub new_telemetry : Worker → List Endpoint → Telemetry
  pub worker_handle : Worker → WorkerHandle
  pub telemetry_handle : Telemetry → TelemetryHandle
  pub block_import : Client → Backend → BlockImport
  pub queue_service : ImportQueue → QueueService
  -- Whether `SUBSTRATE_REFERENCE_HARDWARE.check_hardware` finds no fault.
  pub meets_reference : HwBench → Bool

module _ (K : Crates) where
  open K use {
    Error, Endpoint, WasmMethod, PoolOptions, Registry, Worker, Telemetry, TelemetryHandle,
    WorkerHandle, Client, Backend, Keystore, Pool, BlockImport, ImportQueue, QueueService,
    CollatorOptions, RelayChain, CollatorPair, Overseer, Network, SyncService, OffchainWorkers,
    HwBench, ParaId,
  }

  -- The fields of `Configuration` that service.rs reads itself.
  pub record Configuration : Type 0 where
    pub telemetry_endpoints : Option (List Endpoint)
    pub default_heap_pages : Option ℕ
    pub wasm_method : WasmMethod
    pub max_runtime_instances : ℕ
    pub runtime_cache_size : ℕ
    pub is_authority : Bool
    pub transaction_pool : PoolOptions
    pub prometheus_registry : Option Registry
    pub offchain_worker_enabled : Bool

  pub data HeapAllocStrategy : Type 0 where
    default_heap_alloc_strategy : HeapAllocStrategy
    static_pages : ℕ → HeapAllocStrategy

  pub record Executor : Type 0 where
    pub execution_method : WasmMethod
    pub onchain_heap : HeapAllocStrategy
    pub offchain_heap : HeapAllocStrategy
    pub max_instances : ℕ
    pub cache_size : ℕ

  pub data DaRecoveryProfile : Type 0 where
    collator : DaRecoveryProfile
    full_node : DaRecoveryProfile

  pub data SybilResistance : Type 0 where
    resistant : SybilResistance
    unresistant : SybilResistance

  pub record Service : Type 0 where
    pub backend : Backend
    pub client : Client
    pub import_queue : ImportQueue
    pub keystore : Keystore
    pub transaction_pool : Pool
    pub import_block : BlockImport
    pub telemetry : Option Telemetry
    pub worker_handle : Option K.WorkerHandle

  pub record NetworkParams : Type 0 where
    pub client : Client
    pub transaction_pool : Pool
    pub para_id : ParaId
    pub relay_chain : RelayChain
    pub import_queue : ImportQueue
    pub sybil_resistance_level : SybilResistance

  pub record OffchainOptions : Type 0 where
    pub client : Client
    pub keystore : Option Keystore
    pub transaction_pool : Option Pool
    pub network : Network
    pub is_validator : Bool
    pub enable_http_requests : Bool

  pub record TaskParams : Type 0 where
    pub client : Client
    pub transaction_pool : Pool
    pub keystore : Keystore
    pub backend : Backend
    pub network : Network
    pub sync_service : SyncService
    pub telemetry : Option Telemetry

  -- Durations are in milliseconds. Handles of the task manager, and closures over what is here
  -- already, are left out of the parameters.
  pub record RelayTaskParams : Type 0 where
    pub client : Client
    pub para_id : ParaId
    pub relay_chain : RelayChain
    pub da_recovery_profile : DaRecoveryProfile
    pub import_queue : QueueService
    pub relay_chain_slot_duration : ℕ
    pub recovery_handle : Overseer
    pub sync_service : SyncService

  pub record AuraParams : Type 0 where
    pub import_block : BlockImport
    pub para_client : Client
    pub para_backend : Backend
    pub relay_client : RelayChain
    pub keystore : Keystore
    pub collator_key : CollatorPair
    pub para_id : ParaId
    pub overseer_handle : Overseer
    pub relay_chain_slot_duration : ℕ
    pub transaction_pool : Pool
    pub prometheus_registry : Option Registry
    pub telemetry : Option TelemetryHandle
    pub sync_service : SyncService
    pub authoring_duration : ℕ
    pub reinitialize : Bool
    pub max_pov_percentage : Option ℕ

  -- The calls of the crates around the node, and the tasks that are spawned.
  pub data Call : Type 0 where
    telemetry_worker_new : ℕ → Call
    new_full_parts : Option TelemetryHandle → Executor → Bool → Call
    spawn_telemetry : Worker → Call
    build_pool : Client → Bool → PoolOptions → Option Registry → Call
    verifying_import_queue : Client → BlockImport → Option Registry → Option TelemetryHandle → Call
    build_relay_chain_interface :
        Configuration
        → Configuration
        → Option K.WorkerHandle
        → CollatorOptions
        → Option HwBench
        → Call
    build_network : NetworkParams → Call
    offchain_workers_new : OffchainOptions → Call
    spawn_offchain_workers : OffchainWorkers → Client → Call
    spawn_tasks : TaskParams → Call
    print_hwbench : HwBench → Call
    warn_hardware : Call
    spawn_telemetry_hwbench : TelemetryHandle → HwBench → Call
    get_overseer_handle : RelayChain → Call
    start_relay_chain_tasks : RelayTaskParams → Call
    spawn_aura : AuraParams → Call

  -- What the calls return, after the calls before them; an error is as the code maps it.
  pub record Answers : Type 0 where
    pub telemetry_worker : List Call → Error ⊎ Worker
    pub full_parts : List Call → Error ⊎ (Client × Backend × Keystore)
    pub pool : List Call → Pool
    pub import_queue : List Call → ImportQueue
    pub relay_chain : List Call → Error ⊎ (RelayChain × Option CollatorPair)
    pub network : List Call → Error ⊎ (Network × SyncService)
    pub offchain_workers : List Call → Error ⊎ OffchainWorkers
    pub tasks : List Call → Error ⊎ (Unit {0})
    pub overseer : List Call → Error ⊎ Overseer
    pub relay_tasks : List Call → Error ⊎ (Unit {0})
