-- ===== src/Node/Service/Partial.antt =====
-- `new_partial` and `build_import_queue` of node/src/service.rs.
use swarm_robotics_parachain.Common.{ℕ, true, Option, none, some, List, [], ◌∷◌, inr}
use swarm_robotics_parachain.Node.Effects.{Io, ◌>>=◌, ◌>>◌, pure, call, notify}
use swarm_robotics_parachain.Node.Service.Types.{
  Crates, Configuration, HeapAllocStrategy, default_heap_alloc_strategy, static_pages, Executor,
  Service, Call, telemetry_worker_new, new_full_parts, spawn_telemetry, build_pool,
  verifying_import_queue, Answers,
}

module _ (K : Crates) where
  open K use {
    Error, Endpoint, Worker, Telemetry, TelemetryHandle, Client, Backend, Keystore, Pool,
    BlockImport, ImportQueue, CollatorOptions, RelayChain, CollatorPair, Overseer, Network,
    SyncService, HwBench, ParaId, new_telemetry, worker_handle, telemetry_handle, block_import,
    queue_service, meets_reference,
  }

  abbrev pub Run : Type 0 → Type 0
  Run A = Io (Call K) Error A

  abbrev pub map_option {ℓ κ} : {A : Type ℓ} {B : Type κ} → (A → B) → Option A → Option B
  map_option f none = none
  map_option f (some a) = some (f a)

  -- `.filter(|x| !x.is_empty())`
  abbrev pub non_empty : Option (List Endpoint) → Option (List Endpoint)
  non_empty none = none
  non_empty (some []) = none
  non_empty (some (e ∷ es)) = some (e ∷ es)

  abbrev pub heap_pages : Option ℕ → HeapAllocStrategy K
  heap_pages none = default_heap_alloc_strategy
  heap_pages (some h) = static_pages h

  abbrev pub executor : Configuration K → Executor K
  executor config = record {
    execution_method = config.wasm_method;
    onchain_heap = heap_pages (config.default_heap_pages);
    offchain_heap = heap_pages (config.default_heap_pages);
    max_instances = config.max_runtime_instances;
    cache_size = config.runtime_cache_size;
  }

  module _ (N : Answers K) where
    abbrev pub start_telemetry : Option (List Endpoint) → Run (Option (Worker × Telemetry))
    start_telemetry none = pure none
    start_telemetry (some endpoints) = do
      worker ← call (telemetry_worker_new 16) (N.telemetry_worker)
      pure (some (worker, new_telemetry worker endpoints))

    abbrev pub run_worker : Option (Worker × Telemetry) → Run (Option Telemetry)
    run_worker none = pure none
    run_worker (some (worker, telemetry)) = do
      notify (spawn_telemetry worker)
      pure (some telemetry)

    abbrev pub build_import_queue :
        Client → BlockImport → Configuration K → Option TelemetryHandle → Run ImportQueue
    build_import_queue client import config telemetry =
        call (verifying_import_queue client import (config.prometheus_registry) telemetry)
          (λ h. inr (N.import_queue h))

    unfoldable pub new_partial : Configuration K → Run (Service K)
    new_partial config = do
      started ← start_telemetry (non_empty (config.telemetry_endpoints))
      (client, backend, keystore) ←
          call
            (new_full_parts (map_option (λ x. telemetry_handle x.1) started) (executor config) true)
            (N.full_parts)
      telemetry ← run_worker started
      pool ←
          call
            (build_pool client (config.is_authority) (config.transaction_pool)
              (config.prometheus_registry))
            (λ h. inr (N.pool h))
      queue ←
          build_import_queue client (block_import client backend) config
            (map_option telemetry_handle telemetry)
      pure record {
        backend = backend;
        client = client;
        import_queue = queue;
        keystore = keystore;
        transaction_pool = pool;
        import_block = block_import client backend;
        telemetry = telemetry;
        worker_handle = map_option (λ x. worker_handle x.0) started;
      }
