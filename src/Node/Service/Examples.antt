-- ===== src/Node/Service/Examples.antt =====
-- A collator and a full node, over crates whose values are numbers.
use swarm_robotics_parachain.Common.{
  ℕ, true, false, none, some, List, [], ◌∷◌, map, inr, ◌≡◌, ◌≢◌, refl,
}
use swarm_robotics_parachain.Common.{All}
use swarm_robotics_parachain.Host.BlockWeights.{host_arithmetic, host_builder}
use swarm_robotics_parachain.Host.Weight.{host_weights, host_perbills}
use swarm_robotics_parachain.Node.Service.Timing.{Agrees, start_parachain_node-Agrees}
use swarm_robotics_parachain.Node.Effects.{done, panicked, run}
use swarm_robotics_parachain.Node.Service.{
  Crates, Configuration, collator, resistant, Answers, start_parachain_node,
}
use swarm_robotics_parachain.Node.Effects.Ends.{Follows}
use swarm_robotics_parachain.Node.Service.Plan.{
  Step, step, plan, node_parts, pool, import_queue, relay_chain, network, tasks, overseer,
  relay_tasks, aura,
}
use swarm_robotics_parachain.Node.Service.Promises.{
  start_parachain_node_plan, start_parachain_node_returns, start_parachain_node_unpanicked,
}

abbrev pub crates : Crates
crates = record {
  Error = ℕ;
  Endpoint = ℕ;
  WasmMethod = ℕ;
  PoolOptions = ℕ;
  Registry = ℕ;
  Worker = ℕ;
  Telemetry = ℕ;
  TelemetryHandle = ℕ;
  WorkerHandle = ℕ;
  Client = ℕ;
  Backend = ℕ;
  Keystore = ℕ;
  Pool = ℕ;
  BlockImport = ℕ;
  ImportQueue = ℕ;
  QueueService = ℕ;
  CollatorOptions = ℕ;
  RelayChain = ℕ;
  CollatorPair = ℕ;
  Overseer = ℕ;
  Network = ℕ;
  SyncService = ℕ;
  OffchainWorkers = ℕ;
  HwBench = ℕ;
  ParaId = ℕ;
  new_telemetry = λ w e. w;
  worker_handle = λ w. w;
  telemetry_handle = λ t. t;
  block_import = λ c b. c;
  queue_service = λ q. q;
  meets_reference = λ b. true;
}

-- Every call succeeds; a collator key comes with the relay chain interface.
abbrev pub answers : Answers crates
answers = record {
  telemetry_worker = λ h. inr 1;
  full_parts = λ h. inr (2, 3, 4);
  pool = λ h. 5;
  import_queue = λ h. 6;
  relay_chain = λ h. inr (7, some 8);
  network = λ h. inr (9, 10);
  offchain_workers = λ h. inr 11;
  tasks = λ h. inr tt;
  overseer = λ h. inr 12;
  relay_tasks = λ h. inr tt;
}

abbrev pub authority : Configuration crates
authority = record {
  telemetry_endpoints = none;
  default_heap_pages = some 64;
  wasm_method = 0;
  max_runtime_instances = 8;
  runtime_cache_size = 2;
  is_authority = true;
  transaction_pool = 0;
  prometheus_registry = none;
  offchain_worker_enabled = false;
}

abbrev collator_steps : List (Step crates)
collator_steps =
    node_parts true
    ∷ pool true
    ∷ import_queue
    ∷ relay_chain
    ∷ network 1000 resistant
    ∷ tasks
    ∷ overseer
    ∷ relay_tasks 1000 collator 6000
    ∷ aura 1000 6000 2000
    ∷ []

collator_plan : plan crates authority 1000 none ≡ collator_steps
collator_plan = refl

start_parachain_node_plan_example :
    let started =
      run (start_parachain_node crates answers (λ c. c) authority authority 0 1000 none) [] in
    Follows started.0 (map (step crates) started.1) collator_steps
start_parachain_node_plan_example =
    start_parachain_node_plan crates answers (λ c. c) authority authority 0 1000 none

start_parachain_node_unpanicked_example :
    (run (start_parachain_node crates answers (λ c. c) authority authority 0 1000 none) []).0
    ≢ panicked
start_parachain_node_unpanicked_example =
    start_parachain_node_unpanicked crates answers (λ c. c) authority authority 0 1000 none
      (λ h a k. cc k)

start_parachain_node_returns_example :
    ((c : ℕ) × ((run
          (start_parachain_node crates answers (λ c. c) authority authority 0 1000 none)
          []).0
        ≡ done c))
    × (map
          (step crates)
          (run (start_parachain_node crates answers (λ c. c) authority authority 0 1000 none) []).1
        ≡ collator_steps)
start_parachain_node_returns_example =
    start_parachain_node_returns crates answers (λ c. c) authority authority 0 1000 none
      (λ h. tt, λ h. tt, λ h a k. cc k, λ h. tt, λ h. tt, λ h. tt, λ h. tt, λ h. tt)

start_parachain_node-Agrees_example :
    All (Agrees crates host_weights host_perbills host_arithmetic host_builder 5_242_880) (
      map
        (step crates)
        (run (start_parachain_node crates answers (λ c. c) authority authority 0 1000 none) []).1)
start_parachain_node-Agrees_example =
    start_parachain_node-Agrees crates host_weights host_perbills host_arithmetic host_builder
      5_242_880 answers (λ c. c) authority authority 0 1000 none
