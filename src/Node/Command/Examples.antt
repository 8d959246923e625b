-- ===== src/Node/Command/Examples.antt =====
-- A collator on the local chain spec, and the refusals of a build without benchmarks.
use swarm_robotics_parachain.Common.{
  ℕ, true, false, Option, none, some, List, [], ◌∷◌, ◌++◌, map, All, inr, ◌≡◌, ◌≢◌, refl,
}
use swarm_robotics_parachain.Node.ChainSpec.{Extensions, Settings, SpecCrates, local_settings}
use swarm_robotics_parachain.Node.Command.{
  NodeCrates, Config, pallet, check_block, benchmark, Cli, node, Answers, Runners, await_exit,
  run_work,
}
use swarm_robotics_parachain.Node.Command.Offline.{Offline, run-Offline}
use swarm_robotics_parachain.Node.Command.Plan.{Step, runner_created, step, hwbench_plan}
use swarm_robotics_parachain.Node.Effects.Ends.{Follows}
use swarm_robotics_parachain.Node.Command.Promises.{
  ran, planned_calls, run_planned, run_unpanicked, run_returns,
}
use swarm_robotics_parachain.Node.Command.Refuse.{run_without_para_id}
use swarm_robotics_parachain.Node.Effects.{done, failed, panicked, ◌>>=◌, call}
use swarm_robotics_parachain.Node.RelayChainCli.Examples.{no_args}
use swarm_robotics_parachain.Node.Service
use swarm_robotics_parachain.Node.Service.Examples
use swarm_robotics_parachain.Runtime.Genesis.Examples.{keyring}

-- A chain spec is what its builder was given, or nothing, without extensions.
abbrev extension_of : Option (Settings keyring ℕ) → Option Extensions
extension_of none = none
extension_of (some s) = some (s.extensions)

abbrev specs : SpecCrates keyring
specs = record {
  Wasm = ℕ;
  Spec = Option (Settings keyring ℕ);
  wasm_binary = some 77;
  build = λ s. some s;
  extension = extension_of;
  extension-build = λ s. refl;
}

abbrev host : NodeCrates
host = record {
  sdk = keyring;
  specs = specs;
  clap = no_args;
  service = Service.Examples.crates;
  Cmd = ℕ;
  CollatorCmd = ℕ;
  Runner = Option (Settings keyring ℕ);
  Network = ℕ;
  Database = ℕ;
  from_text = λ s. 1;
  input = λ s. 2;
  from_service = λ e. 3;
  executable_name = "node";
  chain_of = λ c. none;
  collator_options = λ c. c;
  database_path = λ d. none;
  para_id = λ n. n;
  prepare_node_config = λ c. c;
}

-- The runner has the chain spec.
abbrev config : Option (Settings keyring ℕ) → Config host
config spec = record {
  chain_spec = spec;
  base_path = "data" ∷ [];
  network = 0;
  database = 0;
  services = Service.Examples.authority;
}

abbrev answers : Option (Settings keyring ℕ) → Answers host
answers spec = record {
  runner = inr spec;
  services = Service.Examples.answers;
  from_json_file = λ path h. inr spec;
  relay_configuration = inr Service.Examples.authority;
  hwbench = 0;
  work = inr tt;
  exit = inr tt;
}

-- A runner that calls its closure on the configuration.
abbrev runners : (spec : Option (Settings keyring ℕ)) → Runners host (answers spec)
runners spec = record {
  config = config;
  sync_run = λ r f. f (config r);
  async_run = λ r f. f (config r) >>= λ w. call (run_work w) (λ h. inr tt);
  run_node_until_exit = λ r f. f (config r) >>= λ u. call await_exit (λ h. inr tt);
  sync_run-eq = λ r f. refl;
  async_run-eq = λ r f. refl;
  run_node_until_exit-eq = λ r f. refl;
}

abbrev local_spec : Option (Settings keyring ℕ)
local_spec = some (local_settings keyring specs 77)

abbrev collator : Cli host
collator = record {
  subcommand = none;
  run_cmd = 0;
  no_hardware_benchmarks = true;
  relay_chain_args = [];
}

abbrev checker : Cli host
checker = record collator { subcommand = some (check_block 5) }

run_planned_example :
    let (result, calls) = ran host (answers local_spec) (runners local_spec) false collator in
    Follows result
      (map (step host) calls)
      (planned_calls host (answers local_spec) (runners local_spec) false collator local_spec refl)
run_planned_example =
    run_planned host (answers local_spec) (runners local_spec) false collator local_spec refl

run_unpanicked_example :
    (ran host (answers local_spec) (runners local_spec) false collator).0 ≢ panicked
run_unpanicked_example =
    run_unpanicked host (answers local_spec) (runners local_spec) false collator local_spec refl
      (λ e. cc e) (λ h a k. cc k)

run_returns_example :
    ((u : Unit {0}) × ((ran host (answers local_spec) (runners local_spec) false collator).0
        ≡ done u))
    × (map (step host) (ran host (answers local_spec) (runners local_spec) false collator).1
        ≡ planned_calls host
            (answers local_spec)
            (runners local_spec)
            false
            collator
            local_spec
            refl)
run_returns_example =
    run_returns host (answers local_spec) (runners local_spec) false collator local_spec refl
      (
        (λ h. tt, λ h. tt, λ h a k. cc k, λ h. tt, λ h. tt, λ h. tt, λ h. tt, λ h. tt),
        tt,
        tt,
        tt,
        λ p h. tt,
      )
      (λ e. cc e)

abbrev benchmarker : Cli host
benchmarker = record collator { subcommand = some (benchmark (pallet 5)) }

run_without_para_id_example :
    ((ran host (answers none) (runners none) false collator).0 ≡ failed 1)
    × ((q : List (Step host)) × (map
              (step host)
              (ran host (answers none) (runners none) false collator).1
            ++ q
          ≡ runner_created (node 0) ∷ hwbench_plan host (answers none) collator (config none) true))
run_without_para_id_example =
    run_without_para_id host (answers none) (runners none) false collator none refl refl refl

run-Offline_example :
    All
      (Offline host)
      (map (step host) (ran host (answers local_spec) (runners local_spec) false checker).1)
run-Offline_example =
    run-Offline host (answers local_spec) (runners local_spec) false checker (check_block 5) refl
