-- ===== src/Node/Command/Plan.antt =====
-- The calls that each subcommand makes once its runner is there, in order.
use swarm_robotics_parachain.Common.{
  ℕ, Bool, true, false, Option, none, some, List, [], ◌∷◌, ◌++◌, map, unwrap_or,
}
use swarm_robotics_parachain.Node.ChainSpec.{Read, try_get}
use swarm_robotics_parachain.Node.ChainSpec.Reads.{reads}
use swarm_robotics_parachain.Node.Command.{
  NodeCrates, Config, pallet, block, storage, machine, other, Subcommand, build_spec, check_block,
  export_blocks, export_state, import_blocks, revert, purge_chain, export_genesis_head,
  export_genesis_wasm, benchmark, Cli, RunnerFor, command, node, RelayCli, Work, spec_built,
  block_checked, blocks_exported, state_exported, blocks_imported, reverted, chain_purged,
  head_exported, wasm_exported, pallets_benchmarked, block_benchmarked, storage_benchmarked,
  machine_benchmarked, Call, create_runner, service_call, read_call, create_configuration,
  create_dir_all, gather_hwbench, log_collating, run_work, await_exit, Answers, relay_chain_cli,
  para_id_of,
}
use swarm_robotics_parachain.Node.Effects.Laws.{planned}
use swarm_robotics_parachain.Node.Service

module _ (B : NodeCrates) where
  -- A call, without what earlier calls returned.
  pub data Step : Type 0 where
    runner_created : RunnerFor B → Step
    service_step : Service.Plan.Step B.service → Step
    spec_read : Read → Step
    relay_configured : RelayCli B → Step
    dir_created : B.clap.PathBuf → Step
    hwbench_gathered : B.clap.PathBuf → Step
    collating : Bool → Step
    worked : Subcommand B → Step
    exit_awaited : Step

  abbrev pub subcommand_of : Work B → Subcommand B
  subcommand_of (spec_built cmd spec network) = build_spec cmd
  subcommand_of (block_checked cmd client queue) = check_block cmd
  subcommand_of (blocks_exported cmd client database) = export_blocks cmd
  subcommand_of (state_exported cmd client spec) = export_state cmd
  subcommand_of (blocks_imported cmd client queue) = import_blocks cmd
  subcommand_of (reverted cmd client backend) = revert cmd
  subcommand_of (chain_purged cmd config relay) = purge_chain cmd
  subcommand_of (head_exported cmd client) = export_genesis_head cmd
  subcommand_of (wasm_exported cmd spec) = export_genesis_wasm cmd
  subcommand_of (pallets_benchmarked cmd spec) = benchmark (pallet cmd)
  subcommand_of (block_benchmarked cmd client) = benchmark (block cmd)
  subcommand_of (storage_benchmarked cmd config client backend) = benchmark (storage cmd)
  subcommand_of (machine_benchmarked cmd config) = benchmark (machine cmd)

  abbrev pub step : Call B → Step
  step (create_runner cmd) = runner_created cmd
  step (service_call call) = service_step (Service.Plan.step B.service call)
  step (read_call read) = spec_read read
  step (create_configuration cli) = relay_configured cli
  step (create_dir_all path) = dir_created path
  step (gather_hwbench path) = hwbench_gathered path
  step (log_collating yes_or_no) = collating yes_or_no
  step (run_work work) = worked (subcommand_of work)
  step await_exit = exit_awaited

  abbrev pub runner_for : Cli B → Option (Subcommand B) → RunnerFor B
  runner_for cli (some c) = command c
  runner_for cli none = node (cli.run_cmd)

  module _ (N : Answers B) (cli : Cli B) (config : Config B) where
    -- The services without the network, as chain operations need them.
    abbrev pub services_plan : List Step
    services_plan = map service_step (Service.Plan.partial_plan B.service (config.services))

    abbrev pub path_plan : Option B.clap.PathBuf → List Step
    path_plan none = []
    path_plan (some path) = dir_created path ∷ hwbench_gathered path ∷ []

    abbrev pub hwbench_plan : Bool → List Step
    hwbench_plan true = []
    hwbench_plan false = path_plan (B.database_path (config.database))

    abbrev pub path_bench : Option B.clap.PathBuf → Option B.service.HwBench
    path_bench none = none
    path_bench (some path) = some (N.hwbench)

    abbrev pub measured : Bool → Option B.service.HwBench
    measured true = none
    measured false = path_bench (B.database_path (config.database))

    -- Without a parachain id nothing is started.
    abbrev pub node_plan : Option ℕ → List Step
    node_plan none = []
    node_plan (some id) =
        relay_configured (relay_chain_cli B N cli config)
        ∷ collating (config.services.is_authority)
        ∷ map service_step (
            Service.Plan.plan B.service (B.prepare_node_config (config.services)) (B.para_id id)
              (measured (cli.no_hardware_benchmarks)))

    abbrev pub run_plan : Bool → Option (Subcommand B) → List Step
    run_plan enabled (some (build_spec cmd)) = worked (build_spec cmd) ∷ []
    run_plan enabled (some (check_block cmd)) = services_plan ++ (worked (check_block cmd) ∷ [])
    run_plan enabled (some (export_blocks cmd)) = services_plan ++ (worked (export_blocks cmd) ∷ [])
    run_plan enabled (some (export_state cmd)) = services_plan ++ (worked (export_state cmd) ∷ [])
    run_plan enabled (some (import_blocks cmd)) = services_plan ++ (worked (import_blocks cmd) ∷ [])
    run_plan enabled (some (revert cmd)) = services_plan ++ (worked (revert cmd) ∷ [])
    run_plan enabled (some (purge_chain cmd)) =
        relay_configured (relay_chain_cli B N cli config) ∷ worked (purge_chain cmd) ∷ []
    run_plan enabled (some (export_genesis_head cmd)) =
        services_plan ++ (worked (export_genesis_head cmd) ∷ [])
    run_plan enabled (some (export_genesis_wasm cmd)) =
        map spec_read (reads (unwrap_or (B.chain_of cmd) ""))
        ++ (worked (export_genesis_wasm cmd) ∷ [])
    run_plan enabled (some (benchmark (pallet cmd))) =
        planned enabled (worked (benchmark (pallet cmd)) ∷ [])
    run_plan enabled (some (benchmark (block cmd))) =
        services_plan ++ (worked (benchmark (block cmd)) ∷ [])
    run_plan enabled (some (benchmark (storage cmd))) =
        planned enabled (services_plan ++ (worked (benchmark (storage cmd)) ∷ []))
    run_plan enabled (some (benchmark (machine cmd))) = worked (benchmark (machine cmd)) ∷ []
    run_plan enabled (some (benchmark (other cmd))) = []
    run_plan enabled none =
        (hwbench_plan (cli.no_hardware_benchmarks)
          ++ node_plan (para_id_of B N (try_get B.sdk B.specs (config.chain_spec))))
        ++ (exit_awaited ∷ [])
