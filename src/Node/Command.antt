-- ===== src/Node/Command.antt =====
-- `run` of node/src/command.rs: the dispatch of the subcommands.
pub mod About
pub mod Dispatch
pub mod Examples
pub mod Offline
pub mod Plan
pub mod Promises
pub mod Refuse
pub mod Steps
pub mod Types
use Prim.Native.String.{String, ◌++◌ as ◌<>◌}
use swarm_robotics_parachain.Common.{
  ℕ, Bool, true, false, Option, none, some, List, [], ◌∷◌, ◌⊎◌, inl, inr, unwrap_or,
}
use swarm_robotics_parachain.Node.ChainSpec.{Extensions, try_get, load_spec}
use swarm_robotics_parachain.Node.Effects.{
  Io, ◌>>=◌, ◌>>◌, pure, call, expect, fail, ok_or, notify, lift,
}
use swarm_robotics_parachain.Node.RelayChainCli
use swarm_robotics_parachain.Node.Service
pub use swarm_robotics_parachain.Node.Command.Types.{
  NodeCrates, Config, BenchmarkCmd, pallet, block, storage, machine, other, Subcommand, build_spec,
  check_block, export_blocks, export_state, import_blocks, revert, purge_chain, export_genesis_head,
  export_genesis_wasm, benchmark, Cli, RunnerFor, command, node, RelayCli, Work, spec_built,
  block_checked, blocks_exported, state_exported, blocks_imported, reverted, chain_purged,
  head_exported, wasm_exported, pallets_benchmarked, block_benchmarked, storage_benchmarked,
  machine_benchmarked, Call, create_runner, service_call, read_call, create_configuration,
  create_dir_all, gather_hwbench, log_collating, run_work, await_exit, Answers, Run, Runners,
}

abbrev pub pallet_refusal : String
pallet_refusal =
    "Benchmarking wasn't enabled when building the node. You can enable it with `--features runtime-benchmarks`."

abbrev pub storage_refusal : String
storage_refusal = "Compile with --features=runtime-benchmarks to enable storage benchmarks."

abbrev pub unsupported : String
unsupported = "Benchmarking sub-command unsupported"

abbrev pub no_para_id : String
no_para_id = "Could not find parachain ID in chain-spec."

module _ (B : NodeCrates) (N : Answers B) where
  open B use {Cmd, from_text}

  abbrev pub Done : Type 0
  Done = Run B (Unit {0})

  abbrev pub new_partial : Config B → Run B (Service.Service B.service)
  new_partial config =
      lift service_call B.from_service
        (Service.new_partial B.service (N.services) (config.services))

  abbrev pub work : Work B → Done
  work w = call (run_work w) (λ h. N.work)

  abbrev pub relay_chain_cli : Cli B → Config B → RelayCli B
  relay_chain_cli cli config =
      RelayChainCli.new B.sdk B.specs B.clap
        record { chain_spec = config.chain_spec; base_path = config.base_path }
        (B.executable_name ∷ cli.relay_chain_args)

  abbrev pub text_error : {A : Type 0} → String ⊎ A → B.clap.Error ⊎ A
  text_error (inl e) = inl (from_text ("Relay chain argument error: " <> e))
  text_error (inr a) = inr a

  -- `SubstrateCli::create_configuration` of the relay chain's command line.
  abbrev pub relay_configuration : RelayCli B → Run B (Service.Configuration B.service)
  relay_configuration polkadot_cli =
      call (create_configuration polkadot_cli) (λ h. text_error (N.relay_configuration))

  abbrev pub gather : Option B.clap.PathBuf → Run B (Option B.service.HwBench)
  gather none = pure none
  gather (some path) = do
    notify (create_dir_all path)
    bench ← call (gather_hwbench path) (λ h. inr (N.hwbench))
    pure (some bench)

  abbrev pub hwbench : Bool → Config B → Run B (Option B.service.HwBench)
  hwbench true config = pure none
  hwbench false config = gather (B.database_path (config.database))

  abbrev pub para_id_of : Option Extensions → Option ℕ
  para_id_of none = none
  para_id_of (some e) = some (e.para_id)

  -- The closure that starts the node.
  pub start_node : Cli B → Config B → Done
  start_node cli config = do
    bench ← hwbench (cli.no_hardware_benchmarks) config
    para_id ← ok_or (para_id_of (try_get B.sdk B.specs (config.chain_spec))) (from_text no_para_id)
    polkadot_config ← relay_configuration (relay_chain_cli cli config)
    notify (log_collating (config.services.is_authority))
    client ← lift service_call B.from_service (
        Service.start_parachain_node B.service (N.services) B.prepare_node_config (config.services)
          polkadot_config (B.collator_options (cli.run_cmd)) (B.para_id para_id) bench)
    pure tt

  module _ (R : Runners B N) (runtime_benchmarks : Bool) where
    -- `construct_async_run!`
    abbrev pub construct_async_run :
        Subcommand B → (Config B → Service.Service B.service → Work B) → Done
    construct_async_run cmd code = do
      runner ← call (create_runner (command cmd)) (λ h. N.runner)
      R.async_run runner
          (λ config. do components ← new_partial config; pure (code config components))

    abbrev pub pallet_benchmark : Bool → B.Runner → Cmd → Done
    pallet_benchmark true runner cmd =
        R.sync_run runner (λ config. work (pallets_benchmarked cmd (config.chain_spec)))
    pallet_benchmark false runner cmd = fail (from_text pallet_refusal)

    abbrev pub storage_benchmark : Bool → B.Runner → Cmd → Done
    storage_benchmark false runner cmd = fail (B.input storage_refusal)
    storage_benchmark true runner cmd = R.sync_run runner (λ config. do
      partials ← new_partial config
      work (storage_benchmarked cmd config (partials.client) (partials.backend)))

    abbrev pub run_benchmark : B.Runner → BenchmarkCmd B → Done
    run_benchmark runner (pallet cmd) = pallet_benchmark runtime_benchmarks runner cmd
    run_benchmark runner (block cmd) =
        R.sync_run runner (λ config. do
          partials ← new_partial config
          work (block_benchmarked cmd (partials.client)))
    run_benchmark runner (storage cmd) = storage_benchmark runtime_benchmarks runner cmd
    run_benchmark runner (machine cmd) =
        R.sync_run runner (λ config. work (machine_benchmarked cmd config))
    run_benchmark runner (other cmd) = fail (from_text unsupported)

    abbrev pub run_subcommand : Cli B → Option (Subcommand B) → Done
    run_subcommand cli (some (build_spec cmd)) = do
      runner ← call (create_runner (command (build_spec cmd))) (λ h. N.runner)
      R.sync_run runner (λ config. work (spec_built cmd (config.chain_spec) (config.network)))
    run_subcommand cli (some (check_block cmd)) =
        construct_async_run (check_block cmd)
          (λ config components. block_checked cmd (components.client) (components.import_queue))
    run_subcommand cli (some (export_blocks cmd)) =
        construct_async_run (export_blocks cmd)
          (λ config components. blocks_exported cmd (components.client) (config.database))
    run_subcommand cli (some (export_state cmd)) =
        construct_async_run (export_state cmd)
          (λ config components. state_exported cmd (components.client) (config.chain_spec))
    run_subcommand cli (some (import_blocks cmd)) =
        construct_async_run (import_blocks cmd)
          (λ config components. blocks_imported cmd (components.client) (components.import_queue))
    run_subcommand cli (some (revert cmd)) =
        construct_async_run (revert cmd)
          (λ config components. reverted cmd (components.client) (components.backend))
    run_subcommand cli (some (purge_chain cmd)) = do
      runner ← call (create_runner (command (purge_chain cmd))) (λ h. N.runner)
      R.sync_run runner (λ config. do
        polkadot_config ← relay_configuration (relay_chain_cli cli config)
        work (chain_purged cmd config polkadot_config))
    run_subcommand cli (some (export_genesis_head cmd)) = do
      runner ← call (create_runner (command (export_genesis_head cmd))) (λ h. N.runner)
      R.sync_run runner
          (λ config. do partials ← new_partial config; work (head_exported cmd (partials.client)))
    run_subcommand cli (some (export_genesis_wasm cmd)) = do
      runner ← call (create_runner (command (export_genesis_wasm cmd))) (λ h. N.runner)
      R.sync_run runner (λ config. do
        spec ←
            lift read_call from_text
              (load_spec B.sdk B.specs (N.from_json_file) (unwrap_or (B.chain_of cmd) ""))
        work (wasm_exported cmd spec))
    run_subcommand cli (some (benchmark cmd)) = do
      runner ← call (create_runner (command (benchmark cmd))) (λ h. N.runner)
      run_benchmark runner cmd
    run_subcommand cli none = do
      runner ← call (create_runner (node (cli.run_cmd))) (λ h. N.runner)
      R.run_node_until_exit runner (start_node cli)

    pub run : Cli B → Done
    run cli = run_subcommand cli (cli.subcommand)

    -- `main` of node/src/main.rs, on the command line that `run` parses.
    pub main : Cli B → Done
    main = run
