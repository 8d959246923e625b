-- ===== src/Node/Command/Types.antt =====
-- node/src/cli.rs and node/src/command.rs: the command line, what comes from the crates around it,
-- and the calls that the subcommands make.
use Prim.Native.String.{String}
use swarm_robotics_parachain.Common.{ℕ, Bool, Option, List, ◌⊎◌, ◌≡◌}
use swarm_robotics_parachain.Node.ChainSpec.{SpecCrates, Read}
use swarm_robotics_parachain.Node.Effects.{Io, ◌>>=◌, call}
use swarm_robotics_parachain.Node.RelayChainCli.{CliCrates, RelayChainCli}
use swarm_robotics_parachain.Node.Service
use swarm_robotics_parachain.Runtime.Genesis.{Sdk}

-- The crates around the node: those of its parts, and sc_cli, cumulus_client_cli, sc_sysinfo and
-- the benchmarking command line.
pub record NodeCrates : Type 1 where
  pub sdk : Sdk
  pub specs : SpecCrates sdk
  pub clap : CliCrates
  pub service : Service.Crates
  -- The arguments of a subcommand.
  pub Cmd : Type 0
  pub CollatorCmd : Type 0
  pub Runner : Type 0
  pub Network : Type 0
  pub Database : Type 0
  -- `&str` and `String` into an error, `Error::Input`, and `sc_service::Error` into an error.
  pub from_text : String → clap.Error
  pub input : String → clap.Error
  pub from_service : service.Error → clap.Error
  pub executable_name : String
  -- `cmd.shared_params.chain`
  pub chain_of : Cmd → Option String
  pub collator_options : CollatorCmd → service.CollatorOptions
  pub database_path : Database → Option clap.PathBuf
  pub para_id : ℕ → service.ParaId
  pub prepare_node_config : Service.Configuration service → Service.Configuration service

module _ (B : NodeCrates) where
  open B use {Cmd, CollatorCmd, Runner, Network, Database}

  -- The parts of `sc_service::Configuration` that command.rs hands on.
  pub record Config : Type 0 where
    pub chain_spec : B.specs.Spec
    pub base_path : B.clap.PathBuf
    pub network : Network
    pub database : Database
    pub services : Service.Configuration B.service

  pub data BenchmarkCmd : Type 0 where
    pallet : Cmd → BenchmarkCmd
    block : Cmd → BenchmarkCmd
    storage : Cmd → BenchmarkCmd
    machine : Cmd → BenchmarkCmd
    other : Cmd → BenchmarkCmd

  pub data Subcommand : Type 0 where
    build_spec : Cmd → Subcommand
    check_block : Cmd → Subcommand
    export_blocks : Cmd → Subcommand
    export_state : Cmd → Subcommand
    import_blocks : Cmd → Subcommand
    revert : Cmd → Subcommand
    purge_chain : Cmd → Subcommand
    export_genesis_head : Cmd → Subcommand
    export_genesis_wasm : Cmd → Subcommand
    benchmark : BenchmarkCmd → Subcommand

  pub record Cli : Type 0 where
    pub subcommand : Option Subcommand
    pub run_cmd : CollatorCmd
    pub no_hardware_benchmarks : Bool
    pub relay_chain_args : List String

  pub data RunnerFor : Type 0 where
    command : Subcommand → RunnerFor
    -- `cli.run.normalize()`
    node : CollatorCmd → RunnerFor

  abbrev pub RelayCli : Type 0
  RelayCli = RelayChainCli B.sdk B.specs B.clap

  -- What a subcommand of the crates runs on.
  pub data Work : Type 0 where
    spec_built : Cmd → B.specs.Spec → Network → Work
    block_checked : Cmd → B.service.Client → B.service.ImportQueue → Work
    blocks_exported : Cmd → B.service.Client → Database → Work
    state_exported : Cmd → B.service.Client → B.specs.Spec → Work
    blocks_imported : Cmd → B.service.Client → B.service.ImportQueue → Work
    reverted : Cmd → B.service.Client → B.service.Backend → Work
    chain_purged : Cmd → Config → Service.Configuration B.service → Work
    head_exported : Cmd → B.service.Client → Work
    wasm_exported : Cmd → B.specs.Spec → Work
    pallets_benchmarked : Cmd → B.specs.Spec → Work
    block_benchmarked : Cmd → B.service.Client → Work
    -- The database and the storage are those of the backend.
    storage_benchmarked : Cmd → Config → B.service.Client → B.service.Backend → Work
    machine_benchmarked : Cmd → Config → Work

  pub data Call : Type 0 where
    create_runner : RunnerFor → Call
    service_call : Service.Call B.service → Call
    read_call : Read → Call
    create_configuration : RelayCli → Call
    create_dir_all : B.clap.PathBuf → Call
    gather_hwbench : B.clap.PathBuf → Call
    log_collating : Bool → Call
    run_work : Work → Call
    await_exit : Call

  -- What the calls return. A run makes each of these calls once at most.
  pub record Answers : Type 0 where
    pub runner : B.clap.Error ⊎ Runner
    pub services : Service.Answers B.service
    pub from_json_file : String → List Read → String ⊎ B.specs.Spec
    pub relay_configuration : String ⊎ Service.Configuration B.service
    pub hwbench : B.service.HwBench
    pub work : B.clap.Error ⊎ (Unit {0})
    pub exit : B.clap.Error ⊎ (Unit {0})

  abbrev pub Run : Type 0 → Type 0
  Run A = Io Call B.clap.Error A

  -- A runner has a configuration. Where no signal stops the node, `sync_run` calls its closure on it,
  -- `async_run` also awaits the future that its closure returns, and `run_node_until_exit` also
  -- awaits the tasks that its closure has spawned.
  pub record Runners (N : Answers) : Type 0 where
    pub config : Runner → Config
    pub sync_run : Runner → (Config → Run (Unit {0})) → Run (Unit {0})
    pub async_run : Runner → (Config → Run Work) → Run (Unit {0})
    pub run_node_until_exit : Runner → (Config → Run (Unit {0})) → Run (Unit {0})
    pub sync_run-eq : (r : Runner) (f : Config → Run (Unit {0})) → sync_run r f ≡ f (config r)
    pub async_run-eq :
        (r : Runner) (f : Config → Run Work)
        → async_run r f ≡ (f (config r) >>= λ w. call (run_work w) (λ h. N.work))
    pub run_node_until_exit-eq :
        (r : Runner) (f : Config → Run (Unit {0}))
        → run_node_until_exit r f ≡ (f (config r) >>= λ u. call await_exit (λ h. N.exit))
