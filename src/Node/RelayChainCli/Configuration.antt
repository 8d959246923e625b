-- ===== src/Node/RelayChainCli/Configuration.antt =====
-- `CliConfiguration` for `RelayChainCli` of node/src/command.rs: where each setting of the relay chain
-- node comes from.
use Prim.Native.String.{String}
use text.Mathlib.Text.{◌==◌ as str_eq}
use swarm_robotics_parachain.Common.{
  ℕ, Bool, Option, none, some, List, ◌⊎◌, inl, inr, if◌then◌else◌, unwrap_or, or_else,
}
use swarm_robotics_parachain.Node.Effects.{Outcome, panicked}
use swarm_robotics_parachain.Node.ChainSpec.{SpecCrates}
use swarm_robotics_parachain.Node.RelayChainCli.{CliCrates, RelayChainCli}
use swarm_robotics_parachain.Runtime.Genesis.{Sdk}

-- The methods of sc_cli's trait that the relay chain's command line has, of one command line. Chain
-- specs are of type `Spec`, and `trie_cache_maximum_size` and the like are `usize`.
pub record CliConfiguration (L : CliCrates) (Spec : Type 0) : Type 0 where
  pub shared_params : L.SharedParams
  pub import_params : Option L.ImportParams
  pub network_params : Option L.NetworkParams
  pub keystore_params : Option L.KeystoreParams
  pub base_path : L.Error ⊎ Option L.BasePath
  pub rpc_addr : ℕ → L.Error ⊎ Option (List L.RpcEndpoint)
  pub prometheus_config : ℕ → Spec → L.Error ⊎ Option L.PrometheusConfig
  pub init : String → String → L.LoggerHook → Outcome L.Error (Unit {0})
  pub chain_id : Bool → L.Error ⊎ String
  pub role : Bool → L.Error ⊎ L.Role
  pub transaction_pool : Bool → L.Error ⊎ L.TransactionPoolOptions
  pub trie_cache_maximum_size : L.Error ⊎ Option ℕ
  pub rpc_methods : L.Error ⊎ L.RpcMethods
  pub rpc_max_connections : L.Error ⊎ ℕ
  pub rpc_cors : Bool → L.Error ⊎ Option (List String)
  pub default_heap_pages : L.Error ⊎ Option ℕ
  pub force_authoring : L.Error ⊎ Bool
  pub disable_grandpa : L.Error ⊎ Bool
  pub max_runtime_instances : L.Error ⊎ Option ℕ
  pub announce_block : L.Error ⊎ Bool
  pub telemetry_endpoints : Spec → L.Error ⊎ Option L.TelemetryEndpoints
  pub node_name : L.Error ⊎ String

module _ (K : Sdk) (P : SpecCrates K) (L : CliCrates)
    (base_of : L.RunCmd → CliConfiguration L P.Spec) where
  abbrev Cli : Type 0
  Cli = RelayChainCli K P L

  abbrev pub into_base_path : Option L.PathBuf → Option L.BasePath
  into_base_path none = none
  into_base_path (some path) = some (L.base_path_from path)

  abbrev pub path_after :
      L.Error ⊎ Option L.BasePath → Option L.PathBuf → L.Error ⊎ Option L.BasePath
  path_after (inl e) own = inl e
  path_after (inr given) own = inr (or_else given (into_base_path own))

  unfoldable pub base_path : Cli → L.Error ⊎ Option L.BasePath
  base_path cli =
      path_after (L.given_base_path ((base_of (cli.base)).shared_params)) (cli.base_path)

  abbrev pub id_after : L.Error ⊎ String → Option String → L.Error ⊎ String
  id_after (inl e) own = inl e
  id_after (inr given) own = inr (if str_eq given "" then unwrap_or own "" else given)

  unfoldable pub chain_id : Cli → Bool → L.Error ⊎ String
  chain_id cli is_dev = id_after ((base_of (cli.base)).chain_id is_dev) (cli.chain_id)

  -- The one method that does not return.
  abbrev pub init : Cli → String → String → L.LoggerHook → Outcome L.Error (Unit {0})
  init cli support_url impl_version logger_hook = panicked

  unfoldable pub cli_configuration : Cli → CliConfiguration L P.Spec
  cli_configuration cli =
      let b = base_of (cli.base) in
      record {
        shared_params = b.shared_params;
        import_params = b.import_params;
        network_params = b.network_params;
        keystore_params = b.keystore_params;
        base_path = base_path cli;
        rpc_addr = λ default_listen_port. b.rpc_addr default_listen_port;
        prometheus_config =
            λ default_listen_port chain_spec. b.prometheus_config default_listen_port chain_spec;
        init = λ url version hook. init cli url version hook;
        chain_id = λ is_dev. chain_id cli is_dev;
        role = λ is_dev. b.role is_dev;
        transaction_pool = λ is_dev. b.transaction_pool is_dev;
        trie_cache_maximum_size = b.trie_cache_maximum_size;
        rpc_methods = b.rpc_methods;
        rpc_max_connections = b.rpc_max_connections;
        rpc_cors = λ is_dev. b.rpc_cors is_dev;
        default_heap_pages = b.default_heap_pages;
        force_authoring = b.force_authoring;
        disable_grandpa = b.disable_grandpa;
        max_runtime_instances = b.max_runtime_instances;
        announce_block = b.announce_block;
        telemetry_endpoints = λ chain_spec. b.telemetry_endpoints chain_spec;
        node_name = b.node_name;
      }
