-- ===== src/Node/RelayChainCli.antt =====
-- `RelayChainCli` of node/src/cli.rs and node/src/command.rs: the settings of the relay chain node
-- that runs beside the parachain node.
pub mod Configuration
pub mod Settings
pub mod Examples
use Prim.Native.String.{String}
use swarm_robotics_parachain.Common.{ℕ, Option, none, some, List, ◌⊎◌}
use swarm_robotics_parachain.Node.ChainSpec.{Extensions, SpecCrates, try_get}
use swarm_robotics_parachain.Runtime.Genesis.{Sdk}

-- What comes from clap, std, sc_cli and polkadot_cli. `RunCmd` is the command line of a relay chain
-- node.
pub record CliCrates : Type 1 where
  pub Error : Type 0
  pub RunCmd : Type 0
  pub PathBuf : Type 0
  pub BasePath : Type 0
  pub SharedParams : Type 0
  pub ImportParams : Type 0
  pub NetworkParams : Type 0
  pub KeystoreParams : Type 0
  pub RpcEndpoint : Type 0
  pub PrometheusConfig : Type 0
  pub LoggerHook : Type 0
  pub Role : Type 0
  pub TransactionPoolOptions : Type 0
  pub RpcMethods : Type 0
  pub TelemetryEndpoints : Type 0
  pub join : PathBuf → String → PathBuf
  pub parse_from : List String → RunCmd
  -- `BasePath::from`
  pub base_path_from : PathBuf → BasePath
  -- `SharedParams::base_path`
  pub given_base_path : SharedParams → Error ⊎ Option BasePath

-- `DefaultConfigurationValues`
abbrev pub p2p_listen_port : ℕ
p2p_listen_port = 30334

abbrev pub rpc_listen_port : ℕ
rpc_listen_port = 9945

abbrev pub prometheus_listen_port : ℕ
prometheus_listen_port = 9616

module _ (K : Sdk) (P : SpecCrates K) (L : CliCrates) where
  -- The fields of the parachain node's `Configuration` that the relay chain settings depend on.
  pub record ParaConfig : Type 0 where
    pub chain_spec : P.Spec
    pub base_path : L.PathBuf

  pub record RelayChainCli : Type 0 where
    pub base : L.RunCmd
    pub chain_id : Option String
    pub base_path : Option L.PathBuf

  abbrev pub relay_chain_of : Option Extensions → Option String
  relay_chain_of none = none
  relay_chain_of (some e) = some (e.relay_chain)

  pub new : ParaConfig → List String → RelayChainCli
  new para_config relay_chain_args = record {
    base = L.parse_from relay_chain_args;
    chain_id = relay_chain_of (try_get K P (para_config.chain_spec));
    base_path = some (L.join (para_config.base_path) "polkadot");
  }
