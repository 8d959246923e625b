-- ===== src/Node/RelayChainCli/Examples.antt =====
-- The theorems on chain specs and relay chain settings, with a builder that keeps its settings.
use Prim.Native.String.{String}
use mathlib.Core.List.{Memᴰ}
use swarm_robotics_parachain.Common.{
  ℕ, false, true, Option, none, some, List, [], ◌∷◌, ◌⊎◌, inl, inr, ◌≡◌, refl,
}
use swarm_robotics_parachain.Node.Effects.{done, panicked, run, ◌>>=◌, pure, expect}
use swarm_robotics_parachain.Node.ChainSpec.{
  relay_chain_name, Settings, SpecCrates, Read, try_get, local_settings, load_spec,
  local_chain_spec,
}
use swarm_robotics_parachain.Node.RelayChainCli.{CliCrates}
use swarm_robotics_parachain.Node.RelayChainCli.Configuration.{CliConfiguration}
use swarm_robotics_parachain.Node.RelayChainCli.Settings.{cli_for, relay_chain_settings}
use swarm_robotics_parachain.Host.Apis.{host_runtime}
use swarm_robotics_parachain.Host.Weight.{host_weights}
use swarm_robotics_parachain.Node.ChainSpec.Served.{load_spec-get_preset}
use swarm_robotics_parachain.Runtime.Apis.{get_preset}
use swarm_robotics_parachain.Runtime.Genesis.{preset}
use swarm_robotics_parachain.Runtime.Genesis.Examples.{keyring}

abbrev pub specs : SpecCrates keyring
specs = record {
  Wasm = ℕ;
  Spec = Settings keyring ℕ;
  wasm_binary = some 77;
  build = λ s. s;
  extension = λ s. some (s.extensions);
  extension-build = λ s. refl;
}

-- No file has a chain spec.
abbrev pub no_file : String → List Read → String ⊎ Settings keyring ℕ
no_file path h = inl path

load_spec-get_preset_example :
    (s : Settings keyring ℕ) × ((run (load_spec keyring specs no_file "dev") [] ≡ (done s, []))
      × (try_get keyring specs s ≡ some record { relay_chain = relay_chain_name; para_id = 1000 })
      × ((j : keyring.Json) × (get_preset host_weights keyring
              (host_runtime keyring 0)
              (λ g. some 7)
              (some (s.preset_name))
            ≡ preset j)))
load_spec-get_preset_example =
    load_spec-get_preset keyring specs host_weights (host_runtime keyring 0) no_file (λ g. 7) "dev"
      77 (Memᴰ.head refl) refl

-- The relay chain's arguments name no chain and no directory.
abbrev pub no_args : CliCrates
no_args = record {
  Error = ℕ;
  RunCmd = List String;
  PathBuf = List String;
  BasePath = List String;
  SharedParams = Option (List String);
  ImportParams = ℕ;
  NetworkParams = ℕ;
  KeystoreParams = ℕ;
  RpcEndpoint = ℕ;
  PrometheusConfig = ℕ;
  LoggerHook = ℕ;
  Role = ℕ;
  TransactionPoolOptions = ℕ;
  RpcMethods = ℕ;
  TelemetryEndpoints = ℕ;
  join = λ p s. s ∷ p;
  parse_from = λ args. args;
  base_path_from = λ p. p;
  given_base_path = λ p. inr p;
}

-- What arguments that name nothing give.
abbrev defaults : List String → CliConfiguration no_args (Settings keyring ℕ)
defaults args = record {
  shared_params = none;
  import_params = none;
  network_params = some 1;
  keystore_params = none;
  base_path = inr none;
  rpc_addr = λ port. inr (some (port ∷ []));
  prometheus_config = λ port spec. inr (some port);
  init = λ url version hook. done tt;
  chain_id = λ is_dev. inr "";
  role = λ is_dev. inr 0;
  transaction_pool = λ is_dev. inr 0;
  trie_cache_maximum_size = inr none;
  rpc_methods = inr 0;
  rpc_max_connections = inr 100;
  rpc_cors = λ is_dev. inr none;
  default_heap_pages = inr none;
  force_authoring = inr false;
  disable_grandpa = inr false;
  max_runtime_instances = inr (some 8);
  announce_block = inr true;
  telemetry_endpoints = λ spec. inr none;
  node_name = inl 4;
}

abbrev pub local_spec : Settings keyring ℕ
local_spec = local_settings keyring specs 77

local_loads : run (load_spec keyring specs no_file "local") [] ≡ (done local_spec, [])
unfolding load_spec local_chain_spec ◌>>=◌ pure expect
local_loads = refl

relay_chain_settings_example :
    cli_for keyring specs no_args no_file defaults local_spec ("data" ∷ []) []
    ≡ record (defaults []) {
      base_path = inr (some ("polkadot" ∷ "data" ∷ []));
      chain_id = λ is_dev. inr relay_chain_name;
      init = λ url version hook. panicked;
    }
relay_chain_settings_example =
    relay_chain_settings keyring specs no_args no_file defaults "local" local_spec ("data" ∷ []) []
      (Memᴰ.tail (Memᴰ.tail (Memᴰ.tail (Memᴰ.head refl)))) local_loads
