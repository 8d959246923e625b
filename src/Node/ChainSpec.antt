-- ===== src/Node/ChainSpec.antt =====
-- node/src/chain_spec.rs and `load_spec` of node/src/command.rs: the built-in chain specs.
pub mod Load
pub mod Reads
pub mod Served
use Prim.Native.String.{String}
use text.Mathlib.Text.{◌==◌ as str_eq}
use swarm_robotics_parachain.Common.{
  ℕ, Bool, true, false, Option, none, some, List, [], ◌∷◌, ◌⊎◌, ◌≡◌, if◌then◌else◌, ◌||◌,
}
use swarm_robotics_parachain.Node.Effects.{Io, ◌>>=◌, pure, call, expect}
use swarm_robotics_parachain.Runtime.Genesis.{Sdk, parachain_id}

abbrev pub relay_chain_name : String
relay_chain_name = "rococo-local"

pub record Extensions : Type 0 where
  pub relay_chain : String
  pub para_id : ℕ

pub data ChainType : Type 0 where
  development : ChainType
  local : ChainType

pub data Property : Type 0 where
  word : String → Property
  number : ℕ → Property

-- The entries in the order of their insertion; the keys are all different.
abbrev pub token_properties : List (String × Property)
token_properties =
    ("tokenSymbol", word "UNIT") ∷ ("tokenDecimals", number 12) ∷ ("ss58Format", number 42) ∷ []

-- A file is read.
pub data Read : Type 0 where
  json_file : String → Read

module _ (K : Sdk) where
  -- What the builder of a chain spec is given.
  pub record Settings (Wasm : Type 0) : Type 0 where
    pub code : Wasm
    pub extensions : Extensions
    pub name : String
    pub id : String
    pub chain_type : ChainType
    pub preset_name : K.PresetId
    pub protocol_id : Option String
    pub properties : List (String × Property)

  -- sc_chain_spec, and the code of the runtime, where it was built. `extension` is `get_extension`
  -- on the extensions of a chain spec.
  pub record SpecCrates : Type 1 where
    pub Wasm : Type 0
    pub Spec : Type 0
    pub wasm_binary : Option Wasm
    pub build : Settings Wasm → Spec
    pub extension : Spec → Option Extensions
    pub extension-build : (s : Settings Wasm) → extension (build s) ≡ some (s.extensions)

  module _ (P : SpecCrates) where
    open P use {Wasm, Spec, wasm_binary, build}

    abbrev pub try_get : Spec → Option Extensions
    try_get spec = P.extension spec

    abbrev pub development_settings : Wasm → Settings Wasm
    development_settings wasm = record {
      code = wasm;
      extensions = record { relay_chain = relay_chain_name; para_id = parachain_id };
      name = "Development";
      id = "dev";
      chain_type = development;
      preset_name = K.dev_runtime_preset;
      protocol_id = none;
      properties = token_properties;
    }

    abbrev pub local_settings : Wasm → Settings Wasm
    local_settings wasm = record {
      code = wasm;
      extensions = record { relay_chain = relay_chain_name; para_id = parachain_id };
      name = "Local Testnet";
      id = "local_testnet";
      chain_type = local;
      preset_name = K.local_testnet_runtime_preset;
      protocol_id = some "template-local";
      properties = token_properties;
    }

    pub development_chain_spec : Io Read String Spec
    development_chain_spec = do wasm ← expect wasm_binary; pure (build (development_settings wasm))

    unfoldable pub local_chain_spec : Io Read String Spec
    local_chain_spec = do wasm ← expect wasm_binary; pure (build (local_settings wasm))

    module _ (from_json_file : String → List Read → String ⊎ Spec) where
      -- The match on the id, in the order of its arms.
      abbrev pub load_arm : Bool → Bool → Bool → String → Io Read String Spec
      load_arm true rococo named path = development_chain_spec
      load_arm false true named path = local_chain_spec
      load_arm false false true path = local_chain_spec
      load_arm false false false path = call (json_file path) (from_json_file path)

      unfoldable pub load_spec : String → Io Read String Spec
      load_spec id =
          load_arm (str_eq id "dev") (str_eq id "template-rococo")
            (str_eq id "" || str_eq id "local") id
