-- ===== src/Runtime/Genesis.antt =====
-- runtime/src/genesis_config_presets.rs: the genesis presets, as the fields that the JSON patch gets.
pub mod Examples
pub mod Presets
use swarm_robotics_parachain.Common.{
  ℕ, ◌+◌, ◌*◌, ◌^◌, ◌≤◌, ◌≡◌, ◌≢◌, Option, none, some, List, [], ◌∷◌, map,
}
use swarm_robotics_parachain.Runtime.Constants.{existential_deposit}

-- What the presets take from the SDK: accounts and keys of the development keyring, parachain ids,
-- the names of the two presets, and serde_json.
pub record Sdk : Type 1 where
  pub AccountId : Type 0
  pub AuraId : Type 0
  pub ParaId : Type 0
  pub PresetId : Type 0
  pub Json : Type 0
  pub preset_id_eq : Discrete PresetId
  pub para_id : ℕ → ParaId
  pub alice_account : AccountId
  pub alice_public : AuraId
  pub bob_account : AccountId
  pub bob_public : AuraId
  -- The accounts of `Sr25519Keyring::well_known()`, which begins with Alice and Bob.
  pub well_known_others : List AccountId
  pub xcm_version : ℕ
  pub dev_runtime_preset : PresetId
  pub local_testnet_runtime_preset : PresetId

abbrev pub parachain_id : ℕ
parachain_id = 1000

module _ (K : Sdk) where
  open K use {
    AccountId, AuraId, ParaId, PresetId, Json, preset_id_eq, para_id, alice_account, alice_public,
    bob_account, bob_public, well_known_others, xcm_version, dev_runtime_preset,
    local_testnet_runtime_preset,
  }

  -- `impl_opaque_keys!` of runtime/src/lib.rs.
  pub record SessionKeys : Type 0 where
    pub aura : AuraId

  -- The fields of `RuntimeGenesisConfig` that the presets set.
  pub record Genesis : Type 0 where
    pub balances : List (AccountId × ℕ)
    pub parachain_id : ParaId
    pub invulnerables : List AccountId
    pub candidacy_bond : ℕ
    pub session_keys : List (AccountId × AccountId × SessionKeys)
    pub safe_xcm_version : Option ℕ
    pub sudo_key : Option AccountId

  pub template_session_keys : AuraId → SessionKeys
  template_session_keys keys = record { aura = keys }

  unfoldable pub testnet_genesis :
      List (AccountId × AuraId) → List AccountId → AccountId → ParaId → Genesis
  unfolding template_session_keys
  testnet_genesis invulnerables endowed_accounts root id = record {
    balances = map (λ k. (k, 2 ^ 60)) endowed_accounts;
    parachain_id = id;
    invulnerables = map (λ x. x.0) invulnerables;
    candidacy_bond = existential_deposit * 16;
    session_keys = map (λ x. (x.0, x.0, template_session_keys x.1)) invulnerables;
    safe_xcm_version = some xcm_version;
    sudo_key = some root;
  }

  abbrev well_known : List AccountId
  well_known = alice_account ∷ bob_account ∷ well_known_others

  unfoldable pub local_testnet_genesis : Genesis
  unfolding testnet_genesis
  local_testnet_genesis =
      testnet_genesis ((alice_account, alice_public) ∷ (bob_account, bob_public) ∷ []) well_known
        alice_account (para_id parachain_id)

  unfoldable pub development_config_genesis : Genesis
  unfolding testnet_genesis
  development_config_genesis =
      testnet_genesis ((alice_account, alice_public) ∷ (bob_account, bob_public) ∷ []) well_known
        alice_account (para_id parachain_id)

  -- What `get_preset` returns; `expect` panics where serde_json fails.
  pub data Preset : Type 0 where
    unknown_preset : Preset
    preset : Json → Preset
    serialization_panic : Preset

  abbrev pub written : Option Json → Preset
  written none = serialization_panic
  written (some j) = preset j

  -- The match on the id, in the order of its arms.
  abbrev pub patch_by : {A B : Type 0} → Dec A → Dec B → Option Genesis
  patch_by (yes e) d = some local_testnet_genesis
  patch_by (no ne) (yes e) = some development_config_genesis
  patch_by (no ne) (no nd) = none

  abbrev pub patch_of : PresetId → Option Genesis
  patch_of id =
      patch_by (preset_id_eq id local_testnet_runtime_preset) (preset_id_eq id dev_runtime_preset)

  abbrev pub returned : (Genesis → Option Json) → Option Genesis → Preset
  returned to_string none = unknown_preset
  returned to_string (some patch) = written (to_string patch)

  pub get_preset : (Genesis → Option Json) → PresetId → Preset
  get_preset to_string id = returned to_string (patch_of id)

  unfoldable pub preset_names : List PresetId
  preset_names = dev_runtime_preset ∷ local_testnet_runtime_preset ∷ []
