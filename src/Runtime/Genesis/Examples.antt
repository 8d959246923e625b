-- ===== src/Runtime/Genesis/Examples.antt =====
-- The theorems on the presets, over a keyring of numbers.
use mathlib.Core.List.{Memᴰ}
use swarm_robotics_parachain.Common.{ℕ, ◌+◌, ◌≤◌, ◌≡◌, ◌↔◌, some, List, [], ◌∷◌, ℕ_discrete}
use swarm_robotics_parachain.Runtime.Constants.{existential_deposit}
use swarm_robotics_parachain.Runtime.Genesis.{
  Sdk, testnet_genesis, preset, get_preset, preset_names,
}
use swarm_robotics_parachain.Runtime.Genesis.Presets.{
  Pairwise, KeysOf, testnet_genesis-Pairwise, get_preset-names,
}

abbrev pub keyring : Sdk
keyring = record {
  AccountId = ℕ;
  AuraId = ℕ;
  ParaId = ℕ;
  PresetId = ℕ;
  Json = ℕ;
  preset_id_eq = ℕ_discrete;
  para_id = λ n. n;
  alice_account = 1;
  alice_public = 11;
  bob_account = 2;
  bob_public = 12;
  well_known_others = 3 ∷ [];
  xcm_version = 5;
  dev_runtime_preset = 0;
  local_testnet_runtime_preset = 1;
}

abbrev collators : List (ℕ × ℕ)
collators = (1, 11) ∷ (2, 12) ∷ []

testnet_genesis-Pairwise_example :
    Pairwise
      (λ c a. a ≡ c.0)
      collators
      ((testnet_genesis keyring collators (1 ∷ 2 ∷ []) 1 9).invulnerables)
    × Pairwise
        (KeysOf keyring)
        collators
        ((testnet_genesis keyring collators (1 ∷ 2 ∷ []) 1 9).session_keys)
    × Pairwise
        (λ a b.
          (b.0 ≡ a)
          × ((testnet_genesis keyring collators (1 ∷ 2 ∷ []) 1 9).candidacy_bond
                + existential_deposit
              ≤ b.1))
        (1 ∷ 2 ∷ [])
        ((testnet_genesis keyring collators (1 ∷ 2 ∷ []) 1 9).balances)
testnet_genesis-Pairwise_example = testnet_genesis-Pairwise keyring collators (1 ∷ 2 ∷ []) 1 9

get_preset-names_example :
    ((j : ℕ) × (get_preset keyring (λ g. some (g.parachain_id)) 1 ≡ preset j))
    ↔ Memᴰ 1 (preset_names keyring)
get_preset-names_example = get_preset-names keyring (λ g. g.parachain_id) 1
