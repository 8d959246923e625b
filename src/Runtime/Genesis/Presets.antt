-- ===== src/Runtime/Genesis/Presets.antt =====
-- What the presets promise: their names, their collators and their balances.
use mathlib.Core.List.{Memᴰ}
use swarm_robotics_parachain.Common.{
  ◌+◌, ◌≤◌, ◌≡◌, refl, sym, subst, ◌↔◌, some, List, [], ◌∷◌, map, arith,
}
use swarm_robotics_parachain.Runtime.Constants.{existential_deposit}
use swarm_robotics_parachain.Runtime.Genesis.{
  Sdk, SessionKeys, template_session_keys, testnet_genesis, Genesis, Preset, unknown_preset, preset,
  serialization_panic, returned, patch_by, get_preset, preset_names,
}

-- The two lists have the same length, and their entries are related in order.
abbrev pub Pairwise : {A B : Type 0} → (A → B → Type 0) → List A → List B → Type 0
Pairwise R [] [] = Unit
Pairwise R [] (y ∷ ys) = ⊥
Pairwise R (x ∷ xs) [] = ⊥
Pairwise R (x ∷ xs) (y ∷ ys) = R x y × Pairwise R xs ys

module _ {A B : Type 0} (R : A → B → Type 0) (f : A → B) where
  Pairwise-map : ((x : A) → R x (f x)) → (xs : List A) → Pairwise R xs (map f xs)
  Pairwise-map h [] = tt
  Pairwise-map h (x ∷ xs) = (h x, Pairwise-map h xs)

module _ (K : Sdk) where
  open K use {
    AccountId, AuraId, ParaId, PresetId, Json, preset_id_eq, dev_runtime_preset,
    local_testnet_runtime_preset,
  }

  -- An entry of the session pallet names its collator as account and as validator, with the
  -- collator's own key.
  abbrev pub KeysOf : AccountId × AuraId → AccountId × AccountId × SessionKeys K → Type 0
  KeysOf c k = (k.0 ≡ c.0) × (k.1 ≡ c.0) × (k.2.aura ≡ c.1)

  -- The genesis state of any collators, endowed accounts, root and parachain id has, for every
  -- collator in order, its account among the invulnerables and one entry of session keys that names
  -- it as account and validator with its own Aura key; every endowed account, in order, starts with
  -- a balance that covers the candidacy bond and the existential deposit.
  pub testnet_genesis-Pairwise :
      (invulnerables : List (AccountId × AuraId)) (endowed : List AccountId) (root : AccountId)
      (id : ParaId)
      → let g = testnet_genesis K invulnerables endowed root id in
        Pairwise (λ c a. a ≡ c.0) invulnerables (g.invulnerables)
        × Pairwise KeysOf invulnerables (g.session_keys)
        × Pairwise
            (λ a b. (b.0 ≡ a) × (g.candidacy_bond + existential_deposit ≤ b.1))
            endowed
            (g.balances)
  unfolding testnet_genesis template_session_keys
  testnet_genesis-Pairwise cs es root id = (
    Pairwise-map _ _ (λ c. refl) cs,
    Pairwise-map KeysOf _ (λ c. (refl, refl, refl)) cs,
    Pairwise-map _ _ (λ a. (refl, omega arith)) es,
  )

  not_named :
      (id : PresetId)
      → ¬ (id ≡ local_testnet_runtime_preset)
      → ¬ (id ≡ dev_runtime_preset)
      → ¬ Memᴰ id (preset_names K)
  unfolding preset_names
  not_named id nl nd (Memᴰ.head e) = nd e
  not_named id nl nd (Memᴰ.tail (Memᴰ.head e)) = nl e
  not_named id nl nd (Memᴰ.tail (Memᴰ.tail m)) = elim m [ ]

  abbrev Served : Preset K → Type 0
  Served (preset j) = Unit
  Served unknown_preset = ⊥
  Served serialization_panic = ⊥

  patch_by-names :
      (to_string : Genesis K → Json) (id : PresetId) (l : Dec (id ≡ local_testnet_runtime_preset))
      (d : Dec (id ≡ dev_runtime_preset))
      → ((j : Json) × (returned K (λ g. some (to_string g)) (patch_by K l d) ≡ preset j))
        ↔ Memᴰ id (preset_names K)
  unfolding preset_names
  patch_by-names to_string id (yes e) d = (λ h. Memᴰ.tail (Memᴰ.head e), λ m. (_, refl))
  patch_by-names to_string id (no nl) (yes e) = (λ h. Memᴰ.head e, λ m. (_, refl))
  patch_by-names to_string id (no nl) (no nd) =
      (λ h. absurd (subst Served (sym h.1) tt), λ m. absurd (not_named id nl nd m))

  -- Where serde_json does not fail, the lookup of a preset id returns a preset if and only if the
  -- list of preset names has the id.
  pub get_preset-names :
      (to_string : Genesis K → Json) (id : PresetId)
      → ((j : Json) × (get_preset K (λ g. some (to_string g)) id ≡ preset j))
        ↔ Memᴰ id (preset_names K)
  unfolding get_preset
  get_preset-names to_string id = patch_by-names to_string id _ _
