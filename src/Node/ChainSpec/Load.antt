-- ===== src/Node/ChainSpec/Load.antt =====
-- Which chain spec an id loads.
use Prim.Native.String.{String}
use text.Mathlib.Text.{◌==◌ as str_eq}
use text.Mathlib.TextEquality.{eq_iff}
use mathlib.Core.List.{Memᴰ}
use swarm_robotics_parachain.Common.{
  Bool, true, false, Bool-cases, Option, none, some, List, [], ◌∷◌, ◌⊎◌, inl, inr, ◌≡◌, refl, ◌||◌,
}
use swarm_robotics_parachain.Node.Effects.{Outcome, done, panicked, run, ◌>>=◌, pure, expect}
use swarm_robotics_parachain.Node.ChainSpec.{
  relay_chain_name, Settings, SpecCrates, Read, try_get, development_settings, local_settings,
  development_chain_spec, local_chain_spec, load_arm, load_spec,
}
use swarm_robotics_parachain.Runtime.Genesis.{Sdk, parachain_id, preset_names}

abbrev pub built_in : List String
built_in = "dev" ∷ "template-rococo" ∷ "" ∷ "local" ∷ []

or_true : (b : Bool) → (b || true) ≡ true
or_true true = refl
or_true false = refl

eq_true : (s t : String) → s ≡ t → str_eq s t ≡ true
eq_true s t e = (eq_iff s t).1 e

pub eq_false : (s t : String) → ¬ (s ≡ t) → str_eq s t ≡ false
eq_false s t n = elim (Bool-cases (str_eq s t)) [
  | inl e ↦ absurd (n ((eq_iff s t).0 e))
  | inr e ↦ e
]

module _ {A B : Type 0} (f : A → B) where
  expect-some :
      (o : Option A) (a : A)
      → o ≡ some a
      → run (expect {C = Read} {E = String} o >>= λ x. pure (f x)) [] ≡ (done (f a), [])
  unfolding expect ◌>>=◌ pure
  expect-some none a e = absurd (cc e)
  expect-some (some b) a e = cc e

  expect-none :
      (o : Option A)
      → o ≡ none
      → run (expect {C = Read} {E = String} o >>= λ x. pure (f x)) [] ≡ (panicked, [])
  unfolding expect ◌>>=◌ pure
  expect-none none e = refl
  expect-none (some b) e = absurd (cc e)

module _ (K : Sdk) (P : SpecCrates K) where
  open P use {Wasm, Spec, wasm_binary, build}

  -- A chain spec that names a preset of the runtime, and the runtime's own parachain id.
  abbrev pub FitsRuntime : Spec → Type 0
  FitsRuntime spec =
      (s : Settings K Wasm) × ((spec ≡ build s)
        × Memᴰ (s.preset_name) (preset_names K)
        × (try_get K P spec
            ≡ some record { relay_chain = relay_chain_name; para_id = parachain_id }))

  FitsRuntime-development : (w : Wasm) → FitsRuntime (build (development_settings K P w))
  unfolding preset_names
  FitsRuntime-development w = (_, (refl, Memᴰ.head refl, P.extension-build _))

  FitsRuntime-local : (w : Wasm) → FitsRuntime (build (local_settings K P w))
  unfolding preset_names
  FitsRuntime-local w = (_, (refl, Memᴰ.tail (Memᴰ.head refl), P.extension-build _))

  module _ (from_json_file : String → List Read → String ⊎ Spec) where
    abbrev loaded : Bool → Bool → Bool → String → Outcome String Spec × List Read
    loaded a b c id = run (load_arm K P from_json_file a b c id) []

    abbrev Loads : (Bool → Bool → Bool → String → Type 0)
    Loads a b c id =
        ((w : Wasm)
          → wasm_binary ≡ some w
          → (spec : Spec) × ((loaded a b c id ≡ (done spec, [])) × FitsRuntime spec))
        × (wasm_binary ≡ none → loaded a b c id ≡ (panicked, []))

    Loads-development : (b c : Bool) (id : String) → Loads true b c id
    unfolding development_chain_spec
    Loads-development b c id =
        (λ w e. (_, (expect-some _ _ w e, FitsRuntime-development w)), λ e. expect-none _ _ e)

    Loads-local : (c : Bool) (id : String) → Loads false true c id × Loads false false true id
    unfolding local_chain_spec
    Loads-local c id = (
      (λ w e. (_, (expect-some _ _ w e, FitsRuntime-local w)), λ e. expect-none _ _ e),
      (λ w e. (_, (expect-some _ _ w e, FitsRuntime-local w)), λ e. expect-none _ _ e),
    )

    Loads-some :
        (a b c : Bool) (id : String) → (a ≡ true) ⊎ (b ≡ true) ⊎ (c ≡ true) → Loads a b c id
    Loads-some true b c id h = Loads-development b c id
    Loads-some false true c id h = (Loads-local c id).0
    Loads-some false false true id h = (Loads-local true id).1
    Loads-some false false false id (inl e) = absurd (cc e)
    Loads-some false false false id (inr (inl e)) = absurd (cc e)
    Loads-some false false false id (inr (inr e)) = absurd (cc e)

    built_in_test :
        (id : String)
        → Memᴰ id built_in
        → (str_eq id "dev" ≡ true)
          ⊎ (str_eq id "template-rococo" ≡ true)
          ⊎ ((str_eq id "" || str_eq id "local") ≡ true)
    built_in_test id (Memᴰ.head e) = inl (eq_true id "dev" e)
    built_in_test id (Memᴰ.tail (Memᴰ.head e)) = inr (inl (eq_true id "template-rococo" e))
    built_in_test id (Memᴰ.tail (Memᴰ.tail (Memᴰ.head e))) = inr (inr (rw (eq_true id "" e) refl))
    built_in_test id (Memᴰ.tail (Memᴰ.tail (Memᴰ.tail (Memᴰ.head e)))) =
        inr (inr (rw (eq_true id "local" e) (or_true (str_eq id ""))))
    built_in_test id (Memᴰ.tail (Memᴰ.tail (Memᴰ.tail (Memᴰ.tail m)))) = elim m [ ]

    -- The ids "dev", "template-rococo", "" and "local", once the runtime's code is built, load a
    -- chain spec without reading a file; it names a preset that the runtime lists, and the
    -- runtime's own parachain id.
    pub load_spec-built_in :
        (id : String) (w : Wasm)
        → Memᴰ id built_in
        → wasm_binary ≡ some w
        → (spec : Spec) × ((run (load_spec K P from_json_file id) [] ≡ (done spec, []))
            × FitsRuntime spec)
    unfolding load_spec
    load_spec-built_in id w m e = (Loads-some _ _ _ id (built_in_test id m)).0 w e

    -- Without the runtime's code the ids "dev", "template-rococo", "" and "local" panic, before
    -- any file is read.
    pub load_spec_without_code :
        (id : String)
        → Memᴰ id built_in
        → wasm_binary ≡ none
        → run (load_spec K P from_json_file id) [] ≡ (panicked, [])
    unfolding load_spec
    load_spec_without_code id m e = (Loads-some _ _ _ id (built_in_test id m)).1 e
