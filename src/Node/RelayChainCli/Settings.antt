-- ===== src/Node/RelayChainCli/Settings.antt =====
-- Which relay chain, and which directory, the relay chain node gets.
use Prim.Native.String.{String}
use text.Mathlib.Text.{◌==◌ as str_eq}
use mathlib.Core.List.{Memᴰ}
use swarm_robotics_parachain.Common.{
  Option, none, some, Option-cases, List, [], ◌⊎◌, inl, inr, ◌≡◌, refl, sym, subst, ◌∙◌, ap,
  if◌then◌else◌, unwrap_or,
}
use swarm_robotics_parachain.Node.Effects.{done, panicked, run}
use swarm_robotics_parachain.Node.ChainSpec.{relay_chain_name, SpecCrates, Read, load_spec}
use swarm_robotics_parachain.Node.ChainSpec.Load.{
  built_in, FitsRuntime, load_spec-built_in, load_spec_without_code,
}
use swarm_robotics_parachain.Node.RelayChainCli.{CliCrates, new, relay_chain_of}
use swarm_robotics_parachain.Node.RelayChainCli.Configuration.{
  CliConfiguration, base_path, chain_id, cli_configuration, path_after, id_after,
}
use swarm_robotics_parachain.Runtime.Genesis.{Sdk}

-- A result with its value changed.
abbrev pub map_ok : {E A B : Type 0} → (A → B) → E ⊎ A → E ⊎ B
map_ok f (inl e) = inl e
map_ok f (inr a) = inr (f a)

-- A text, or another one if it is empty.
abbrev pub or_text : String → String → String
or_text other given = if str_eq given "" then other else given

module _ (K : Sdk) (P : SpecCrates K) (L : CliCrates)
    (from_json_file : String → List Read → String ⊎ P.Spec) where
  loaded-FitsRuntime :
      (id : String) (spec : P.Spec)
      → Memᴰ id built_in
      → run (load_spec K P from_json_file id) [] ≡ (done spec, [])
      → FitsRuntime K P spec
  loaded-FitsRuntime id spec m e = elim (Option-cases P.wasm_binary) [
    | inl n ↦ absurd (cc (ap (λ r. r.0) (sym e ∙ load_spec_without_code K P from_json_file id m n)))
    | inr (w, s) ↦ of_build (load_spec-built_in K P from_json_file id w m s)
  ]
    where
      of_build :
          (x : (t : P.Spec) × ((run (load_spec K P from_json_file id) [] ≡ (done t, []))
              × FitsRuntime K P t))
          → FitsRuntime K P spec
      of_build (t, (d, f)) = subst (FitsRuntime K P) (cc (ap (λ r. r.0) (sym d ∙ e))) f

  module _ (base_of : L.RunCmd → CliConfiguration L P.Spec) where
    directory :
        (path : L.PathBuf) (given : L.Error ⊎ Option L.BasePath)
        → path_after K P L base_of given (some (L.join path "polkadot"))
          ≡ map_ok (λ g. some (unwrap_or g (L.base_path_from (L.join path "polkadot")))) given
    directory path (inl e) = refl
    directory path (inr none) = refl
    directory path (inr (some g)) = refl

    chain :
        (given : L.Error ⊎ String) (own : Option String)
        → own ≡ some relay_chain_name
        → id_after K P L base_of given own ≡ map_ok (or_text relay_chain_name) given
    chain (inl e) own k = refl
    chain (inr given) own k = rw k refl

    abbrev pub cli_for : P.Spec → L.PathBuf → List String → CliConfiguration L P.Spec
    cli_for spec path args =
        cli_configuration K P L base_of
          (new K P L record { chain_spec = spec; base_path = path } args)

    -- For a node on a built-in chain spec, the settings of the relay chain node are those of the
    -- relay chain's arguments but for three: its directory is `polkadot` in the node's own where
    -- the arguments name none, its chain is rococo-local where they name none, the errors of both
    -- are returned, and `init` panics.
    pub relay_chain_settings :
        (id : String) (spec : P.Spec) (path : L.PathBuf) (args : List String)
        → Memᴰ id built_in
        → run (load_spec K P from_json_file id) [] ≡ (done spec, [])
        → cli_for spec path args ≡ record (base_of (L.parse_from args)) {
          base_path =
              map_ok
                (λ given. some (unwrap_or given (L.base_path_from (L.join path "polkadot"))))
                (L.given_base_path ((base_of (L.parse_from args)).shared_params));
          chain_id = λ is_dev.
              map_ok (or_text relay_chain_name) ((base_of (L.parse_from args)).chain_id is_dev);
          init = λ url version hook. panicked;
        }
    unfolding chain_id base_path new cli_configuration
    relay_chain_settings id spec path args m l i = record (base_of (L.parse_from args)) {
      base_path =
          directory path (L.given_base_path ((base_of (L.parse_from args)).shared_params)) i;
      chain_id = λ is_dev.
          chain ((base_of (L.parse_from args)).chain_id is_dev) _
            (ap (relay_chain_of K P L) (loaded-FitsRuntime id spec m l).1.2) i;
      init = λ url version hook. panicked;
    }
