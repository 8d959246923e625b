-- ===== src/Node/ChainSpec/Served.antt =====
-- The presets that the built-in chain specs of node/src/chain_spec.rs name, and the runtime API that
-- serves them.
use Prim.Native.String.{String}
use mathlib.Core.List.{Memᴰ}
use swarm_robotics_parachain.Common.{some, List, [], ◌⊎◌, ◌≡◌, sym, ◌∙◌, ap}
use swarm_robotics_parachain.Frame.Weight.{Weights}
use swarm_robotics_parachain.Node.Effects.{done, run}
use swarm_robotics_parachain.Node.ChainSpec.{
  Settings, SpecCrates, Read, load_spec, try_get, relay_chain_name,
}
use swarm_robotics_parachain.Node.ChainSpec.Load.{built_in, load_spec-built_in}
use swarm_robotics_parachain.Runtime.Apis.{get_preset}
use swarm_robotics_parachain.Runtime.Apis.Types.{RuntimeCrates}
use swarm_robotics_parachain.Runtime.Genesis.{Sdk, Genesis, preset, parachain_id}
use swarm_robotics_parachain.Runtime.Genesis.Presets.{get_preset-names}

module _ (K : Sdk) (P : SpecCrates K) (W : Weights) (R : RuntimeCrates W K)
    (from_json_file : String → List Read → String ⊎ P.Spec) (to_string : Genesis K → K.Json) where
  -- A built-in id, once the runtime's code is built, loads a chain spec without reading a file; its
  -- parachain id is the runtime's, and it names a preset which the runtime's API returns, if
  -- serde_json does not fail.
  pub load_spec-get_preset :
      (id : String) (w : P.Wasm)
      → Memᴰ id built_in
      → P.wasm_binary ≡ some w
      → (s : Settings K P.Wasm) × ((run (load_spec K P from_json_file id) []
            ≡ (done (P.build s), []))
          × (try_get K P (P.build s)
              ≡ some record { relay_chain = relay_chain_name; para_id = parachain_id })
          × ((j : K.Json) × (get_preset W K R (λ g. some (to_string g)) (some (s.preset_name))
                ≡ preset j)))
  unfolding get_preset
  load_spec-get_preset id w m e =
      let (spec, (loads, (s, (built, named, ext)))) =
        load_spec-built_in K P from_json_file id w m e in
      let (j, served) = (get_preset-names K to_string (s.preset_name)).1 named in
      (
        s,
        (
          loads ∙ ap (λ x. (done x, [])) built,
          ap (try_get K P) (sym built) ∙ ext,
          (j, R.get_preset-some _ (s.preset_name) ∙ served),
        ),
      )
