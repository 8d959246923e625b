-- ===== src/Node/ChainSpec/Reads.antt =====
-- When loading a chain spec reads a file, panics or fails.
use Prim.Native.String.{String}
use text.Mathlib.Text.{◌==◌ as str_eq}
use swarm_robotics_parachain.Common.{Bool, true, false, ◌||◌, none, List, [], ◌∷◌, ◌⊎◌, ◌≡◌}
use swarm_robotics_parachain.Node.ChainSpec.{
  SpecCrates, Read, json_file, development_chain_spec, local_chain_spec, load_arm, load_spec,
}
use swarm_robotics_parachain.Node.Effects.Laws.{
  Runs, Answered, bind-Runs, pure-Runs, call-Runs, expect-Runs,
}
use swarm_robotics_parachain.Runtime.Genesis.{Sdk}

abbrev pub built_in_test : String → Bool
built_in_test id =
    str_eq id "dev" || (str_eq id "template-rococo" || (str_eq id "" || str_eq id "local"))

abbrev pub reads_if : Bool → String → List Read
reads_if true id = []
reads_if false id = json_file id ∷ []

-- The files that loading the spec of an id reads.
abbrev pub reads : String → List Read
reads id = reads_if (built_in_test id) id

module _ (K : Sdk) (P : SpecCrates K) (from_json_file : String → List Read → String ⊎ P.Spec)
    (F : String → Type 0) (X : Type 0) where
  abbrev Any : P.Spec → Type 0
  Any spec = Unit {0}

  abbrev same : Read → Read
  same r = r

  module _ (absent : (P.wasm_binary ≡ none) → X)
      (answered : (id : String) (h : List Read) → Answered same F X Any (from_json_file id h)) where
    development-Runs : Runs same F X Any [] (development_chain_spec K P)
    unfolding development_chain_spec
    development-Runs =
        bind-Runs same F X (λ w. Unit {0}) Any [] [] _ _
          (expect-Runs same F X (λ w. Unit {0}) _ absent (λ w e. tt))
          (λ w u. pure-Runs same F X Any _ tt)

    local-Runs : Runs same F X Any [] (local_chain_spec K P)
    unfolding local_chain_spec
    local-Runs =
        bind-Runs same F X (λ w. Unit {0}) Any [] [] _ _
          (expect-Runs same F X (λ w. Unit {0}) _ absent (λ w e. tt))
          (λ w u. pure-Runs same F X Any _ tt)

    load_arm-Runs :
        (a b c : Bool) (id : String)
        → Runs same F X Any (reads_if (a || (b || c)) id) (load_arm K P from_json_file a b c id)
    load_arm-Runs true b c id = development-Runs
    load_arm-Runs false true c id = local-Runs
    load_arm-Runs false false true id = local-Runs
    load_arm-Runs false false false id = call-Runs same F X Any _ _ (answered id)

    -- Loading a spec makes exactly the reads of its id, or fails or panics after some of them.
    pub load_spec-Runs :
        (id : String) → Runs same F X Any (reads id) (load_spec K P from_json_file id)
    unfolding load_spec
    load_spec-Runs id = load_arm-Runs _ _ _ id
