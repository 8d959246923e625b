-- ===== src/Node/Command/Promises.antt =====
-- What the command line promises: its calls, that it does not panic, that it succeeds, and what it
-- refuses.
use Prim.Native.String.{String}
use swarm_robotics_parachain.Common.{
  Bool, Option, none, some, List, [], ◌∷◌, map, ◌⊎◌, inl, inr, ◌≡◌, ◌≢◌,
}
use swarm_robotics_parachain.Node.ChainSpec.{Read}
use swarm_robotics_parachain.Node.Command.{
  pallet_refusal, storage_refusal, unsupported, no_para_id, NodeCrates, Config, BenchmarkCmd,
  pallet, block, storage, machine, other, Subcommand, build_spec, check_block, export_blocks,
  export_state, import_blocks, revert, purge_chain, export_genesis_head, export_genesis_wasm,
  benchmark, Cli, command, node, Call, create_runner, service_call, Answers, Run, Runners,
  text_error, start_node, run_subcommand, para_id_of, hwbench, gather,
}
use swarm_robotics_parachain.Node.Command
use swarm_robotics_parachain.Node.Command.Dispatch.{run_subcommand-Calls}
use swarm_robotics_parachain.Node.Command.Plan.{Step, runner_created, runner_for, step, run_plan}
use swarm_robotics_parachain.Node.Command.Steps.{Allowed, Refusals}
use swarm_robotics_parachain.Node.Effects.{Outcome, done, panicked, run}
use swarm_robotics_parachain.Node.Effects.Ends.{Follows, follows, unpanicked, returns}
use swarm_robotics_parachain.Node.Effects.Laws.{Kept, Runs-Kept, Answered}
use swarm_robotics_parachain.Node.Service
use swarm_robotics_parachain.Node.Service.Start.{Within}
use swarm_robotics_parachain.Node.Service.Promises.{KeyGiven, Within_any, Within_keyed}

module _ (B : NodeCrates) (N : Answers B) (R : Runners B N) (enabled : Bool) (cli : Cli B) where
  open B use {from_text}

  -- The run of the command line: its result and the calls that it made.
  abbrev pub ran : Outcome B.clap.Error (Unit {0}) × List (Call B)
  ran = run (Command.run B N R enabled cli) []

  module _ (r : B.Runner) (created : N.runner ≡ inr r) where
    -- The calls of the subcommand, on the runner's configuration.
    abbrev pub planned_calls : List (Step B)
    planned_calls =
        runner_created (runner_for B cli (cli.subcommand))
        ∷ run_plan B N cli (R.config r) enabled (cli.subcommand)

    kept :
        (F : B.clap.Error → Type 0) (X : Type 0)
        → Allowed B N F X (R.config r)
        → Refusals B N F X cli (R.config r) enabled (cli.subcommand)
        → Kept (step B) F X (λ (u : Unit {0}). Unit {0}) planned_calls [] ran
    unfolding Command.run
    kept F X a x =
        Runs-Kept (step B) F X _ _ _
          (run_subcommand-Calls B N R F X cli r created a enabled (cli.subcommand) x) []

  -- Nothing is assumed of errors.
  succeeds :
      (X : Type 0) (x : B.clap.Error ⊎ Unit {0})
      → Answered (step B) (λ e. Unit {0}) X (λ u. Unit {0}) x
  succeeds X (inl e) = tt
  succeeds X (inr u) = tt

  configured :
      (X : Type 0) (x : String ⊎ Service.Configuration B.service)
      → Answered (step B) (λ e. Unit {0}) X (λ u. Unit {0}) (text_error B N x)
  configured X (inl e) = tt
  configured X (inr c) = tt

  file_read :
      (X : Type 0) (x : String ⊎ B.specs.Spec)
      → Answered (λ (d : Read). d) (λ e. Unit {0}) X (λ s. Unit {0}) x
  file_read X (inl e) = tt
  file_read X (inr s) = tt

  Allowed-any :
      (X : Type 0) (config : Config B)
      → Within B.service (N.services) (B.prepare_node_config (config.services)) (λ e. Unit {0}) X
      → Allowed B N (λ e. Unit {0}) X config
  Allowed-any X config w =
      (w, configured X _, succeeds X _, succeeds X _, λ id h. file_read X (N.from_json_file id h))

  Refusals-any :
      (config : Config B) (X : Type 0) (c : Option (Subcommand B))
      → ((B.specs.wasm_binary ≡ none) → X)
      → Refusals B N (λ e. Unit {0}) X cli config enabled c
  Refusals-any config X none x = λ e. tt
  Refusals-any config X (some (build_spec cmd)) x = tt
  Refusals-any config X (some (check_block cmd)) x = tt
  Refusals-any config X (some (export_blocks cmd)) x = tt
  Refusals-any config X (some (export_state cmd)) x = tt
  Refusals-any config X (some (import_blocks cmd)) x = tt
  Refusals-any config X (some (revert cmd)) x = tt
  Refusals-any config X (some (purge_chain cmd)) x = tt
  Refusals-any config X (some (export_genesis_head cmd)) x = tt
  Refusals-any config X (some (export_genesis_wasm cmd)) x = x
  Refusals-any config X (some (benchmark (pallet cmd))) x = λ e. tt
  Refusals-any config X (some (benchmark (block cmd))) x = tt
  Refusals-any config X (some (benchmark (storage cmd))) x = λ e. tt
  Refusals-any config X (some (benchmark (machine cmd))) x = tt
  Refusals-any config X (some (benchmark (other cmd))) x = tt

  module _ (r : B.Runner) (created : N.runner ≡ inr r) where
    -- Whatever the calls of the crates return, once the runner is created the calls of the command
    -- line are a beginning of those that its plan gives for the subcommand, in the plan's order;
    -- where the run returns, they are all of them.
    pub run_planned : Follows ran.0 (map (step B) ran.1) (planned_calls r created)
    run_planned = follows (step B) _ _ _ (
        kept r created (λ e. Unit {0}) (Unit {0})
          (Allowed-any (Unit {0}) (R.config r)
            (Within_any B.service (N.services) (B.prepare_node_config ((R.config r).services))))
          (Refusals-any (R.config r) (Unit {0}) (cli.subcommand) (λ e. tt)))

    -- If the runtime's code is built, and the relay chain interface of an authority always comes
    -- with a collator key, no subcommand panics.
    pub run_unpanicked :
        B.specs.wasm_binary ≢ none
        → ((h : List (Service.Call B.service))
            → KeyGiven B.service
                (B.prepare_node_config ((R.config r).services))
                (N.services.relay_chain h))
        → ran.0 ≢ panicked
    run_unpanicked w g = unpanicked (step B) _ _ _ (
        kept r created (λ e. Unit {0}) ⊥
          (Allowed-any ⊥ (R.config r)
            (Within_keyed B.service (N.services) (B.prepare_node_config ((R.config r).services)) g))
          (Refusals-any (R.config r) ⊥ (cli.subcommand) w))

    -- If no call of the crates returns an error, the relay chain interface of an authority comes
    -- with a collator key, the chain spec has a parachain id where there is no subcommand, the code
    -- of the runtime is built where its genesis wasm is exported, and a benchmark is none that the
    -- command line refuses (of the pallets or the storage without the feature that enables it, or of
    -- a kind that it does not support), then the run returns `Ok` after all the calls of its plan.
    pub run_returns :
        Allowed B N (λ e. ⊥) ⊥ (R.config r)
        → Refusals B N (λ e. ⊥) ⊥ cli (R.config r) enabled (cli.subcommand)
        → ((u : Unit {0}) × (ran.0 ≡ done u)) × (map (step B) ran.1 ≡ planned_calls r created)
    run_returns a x = returns (step B) _ _ (kept r created (λ e. ⊥) ⊥ a x)
