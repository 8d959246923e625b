-- ===== src/Node/Command/Dispatch.antt =====
-- Every subcommand of `run` makes the calls of its plan.
use swarm_robotics_parachain.Common.{
  Bool, true, false, Option, none, some, List, [], ◌∷◌, ◌++◌, inr, ◌≡◌, refl, sym, subst,
}
use swarm_robotics_parachain.Node.ChainSpec.Reads.{load_spec-Runs}
use swarm_robotics_parachain.Node.Command.{
  NodeCrates, Config, BenchmarkCmd, pallet, block, storage, machine, other, Subcommand, build_spec,
  check_block, export_blocks, export_state, import_blocks, revert, purge_chain, export_genesis_head,
  export_genesis_wasm, benchmark, Cli, RunnerFor, Work, create_runner, read_call, await_exit,
  Answers, Runners, Done, work, new_partial, run_subcommand, run_benchmark,
}
use swarm_robotics_parachain.Node.Command.Plan.{
  Step, runner_created, runner_for, spec_read, worked, step, subcommand_of, run_plan, services_plan,
}
use swarm_robotics_parachain.Node.Command.Steps.{
  Any, Does, Allowed, Refusals, work-Runs, partial-work-Runs, new_partial-Runs, HasTelemetry,
  relay_configuration-then, start_node-Runs,
}
use swarm_robotics_parachain.Node.Effects.{◌>>=◌, pure, call}
use swarm_robotics_parachain.Node.Effects.Laws.{
  Answered, bind-Runs, call-Runs, call-then, fail-Runs, last-Runs,
}
use swarm_robotics_parachain.Node.Effects.Lift.{lift-Runs}
use swarm_robotics_parachain.Node.Service

module _ (B : NodeCrates) (N : Answers B) (R : Runners B N) (F : B.clap.Error → Type 0)
    (X : Type 0) where
  open B use {from_text}

  abbrev Calls : List (Step B) → Done B N → Type 0
  Calls p m = Does B N F X (Any B N F X) p m

  module _ (cli : Cli B) (r : B.Runner) (created : N.runner ≡ inr r)
      (allowed : Allowed B N F X (R.config r)) where
    abbrev config : Config B
    config = R.config r

    runner-then :
        (cmd : RunnerFor B) (p : List (Step B)) (f : B.Runner → Done B N)
        → Calls p (f r)
        → Calls (runner_created cmd ∷ p) (call (create_runner cmd) (λ h. N.runner) >>= f)
    runner-then cmd p f k =
        call-then (step B) F X (λ s. s ≡ r) _ p (create_runner cmd) _ f
          (λ h. subst (Answered (step B) F X (λ s. s ≡ r)) (sym created) refl)
          (λ s e. subst (λ s. Calls p (f s)) (sym e) k)

    sync-Calls :
        (p : List (Step B)) (f : Config B → Done B N)
        → Calls p (f config)
        → Calls p (R.sync_run r f)
    sync-Calls p f k = subst (Calls p) (sym (R.sync_run-eq r f)) k

    -- A subcommand on the services.
    async-Calls :
        (c : Subcommand B) (f : Config B → Service.Service B.service → Work B)
        → ((s : Service.Service B.service) → subcommand_of B (f config s) ≡ c)
        → Calls
            (services_plan B N cli config ++ (worked c ∷ []))
            (R.async_run r (λ g. new_partial B N g >>= λ s. pure (f g s)))
    async-Calls c f e = subst (Calls _) (sym (R.async_run-eq r _)) (
        bind-Runs (step B) F X (λ w. subcommand_of B w ≡ c) _ _ _ _ _
          (last-Runs (step B) F X (HasTelemetry B N F X cli config allowed) _ _ _ (f config)
            (new_partial-Runs B N F X cli config allowed) (λ s t. e s))
          (λ w q.
            subst (λ d. Calls (worked d ∷ []) (work B N w)) q
              (work-Runs B N F X cli config allowed w)))

    -- A benchmark on the services.
    partial-sync-Calls :
        (c : Subcommand B) (f : Config B → Service.Service B.service → Work B)
        → ((s : Service.Service B.service) → subcommand_of B (f config s) ≡ c)
        → Calls
            (services_plan B N cli config ++ (worked c ∷ []))
            (R.sync_run r (λ g. new_partial B N g >>= λ s. work B N (f g s)))
    partial-sync-Calls c f e =
        sync-Calls _ _ (partial-work-Runs B N F X cli config allowed c (f config) e)

    sync-work-Calls :
        (f : Config B → Work B)
        → Calls (worked (subcommand_of B (f config)) ∷ []) (R.sync_run r (λ g. work B N (f g)))
    sync-work-Calls f = sync-Calls _ _ (work-Runs B N F X cli config allowed (f config))

    run_benchmark-Calls :
        (enabled : Bool) (cmd : BenchmarkCmd B)
        → Refusals B N F X cli config enabled (some (benchmark cmd))
        → Calls
            (run_plan B N cli config enabled (some (benchmark cmd)))
            (run_benchmark B N R enabled r cmd)
    run_benchmark-Calls true (pallet cmd) x = sync-work-Calls _
    run_benchmark-Calls false (pallet cmd) x = fail-Runs (step B) F X _ _ (x refl)
    run_benchmark-Calls enabled (block cmd) x = partial-sync-Calls _ _ (λ s. refl)
    run_benchmark-Calls true (storage cmd) x = partial-sync-Calls _ _ (λ s. refl)
    run_benchmark-Calls false (storage cmd) x = fail-Runs (step B) F X _ _ (x refl)
    run_benchmark-Calls enabled (machine cmd) x = sync-work-Calls _
    run_benchmark-Calls enabled (other cmd) x = fail-Runs (step B) F X _ _ x

    pub run_subcommand-Calls :
        (enabled : Bool) (c : Option (Subcommand B))
        → Refusals B N F X cli config enabled c
        → Calls
            (runner_created (runner_for B cli c) ∷ run_plan B N cli config enabled c)
            (run_subcommand B N R enabled cli c)
    run_subcommand-Calls enabled (some (build_spec cmd)) x = runner-then _ _ _ (sync-work-Calls _)
    run_subcommand-Calls enabled (some (check_block cmd)) x =
        runner-then _ _ _ (async-Calls _ _ (λ s. refl))
    run_subcommand-Calls enabled (some (export_blocks cmd)) x =
        runner-then _ _ _ (async-Calls _ _ (λ s. refl))
    run_subcommand-Calls enabled (some (export_state cmd)) x =
        runner-then _ _ _ (async-Calls _ _ (λ s. refl))
    run_subcommand-Calls enabled (some (import_blocks cmd)) x =
        runner-then _ _ _ (async-Calls _ _ (λ s. refl))
    run_subcommand-Calls enabled (some (revert cmd)) x =
        runner-then _ _ _ (async-Calls _ _ (λ s. refl))
    run_subcommand-Calls enabled (some (purge_chain cmd)) x = runner-then _ _ _ (
        sync-Calls _ _ (
          relay_configuration-then B N F X cli config allowed _ _ _
            (λ c. work-Runs B N F X cli config allowed _)))
    run_subcommand-Calls enabled (some (export_genesis_head cmd)) x =
        runner-then _ _ _ (partial-sync-Calls _ _ (λ s. refl))
    run_subcommand-Calls enabled (some (export_genesis_wasm cmd)) x = runner-then _ _ _ (
        sync-Calls _ _ (
          bind-Runs (step B) F X (Any B N F X) _ _ _ _ _
            (lift-Runs (λ d. d) (step B) read_call spec_read from_text (λ d. refl)
              (λ e. F (from_text e)) F X (λ e y. y) _ _ _
              (load_spec-Runs B.sdk B.specs (N.from_json_file) (λ e. F (from_text e)) X x
                (allowed.4) _))
            (λ s y. work-Runs B N F X cli config allowed _)))
    run_subcommand-Calls enabled (some (benchmark cmd)) x =
        runner-then _ _ _ (run_benchmark-Calls enabled cmd x)
    run_subcommand-Calls enabled none x = runner-then _ _ _ (
        subst (Calls _) (sym (R.run_node_until_exit-eq r _)) (
          bind-Runs (step B) F X (Any B N F X) _ _ _ _ _
            (start_node-Runs B N F X cli config allowed x)
            (λ u y. call-Runs (step B) F X _ await_exit _ (λ h. allowed.3))))
