-- ===== src/Node/Command/Refuse.antt =====
-- What the command line itself refuses, and how.
use swarm_robotics_parachain.Common.{
  Bool, false, Option, none, some, List, [], ◌∷◌, ◌++◌, map, append-nil, inl, inr, ◌≡◌, refl, sym,
  subst, ap, ◌∙◌,
}
use swarm_robotics_parachain.Node.ChainSpec.{try_get}
use swarm_robotics_parachain.Node.Command
use swarm_robotics_parachain.Node.Command.{
  pallet_refusal, storage_refusal, unsupported, no_para_id, NodeCrates, Config, BenchmarkCmd,
  pallet, storage, other, Subcommand, build_spec, check_block, export_blocks, export_state,
  import_blocks, revert, purge_chain, export_genesis_head, export_genesis_wasm, benchmark, Cli,
  node, Call, create_runner, Answers, Runners, start_node, run_subcommand, para_id_of, hwbench,
  Done,
}
use swarm_robotics_parachain.Node.Command.Plan.{
  Step, runner_created, runner_for, step, hwbench_plan,
}
use swarm_robotics_parachain.Node.Command.Promises.{ran}
use swarm_robotics_parachain.Node.Command.Steps.{Does, hwbench-Runs}
use swarm_robotics_parachain.Node.Effects.{Outcome, done, failed, panicked, run, ◌>>=◌, call}
use swarm_robotics_parachain.Node.Effects.Laws.{
  Kept, Runs-Kept, Answered, bind-Runs, ok_or-Runs, call-then,
}

module _ (B : NodeCrates) (N : Answers B) (R : Runners B N) (enabled : Bool) (cli : Cli B) where
  open B use {from_text}

  module _ (r : B.Runner) (created : N.runner ≡ inr r) where
    abbrev Never : Unit {0} → Type 0
    Never u = ⊥

    abbrev IsParaIdError : B.clap.Error → Type 0
    IsParaIdError e = e ≡ from_text no_para_id

    -- Without a parachain id only the hardware is measured.
    missing-Runs :
        try_get B.sdk B.specs ((R.config r).chain_spec) ≡ none
        → Does B N IsParaIdError ⊥ Never
            (runner_created (node (cli.run_cmd))
              ∷ ((hwbench_plan B N cli (R.config r) (cli.no_hardware_benchmarks) ++ []) ++ []))
            (run_subcommand B N R enabled cli none)
    unfolding start_node
    missing-Runs m =
        call-then (step B) IsParaIdError ⊥ (λ s. s ≡ r) _ _ _ _ _
          (λ h. subst (Answered (step B) IsParaIdError ⊥ (λ s. s ≡ r)) (sym created) refl)
          (λ s e.
            subst
              (λ s.
                Does B N IsParaIdError ⊥ Never (more ++ [])
                  (R.run_node_until_exit s (start_node B N cli)))
              (sym e)
              (subst (Does B N IsParaIdError ⊥ Never (more ++ []))
                (sym (R.run_node_until_exit-eq r _))
                (bind-Runs (step B) IsParaIdError ⊥ Never Never more [] _ _
                  (bind-Runs (step B) IsParaIdError ⊥ _ Never _ [] _ _
                    (hwbench-Runs B N IsParaIdError ⊥ cli (R.config r) (cli.no_hardware_benchmarks))
                    (λ b q.
                      bind-Runs (step B) IsParaIdError ⊥ (λ i. ⊥) Never [] [] _ _
                        (ok_or-Runs (step B) IsParaIdError ⊥ (λ i. ⊥) _ _ (λ z. refl)
                          (λ i z. cc (ap (para_id_of B N) m ∙ refl, z)))
                        (λ i z. absurd z)))
                  (λ u z. absurd z))))
      where
        more : List (Step B)
        more = hwbench_plan B N cli (R.config r) (cli.no_hardware_benchmarks) ++ []

    missing-result :
        (p : List (Step B)) (x : Outcome B.clap.Error (Unit {0}) × List (Call B))
        → Kept (step B) IsParaIdError ⊥ Never p [] x
        → (x.0 ≡ failed (from_text no_para_id))
          × ((q : List (Step B)) × (map (step B) x.1 ++ q ≡ p))
    missing-result p (done u, t) (x, k) = absurd x
    missing-result p (failed e, t) (x, (u, q, z, w)) =
        (ap failed x, (q, ap (λ v. map (step B) v ++ q) z ∙ w))
    missing-result p (panicked, t) (x, k) = absurd x

    missing-ran :
        (try_get B.sdk B.specs ((R.config r).chain_spec) ≡ none)
        → ((run (run_subcommand B N R enabled cli none) []).0 ≡ failed (from_text no_para_id))
          × ((q : List (Step B)) × (map (step B) (run (run_subcommand B N R enabled cli none) []).1
                  ++ q
                ≡ runner_created (node (cli.run_cmd))
                  ∷ hwbench_plan B N cli (R.config r) (cli.no_hardware_benchmarks)))
    missing-ran m =
        let x =
          missing-result _ _ (Runs-Kept (step B) IsParaIdError ⊥ Never _ _ (missing-Runs m) []) in
        (
          x.0,
          (
            x.1.0,
            x.1.1 ∙ ap (λ p. runner_created (node (cli.run_cmd)) ∷ p) (append-nil _ ∙ append-nil _),
          ),
        )

  no_runner :
      (e : B.clap.Error)
      → N.runner ≡ inl e
      → (c : Option (Subcommand B))
      → run (run_subcommand B N R enabled cli c) []
        ≡ (failed e, create_runner (runner_for B cli c) ∷ [])
  unfolding ◌>>=◌ call
  no_runner e q none = rw q refl
  no_runner e q (some (build_spec cmd)) = rw q refl
  no_runner e q (some (check_block cmd)) = rw q refl
  no_runner e q (some (export_blocks cmd)) = rw q refl
  no_runner e q (some (export_state cmd)) = rw q refl
  no_runner e q (some (import_blocks cmd)) = rw q refl
  no_runner e q (some (revert cmd)) = rw q refl
  no_runner e q (some (purge_chain cmd)) = rw q refl
  no_runner e q (some (export_genesis_head cmd)) = rw q refl
  no_runner e q (some (export_genesis_wasm cmd)) = rw q refl
  no_runner e q (some (benchmark cmd)) = rw q refl

  -- The error of a benchmark that the command line refuses.
  abbrev pub refusal_of : Bool → BenchmarkCmd B → Option B.clap.Error
  refusal_of false (pallet cmd) = some (from_text pallet_refusal)
  refusal_of false (storage cmd) = some (B.input storage_refusal)
  refusal_of on (other cmd) = some (from_text unsupported)
  refusal_of on cmd = none

  -- If the runner is created, there is no subcommand, and the chain spec has no parachain id, the
  -- run returns the error that says so, and nothing but the runner's creation and the measurement
  -- of the hardware was called.
  pub run_without_para_id :
      (r : B.Runner)
      → N.runner ≡ inr r
      → cli.subcommand ≡ none
      → try_get B.sdk B.specs ((R.config r).chain_spec) ≡ none
      → ((ran B N R enabled cli).0 ≡ failed (from_text no_para_id))
        × ((q : List (Step B)) × (map (step B) (ran B N R enabled cli).1 ++ q
              ≡ runner_created (node (cli.run_cmd))
                ∷ hwbench_plan B N cli (R.config r) (cli.no_hardware_benchmarks)))
  unfolding Command.run
  run_without_para_id r created q m =
      subst
        (λ c.
          ((run (run_subcommand B N R enabled cli c) []).0 ≡ failed (from_text no_para_id))
          × ((q : List (Step B)) × (map (step B) (run (run_subcommand B N R enabled cli c) []).1
                  ++ q
                ≡ runner_created (node (cli.run_cmd))
                  ∷ hwbench_plan B N cli (R.config r) (cli.no_hardware_benchmarks))))
        (sym q) (missing-ran r created m)

  pub run_without_runner :
      (e : B.clap.Error)
      → N.runner ≡ inl e
      → ran B N R enabled cli ≡ (failed e, create_runner (runner_for B cli (cli.subcommand)) ∷ [])
  unfolding Command.run
  run_without_runner e q = no_runner e q (cli.subcommand)
