-- ===== src/Node/Command/Offline.antt =====
-- A subcommand works on the local services only.
use Prim.Native.String.{String}
use swarm_robotics_parachain.Common.{
  Bool, true, false, some, List, [], ◌∷◌, ◌++◌, map, All, All-append, ◌⊎◌, inl, inr, ◌≡◌, refl, sym,
  subst, unwrap_or,
}
use swarm_robotics_parachain.Node.ChainSpec.Reads.{reads_if}
use swarm_robotics_parachain.Node.Command.{
  NodeCrates, Config, pallet, block, storage, machine, other, Subcommand, build_spec, check_block,
  export_blocks, export_state, import_blocks, revert, purge_chain, export_genesis_head,
  export_genesis_wasm, benchmark, Cli, Answers, Runners,
}
use swarm_robotics_parachain.Node.Command.Plan.{
  Step, runner_created, service_step, spec_read, relay_configured, dir_created, hwbench_gathered,
  collating, worked, exit_awaited, step, services_plan, run_plan,
}
use swarm_robotics_parachain.Node.Effects.Ends.{Follows-begins}
use swarm_robotics_parachain.Node.Command.Promises.{ran, run_planned}
use swarm_robotics_parachain.Node.Command.Refuse.{run_without_runner}
use swarm_robotics_parachain.Node.Effects.Laws.{planned}
use swarm_robotics_parachain.Node.Service.Plan

All-prefix {ℓ κ} : {A : Type ℓ} (P : A → Type κ) (xs ys : List A) → All P (xs ++ ys) → All P xs
All-prefix P [] ys h = tt
All-prefix P (x ∷ xs) ys h = (h.0, All-prefix P xs ys h.1)

module _ (B : NodeCrates) where
  -- A step of the services that no network has a part in.
  abbrev pub Local : Plan.Step B.service → Type 0
  Local Plan.telemetry_worker = Unit
  Local (Plan.node_parts record_import) = Unit
  Local Plan.telemetry_task = Unit
  Local (Plan.pool authority) = Unit
  Local Plan.import_queue = Unit
  Local Plan.relay_chain = ⊥
  Local (Plan.network id sybil) = ⊥
  Local (Plan.offchain validator requests) = ⊥
  Local Plan.offchain_task = ⊥
  Local Plan.tasks = ⊥
  Local Plan.hwbench_printed = ⊥
  Local Plan.hardware_warning = ⊥
  Local Plan.hwbench_telemetry = ⊥
  Local Plan.overseer = ⊥
  Local (Plan.relay_tasks id profile slot) = ⊥
  Local (Plan.aura id slot authoring) = ⊥

  -- A step of a run in which no network has a part, and that waits for no node to end.
  abbrev pub Offline : Step B → Type 0
  Offline (runner_created r) = Unit
  Offline (service_step s) = Local s
  Offline (spec_read r) = Unit
  Offline (relay_configured c) = Unit
  Offline (dir_created p) = Unit
  Offline (hwbench_gathered p) = Unit
  Offline (collating b) = ⊥
  Offline (worked c) = Unit
  Offline exit_awaited = ⊥

  services-All :
      (b authority : Bool)
      → All Offline (
          map service_step (
            planned b (Plan.telemetry_worker ∷ [])
            ++ (Plan.node_parts true
                ∷ (planned b (Plan.telemetry_task ∷ [])
                    ++ (Plan.pool authority ∷ Plan.import_queue ∷ [])))))
  services-All true authority = (tt, (tt, (tt, (tt, (tt, tt)))))
  services-All false authority = (tt, (tt, (tt, tt)))

  reads-All :
      (b : Bool) (id : String) (c : Subcommand B)
      → All Offline (map spec_read (reads_if b id) ++ (worked c ∷ []))
  reads-All true id c = (tt, tt)
  reads-All false id c = (tt, (tt, tt))

  module _ (N : Answers B) (cli : Cli B) (config : Config B) where
    local-All : (c : Subcommand B) → All Offline (services_plan B N cli config ++ (worked c ∷ []))
    local-All c =
        All-append Offline (services_plan B N cli config) (worked c ∷ []) (services-All _ _)
          (tt, tt)

    run_plan-All :
        (enabled : Bool) (c : Subcommand B) → All Offline (run_plan B N cli config enabled (some c))
    run_plan-All enabled (build_spec cmd) = (tt, tt)
    run_plan-All enabled (check_block cmd) = local-All _
    run_plan-All enabled (export_blocks cmd) = local-All _
    run_plan-All enabled (export_state cmd) = local-All _
    run_plan-All enabled (import_blocks cmd) = local-All _
    run_plan-All enabled (revert cmd) = local-All _
    run_plan-All enabled (purge_chain cmd) = (tt, (tt, tt))
    run_plan-All enabled (export_genesis_head cmd) = local-All _
    run_plan-All enabled (export_genesis_wasm cmd) = reads-All _ (unwrap_or (B.chain_of cmd) "") _
    run_plan-All true (benchmark (pallet cmd)) = (tt, tt)
    run_plan-All false (benchmark (pallet cmd)) = tt
    run_plan-All enabled (benchmark (block cmd)) = local-All _
    run_plan-All true (benchmark (storage cmd)) = local-All _
    run_plan-All false (benchmark (storage cmd)) = tt
    run_plan-All enabled (benchmark (machine cmd)) = (tt, tt)
    run_plan-All enabled (benchmark (other cmd)) = tt

module _ (B : NodeCrates) (N : Answers B) (R : Runners B N) (enabled : Bool) (cli : Cli B) where
  offline :
      (c : Subcommand B) (x : B.clap.Error ⊎ B.Runner)
      → cli.subcommand ≡ some c
      → N.runner ≡ x
      → All (Offline B) (map (step B) (ran B N R enabled cli).1)
  offline c (inl e) q n =
      subst (λ r. All (Offline B) (map (step B) r.1))
        (sym (run_without_runner B N R enabled cli e n)) (tt, tt)
  offline c (inr r) q n =
      let p = Follows-begins _ _ _ (run_planned B N R enabled cli r n) in
      All-prefix (Offline B) _ p.0 (
        subst (All (Offline B)) (sym p.1) (
          tt,
          subst (λ s. All (Offline B) (run_plan B N cli (R.config r) enabled s)) (sym q)
              (run_plan-All B N cli (R.config r) enabled c),
        ))

  -- A subcommand, whatever the calls of the crates return, has no part in a network: it builds no
  -- relay chain interface and no network, starts no offchain workers, no network tasks and no
  -- consensus, and does not wait for a node to end.
  pub run-Offline :
      (c : Subcommand B)
      → cli.subcommand ≡ some c
      → All (Offline B) (map (step B) (ran B N R enabled cli).1)
  run-Offline c q = offline c _ q refl
