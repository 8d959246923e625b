-- ===== src/Node/Service/Timing.antt =====
-- The times that node/src/service.rs gives to its tasks, and those that runtime/src/lib.rs counts on.
use swarm_robotics_parachain.Common.{
  ℕ, ◌*◌, ◌≡◌, refl, sym, subst, Bool, true, false, Option, none, some, List, [], ◌∷◌, ◌++◌, map,
  All, All-append, arith, if◌then◌else◌,
}
use swarm_robotics_parachain.Frame.BlockWeights.{WeightArithmetic, BlockWeightsBuilder}
use swarm_robotics_parachain.Frame.Fee.{Perbills}
use swarm_robotics_parachain.Frame.Weight.{Weights}
use swarm_robotics_parachain.Node.Effects.{run}
use swarm_robotics_parachain.Node.Effects.Ends.{Follows-begins}
use swarm_robotics_parachain.Node.Effects.Laws.{planned}
use swarm_robotics_parachain.Node.Service.{Crates, Configuration, Answers, start_parachain_node}
use swarm_robotics_parachain.Node.Service.Plan.{
  Step, telemetry_worker, node_parts, telemetry_task, pool, import_queue, relay_chain, network,
  offchain, offchain_task, tasks, hwbench_printed, hardware_warning, hwbench_telemetry, overseer,
  relay_tasks, aura, step, plan, partial_plan, report_plan, join_plan, has_endpoints,
}
use swarm_robotics_parachain.Node.Service.Promises.{start_parachain_node_plan}
use swarm_robotics_parachain.Runtime.BlockWeights.{maximum_block_weight}
use swarm_robotics_parachain.Runtime.BlockWeights.Limits.{ref_time-most}
use swarm_robotics_parachain.Runtime.Constants.{slot_duration, relay_chain_slot_duration_millis}

module _ {A : Type 0} (P : A → Type 0) where
  All-start : (xs ys : List A) → All P (xs ++ ys) → All P xs
  All-start [] ys h = tt
  All-start (x ∷ xs) ys h = (h.0, All-start xs ys h.1)

  All-planned : (b : Bool) (xs : List A) → All P xs → All P (planned b xs)
  All-planned true xs h = h
  All-planned false xs h = tt

module _ (K : Crates) (W : Weights) (P : Perbills) (A : WeightArithmetic W P)
    (B : BlockWeightsBuilder W P) (max_pov_size : ℕ) where
  -- The times of a step, in milliseconds: the slots of the relay chain are as long as the runtime
  -- takes them to be, and as the runtime's own slots; a block is authored for as long as the
  -- largest block takes.
  abbrev pub Agrees : Step K → Type 0
  Agrees (relay_tasks id profile slot) = slot ≡ relay_chain_slot_duration_millis
  Agrees (aura id slot authoring) =
      (slot ≡ relay_chain_slot_duration_millis)
      × (slot ≡ slot_duration)
      × (authoring * W.weight_ref_time_per_millis
          ≡ W.ref_time (maximum_block_weight W P A B max_pov_size))
  Agrees telemetry_worker = Unit {0}
  Agrees (node_parts b) = Unit {0}
  Agrees telemetry_task = Unit {0}
  Agrees (pool b) = Unit {0}
  Agrees import_queue = Unit {0}
  Agrees relay_chain = Unit {0}
  Agrees (network id r) = Unit {0}
  Agrees (offchain b c) = Unit {0}
  Agrees offchain_task = Unit {0}
  Agrees tasks = Unit {0}
  Agrees hwbench_printed = Unit {0}
  Agrees hardware_warning = Unit {0}
  Agrees hwbench_telemetry = Unit {0}
  Agrees overseer = Unit {0}

  authoring_lem :
      2000 * W.weight_ref_time_per_millis ≡ W.ref_time (maximum_block_weight W P A B max_pov_size)
  authoring_lem =
      omega (arith, W.per_second_lem, W.per_millis_lem, ref_time-most W P A B max_pov_size)

  module _ (config : Configuration K) (id : K.ParaId) where
    join_plan-Agrees : All Agrees (join_plan K config id)
    join_plan-Agrees = (
      tt,
      (
        refl,
        All-planned Agrees (config.is_authority) (aura id 6000 2000 ∷ [])
            ((refl, refl, authoring_lem), tt),
      ),
    )

    report_plan-Agrees : (bench : Option (K.HwBench)) → All Agrees (report_plan K config bench)
    report_plan-Agrees none = tt
    report_plan-Agrees (some b) = (
      tt,
      All-append Agrees
          (planned (if K.meets_reference b then false else config.is_authority)
            (hardware_warning ∷ []))
          (planned (has_endpoints K config) (hwbench_telemetry ∷ []))
          (All-planned Agrees (if K.meets_reference b then false else config.is_authority)
            (hardware_warning ∷ []) (tt, tt))
          (All-planned Agrees (has_endpoints K config) (hwbench_telemetry ∷ []) (tt, tt)),
    )

    partial_plan-Agrees : All Agrees (partial_plan K config)
    partial_plan-Agrees =
        All-append Agrees (planned (has_endpoints K config) (telemetry_worker ∷ []))
          (node_parts true
            ∷ (planned (has_endpoints K config) (telemetry_task ∷ [])
                ++ (pool (config.is_authority) ∷ import_queue ∷ [])))
          (All-planned Agrees (has_endpoints K config) (telemetry_worker ∷ []) (tt, tt))
          (
            tt,
            All-append Agrees (planned (has_endpoints K config) (telemetry_task ∷ []))
                (pool (config.is_authority) ∷ import_queue ∷ [])
                (All-planned Agrees (has_endpoints K config) (telemetry_task ∷ []) (tt, tt))
                (tt, (tt, tt)),
          )

    services_plan-Agrees :
        (bench : Option (K.HwBench))
        → All Agrees (tasks ∷ (report_plan K config bench ++ join_plan K config id))
    services_plan-Agrees bench = (
      tt,
      All-append Agrees (report_plan K config bench) (join_plan K config id)
          (report_plan-Agrees bench) join_plan-Agrees,
    )

    offchain_plan-Agrees :
        (xs : List (Step K))
        → All Agrees xs
        → All Agrees (
            planned
              (config.offchain_worker_enabled)
              (offchain (config.is_authority) false ∷ offchain_task ∷ [])
            ++ xs)
    offchain_plan-Agrees xs h =
        All-append Agrees
          (planned (config.offchain_worker_enabled)
            (offchain (config.is_authority) false ∷ offchain_task ∷ []))
          xs
          (All-planned Agrees (config.offchain_worker_enabled)
            (offchain (config.is_authority) false ∷ offchain_task ∷ []) (tt, (tt, tt)))
          h

    plan-Agrees : (bench : Option (K.HwBench)) → All Agrees (plan K config id bench)
    plan-Agrees bench =
        All-append Agrees (partial_plan K config) _ partial_plan-Agrees
          (tt, (tt, offchain_plan-Agrees _ (services_plan-Agrees bench)))

  -- Whatever the calls of the crates return, the start of a node gives its tasks the times that the
  -- runtime counts on: the relay chain tasks and Aura get the relay chain's slot duration of the
  -- runtime, which is the runtime's own, and Aura authors for as long as the largest block takes.
  pub start_parachain_node-Agrees :
      (N : Answers K) (prepare : Configuration K → Configuration K)
      (config polkadot : Configuration K) (options : K.CollatorOptions) (id : K.ParaId)
      (bench : Option (K.HwBench))
      → All Agrees (
          map
            (step K)
            (run (start_parachain_node K N prepare config polkadot options id bench) []).1)
  start_parachain_node-Agrees N prepare config polkadot options id bench =
      let (q, e) =
        Follows-begins _ _ _
          (start_parachain_node_plan K N prepare config polkadot options id bench) in
      All-start Agrees _ q (subst (All Agrees) (sym e) (plan-Agrees (prepare config) id bench))
