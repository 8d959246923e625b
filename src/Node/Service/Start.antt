-- ===== src/Node/Service/Start.antt =====
-- Starting a node makes the planned calls, in order; when it fails, and that it does not panic.
use swarm_robotics_parachain.Common.{
  Bool, true, false, Option, none, some, List, [], ◌∷◌, ◌⊎◌, ◌≡◌, refl, subst,
}
use swarm_robotics_parachain.Node.Effects.Laws.{
  Runs, Answered, planned, bind-Runs, pure-Runs, call-then, expect-Runs, last-Runs, notify-Runs,
  notify-then, when-Runs,
}
use swarm_robotics_parachain.Node.Service.{
  Crates, Configuration, Service, Call, Answers, Run, start_telemetry, run_worker, new_partial,
  report_telemetry, report_hwbench, join_relay_chain, start_prepared, start_parachain_node,
}
use swarm_robotics_parachain.Node.Service.Plan.{
  is_some, Step, step, has_endpoints, partial_plan, report_plan, join_plan, plan, telemetry_worker,
  telemetry_task, aura, hwbench_telemetry, hardware_warning, offchain, offchain_task,
}

module _ (K : Crates) where
  open K use {
    Error, Endpoint, Worker, Telemetry, TelemetryHandle, Client, Backend, Keystore, RelayChain,
    CollatorPair, Overseer, telemetry_handle, SyncService, Network, CollatorOptions, HwBench,
    ParaId, meets_reference,
  }

  -- The errors that calls return satisfy `F`.
  abbrev pub Fails : {A : Type 0} → (Error → Type 0) → (List (Call K) → Error ⊎ A) → Type 0
  Fails F answer = (h : List (Call K)) → Answered (step K) F Unit (λ a. Unit {0}) (answer h)

  -- The errors of all calls satisfy `F`; a missing collator key of a validator allows `X`.
  abbrev pub Within : Answers K → Configuration K → (Error → Type 0) → Type 0 → Type 0
  Within N config F X =
      Fails F (N.telemetry_worker)
      × Fails F (N.full_parts)
      × ((h : List (Call K))
          → Answered (step K) F X (λ r. (config.is_authority ≡ true) → (r.1 ≡ none) → X)
              (N.relay_chain h))
      × Fails F (N.network)
      × Fails F (N.offchain_workers)
      × Fails F (N.tasks)
      × Fails F (N.overseer)
      × Fails F (N.relay_tasks)

  module _ (N : Answers K) (F : Error → Type 0) (X : Type 0) where
    abbrev pub Does : {A : Type 0} → (A → Type 0) → List (Step K) → Run K A → Type 0
    Does P p m = Runs (step K) F X P p m

    abbrev pub Any : {A : Type 0} → A → Type 0
    Any a = Unit {0}

    start_telemetry-Does :
        (endpoints : Option (List Endpoint))
        → Fails F (N.telemetry_worker)
        → Does
            (λ s. is_some s ≡ is_some endpoints)
            (planned (is_some endpoints) (telemetry_worker ∷ []))
            (start_telemetry K N endpoints)
    start_telemetry-Does none f = pure-Runs (step K) F X _ none refl
    start_telemetry-Does (some endpoints) f =
        call-then (step K) F X Any _ [] _ _ _ f (λ w x. pure-Runs (step K) F X _ _ refl)

    run_worker-Does :
        (b : Bool) (started : Option (Worker × Telemetry))
        → is_some started ≡ b
        → Does (λ t. is_some t ≡ b) (planned b (telemetry_task ∷ [])) (run_worker K N started)
    run_worker-Does b none e =
        subst
          (λ c. Does (λ t. is_some t ≡ c) (planned c (telemetry_task ∷ [])) (run_worker K N none)) e
          (pure-Runs (step K) F X _ none refl)
    run_worker-Does b (some s) e =
        subst
          (λ c.
            Does (λ t. is_some t ≡ c) (planned c (telemetry_task ∷ [])) (run_worker K N (some s)))
          e (notify-then (step K) F X _ [] _ _ (λ u. pure-Runs (step K) F X _ _ refl))

    pub new_partial-Does :
        (config : Configuration K)
        → Fails F (N.telemetry_worker)
        → Fails F (N.full_parts)
        → Does
            (λ s. is_some (s.telemetry) ≡ has_endpoints K config)
            (partial_plan K config)
            (new_partial K N config)
    unfolding new_partial
    new_partial-Does config f g =
        bind-Runs (step K) F X _ _ _ _ _ _ (start_telemetry-Does _ f) (λ s e.
          call-then (step K) F X Any _ _ _ _ _ g (λ parts u.
            bind-Runs (step K) F X _ _ _ _ _ _ (run_worker-Does _ s e) (λ t et.
              call-then (step K) F X Any _ _ _ _ _ (λ h. tt)
                (λ q v.
                  call-then (step K) F X Any _ [] _ _ _ (λ h. tt)
                    (λ i w. pure-Runs (step K) F X _ _ et)))))

    report-Does :
        (config : Configuration K) (telemetry : Option Telemetry) (hwbench : Option HwBench)
        → is_some telemetry ≡ has_endpoints K config
        → Does Any
            (report_plan K config hwbench)
            (report_hwbench K N (config.is_authority) telemetry hwbench)
    report-Does config telemetry none e = pure-Runs (step K) F X _ tt tt
    report-Does config telemetry (some bench) e = notify-then (step K) F X _ _ _ _ (λ u.
        bind-Runs (step K) F X Any Any _ _ _ _
          (when-Runs (step K) F X _ (hardware_warning ∷ []) _ (λ v. notify-Runs (step K) F X _))
          (λ w y. handed telemetry (has_endpoints K config) e))
      where
        handed :
            (t : Option Telemetry) (b : Bool)
            → is_some t ≡ b
            → Does Any (planned b (hwbench_telemetry ∷ [])) (report_telemetry K N t bench)
        handed none b e =
            subst
              (λ c. Does Any (planned c (hwbench_telemetry ∷ [])) (report_telemetry K N none bench))
              e (pure-Runs (step K) F X _ tt tt)
        handed (some t) b e =
            subst
              (λ c.
                Does Any (planned c (hwbench_telemetry ∷ [])) (report_telemetry K N (some t) bench))
              e (notify-Runs (step K) F X _)

    join_relay_chain-Does :
        (config : Configuration K) (params : Service K) (relay : RelayChain)
        (key : Option CollatorPair) (sync : SyncService) (id : ParaId)
        → Fails F (N.overseer)
        → Fails F (N.relay_tasks)
        → (config.is_authority ≡ true → key ≡ none → X)
        → Does Any (join_plan K config id) (join_relay_chain K N config params relay key sync id)
    join_relay_chain-Does config params relay key sync id f g x =
        call-then (step K) F X Any _ _ _ _ _ f (λ o y.
          call-then (step K) F X Any _ _ _ _ _ g (λ u z.
            last-Runs (step K) F X Any Any _ _ (λ v. params.client)
              (when-Runs (step K) F X _ (aura id 6000 2000 ∷ []) _ (λ a.
                bind-Runs (step K) F X Any Any [] _ _ _
                  (expect-Runs (step K) F X Any key (x a) (λ k e. tt))
                  (λ k w. notify-then (step K) F X _ [] _ _ (λ u. pure-Runs (step K) F X _ tt tt))))
              (λ v w. tt)))

    pub start_prepared-Does :
        (config polkadot : Configuration K) (options : CollatorOptions) (id : ParaId)
        (bench : Option HwBench)
        → Within N config F X
        → Does Any (plan K config id bench) (start_prepared K N config polkadot options id bench)
    unfolding start_prepared new_partial
    start_prepared-Does config polkadot options id bench (f1, f2, f3, f4, f5, f6, f7, f8) =
        bind-Runs (step K) F X _ _ _ _ _ _ (new_partial-Does config f1 f2) (λ s e.
          call-then (step K) F X _ _ _ _ _ _ f3 (λ r x.
            call-then (step K) F X Any _ _ _ _ _ f4 (λ n y.
              bind-Runs (step K) F X Any Any _ _ _ _
                (when-Runs (step K) F X _
                  (offchain (config.is_authority) false ∷ offchain_task ∷ []) _
                  (λ a.
                    call-then (step K) F X Any _ _ _ _ _ f5 (λ w z. notify-Runs (step K) F X _)))
                (λ u z. call-then (step K) F X Any _ _ _ _ _ f6 (λ t w.
                  bind-Runs (step K) F X Any Any _ _ _ _ (report-Does config _ bench e)
                    (λ v a. join_relay_chain-Does config s _ _ _ id f7 f8 x))))))

    pub start_parachain_node-Does :
        (prepare : Configuration K → Configuration K) (config polkadot : Configuration K)
        (options : CollatorOptions) (id : ParaId) (bench : Option HwBench)
        → Within N (prepare config) F X
        → Does Any
            (plan K (prepare config) id bench)
            (start_parachain_node K N prepare config polkadot options id bench)
    unfolding start_parachain_node
    start_parachain_node-Does prepare config polkadot options id bench w =
        start_prepared-Does (prepare config) polkadot options id bench w
