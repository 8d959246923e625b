-- ===== src/Node/Command/Steps.antt =====
-- Each subcommand makes its planned calls, in order.
use Prim.Native.String.{String}
use swarm_robotics_parachain.Common.{
  ℕ, Bool, true, false, Option, none, some, List, [], ◌∷◌, ◌++◌, map, ◌⊎◌, ◌≡◌, refl, ap, subst,
}
use swarm_robotics_parachain.Node.ChainSpec.{Read, try_get}
use swarm_robotics_parachain.Node.Command.{
  pallet_refusal, storage_refusal, unsupported, no_para_id, NodeCrates, Config, pallet, storage,
  other, Subcommand, export_genesis_wasm, benchmark, Cli, RelayCli, Work, service_call, run_work,
  create_configuration, log_collating, Answers, Run, Done, new_partial, work, relay_chain_cli,
  text_error, relay_configuration, gather, hwbench, para_id_of, start_node,
}
use swarm_robotics_parachain.Node.Command.Plan.{
  Step, service_step, relay_configured, worked, subcommand_of, step, services_plan, path_plan,
  hwbench_plan, path_bench, measured, node_plan,
}
use swarm_robotics_parachain.Node.Effects.{◌>>=◌, ◌>>◌, pure, ok_or, notify, lift}
use swarm_robotics_parachain.Node.Effects.Laws.{
  Runs, Answered, bind-Runs, pure-Runs, call-Runs, call-then, ok_or-Runs, last-Runs, notify-then,
}
use swarm_robotics_parachain.Node.Effects.Lift.{lift-Runs}
use swarm_robotics_parachain.Node.Service
use swarm_robotics_parachain.Node.Service.Plan.{is_some, has_endpoints}
use swarm_robotics_parachain.Node.Service.Start.{
  Within, new_partial-Does, start_parachain_node-Does,
}

module _ (B : NodeCrates) (N : Answers B) (F : B.clap.Error → Type 0) (X : Type 0) where
  open B use {from_text, from_service}

  -- The errors that `?` converts.
  abbrev pub FromService : B.service.Error → Type 0
  FromService e = F (from_service e)

  abbrev pub Any : {A : Type 0} → A → Type 0
  Any a = Unit {0}

  abbrev pub Does : {A : Type 0} → (A → Type 0) → List (Step B) → Run B A → Type 0
  Does P p m = Runs (step B) F X P p m

  abbrev pub Succeeds : {A : Type 0} → B.clap.Error ⊎ A → Type 0
  Succeeds r = Answered (step B) F X (λ a. Unit {0}) r

  -- The errors of all calls satisfy `F`; a missing collator key of a validator allows `X`.
  abbrev pub Allowed : Config B → Type 0
  Allowed config =
      Within B.service (N.services) (B.prepare_node_config (config.services)) FromService X
      × Succeeds (text_error B N (N.relay_configuration))
      × Succeeds (N.work)
      × Succeeds (N.exit)
      × ((id : String) (h : List Read)
          → Answered (λ (r : Read). r) (λ e. F (from_text e)) X (λ s. Unit {0})
              (N.from_json_file id h))

  module _ (cli : Cli B) (config : Config B) where
    pub gather-Runs :
        (path : Option B.clap.PathBuf)
        → Does
            (λ b. b ≡ path_bench B N cli config path)
            (path_plan B N cli config path)
            (gather B N path)
    gather-Runs none = pure-Runs (step B) F X _ none refl
    gather-Runs (some path) = notify-then (step B) F X _ _ _ _ (λ u.
        call-then (step B) F X (λ b. b ≡ N.hwbench) _ [] _ _ _ (λ h. refl)
          (λ b e. pure-Runs (step B) F X _ _ (ap some e)))

    pub hwbench-Runs :
        (off : Bool)
        → Does
            (λ b. b ≡ measured B N cli config off)
            (hwbench_plan B N cli config off)
            (hwbench B N off config)
    hwbench-Runs true = pure-Runs (step B) F X _ none refl
    hwbench-Runs false = gather-Runs _

  module _ (cli : Cli B) (config : Config B) (allowed : Allowed config) where
    abbrev pub HasTelemetry : Service.Service B.service → Type 0
    HasTelemetry s = is_some (s.telemetry) ≡ has_endpoints B.service (config.services)

    pub new_partial-Runs : Does HasTelemetry (services_plan B N cli config) (new_partial B N config)
    new_partial-Runs =
        lift-Runs (Service.Plan.step B.service) (step B) service_call service_step from_service
          (λ d. refl) FromService F X (λ e x. x) HasTelemetry _ _
          (new_partial-Does B.service (N.services) FromService X (config.services) allowed.0.0
            allowed.0.1)

    pub work-Runs : (w : Work B) → Does Any (worked (subcommand_of B w) ∷ []) (work B N w)
    work-Runs w = call-Runs (step B) F X Any (run_work w) _ (λ h. allowed.2)

    -- The services, and then work on them.
    pub partial-work-Runs :
        (c : Subcommand B) (f : Service.Service B.service → Work B)
        → ((s : Service.Service B.service) → subcommand_of B (f s) ≡ c)
        → Does Any
            (services_plan B N cli config ++ (worked c ∷ []))
            (new_partial B N config >>= λ s. work B N (f s))
    partial-work-Runs c f e =
        bind-Runs (step B) F X HasTelemetry Any _ _ _ _ new_partial-Runs
          (λ s t. subst (λ d. Does Any (worked d ∷ []) (work B N (f s))) (e s) (work-Runs (f s)))

    pub relay_configuration-then :
        (relay : RelayCli B) (p : List (Step B)) (f : Service.Configuration B.service → Done B N)
        → ((c : Service.Configuration B.service) → Does Any p (f c))
        → Does Any (relay_configured relay ∷ p) (relay_configuration B N relay >>= f)
    relay_configuration-then relay p f k =
        call-then (step B) F X Any Any p (create_configuration relay) _ f (λ h. allowed.1)
          (λ c u. k c)

    abbrev started :
        ℕ → Service.Configuration B.service → Option B.service.HwBench → Run B B.service.Client
    started id relay bench = lift service_call from_service (
        Service.start_parachain_node B.service (N.services) B.prepare_node_config (config.services)
          relay (B.collator_options (cli.run_cmd)) (B.para_id id) bench)

    started-Runs :
        (id : ℕ) (relay : Service.Configuration B.service) (bench : Option B.service.HwBench)
        → Does Any
            (map service_step (
              Service.Plan.plan B.service
                (B.prepare_node_config (config.services))
                (B.para_id id)
                bench))
            (started id relay bench)
    started-Runs id relay bench =
        lift-Runs (Service.Plan.step B.service) (step B) service_call service_step from_service
          (λ d. refl) FromService F X (λ e x. x) Any _ _
          (start_parachain_node-Does B.service (N.services) FromService X B.prepare_node_config
            (config.services) relay _ _ bench allowed.0)

    -- From the parachain id on.
    abbrev node_rest : Option B.service.HwBench → ℕ → Done B N
    node_rest bench para_id = do
      polkadot_config ← relay_configuration B N (relay_chain_cli B N cli config)
      notify (log_collating (config.services.is_authority))
      client ← started para_id polkadot_config bench
      pure tt

    node_rest-Runs :
        (bench : Option B.service.HwBench) (id : ℕ)
        → bench ≡ measured B N cli config (cli.no_hardware_benchmarks)
        → Does Any (node_plan B N cli config (some id)) (node_rest bench id)
    node_rest-Runs bench id e = relay_configuration-then _ _ _ (λ relay.
        notify-then (step B) F X Any _ _ _ (λ u.
          last-Runs (step B) F X Any Any _ _ _
            (subst
              (λ b.
                Does {A = B.service.Client} Any
                  (map service_step (
                    Service.Plan.plan B.service (B.prepare_node_config (config.services))
                      (B.para_id id) b))
                  (started id relay bench))
              e (started-Runs id relay bench))
            (λ v x. tt)))

    pub start_node-Runs :
        (((para_id_of B N (try_get B.sdk B.specs (config.chain_spec))) ≡ none)
          → F (from_text no_para_id))
        → Does Any
            (hwbench_plan B N cli config (cli.no_hardware_benchmarks)
              ++ node_plan B N cli config
                  (para_id_of B N (try_get B.sdk B.specs (config.chain_spec))))
            (start_node B N cli config)
    unfolding start_node
    start_node-Runs missing =
        bind-Runs (step B) F X _ Any _ _ _ _ (hwbench-Runs cli config (cli.no_hardware_benchmarks))
          (λ bench e. with_id bench e _ missing)
      where
        with_id :
            (bench : Option B.service.HwBench)
            → bench ≡ measured B N cli config (cli.no_hardware_benchmarks)
            → (o : Option ℕ) → ((o ≡ none) → F (from_text no_para_id))
            → Does Any
                (node_plan B N cli config o)
                (ok_or o (from_text no_para_id) >>= node_rest bench)
        with_id bench e none m =
            bind-Runs (step B) F X (λ i. ⊥) Any [] [] _ _
              (ok_or-Runs (step B) F X _ none _ m (λ i q. absurd (cc q))) (λ i q. absurd q)
        with_id bench e (some id) m =
            bind-Runs (step B) F X (λ i. i ≡ id) Any [] _ _ _
              (ok_or-Runs (step B) F X _ (some id) _ (λ q. absurd (cc q)) (λ i q. cc q))
              (λ i q.
                subst (λ j. Does Any (node_plan B N cli config (some j)) (node_rest bench i)) q
                  (node_rest-Runs bench i e))

  -- What the code itself refuses, and the panic without the runtime's code.
  abbrev pub Refusals : Cli B → Config B → Bool → Option (Subcommand B) → Type 0
  Refusals cli config enabled (some (benchmark (pallet cmd))) =
      (enabled ≡ false) → F (from_text pallet_refusal)
  Refusals cli config enabled (some (benchmark (storage cmd))) =
      (enabled ≡ false) → F (B.input storage_refusal)
  Refusals cli config enabled (some (benchmark (other cmd))) = F (from_text unsupported)
  Refusals cli config enabled (some (export_genesis_wasm cmd)) = (B.specs.wasm_binary ≡ none) → X
  Refusals cli config enabled none =
      ((para_id_of B N (try_get B.sdk B.specs (config.chain_spec))) ≡ none)
      → F (from_text no_para_id)
  Refusals cli config enabled (some c) = Unit
