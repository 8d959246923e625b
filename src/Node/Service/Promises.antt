-- ===== src/Node/Service/Promises.antt =====
-- What starting a node promises: its calls, in order, that it does not panic, and that it succeeds.
use swarm_robotics_parachain.Common.{true, Option, none, List, [], map, ◌⊎◌, inl, inr, ◌≡◌, ◌≢◌}
use swarm_robotics_parachain.Node.Effects.{Outcome, done, panicked, run}
use swarm_robotics_parachain.Node.Effects.Ends.{Follows, follows, unpanicked, returns}
use swarm_robotics_parachain.Node.Effects.Laws.{Kept, Answered, Runs-Kept}
use swarm_robotics_parachain.Node.Service.{
  Crates, Configuration, Call, Answers, start_parachain_node,
}
use swarm_robotics_parachain.Node.Service.Plan.{step, plan}
use swarm_robotics_parachain.Node.Service.Start.{Fails, Within, start_prepared-Does}

module _ (K : Crates) where
  open K use {Error, Client, RelayChain, CollatorPair, CollatorOptions, HwBench, ParaId}

  allowed :
      {A : Type 0} (X : Type 0) (P : A → Type 0) (r : Error ⊎ A)
      → ((a : A) → P a)
      → Answered (step K) (λ e. Unit {0}) X P r
  allowed X P (inl e) p = tt
  allowed X P (inr a) p = p a

  ok : {A : Type 0} (answer : List (Call K) → Error ⊎ A) → Fails K (λ e. Unit {0}) answer
  ok answer h = allowed Unit _ (answer h) (λ a. tt)

  -- The collator key that comes with the relay chain interface of a validator.
  abbrev pub KeyGiven : Configuration K → Error ⊎ (RelayChain × Option CollatorPair) → Type 0
  KeyGiven config (inl e) = Unit
  KeyGiven config (inr (relay, key)) = config.is_authority ≡ true → key ≢ none

  key_given :
      (config : Configuration K) (r : Error ⊎ (RelayChain × Option CollatorPair))
      → KeyGiven config r
      → Answered (step K) (λ e. Unit {0}) ⊥ (λ r. config.is_authority ≡ true → r.1 ≡ none → ⊥) r
  key_given config (inl e) k = tt
  key_given config (inr (relay, key)) k = k

  pub Within_any :
      (N : Answers K) (config : Configuration K) → Within K N config (λ e. Unit {0}) (Unit {0})
  Within_any N config = (
    ok _,
    ok _,
    λ h.
        allowed (Unit {0}) (λ r. config.is_authority ≡ true → r.1 ≡ none → Unit {0})
          (N.relay_chain h) (λ r x y. tt),
    ok _,
    ok _,
    ok _,
    ok _,
    ok _,
  )

  pub Within_keyed :
      (N : Answers K) (config : Configuration K)
      → ((h : List (Call K)) → KeyGiven config (N.relay_chain h))
      → Within K N config (λ e. Unit {0}) ⊥
  Within_keyed N config g =
      (ok _, ok _, λ h. key_given config _ (g h), ok _, ok _, ok _, ok _, ok _)

  module _ (N : Answers K) (prepare : Configuration K → Configuration K)
      (config polkadot : Configuration K) (options : CollatorOptions) (id : ParaId)
      (bench : Option HwBench) where
    abbrev started : Outcome Error Client × List (Call K)
    started = run (start_parachain_node K N prepare config polkadot options id bench) []

    kept :
        (F : Error → Type 0) (X : Type 0)
        → Within K N (prepare config) F X
        → Kept (step K) F X (λ (a : Client). Unit {0}) (plan K (prepare config) id bench) [] started
    unfolding start_parachain_node
    kept F X w =
        Runs-Kept (step K) F X _ _ _
          (start_prepared-Does K N F X (prepare config) polkadot options id bench w) []

    -- Whatever the calls of the crates return, the calls that the start of a node makes are a
    -- beginning of the plan that the prepared configuration gives, in the plan's order; where the
    -- start returns, they are the whole plan. The plan ends with the aura task of the given
    -- parachain id if and only if the node is an authority, after the relay chain tasks of the same
    -- id; it has the offchain workers if and only if they are enabled.
    pub start_parachain_node_plan :
        Follows started.0 (map (step K) started.1) (plan K (prepare config) id bench)
    start_parachain_node_plan =
        follows (step K) _ _ _ (kept (λ e. Unit {0}) (Unit {0}) (Within_any N (prepare config)))

    -- If the relay chain interface of an authority always comes with a collator key, the start of a
    -- node does not panic.
    pub start_parachain_node_unpanicked :
        ((h : List (Call K)) → KeyGiven (prepare config) (N.relay_chain h)) → started.0 ≢ panicked
    start_parachain_node_unpanicked g =
        unpanicked (step K) _ _ _ (kept (λ e. Unit {0}) ⊥ (Within_keyed N (prepare config) g))

    -- If no call of the crates returns an error, and the relay chain interface of an authority comes
    -- with a collator key, the start of a node returns its client, after all the calls of the plan.
    pub start_parachain_node_returns :
        Within K N (prepare config) (λ e. ⊥) ⊥
        → ((c : Client) × (started.0 ≡ done c))
          × (map (step K) started.1 ≡ plan K (prepare config) id bench)
    start_parachain_node_returns w = returns (step K) _ _ (kept (λ e. ⊥) ⊥ w)
