-- ===== src/Runtime/Messages/Examples.antt =====
-- Messages of the relay chain and of two sibling chains.
use swarm_robotics_parachain.Common.{
  Bool, Option, ◌≡◌, refl, true, false, some, List, [], ◌∷◌, ◌++◌, ℕ_discrete, ◌⊎◌,
}
use swarm_robotics_parachain.Frame.Messages.{MessageOrigin, parent, sibling}
use swarm_robotics_parachain.Host.Messages.{
  HostStore, HostOutcome, complete, refused, host_executors, host_queues,
}
use swarm_robotics_parachain.Host.Places.{located_origins}
use swarm_robotics_parachain.Host.Weight.{host_weights}
use swarm_robotics_parachain.Host.Xcm.{
  HostInstruction, unpaid_execution, transact, set_topic, host_xcm, host_barriers,
}
use swarm_robotics_parachain.Host.XcmOrigin.{host_xcm_origins}
use swarm_robotics_parachain.Host.XcmRouter.{host_routers}
use swarm_robotics_parachain.Runtime.Messages.{message_processor}
use swarm_robotics_parachain.Runtime.Messages.Arrivals.{
  Arrival, from_relay, from_sibling, receive, messages_of, waiting-receive,
}
use swarm_robotics_parachain.Runtime.Messages.Unpaid.{executed, processed, message_processor-Passes}
use swarm_robotics_parachain.Runtime.Xcm.{contains, barrier}
use swarm_robotics_parachain.Runtime.Xcm.Executor.{xcm_config}
use swarm_robotics_parachain.Runtime.Xcm.Free.{Passes}

abbrev unpaid : List HostInstruction
unpaid = unpaid_execution ∷ transact ∷ set_topic ∷ []

abbrev arrivals : List (Arrival host_queues)
arrivals =
    from_sibling 2000 unpaid
    ∷ from_relay (transact ∷ [])
    ∷ from_sibling 2001 []
    ∷ from_sibling 2000 (set_topic ∷ [])
    ∷ []

abbrev start : HostStore
start = record { queue = (sibling 2000, transact ∷ []) ∷ []; ran = [] }

waiting-receive_example :
    host_queues.waiting (receive host_queues arrivals start) (sibling 2000)
    ≡ host_queues.waiting start (sibling 2000) ++ messages_of host_queues (sibling 2000) arrivals
waiting-receive_example = waiting-receive host_queues arrivals (sibling 2000) start

message_processor-Passes_example :
    (Passes host_xcm host_barriers 1000 (1, []) unpaid 0
      × (processed host_xcm located_origins host_xcm_origins host_routers host_barriers host_weights
            (Unit {0})
            HostStore
            host_executors
            host_queues
            1000
            unpaid
            parent
            5
            start
          ≡ executed host_xcm located_origins host_xcm_origins host_routers host_barriers
              host_weights
              (Unit {0})
              HostStore
              host_executors
              host_queues
              1000
              parent
              unpaid
              0
              start))
    ⊎ (¬ Passes host_xcm host_barriers 1000 (1, []) unpaid 0
        × (processed host_xcm located_origins host_xcm_origins host_routers host_barriers
              host_weights
              (Unit {0})
              HostStore
              host_executors
              host_queues
              1000
              unpaid
              parent
              5
              start
            ≡ (some refused, start)))
message_processor-Passes_example =
    message_processor-Passes host_xcm located_origins host_xcm_origins host_routers host_barriers
      host_weights (Unit {0}) HostStore host_executors host_queues 1000 unpaid parent 5 start unpaid
      0 refl

abbrev process : Bool → MessageOrigin → Option HostOutcome × HostStore
process benchmarks o =
    message_processor host_xcm located_origins host_xcm_origins host_routers host_barriers
      host_weights (Unit {0}) HostStore host_executors host_queues 1000 benchmarks unpaid o 5 start

relay_chain_is_served : (process false parent).0 ≡ some complete
unfolding message_processor xcm_config barrier contains ℕ_discrete
relay_chain_is_served = refl

sibling_is_refused : process false (sibling 2000) ≡ (some refused, start)
unfolding message_processor xcm_config barrier contains ℕ_discrete
sibling_is_refused = refl

benchmark_does_nothing : process true parent ≡ (some complete, start)
unfolding message_processor
benchmark_does_nothing = refl
