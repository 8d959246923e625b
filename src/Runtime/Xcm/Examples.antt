-- ===== src/Runtime/Xcm/Examples.antt =====
-- The barrier on a message of the relay chain's executive body.
use swarm_robotics_parachain.Common.{true, List, [], ◌∷◌, ◌≡◌, ◌↔◌}
use swarm_robotics_parachain.Host.Xcm.{
  HostInstruction, plurality, unpaid_execution, descend_origin, transact, set_topic, host_xcm,
  host_barriers,
}
use swarm_robotics_parachain.Runtime.Xcm.{barrier}
use swarm_robotics_parachain.Runtime.Xcm.Free.{Passes, barrier_iff}

-- The parent speaks as its executive body.
abbrev message : List HostInstruction
message = descend_origin (plurality 1 4) ∷ unpaid_execution ∷ transact ∷ set_topic ∷ []

barrier_iff_example :
    (barrier host_xcm host_barriers 1000 (1, []) message 0 ≡ true)
    ↔ Passes host_xcm host_barriers 1000 (1, []) message 0
barrier_iff_example = barrier_iff host_xcm host_barriers 1000 (1, []) message 0
