-- ===== src/Runtime/Xcm/Router/Examples.antt =====
-- A message to a sibling chain.
use swarm_robotics_parachain.Common.{◌≡◌, refl, inl, inr, List, [], ◌∷◌, dec_lt}
use swarm_robotics_parachain.Host.Xcm.{
  HostInstruction, parachain, unpaid_execution, transact, set_topic, host_xcm,
}
use swarm_robotics_parachain.Host.XcmRouter.{unroutable, upward, not_applicable, host_routers}
use swarm_robotics_parachain.Runtime.Xcm.Router.{xcm_router, sibling_chain, sent, xcm_router-sent}

abbrev message : List HostInstruction
message = unpaid_execution ∷ transact ∷ []

xcm_router-sent_example :
    xcm_router host_xcm host_routers (1, parachain 2000 ∷ []) message
    ≡ sent host_xcm host_routers
        (1, parachain 2000 ∷ [])
        (unpaid_execution ∷ transact ∷ set_topic ∷ [])
        (sibling_chain 2000 refl)
xcm_router-sent_example =
    xcm_router-sent host_xcm host_routers (1, parachain 2000 ∷ []) message (sibling_chain 2000 refl)

goes_up :
    xcm_router host_xcm host_routers (1, []) message
    ≡ inr (upward (unpaid_execution ∷ transact ∷ set_topic ∷ []))
unfolding xcm_router
goes_up = refl

has_no_channel : xcm_router host_xcm host_routers (1, parachain 1999 ∷ []) message ≡ inl unroutable
unfolding xcm_router dec_lt
has_no_channel = refl

goes_nowhere :
    xcm_router host_xcm host_routers (0, parachain 2000 ∷ []) message ≡ inl not_applicable
unfolding xcm_router
goes_nowhere = refl
