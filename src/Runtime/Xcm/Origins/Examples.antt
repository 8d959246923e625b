-- ===== src/Runtime/Xcm/Origins/Examples.antt =====
-- A `Transact` of a sibling chain and of the staking admin, on a chain with the swarm pallet.
use swarm_robotics_parachain.Common.{
  ℕ, ◌≡◌, refl, ◌↔◌, true, false, none, some, List, [], ◌∷◌, ℕ_discrete,
}
use swarm_robotics_parachain.Frame.Dispatch.{ok}
use swarm_robotics_parachain.Frame.XcmOrigin.{native, sovereign_account, xcm}
use swarm_robotics_parachain.Host.{host_system, host_map, host_vec}
use swarm_robotics_parachain.Host.Places.{account, sibling, located, located_origins}
use swarm_robotics_parachain.Host.Xcm.{HostJunction, plurality, parachain, host_xcm, host_barriers}
use swarm_robotics_parachain.Host.Weight.{host_weights}
use swarm_robotics_parachain.Host.XcmOrigin.{host_xcm_origins}
use swarm_robotics_parachain.Host.XcmRouter.{host_routers}
use swarm_robotics_parachain.Runtime.Xcm.Origins.{
  location_to_account_id, local_origin_to_location, transact_dispatch_origin,
  collator_selection_update_origin,
}
use swarm_robotics_parachain.Runtime.Xcm.Origins.Accounts.{
  Owns, location_to_account_id_iff, location_to_account_id-local_origin_to_location,
}
use swarm_robotics_parachain.Runtime.Xcm.Origins.Authority.{
  IsStakingAdmin, transact-ok_iff, transact-collator_selection_update_origin,
}
use swarm_robotics_parachain.Runtime.Xcm.Origins.Transact.{SignsAs}
use swarm_robotics_parachain.Runtime.Xcm.Pallet.Sends.{send_xcm_origin, transact-send_xcm_origin}
use swarm_robotics_parachain.Swarm.{dispatch}
use swarm_robotics_parachain.Swarm.Errors.{Admits}
use swarm_robotics_parachain.Swarm.Types.{
  Coordinate, Config, Command, Event, Deps, State, registers,
}

abbrev small : Config
small = record {
  Location = Coordinate;
  RobotId = ℕ;
  robot_id_eq = ℕ_discrete;
  TaskDefinition = ℕ;
  max_global_commands = 2;
}

abbrev chain : Deps small
chain = record {
  RuntimeEvent = Event small;
  from_event = λ e. e;
  as_event = some;
  as_event-from_event = λ e. refl;
  origins = located_origins;
  system = host_system (Event small);
  robots = host_map ℕ_discrete;
  commands = host_vec (Command small) 2;
}

abbrev start : State chain
start = record {
  registered_robots = [];
  global_command_queue = none;
  system = record { genesis = false; record_of_events = [] };
}

location_to_account_id_iff_example :
    (location_to_account_id host_xcm located_origins host_xcm_origins (1, parachain 2000 ∷ [])
      ≡ some 3000)
    ↔ Owns host_xcm located_origins host_xcm_origins (1, parachain 2000 ∷ []) 3000
location_to_account_id_iff_example =
    location_to_account_id_iff host_xcm located_origins host_xcm_origins (1, parachain 2000 ∷ [])
      3000

location_to_account_id-local_origin_to_location_example :
    (l : ℕ × List HostJunction) × ((local_origin_to_location host_xcm located_origins
          host_xcm_origins
          (account 7)
        ≡ some l)
      × (location_to_account_id host_xcm located_origins host_xcm_origins l ≡ some 7))
location_to_account_id-local_origin_to_location_example =
    location_to_account_id-local_origin_to_location host_xcm located_origins host_xcm_origins 7

-- The account of the sibling chain 2000 may register a robot.
by_sovereign_account :
    transact_dispatch_origin host_xcm located_origins host_xcm_origins
      (1, parachain 2000 ∷ [])
      sovereign_account
    ≡ some (account 3000)
unfolding transact_dispatch_origin location_to_account_id
by_sovereign_account = refl

transact-ok_iff_example : ((dispatch chain (account 3000) (registers 7) start).0 ≡ ok tt) ↔ (
    ((who : ℕ) × SignsAs host_xcm located_origins host_xcm_origins
        (1, parachain 2000 ∷ [])
        sovereign_account
        who)
    × Admits chain start (registers 7))
transact-ok_iff_example =
    transact-ok_iff host_xcm chain host_xcm_origins (1, parachain 2000 ∷ []) sovereign_account
      (account 3000) (registers 7) start by_sovereign_account

as_a_chain :
    transact_dispatch_origin host_xcm located_origins host_xcm_origins
      (1, parachain 2000 ∷ [])
      native
    ≡ some (sibling 2000)
unfolding transact_dispatch_origin location_to_account_id
as_a_chain = refl

as_itself :
    transact_dispatch_origin host_xcm located_origins host_xcm_origins (1, plurality 2 0 ∷ []) xcm
    ≡ some (located (1, plurality 2 0 ∷ []))
unfolding transact_dispatch_origin location_to_account_id
as_itself = refl

transact-collator_selection_update_origin_example :
    (collator_selection_update_origin host_xcm located_origins host_xcm_origins
        (located (1, plurality 2 0 ∷ []))
      ≡ true)
    ↔ ((xcm ≡ xcm)
        × IsStakingAdmin host_xcm located_origins host_xcm_origins (1, plurality 2 0 ∷ []))
transact-collator_selection_update_origin_example =
    transact-collator_selection_update_origin host_xcm located_origins host_xcm_origins
      (1, plurality 2 0 ∷ []) xcm (located (1, plurality 2 0 ∷ [])) as_itself

transact-send_xcm_origin_example :
    ((l' : ℕ × List HostJunction) × (send_xcm_origin host_xcm located_origins host_xcm_origins
          host_routers host_barriers host_weights
          (Unit {0})
          1000
          (account 3000)
        ≡ some l'))
    ↔ ((who : ℕ) × SignsAs host_xcm located_origins host_xcm_origins
          (1, parachain 2000 ∷ [])
          sovereign_account
          who)
transact-send_xcm_origin_example =
    transact-send_xcm_origin host_xcm located_origins host_xcm_origins host_routers host_barriers
      host_weights (Unit {0}) 1000 (1, parachain 2000 ∷ []) sovereign_account (account 3000)
      by_sovereign_account
