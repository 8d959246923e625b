-- ===== src/Runtime/Calls/Isolation.antt =====
-- The two pallets over one storage do not disturb each other: each behaves as if its own calls
-- were the only ones.
use swarm_robotics_parachain.Common.{
  ◌≡◌, refl, ◌∙◌, ap, ◌≢◌, false, List, [], ◌∷◌, map, All, append-nil, filter_map,
  filter_map-append,
}
use swarm_robotics_parachain.Frame.Dispatch.{ok}
use swarm_robotics_parachain.Swarm.Types as SwarmTypes
use swarm_robotics_parachain.Swarm.Spec
use swarm_robotics_parachain.Swarm.Refine.{Refines, seen, dispatch-Agrees}
use swarm_robotics_parachain.Swarm.Errors.{dispatch_noop}
use swarm_robotics_parachain.Template.Types as TemplateTypes
use swarm_robotics_parachain.Template.Types.{Event, something_stored}
use swarm_robotics_parachain.Template.Branch.{
  Outcome, Branch, unsigned, stored, nothing, overflow, bumped, dispatch-Branch,
}
use swarm_robotics_parachain.Template.Counter.{
  counter, counted_all, IsU32, Branch-counter, template_noop,
}
use swarm_robotics_parachain.Runtime.Calls.{
  Platform, swarm_config, swarm_deps, template_deps, RuntimeState, template_part, swarm_part,
  RuntimeCall, template_pallet, swarm_robot_pallet, dispatch, run, swarm_calls, template_calls,
  as_runtime, template_error, swarm_error,
}

module _ (H : Platform) where
  open H use {origins, numbers, system}
  open origins use {RuntimeOrigin, ensure_signed}

  swarm_log : H.system.State → List (SwarmTypes.Event swarm_config)
  swarm_log s = filter_map H.as_swarm (system.events s)

  -- A call of the template pallet leaves the swarm pallet's events alone.
  record Silent (s t : H.system.State) : Type 0 where
    live : system.is_genesis t ≡ false
    same : swarm_log t ≡ swarm_log s

  Branch-Silent :
      {origin : RuntimeOrigin} {s : TemplateTypes.State (template_deps H)}
      {o : Outcome (template_deps H)} (c : TemplateTypes.Call)
      → Branch (template_deps H) origin s o c
      → system.is_genesis s.system ≡ false
      → Silent s.system o.1.system
  unfolding swarm_log
  Branch-Silent c (unsigned e p) h = rw p (record { live = h; same = refl })
  Branch-Silent {s} _ (stored bn w e p) h =
      let event : Event H.numbers H.origins = something_stored (numbers.u32_into bn) w in
      rw p (record {
        live = system.is_genesis-deposit_event s.system (H.from_template event) ∙ h;
        same =
            rw
              (
                system.events-deposit_event s.system (H.from_template event) h,
                filter_map-append H.as_swarm (system.events s.system) (H.from_template event ∷ []),
                H.as_swarm-from_template event,
              )
              (append-nil _);
      })
  Branch-Silent _ (nothing w e n p) h = rw p (record { live = h; same = refl })
  Branch-Silent _ (overflow w old e n m p) h = rw p (record { live = h; same = refl })
  Branch-Silent _ (bumped w old new e f m v p) h = rw p (record { live = h; same = refl })

  template_pallet-Refines :
      (origin : RuntimeOrigin) (c : TemplateTypes.Call) (s : RuntimeState H)
      (a : Spec.Swarm swarm_config)
      → Refines (swarm_deps H) (swarm_part H s) a
      → Refines (swarm_deps H) (swarm_part H (dispatch H origin (template_pallet c) s).1) a
  unfolding dispatch swarm_log
  template_pallet-Refines origin c s a h =
      let b = dispatch-Branch (template_deps H) origin c (template_part H s) in
      let quiet = Branch-Silent c b h.live in
      record { live = quiet.live; queue = h.queue; robots = h.robots; log = quiet.same ∙ h.log }

  -- After any calls of both pallets, in any order and from any origins, the swarm pallet is where
  -- its specification is after its own calls alone: same queue, same robots, same events.
  pub run_swarm-Refines :
      (cs : List (RuntimeOrigin × RuntimeCall H)) (s : RuntimeState H) (a : Spec.Swarm swarm_config)
      → Refines (swarm_deps H) (swarm_part H s) a
      → Refines
          (swarm_deps H)
          (swarm_part H (run H cs s))
          (Spec.run (map (seen (swarm_deps H)) (swarm_calls H cs)) a)
  unfolding run dispatch swarm_calls Spec.run
  run_swarm-Refines [] s a h = h
  run_swarm-Refines ((origin, template_pallet c) ∷ cs) s a h =
      run_swarm-Refines cs _ a (template_pallet-Refines origin c s a h)
  run_swarm-Refines ((origin, swarm_robot_pallet c) ∷ cs) s a h =
      run_swarm-Refines cs _ _ (dispatch-Agrees (swarm_deps H) (swarm_part H s) a (origin, c) h).1

  -- After any calls of both pallets the template pallet's number is what its own calls alone make
  -- of it.
  pub counter-run_template :
      (cs : List (RuntimeOrigin × RuntimeCall H)) (s : RuntimeState H)
      → All (IsU32 (template_deps H)) (template_calls H cs)
      → counter (template_deps H) (template_part H (run H cs s))
        ≡ counted_all
            (template_deps H)
            (template_calls H cs)
            (counter (template_deps H) (template_part H s))
  unfolding run dispatch template_calls
  counter-run_template [] s h = refl
  counter-run_template ((origin, template_pallet c) ∷ cs) s h =
      counter-run_template cs _ h.1
      ∙ ap (counted_all (template_deps H) (template_calls H cs)) (
          Branch-counter (template_deps H) c
            (dispatch-Branch (template_deps H) origin c (template_part H s)) h.0)
  counter-run_template ((origin, swarm_robot_pallet c) ∷ cs) s h = counter-run_template cs _ h

  -- A call of either pallet that does not return `Ok` leaves the runtime's storage as it was.
  pub runtime_noop :
      (origin : RuntimeOrigin) (c : RuntimeCall H) (s : RuntimeState H)
      → (dispatch H origin c s).0 ≢ ok tt
      → (dispatch H origin c s).1 ≡ s
  unfolding dispatch
  runtime_noop origin (template_pallet c) s h =
      ap (λ t. record s { something = t.something; system = t.system })
        (template_noop (template_deps H) origin c (template_part H s)
          (λ e. h (ap (as_runtime H template_error) e))).0
  runtime_noop origin (swarm_robot_pallet c) s h =
      ap
        (λ t. record s {
          registered_robots = t.registered_robots;
          global_command_queue = t.global_command_queue;
          system = t.system;
        })
        (dispatch_noop (swarm_deps H) origin c (swarm_part H s)
          (λ e. h (ap (as_runtime H swarm_error) e))).0
