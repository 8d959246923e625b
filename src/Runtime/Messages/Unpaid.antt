-- ===== src/Runtime/Messages/Unpaid.antt =====
-- Which waiting messages are executed.
use swarm_robotics_parachain.Common.{some_inj, sym, subst}
use swarm_robotics_parachain.Common.{ℕ, ◌≡◌, ◌∙◌, ap, ◌⊎◌, inl, inr, Bool-cases, true, false, some}
use swarm_robotics_parachain.Frame.Executor.{Executors}
use swarm_robotics_parachain.Frame.Messages.{MessageOrigin, sibling, MessageQueues}
use swarm_robotics_parachain.Frame.Origin.{Origins}
use swarm_robotics_parachain.Frame.Weight.{Weights}
use swarm_robotics_parachain.Frame.Xcm.{XcmCrates, Barriers}
use swarm_robotics_parachain.Frame.XcmOrigin.{XcmOrigins}
use swarm_robotics_parachain.Frame.XcmRouter.{XcmRouters}
use swarm_robotics_parachain.Runtime.Messages.{execute_message, message_processor}
use swarm_robotics_parachain.Runtime.Xcm.{universal_location, barrier}
use swarm_robotics_parachain.Runtime.Xcm.Executor.{xcm_config}
use swarm_robotics_parachain.Runtime.Xcm.Free.{
  IsParentOrExecutive, IsFree, IsGranted, Passes, barrier_iff,
}

module _ (X : XcmCrates) (O : Origins) (G : XcmOrigins X O) (R : XcmRouters X) (B : Barriers X)
    (W : Weights) (Asset S : Type 0) (E : Executors X O R W Asset S)
    (Q : MessageQueues X S E.Outcome) (parachain_id : ℕ) where
  open X use {Location, Message, Properties}
  open Q use {Bytes, Meter, ProcessResult, location_of, prepared}

  -- The run of the instructions of a prepared message.
  abbrev pub executed : MessageOrigin → Message → Properties → S → ProcessResult × S
  executed o m p s =
      let ran =
        E.run_instructions (xcm_config X O G R B W Asset S E parachain_id) (location_of o) m p s in
      (Q.result_of ran.0, ran.1)

  abbrev pub processed : Bytes → MessageOrigin → Meter → S → ProcessResult × S
  processed = message_processor X O G R B W Asset S E Q parachain_id false

  -- In a build without benchmarks, a waiting message that is prepared is executed, at the location
  -- of the chain whose queue it is in, if the barrier lets it pass: it is not denied, and it has
  -- weight credit, or an origin is computed for it and what is left of it buys its execution, or
  -- asks for unpaid execution where the origin is the relay chain or its executive body. Otherwise
  -- its processing fails with the error of the barrier and changes nothing.
  pub message_processor-Passes :
      (b : Bytes) (o : MessageOrigin) (w : Meter) (s : S) (m : Message) (p : Properties)
      → prepared b w ≡ some (m, p)
      → (Passes X B parachain_id (location_of o) m p × (processed b o w s ≡ executed o m p s))
        ⊎ (¬ Passes X B parachain_id (location_of o) m p
            × (processed b o w s ≡ (Q.result_of E.barrier_error, s)))
  unfolding message_processor xcm_config
  message_processor-Passes b o w s m p e =
      let step =
        Q.process_xcm_message_prepared (execute_message X O G R B W Asset S E Q parachain_id) b o w
          s m p e in
      let (there, back) = barrier_iff X B parachain_id (location_of o) m p in
      elim (Bool-cases (barrier X B parachain_id (location_of o) m p)) [
        | inl t ↦
            inl (there t, step ∙ ap (λ r. (Q.result_of r.0, r.1)) (E.execute_allowed _ _ m p s t))
        | inr f ↦ inr (
          λ k. absurd (cc (sym (back k) ∙ f)),
          step ∙ ap (λ r. (Q.result_of r.0, r.1)) (E.execute_denied _ _ m p s f),
        )
      ]

  -- A sibling chain is neither the relay chain nor its executive body.
  sibling-IsParentOrExecutive : (id : ℕ) → ¬ IsParentOrExecutive X (location_of (sibling id))
  sibling-IsParentOrExecutive id (inl e) = absurd (cc (e, Q.unpack-sibling id))
  sibling-IsParentOrExecutive id (inr (part, e)) = absurd (
      cc (
        e,
        Q.unpack-sibling id,
        X.as_plurality-plurality X.executive part,
        Q.as_plurality-parachain_junction id,
      ))

  -- A message of a sibling chain whose origin stays that chain, and that has no weight credit and
  -- does not buy its execution, is not executed, whatever it asks for.
  pub message_processor_sibling :
      (b : Bytes) (id : ℕ) (w : Meter) (s : S) (m m' : Message) (p : Properties)
      → prepared b w ≡ some (m, p)
      → B.computed
          (universal_location X B parachain_id)
          8
          (location_of (sibling id))
          (B.without_topic m)
        ≡ some (location_of (sibling id), m')
      → ((l : Location)
          → B.unpaid_origin (location_of (sibling id)) m' p ≡ some l
          → l ≡ location_of (sibling id))
      → B.take_weight_credit (location_of (sibling id)) (B.without_topic m) p ≡ false
      → B.buys_execution m' p ≡ false
      → processed b (sibling id) w s ≡ (Q.result_of E.barrier_error, s)
  message_processor_sibling b id w s m m' p e c u credit buys =
      elim (message_processor-Passes b (sibling id) w s m p e) [
        | inr (k, r) ↦ r
        | inl ((d, g), r) ↦ absurd (unpaid g)
      ]
    where
      not_free : ¬ IsFree X B parachain_id (location_of (sibling id)) m' p
      not_free (l, (q, h)) =
          sibling-IsParentOrExecutive id (subst (IsParentOrExecutive X) (u l q) h)

      left :
          (l : Location) (n : Message)
          → ◌≡◌ {A = Location × Message} (location_of (sibling id), m') (l, n)
          → ¬ ((B.buys_execution n p ≡ true) ⊎ IsFree X B parachain_id l n p)
      left l n q h =
          elim (subst (λ v. (B.buys_execution v.1 p ≡ true) ⊎ IsFree X B parachain_id v.0 v.1 p)
            (sym q) h) [ inl y ↦ absurd (cc (sym y ∙ buys)) | inr y ↦ not_free y ]

      unpaid : ¬ (
          (B.take_weight_credit (location_of (sibling id)) (B.without_topic m) p ≡ true)
          ⊎ IsGranted X B parachain_id
              (B.computed
                (universal_location X B parachain_id)
                8
                (location_of (sibling id))
                (B.without_topic m))
              p)
      unpaid (inl y) = absurd (cc (sym y ∙ credit))
      unpaid (inr (l, n, (q, h))) = left l n (some_inj (sym c ∙ q)) h
