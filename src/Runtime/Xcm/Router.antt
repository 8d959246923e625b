-- ===== src/Runtime/Xcm/Router.antt =====
-- runtime/src/configs/xcm_config.rs, `XcmRouter`: which queue a message to another chain goes into.
mod Examples
use swarm_robotics_parachain.Common.{ℕ, ◌≡◌, refl, sym, ◌∙◌, ap, ◌⊎◌, inl, inr, Bool-cases, [], ◌∷◌}
use swarm_robotics_parachain.Frame.Xcm.{XcmCrates}
use swarm_robotics_parachain.Frame.XcmRouter.{XcmRouters, first_applicable}

module _ (X : XcmCrates) (R : XcmRouters X) where
  open X use {Location, Message, unpack}
  open R use {SendError, Delivery, not_applicable, with_topic}

  pub xcm_router : Location → Message → SendError ⊎ Delivery
  xcm_router =
      R.with_unique_topic (λ l m. first_applicable X R (R.parent_as_ump l m) (R.xcmp_queue l m))

  -- Where a location is, as seen by a router.
  pub data Destination (l : Location) : Type 0 where
    relay_chain : unpack l ≡ (1, []) → Destination l
    sibling_chain : (id : ℕ) → unpack l ≡ (1, R.parachain_junction id ∷ []) → Destination l
    elsewhere :
        ¬ (unpack l ≡ (1, []))
        → ((id : ℕ) → ¬ (unpack l ≡ (1, R.parachain_junction id ∷ [])))
        → Destination l

  -- The queue of a destination.
  abbrev pub sent : (l : Location) → Message → Destination l → SendError ⊎ Delivery
  sent l m (relay_chain e) = R.parent_as_ump l m
  sent l m (sibling_chain id e) = R.xcmp_queue l m
  sent l m (elsewhere p s) = inl not_applicable

  skipped : (x y : SendError ⊎ Delivery) → x ≡ inl not_applicable → first_applicable X R x y ≡ y
  skipped x y e = rw (e, R.is_not_applicable-not_applicable) refl

  last : (x y : SendError ⊎ Delivery) → y ≡ inl not_applicable → first_applicable X R x y ≡ x
  last (inl e) y h = elim (Bool-cases (R.is_not_applicable e)) [
    | inl t ↦ rw (t, h, R.is_not_applicable_sound e t) refl
    | inr f ↦ rw f refl
  ]
  last (inr d) y h = refl

  -- A message to the relay chain goes up to it, a message to a sibling chain goes into the queue of
  -- the siblings, each with a topic, and their errors are returned; a message to anywhere else is
  -- not sent.
  pub xcm_router-sent :
      (l : Location) (m : Message) (d : Destination l) → xcm_router l m ≡ sent l (with_topic m) d
  unfolding xcm_router
  xcm_router-sent l m (relay_chain e) =
      R.with_unique_topic_lem _ l m
      ∙ last _ _ (R.xcmp_queue_other l (with_topic m) (λ id s. absurd (cc (e, s))))
  xcm_router-sent l m (sibling_chain id e) =
      R.with_unique_topic_lem _ l m
      ∙ skipped _ _ (R.parent_as_ump_other l (with_topic m) (λ p. absurd (cc (e, p))))
  xcm_router-sent l m (elsewhere p s) =
      R.with_unique_topic_lem _ l m
      ∙ skipped _ _ (R.parent_as_ump_other l (with_topic m) p)
      ∙ R.xcmp_queue_other l (with_topic m) s
