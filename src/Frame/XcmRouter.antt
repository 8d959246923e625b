-- ===== src/Frame/XcmRouter.antt =====
-- `SendXcm` of staging_xcm, with the routers that the XCM configuration takes: a router delivers a
-- message to a destination, or says that it does not apply, or that the sending fails.
use swarm_robotics_parachain.Common.{ℕ, ◌≡◌, ◌⊎◌, inl, inr, Bool, true, [], ◌∷◌, if◌then◌else◌}
use swarm_robotics_parachain.Frame.Xcm.{XcmCrates}

pub record XcmRouters (X : XcmCrates) : Type 1 where
  pub SendError : Type 0
  pub Delivery : Type 0
  pub not_applicable : SendError
  pub is_not_applicable : SendError → Bool
  pub parachain_junction : ℕ → X.Junction
  -- `ParentAsUmp<ParachainSystem, (), ()>`
  pub parent_as_ump : X.Location → X.Message → SendError ⊎ Delivery
  pub xcmp_queue : X.Location → X.Message → SendError ⊎ Delivery
  pub with_unique_topic :
      (X.Location → X.Message → SendError ⊎ Delivery)
      → X.Location
      → X.Message
      → SendError ⊎ Delivery
  -- The message, with a `SetTopic` at its end if it had none.
  pub with_topic : X.Message → X.Message
  pub is_not_applicable-not_applicable : is_not_applicable not_applicable ≡ true
  pub is_not_applicable_sound : (e : SendError) → is_not_applicable e ≡ true → e ≡ not_applicable
  pub parent_as_ump_other :
      (l : X.Location) (m : X.Message)
      → ¬ (X.unpack l ≡ (1, []))
      → parent_as_ump l m ≡ inl not_applicable
  pub xcmp_queue_other :
      (l : X.Location) (m : X.Message)
      → ((id : ℕ) → ¬ (X.unpack l ≡ (1, parachain_junction id ∷ [])))
      → xcmp_queue l m ≡ inl not_applicable
  pub with_unique_topic_lem :
      (r : X.Location → X.Message → SendError ⊎ Delivery) (l : X.Location) (m : X.Message)
      → with_unique_topic r l m ≡ r l (with_topic m)

module _ (X : XcmCrates) (R : XcmRouters X) where
  -- A tuple of routers: the first that applies decides.
  abbrev pub first_applicable :
      R.SendError ⊎ R.Delivery → R.SendError ⊎ R.Delivery → R.SendError ⊎ R.Delivery
  first_applicable (inl e) other = if R.is_not_applicable e then other else inl e
  first_applicable (inr d) other = inr d
