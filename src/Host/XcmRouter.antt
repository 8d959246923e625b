-- ===== src/Host/XcmRouter.antt =====
-- An instance of `XcmRouters`: what is sent says which queue it went into.
use swarm_robotics_parachain.Common.{
  ℕ, ◌≡◌, refl, ◌⊎◌, inl, inr, Bool, true, false, List, [], ◌∷◌, ◌++◌, arith, dec_lt,
}
use swarm_robotics_parachain.Frame.XcmRouter.{XcmRouters}
use swarm_robotics_parachain.Host.Places.{
  Place, Shape, at_parent, at_sibling, at_account, at_other, shape, IsAt-shape_eq,
}
use swarm_robotics_parachain.Host.Xcm.{
  HostInstruction, set_topic, parachain, host_xcm, without_topic,
}

pub data HostSendError : Type 0 where
  not_applicable : HostSendError
  unroutable : HostSendError

pub data Sent : Type 0 where
  upward : List HostInstruction → Sent
  to_sibling : ℕ → List HostInstruction → Sent

abbrev pub is_not_applicable : HostSendError → Bool
is_not_applicable not_applicable = true
is_not_applicable unroutable = false

pub is_not_applicable_sound : (e : HostSendError) → is_not_applicable e ≡ true → e ≡ not_applicable
is_not_applicable_sound e h = ground arith

abbrev pub as_upward : Shape → List HostInstruction → HostSendError ⊎ Sent
as_upward at_parent m = inr (upward m)
as_upward (at_sibling id) m = inl not_applicable
as_upward (at_account n a) m = inl not_applicable
as_upward at_other m = inl not_applicable

-- There are channels to the chains 2000 and above.
abbrev pub as_sibling : Shape → List HostInstruction → HostSendError ⊎ Sent
as_sibling at_parent m = inl not_applicable
as_sibling (at_sibling id) m = elim (dec_lt id 2000) [
  | yes h ↦ inl unroutable
  | no h ↦ inr (to_sibling id m)
]
as_sibling (at_account n a) m = inl not_applicable
as_sibling at_other m = inl not_applicable

pub as_upward_other :
    (l : Place) (s : Shape) (m : List HostInstruction)
    → shape l ≡ s
    → ¬ (l ≡ (1, []))
    → as_upward s m ≡ inl not_applicable
as_upward_other l at_parent m e h = absurd (h (IsAt-shape_eq l at_parent e))
as_upward_other l (at_sibling id) m e h = refl
as_upward_other l (at_account n a) m e h = refl
as_upward_other l at_other m e h = refl

pub as_sibling_other :
    (l : Place) (s : Shape) (m : List HostInstruction)
    → shape l ≡ s
    → ((id : ℕ) → ¬ (l ≡ (1, parachain id ∷ [])))
    → as_sibling s m ≡ inl not_applicable
as_sibling_other l at_parent m e h = refl
as_sibling_other l (at_sibling id) m e h = absurd (h id (IsAt-shape_eq l (at_sibling id) e))
as_sibling_other l (at_account n a) m e h = refl
as_sibling_other l at_other m e h = refl

abbrev pub host_routers : XcmRouters host_xcm
host_routers = record {
  SendError = HostSendError;
  Delivery = Sent;
  not_applicable = not_applicable;
  is_not_applicable = is_not_applicable;
  parachain_junction = parachain;
  parent_as_ump = λ l m. as_upward (shape l) m;
  xcmp_queue = λ l m. as_sibling (shape l) m;
  with_unique_topic = λ r l m. r l (without_topic m ++ set_topic ∷ []);
  with_topic = λ m. without_topic m ++ set_topic ∷ [];
  is_not_applicable-not_applicable = refl;
  is_not_applicable_sound = is_not_applicable_sound;
  parent_as_ump_other = λ l m h. as_upward_other l (shape l) m refl h;
  xcmp_queue_other = λ l m h. as_sibling_other l (shape l) m refl h;
  with_unique_topic_lem = λ r l m. refl;
}
