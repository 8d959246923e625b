-- ===== src/Frame/Messages.antt =====
-- The queues of messages of other chains: pallet_message_queue, cumulus_pallet_xcmp_queue and the
-- adapters between them, and `ProcessXcmMessage` of staging_xcm_builder.
use swarm_robotics_parachain.Common.{
  ℕ, ℕ_discrete, ◌≡◌, ◌≢◌, Bool, Option, none, some, List, [], ◌∷◌, ◌++◌,
}
use swarm_robotics_parachain.Frame.Xcm.{XcmCrates}

-- `AggregateMessageOrigin`: whose queue it is.
pub data MessageOrigin : Type 0 where
  here : MessageOrigin
  parent : MessageOrigin
  sibling : ℕ → MessageOrigin

pub MessageOrigin-discrete : Discrete MessageOrigin
MessageOrigin-discrete = hlevel ℕ_discrete

module _ (X : XcmCrates) (S Outcome : Type 0) where
  open X use {Location, Junction, Message, Properties}

  -- An encoded message is of type `Bytes`, the weight left for messages of type `Meter`.
  pub record MessageQueues : Type 1 where
    pub Bytes : Type 0
    pub Footprint : Type 0
    pub Meter : Type 0
    pub ProcessResult : Type 0
    -- `MessageQueue::enqueue_message`, and the messages of an origin that wait.
    pub enqueue_message : Bytes → MessageOrigin → S → S
    pub waiting : S → MessageOrigin → List Bytes
    pub enqueue_with_origin : (Bytes → MessageOrigin → S → S) → MessageOrigin → Bytes → S → S
    pub transform_origin : (Bytes → MessageOrigin → S → S) → (ℕ → MessageOrigin) → Bytes → ℕ → S → S
    pub para_id_to_sibling : ℕ → MessageOrigin
    -- `XcmpQueue`, as a handler of changes and a query for pauses, and the adapters to all origins.
    pub xcmp_on_queue_changed : ℕ → Footprint → S → S
    pub xcmp_is_paused : ℕ → S → Bool
    pub narrow_change_to_sibling : (ℕ → Footprint → S → S) → MessageOrigin → Footprint → S → S
    pub narrow_pause_to_sibling : (ℕ → S → Bool) → MessageOrigin → S → Bool
    pub parachain_junction : ℕ → Junction
    -- `From<AggregateMessageOrigin> for Location`
    pub location_of : MessageOrigin → Location
    -- A message that can be decoded and for whose weight there is room, with the properties that it
    -- is executed with, among them no weight credit.
    pub prepared : Bytes → Meter → Option (Message × Properties)
    pub result_of : Outcome → ProcessResult
    pub noop_message_processor : Bytes → MessageOrigin → Meter → S → ProcessResult × S
    pub process_xcm_message :
        (Location → Message → Properties → S → Outcome × S)
        → Bytes
        → MessageOrigin
        → Meter
        → S
        → ProcessResult × S
    pub waiting-enqueue_message_self :
        (b : Bytes) (o : MessageOrigin) (s : S)
        → waiting (enqueue_message b o s) o ≡ waiting s o ++ b ∷ []
    pub waiting-enqueue_message_ne :
        (b : Bytes) (o q : MessageOrigin) (s : S)
        → o ≢ q
        → waiting (enqueue_message b o s) q ≡ waiting s q
    pub enqueue_with_origin_lem :
        (f : Bytes → MessageOrigin → S → S) (o : MessageOrigin) (b : Bytes) (s : S)
        → enqueue_with_origin f o b s ≡ f b o s
    pub transform_origin_lem :
        (f : Bytes → MessageOrigin → S → S) (g : ℕ → MessageOrigin) (b : Bytes) (id : ℕ) (s : S)
        → transform_origin f g b id s ≡ f b (g id) s
    pub para_id_to_sibling_lem : (id : ℕ) → para_id_to_sibling id ≡ sibling id
    pub as_plurality-parachain_junction : (id : ℕ) → X.as_plurality (parachain_junction id) ≡ none
    pub unpack-parent : X.unpack (location_of parent) ≡ (1, [])
    pub unpack-sibling :
        (id : ℕ) → X.unpack (location_of (sibling id)) ≡ (1, parachain_junction id ∷ [])
    pub process_xcm_message_prepared :
        (f : Location → Message → Properties → S → Outcome × S) (b : Bytes) (o : MessageOrigin)
        → (w : Meter) (s : S) (m : Message) (p : Properties) → prepared b w ≡ some (m, p)
        → process_xcm_message f b o w s
          ≡ (result_of (f (location_of o) m p s).0, (f (location_of o) m p s).1)
