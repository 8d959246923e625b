-- ===== src/Host/Messages.antt =====
-- Instances of `Executors` and `MessageQueues`: one list of waiting messages, and a record of the
-- messages that were executed.
use swarm_robotics_parachain.Common.{
  ℕ, ◌≡◌, ◌≢◌, refl, sym, ap, ◌∙◌, Bool, true, false, Option, none, some, List, [], ◌∷◌, ◌++◌,
  length, if◌then◌else◌, ltb,
}
use swarm_robotics_parachain.Frame.Executor.{ExecutorConfig, Executors}
use swarm_robotics_parachain.Frame.Messages.{
  MessageOrigin, here, parent, sibling, MessageOrigin-discrete, MessageQueues,
}
use swarm_robotics_parachain.Host.Places.{located_origins}
use swarm_robotics_parachain.Host.Weight.{host_weights}
use swarm_robotics_parachain.Host.Xcm.{HostJunction, HostInstruction, parachain, host_xcm}
use swarm_robotics_parachain.Host.XcmRouter.{host_routers}

pub record HostStore : Type 0 where
  pub queue : List (MessageOrigin × List HostInstruction)
  pub ran : List ((ℕ × List HostJunction) × List HostInstruction)

pub data HostOutcome : Type 0 where
  complete : HostOutcome
  refused : HostOutcome

abbrev pub HostConfig : Type 0
HostConfig = ExecutorConfig host_xcm located_origins host_routers host_weights (Unit {0})

abbrev pub ran_at :
    ℕ × List HostJunction → List HostInstruction → HostStore → HostOutcome × HostStore
ran_at l m s = (complete, record s { ran = s.ran ++ (l, m) ∷ [] })

abbrev pub if_allowed :
    Bool → ℕ × List HostJunction → List HostInstruction → HostStore → HostOutcome × HostStore
if_allowed true l m s = ran_at l m s
if_allowed false l m s = (refused, s)

abbrev pub host_executors :
    Executors host_xcm located_origins host_routers host_weights (Unit {0}) HostStore
host_executors = record {
  Outcome = HostOutcome;
  barrier_error = refused;
  native_asset = λ a l. true;
  execute = λ c l m p s. if_allowed (c.barrier l m p) l m s;
  run_instructions = λ c l m p s. ran_at l m s;
  execute_allowed = λ c l m p s e. ap (λ b. if_allowed b l m s) e;
  execute_denied = λ c l m p s e. ap (λ b. if_allowed b l m s) e;
}

abbrev pub kept_if : {A C : Type 0} → Dec A → C → List C → List C
kept_if (yes e) c cs = c ∷ cs
kept_if (no ne) c cs = cs

abbrev pub waiting_in :
    List (MessageOrigin × List HostInstruction) → MessageOrigin → List (List HostInstruction)
waiting_in [] o = []
waiting_in (q ∷ qs) o = kept_if (MessageOrigin-discrete q.0 o) q.1 (waiting_in qs o)

kept_if_append :
    {A C : Type 0} (d : Dec A) (c e : C) (cs : List C)
    → kept_if d c cs ++ e ∷ [] ≡ kept_if d c (cs ++ e ∷ [])
kept_if_append (yes h) c e cs = refl
kept_if_append (no h) c e cs = refl

pub waiting-last_self :
    (qs : List (MessageOrigin × List HostInstruction)) (b : List HostInstruction)
    → (o : MessageOrigin) → waiting_in (qs ++ (o, b) ∷ []) o ≡ waiting_in qs o ++ b ∷ []
waiting-last_self [] b o = elim (MessageOrigin-discrete o o) as (λ d. kept_if d b [] ≡ b ∷ []) [
  | yes e ↦ refl
  | no ne ↦ absurd (ne refl)
]
waiting-last_self (q ∷ qs) b o =
    ap (kept_if (MessageOrigin-discrete q.0 o) q.1) (waiting-last_self qs b o)
    ∙ sym (kept_if_append (MessageOrigin-discrete q.0 o) q.1 b (waiting_in qs o))

pub waiting-last_ne :
    (qs : List (MessageOrigin × List HostInstruction)) (b : List HostInstruction)
    → (o q : MessageOrigin) → o ≢ q
    → waiting_in (qs ++ (o, b) ∷ []) q ≡ waiting_in qs q
waiting-last_ne [] b o q h = elim (MessageOrigin-discrete o q) as (λ d. kept_if d b [] ≡ []) [
  | yes e ↦ absurd (h e)
  | no ne ↦ refl
]
waiting-last_ne (r ∷ qs) b o q h =
    ap (kept_if (MessageOrigin-discrete r.0 q) r.1) (waiting-last_ne qs b o q h)

abbrev pub enqueue : List HostInstruction → MessageOrigin → HostStore → HostStore
enqueue b o s = record s { queue = s.queue ++ (o, b) ∷ [] }

abbrev pub place_of : MessageOrigin → ℕ × List HostJunction
place_of here = (0, [])
place_of parent = (1, [])
place_of (sibling id) = (1, parachain id ∷ [])

abbrev pub for_sibling : {C : Type 0} → C → (ℕ → C) → MessageOrigin → C
for_sibling c f here = c
for_sibling c f parent = c
for_sibling c f (sibling id) = f id

-- What is prepared is executed with no credit.
abbrev pub prepared : List HostInstruction → ℕ → Option (List HostInstruction × ℕ)
prepared b w = if ltb w (length b) then none else some (b, 0)

abbrev pub process :
    (ℕ × List HostJunction → List HostInstruction → ℕ → HostStore → HostOutcome × HostStore)
    → MessageOrigin
    → HostStore
    → Option (List HostInstruction × ℕ)
    → Option HostOutcome × HostStore
process f o s none = (none, s)
process f o s (some (m, p)) = let (r, s') = f (place_of o) m p s in (some r, s')

abbrev pub host_queues : MessageQueues host_xcm HostStore HostOutcome
host_queues = record {
  Bytes = List HostInstruction;
  Footprint = ℕ;
  Meter = ℕ;
  ProcessResult = Option HostOutcome;
  enqueue_message = enqueue;
  waiting = λ s o. waiting_in s.queue o;
  enqueue_with_origin = λ f o b s. f b o s;
  transform_origin = λ f g b id s. f b (g id) s;
  para_id_to_sibling = sibling;
  xcmp_on_queue_changed = λ id n s. s;
  xcmp_is_paused = λ id s. false;
  narrow_change_to_sibling = λ f o n s. for_sibling s (λ id. f id n s) o;
  narrow_pause_to_sibling = λ f o s. for_sibling false (λ id. f id s) o;
  parachain_junction = parachain;
  location_of = place_of;
  prepared = prepared;
  result_of = some;
  noop_message_processor = λ b o w s. (some complete, s);
  process_xcm_message = λ f b o w s. process f o s (prepared b w);
  waiting-enqueue_message_self = λ b o s. waiting-last_self s.queue b o;
  waiting-enqueue_message_ne = λ b o q s h. waiting-last_ne s.queue b o q h;
  enqueue_with_origin_lem = λ f o b s. refl;
  transform_origin_lem = λ f g b id s. refl;
  para_id_to_sibling_lem = λ id. refl;
  as_plurality-parachain_junction = λ id. refl;
  unpack-parent = refl;
  unpack-sibling = λ id. refl;
  process_xcm_message_prepared = λ f b o w s m p e. ap (process f o s) e;
}
