-- ===== src/Host.antt =====
-- Concrete instances of the interfaces of `Frame`: they show that the interfaces can be met, and
-- run the examples.
pub mod U32
pub mod Weight
pub mod Xcm
pub mod Places
pub mod XcmOrigin
pub mod XcmRouter
pub mod Messages
pub mod Transactor
pub mod Apis
pub mod BlockWeights
use swarm_robotics_parachain.Common.{
  ℕ, zero, suc, ◌+◌, ◌≤◌, ◌<◌, ◌≡◌, ◌≢◌, refl, sym, ap, ◌∙◌, Bool, true, false, Option, none, some,
  List, [], ◌∷◌, ◌++◌, length, length-append, get_elem?, erase_idx, arith, dec_lt,
}
use swarm_robotics_parachain.Frame.Origin.{Origins}
use swarm_robotics_parachain.Frame.System.{System}
use swarm_robotics_parachain.Frame.StorageMap.{StorageMap}
use swarm_robotics_parachain.Frame.BoundedVec.{BoundedVec}

pub data HostOrigin : Type 0 where
  root : HostOrigin
  account : ℕ → HostOrigin

abbrev pub signer : HostOrigin → Option ℕ
signer root = none
signer (account a) = some a

pub signer_sound : (o : HostOrigin) (who : ℕ) → signer o ≡ some who → o ≡ account who
signer_sound root who h = ground arith
signer_sound (account a) who h = ground arith

abbrev pub host_origins : Origins
host_origins = record {
  RuntimeOrigin = HostOrigin;
  AccountId = ℕ;
  signed = account;
  ensure_signed = signer;
  ensure_signed-signed = λ who. refl;
  ensure_signed_sound = signer_sound;
}

module _ (E : Type 0) where
  pub record Chain : Type 0 where
    pub genesis : Bool
    pub record_of_events : List E

  abbrev pub deposit : Chain → E → Chain
  deposit c e = elim c.genesis [
    | true ↦ c
    | false ↦ record c { record_of_events = c.record_of_events ++ e ∷ [] }
  ]

  pub genesis-deposit : (c : Chain) (e : E) → (deposit c e).genesis ≡ c.genesis
  genesis-deposit c e = ground arith

  pub deposit_live :
      (c : Chain) (e : E)
      → c.genesis ≡ false
      → (deposit c e).record_of_events ≡ c.record_of_events ++ e ∷ []
  deposit_live c e h = rw h

  pub deposit_genesis : (c : Chain) (e : E) → c.genesis ≡ true → deposit c e ≡ c
  deposit_genesis c e h = rw h

  abbrev pub host_system : System E
  host_system = record {
    State = Chain;
    is_genesis = λ c. c.genesis;
    events = λ c. c.record_of_events;
    deposit_event = deposit;
    is_genesis-deposit_event = genesis-deposit;
    events-deposit_event = deposit_live;
    deposit_event_genesis = deposit_genesis;
  }

module _ {K : Type 0} (d : Discrete K) where
  abbrev pub holds : List K → K → Bool
  holds [] k = false
  holds (j ∷ js) k = elim (d j k) [ yes e ↦ true | no ne ↦ holds js k ]

  pub holds-cons_self : (js : List K) (k : K) → holds (k ∷ js) k ≡ true
  holds-cons_self js k =
      elim (d k k) as (λ x. elim x [ yes e ↦ true | no ne ↦ holds js k ] ≡ true) [
        | yes e ↦ refl
        | no ne ↦ absurd (ne refl)
      ]

  pub holds-cons_ne : (js : List K) (k j : K) → k ≢ j → holds (k ∷ js) j ≡ holds js j
  holds-cons_ne js k j h =
      elim (d k j) as (λ x. elim x [ yes e ↦ true | no ne ↦ holds js j ] ≡ holds js j) [
        | yes e ↦ absurd (h e)
        | no ne ↦ refl
      ]

  abbrev pub host_map : StorageMap K (Unit {0})
  host_map = record {
    Map = List K;
    empty = [];
    contains_key = holds;
    insert = λ m k v. k ∷ m;
    contains_key-empty = λ k. refl;
    contains_key-insert_self = λ m k v. holds-cons_self m k;
    contains_key-insert_ne = λ m k j v. holds-cons_ne m k j;
  }

module _ (A : Type 0) (bound : ℕ) where
  abbrev pub Bounded : Type 0
  Bounded = (l : List A) × (length l ≤ bound)

  pub length-erase_idx : (l : List A) (i : ℕ) → length (erase_idx l i) ≤ length l
  length-erase_idx [] i = omega arith
  length-erase_idx (x ∷ l) zero = omega arith
  length-erase_idx (x ∷ l) (suc i) = omega (arith, length-erase_idx l i)

  pub push_fits : (l : List A) (a : A) → length l < bound → length (l ++ a ∷ []) ≤ bound
  push_fits l a h = omega (arith, length-append l (a ∷ []))

  abbrev pub push_by : (v : Bounded) (a : A) → Dec (length v.0 < bound) → Option Bounded
  push_by v a (yes h) = some (v.0 ++ a ∷ [], push_fits v.0 a h)
  push_by v a (no h) = none

  abbrev pub push : Bounded → A → Option Bounded
  push v a = push_by v a (dec_lt (length v.0) bound)

  pub cut_fits : (v : Bounded) (i : ℕ) → length (erase_idx v.0 i) ≤ bound
  cut_fits v i = omega (arith, length-erase_idx v.0 i, v.1)

  abbrev pub cut : Bounded → ℕ → Option A → Option (A × Bounded)
  cut v i none = none
  cut v i (some a) = some (a, (erase_idx v.0 i, cut_fits v i))

  push_by_full :
      (v : Bounded) (a : A) (d : Dec (length v.0 < bound))
      → bound ≤ length v.0
      → push_by v a d ≡ none
  push_by_full v a (yes p) h = absurd (omega arith)
  push_by_full v a (no p) h = refl

  pub push_full : (v : Bounded) (a : A) → bound ≤ length v.0 → push v a ≡ none
  push_full v a h = push_by_full v a (dec_lt (length v.0) bound) h

  push_by_room :
      (v : Bounded) (a : A) (d : Dec (length v.0 < bound))
      → length v.0 < bound
      → (w : Bounded) × (push_by v a d ≡ some w) × (w.0 ≡ v.0 ++ a ∷ [])
  push_by_room v a (yes p) h = ((v.0 ++ a ∷ [], push_fits v.0 a p), refl, refl)
  push_by_room v a (no p) h = absurd (p h)

  pub push_room :
      (v : Bounded) (a : A)
      → length v.0 < bound
      → (w : Bounded) × (push v a ≡ some w) × (w.0 ≡ v.0 ++ a ∷ [])
  push_room v a h = push_by_room v a (dec_lt (length v.0) bound) h

  pub cut_found :
      (v : Bounded) (i : ℕ) (a : A)
      → get_elem? v.0 i ≡ some a
      → (w : Bounded) × (cut v i (get_elem? v.0 i) ≡ some (a, w)) × (w.0 ≡ erase_idx v.0 i)
  cut_found v i a h = ((erase_idx v.0 i, cut_fits v i), ap (cut v i) h, refl)

  pub no_elements_fit : length {A = A} [] ≤ bound
  no_elements_fit = omega arith

  abbrev pub host_vec : BoundedVec A bound
  host_vec = record {
    Vec = Bounded;
    elements = λ v. v.0;
    default = ([], no_elements_fit);
    try_push = push;
    get = λ v i. get_elem? v.0 i;
    remove = λ v i. cut v i (get_elem? v.0 i);
    elements-default = refl;
    length-elements = λ v. v.1;
    try_push_full = push_full;
    try_push_fits = push_room;
    get_lem = λ v i. refl;
    remove_lem = cut_found;
  }
