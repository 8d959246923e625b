-- ===== src/Host/Xcm.antt =====
-- Locations as pairs, messages as lists of a few instructions, tests as functions into Bool: instances
-- of `XcmCrates` and `Barriers`.
use swarm_robotics_parachain.Common.{
  ℕ, zero, suc, ◌≡◌, refl, ap, Bool, true, false, ◌&&◌, ◌||◌, Option, none, some, List, [], ◌∷◌,
  ◌++◌, ℕ_discrete,
}
use swarm_robotics_parachain.Frame.Xcm.{XcmCrates, Test, passes, Barriers}

pub data HostJunction : Type 0 where
  plurality : ℕ → ℕ → HostJunction
  parachain : ℕ → HostJunction
  account_id32 : Option (Unit {0}) → ℕ → HostJunction

pub data HostInstruction : Type 0 where
  unpaid_execution : HostInstruction
  buy_execution : HostInstruction
  descend_origin : HostJunction → HostInstruction
  transact : HostInstruction
  set_topic : HostInstruction
  reserve_transfer : HostInstruction

abbrev pub as_plurality : HostJunction → Option (ℕ × ℕ)
as_plurality (plurality id part) = some (id, part)
as_plurality (parachain id) = none
as_plurality (account_id32 n a) = none

pub plurality-as_plurality :
    (j : HostJunction) (id part : ℕ) → as_plurality j ≡ some (id, part) → j ≡ plurality id part
plurality-as_plurality (plurality i q) id part e = cc e
plurality-as_plurality (parachain i) id part e = absurd (cc e)
plurality-as_plurality (account_id32 n a) id part e = absurd (cc e)

abbrev pub host_xcm : XcmCrates
host_xcm = record {
  Junction = HostJunction;
  BodyId = ℕ;
  BodyPart = ℕ;
  Location = ℕ × List HostJunction;
  InteriorLocation = ℕ;
  Message = List HostInstruction;
  Properties = ℕ;
  unpack = λ l. l;
  parachain = λ id. id;
  body_id_eq = ℕ_discrete;
  executive = 1;
  plurality = plurality;
  as_plurality = as_plurality;
  as_plurality-plurality = λ id part. refl;
  plurality-as_plurality = plurality-as_plurality;
}

abbrev pub without_topic : List HostInstruction → List HostInstruction
without_topic [] = []
without_topic (set_topic ∷ []) = []
without_topic (i ∷ is) = i ∷ without_topic is

-- The junctions of leading `descend_origin`s are appended to the origin.
abbrev pub computed :
    ℕ
    → ℕ × List HostJunction
    → List HostInstruction
    → Option ((ℕ × List HostJunction) × List HostInstruction)
computed (suc n) (k, js) (descend_origin j ∷ is) = computed n (k, js ++ (j ∷ [])) is
computed n l is = some (l, is)

-- Up to so many `descend_origin`s before the `unpaid_execution`.
abbrev pub unpaid_origin :
    ℕ → ℕ × List HostJunction → List HostInstruction → Option (ℕ × List HostJunction)
unpaid_origin n l (unpaid_execution ∷ is) = some l
unpaid_origin (suc n) (k, js) (descend_origin j ∷ is) = unpaid_origin n (k, js ++ (j ∷ [])) is
unpaid_origin n l is = none

abbrev pub begins_buying : List HostInstruction → Bool
begins_buying (buy_execution ∷ is) = true
begins_buying is = false

abbrev pub transfers : List HostInstruction → Bool
transfers [] = false
transfers (reserve_transfer ∷ is) = true
transfers (i ∷ is) = transfers is

abbrev pub try_if : Bool → Bool → Bool
try_if true b = false
try_if false b = b

abbrev pub origin_test :
    Test host_xcm → Option ((ℕ × List HostJunction) × List HostInstruction) → ℕ → Bool
origin_test t none p = false
origin_test t (some (l, m)) p = t l m p

-- The credit is a number of instructions.
abbrev pub within_credit : List HostInstruction → ℕ → Bool
within_credit [] p = true
within_credit (i ∷ is) zero = false
within_credit (i ∷ is) (suc p) = within_credit is p

abbrev pub host_barriers : Barriers host_xcm
host_barriers = record {
  trailing_set_topic_as_id = λ t l m p. t l (without_topic m) p;
  deny_then_try = λ d t l m p. try_if (d l m p) (t l m p);
  deny_recursively = λ d. d;
  deny_reserve_transfer_to_relay_chain = λ l m p. transfers m;
  take_weight_credit = λ l m p. within_credit m p;
  with_computed_origin = λ t u n l m p. origin_test t (computed n l m) p;
  allow_top_level_paid_execution_from = λ f l m p. f l && begins_buying m;
  allow_explicit_unpaid_execution_from = λ f l m p. passes host_xcm f (unpaid_origin 5 l m);
  either = λ t u l m p. t l m p || u l m p;
  without_topic = without_topic;
  computed = λ u n l m. computed n l m;
  buys_execution = λ m p. begins_buying m;
  unpaid_origin = λ l m p. unpaid_origin 5 l m;
  trailing_set_topic_as_id_lem = λ t l m p. refl;
  deny_then_try_denied = λ d t l m p e. ap (λ x. try_if x (t l m p)) e;
  deny_then_try_allowed = λ d t l m p e. ap (λ x. try_if x (t l m p)) e;
  either_lem = λ t u l m p. refl;
  with_computed_origin_some = λ t u n l l' m m' p e. ap (λ o. origin_test t o p) e;
  with_computed_origin_none = λ t u n l m p e. ap (λ o. origin_test t o p) e;
  allow_paid_lem = λ f l m p. refl;
  allow_unpaid_lem = λ f l m p. refl;
}
