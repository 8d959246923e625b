-- ===== src/Frame/Xcm.antt =====
-- What the XCM configuration takes from staging_xcm and staging_xcm_builder: locations, and the tests
-- of a message that a barrier is put together from. A test says whether a message may be executed,
-- from an origin, with the properties that the executor keeps; what a test that allows takes of the
-- weight credit is left out, since no test runs after it.
use swarm_robotics_parachain.Common.{
  ℕ, Bool, true, false, ◌&&◌, ◌||◌, Option, none, some, List, ◌≡◌,
}

pub record XcmCrates : Type 1 where
  pub Junction : Type 0
  pub BodyId : Type 0
  pub BodyPart : Type 0
  pub Location : Type 0
  pub InteriorLocation : Type 0
  pub Message : Type 0
  pub Properties : Type 0
  -- `Location::unpack`
  pub unpack : Location → ℕ × List Junction
  pub parachain : ℕ → InteriorLocation
  pub body_id_eq : Discrete BodyId
  -- `BodyId::Executive`
  pub executive : BodyId
  -- The junction `Plurality { id, part }`, and what a match on it finds.
  pub plurality : BodyId → BodyPart → Junction
  pub as_plurality : Junction → Option (BodyId × BodyPart)
  pub as_plurality-plurality :
      (id : BodyId) (part : BodyPart) → as_plurality (plurality id part) ≡ some (id, part)
  pub plurality-as_plurality :
      (j : Junction) (id : BodyId) (part : BodyPart)
      → as_plurality j ≡ some (id, part)
      → j ≡ plurality id part

module _ (X : XcmCrates) where
  open X use {Location, InteriorLocation, Message, Properties}

  -- `ShouldExecute`, and `DenyExecution` with `true` for a denial.
  abbrev pub Test : Type 0
  Test = Location → Message → Properties → Bool

  -- There is an origin, and the filter contains it.
  abbrev pub passes : (Location → Bool) → Option Location → Bool
  passes f none = false
  passes f (some l) = f l

  pub record Barriers : Type 0 where
    pub trailing_set_topic_as_id : Test → Test
    pub deny_then_try : Test → Test → Test
    pub deny_recursively : Test → Test
    pub deny_reserve_transfer_to_relay_chain : Test
    pub take_weight_credit : Test
    pub with_computed_origin : Test → InteriorLocation → ℕ → Test
    pub allow_top_level_paid_execution_from : (Location → Bool) → Test
    pub allow_explicit_unpaid_execution_from : (Location → Bool) → Test
    -- A tuple of tests: the first that allows decides.
    pub either : Test → Test → Test
    -- The message without a trailing `SetTopic`.
    pub without_topic : Message → Message
    -- The origin after the leading instructions, at most so many, that change it, and the message
    -- after them; `none` if there is no such origin.
    pub computed : InteriorLocation → ℕ → Location → Message → Option (Location × Message)
    pub buys_execution : Message → Properties → Bool
    -- The origin at an `UnpaidExecution` of enough weight, after the few instructions before it that
    -- `AllowExplicitUnpaidExecutionFrom` reads over, some of which change the origin; `none` if
    -- another instruction stands there.
    pub unpaid_origin : Location → Message → Properties → Option Location
    pub trailing_set_topic_as_id_lem :
        (t : Test) (l : Location) (m : Message) (p : Properties)
        → trailing_set_topic_as_id t l m p ≡ t l (without_topic m) p
    pub deny_then_try_denied :
        (d t : Test) (l : Location) (m : Message) (p : Properties)
        → d l m p ≡ true
        → deny_then_try d t l m p ≡ false
    pub deny_then_try_allowed :
        (d t : Test) (l : Location) (m : Message) (p : Properties)
        → d l m p ≡ false
        → deny_then_try d t l m p ≡ t l m p
    pub either_lem :
        (t u : Test) (l : Location) (m : Message) (p : Properties)
        → either t u l m p ≡ (t l m p || u l m p)
    pub with_computed_origin_some :
        (t : Test) (u : InteriorLocation) (n : ℕ) (l l' : Location) (m m' : Message)
        (p : Properties)
        → computed u n l m ≡ some (l', m')
        → with_computed_origin t u n l m p ≡ t l' m' p
    pub with_computed_origin_none :
        (t : Test) (u : InteriorLocation) (n : ℕ) (l : Location) (m : Message) (p : Properties)
        → computed u n l m ≡ none
        → with_computed_origin t u n l m p ≡ false
    pub allow_paid_lem :
        (f : Location → Bool) (l : Location) (m : Message) (p : Properties)
        → allow_top_level_paid_execution_from f l m p ≡ (f l && buys_execution m p)
    pub allow_unpaid_lem :
        (f : Location → Bool) (l : Location) (m : Message) (p : Properties)
        → allow_explicit_unpaid_execution_from f l m p ≡ passes f (unpaid_origin l m p)
