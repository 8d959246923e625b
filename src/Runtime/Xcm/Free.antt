-- ===== src/Runtime/Xcm/Free.antt =====
-- Which messages are executed without payment.
use swarm_robotics_parachain.Common.{or_true, ◌||◌, some_inj, subst, Bool-cases}
use swarm_robotics_parachain.Common.{
  ℕ, ℕ_discrete, Bool, true, false, Option, none, some, List, [], ◌∷◌, ◌⊎◌, inl, inr, ◌≡◌, ◌↔◌,
  refl, sym, ap, ap₂, ◌∙◌,
}
use swarm_robotics_parachain.Frame.Xcm.{XcmCrates, passes, Barriers}
use swarm_robotics_parachain.Runtime.Xcm.{
  is_body, of_parent, matches, contains, everything, origin_tests, universal_location, barrier,
}

module _ (X : XcmCrates) where
  open X use {Junction, Location, Message, Properties}

  -- The parent, or its executive body.
  abbrev pub IsParentOrExecutive : Location → Type 0
  IsParentOrExecutive l =
      (X.unpack l ≡ (1, []))
      ⊎ ((part : X.BodyPart) × (X.unpack l ≡ (1, X.plurality X.executive part ∷ [])))

  abbrev IsExecutive : Option (X.BodyId × X.BodyPart) → Type 0
  IsExecutive o = (part : X.BodyPart) × (o ≡ some (X.executive, part))

  is_body-IsExecutive : (o : Option (X.BodyId × X.BodyPart)) → is_body X o ≡ true → IsExecutive o
  is_body-IsExecutive none e = absurd (cc e)
  is_body-IsExecutive (some (id, part)) e =
      (elim (X.body_id_eq id X.executive)
          as (λ d. elim d [ yes e ↦ true | no ne ↦ false ] ≡ true → IsExecutive (some (id, part))) [
            | yes h ↦ λ e. (part, ap (λ i. some (i, part)) h)
            | no nh ↦ λ e. absurd (cc e)
          ])
        e

  is_body-executive : (part : X.BodyPart) → is_body X (some (X.executive, part)) ≡ true
  is_body-executive part =
      elim (X.body_id_eq X.executive X.executive)
        as (λ d. elim d [ yes e ↦ true | no ne ↦ false ] ≡ true) [
          | yes h ↦ refl
          | no nh ↦ absurd (nh refl)
        ]

  of_parent-true :
      (js : List Junction)
      → of_parent X js ≡ true
      → (js ≡ []) ⊎ ((part : X.BodyPart) × (js ≡ X.plurality X.executive part ∷ []))
  of_parent-true [] e = inl refl
  of_parent-true (j ∷ []) e =
      let (part, h) = is_body-IsExecutive (X.as_plurality j) e in
      inr (part, ap (λ k. k ∷ []) (X.plurality-as_plurality j X.executive part h))
  of_parent-true (j ∷ k ∷ js) e = absurd (cc e)

  -- The two shapes that the match on an unpacked location allows.
  abbrev Allowed : ℕ × List Junction → Type 0
  Allowed u = (u ≡ (1, [])) ⊎ ((part : X.BodyPart) × (u ≡ (1, X.plurality X.executive part ∷ [])))

  matches-true : (n : ℕ) (js : List Junction) → matches X n js ≡ true → Allowed (n, js)
  matches-true n js =
      elim (ℕ_discrete n 1)
        as (λ d. elim d [ yes e ↦ of_parent X js | no ne ↦ false ] ≡ true → Allowed (n, js)) [
          | yes h ↦ λ e. elim (of_parent-true js e) [
            | inl k ↦ inl (ap₂ (λ a b. (a, b)) h k)
            | inr (part, k) ↦ inr (part, ap₂ (λ a b. (a, b)) h k)
          ]
          | no nh ↦ λ e. absurd (cc e)
        ]

  matches-Allowed : (u : ℕ × List Junction) → Allowed u → matches X u.0 u.1 ≡ true
  unfolding ℕ_discrete
  matches-Allowed u (inl e) = ap (λ v. matches X v.0 v.1) e
  matches-Allowed u (inr (part, e)) =
      ap (λ v. matches X v.0 v.1) e
      ∙ ap (is_body X) (X.as_plurality-plurality X.executive part)
      ∙ is_body-executive part

  -- A location passes the filter exactly if it is the parent or its executive body.
  pub contains_iff : (l : Location) → (contains X l ≡ true) ↔ IsParentOrExecutive l
  unfolding contains
  contains_iff l = (matches-true (X.unpack l).0 (X.unpack l).1, matches-Allowed (X.unpack l))

  passes_iff :
      (f : Location → Bool) (o : Option Location)
      → (passes X f o ≡ true) ↔ ((l : Location) × ((o ≡ some l) × (f l ≡ true)))
  passes_iff f none = (λ e. absurd (cc e), λ (l, (e, h)). absurd (cc e))
  passes_iff f (some k) = (λ e. (k, (refl, e)), λ (l, (e, h)). cc (e, h))

  module _ (B : Barriers X) (parachain_id : ℕ) where
    -- The unpaid execution of a message: the origin at its `UnpaidExecution` is the parent or its
    -- executive body.
    abbrev pub IsFree : Location → Message → Properties → Type 0
    IsFree l m p = (l' : Location) × ((B.unpaid_origin l m p ≡ some l') × IsParentOrExecutive l')

    -- A message is computed to have an origin, and what is left of it buys its execution or has it
    -- for free.
    abbrev pub IsGranted : Option (Location × Message) → Properties → Type 0
    IsGranted o p =
        (l : Location) × (m : Message) × ((o ≡ some (l, m))
          × ((B.buys_execution m p ≡ true) ⊎ IsFree l m p))

    -- A message, without its trailing topic, is not denied, and has weight credit or is granted
    -- its execution.
    abbrev pub Passes : Location → Message → Properties → Type 0
    Passes l m p =
        (B.deny_recursively B.deny_reserve_transfer_to_relay_chain l (B.without_topic m) p ≡ false)
        × ((B.take_weight_credit l (B.without_topic m) p ≡ true)
            ⊎ IsGranted (B.computed (universal_location X B parachain_id) 8 l (B.without_topic m))
                p)

    allow_explicit_unpaid_execution_from-IsFree :
        (l : Location) (m : Message) (p : Properties)
        → (B.allow_explicit_unpaid_execution_from (contains X) l m p ≡ true) ↔ IsFree l m p
    allow_explicit_unpaid_execution_from-IsFree l m p =
        let (there, back) = passes_iff (contains X) (B.unpaid_origin l m p) in
        (
          λ e.
              let (l', (u, c)) = there (sym (B.allow_unpaid_lem (contains X) l m p) ∙ e) in
              (l', (u, (contains_iff l').0 c)),
          λ (l', (u, c)).
              B.allow_unpaid_lem (contains X) l m p ∙ back (l', (u, (contains_iff l').1 c)),
        )

    origin_tests_iff :
        (l : Location) (m : Message) (p : Properties)
        → (origin_tests X B parachain_id l m p ≡ true)
          ↔ ((B.buys_execution m p ≡ true) ⊎ IsFree l m p)
    origin_tests_iff l m p =
        let e =
          B.either_lem _ _ l m p
          ∙ ap (λ b. b || B.allow_explicit_unpaid_execution_from (contains X) l m p)
              (B.allow_paid_lem (everything X) l m p) in
        let (there, back) = or_true (B.buys_execution m p) _ in
        let (free, allowed) = allow_explicit_unpaid_execution_from-IsFree l m p in
        (
          λ h. elim (there (sym e ∙ h)) [ inl b ↦ inl b | inr u ↦ inr (free u) ],
          λ h. e ∙ back (elim h [ inl b ↦ inl b | inr u ↦ inr (allowed u) ]),
        )

    with_computed_origin-IsGranted :
        (l : Location) (m : Message) (p : Properties) (o : Option (Location × Message))
        → B.computed (universal_location X B parachain_id) 8 l m ≡ o
        → (B.with_computed_origin
              (origin_tests X B parachain_id)
              (universal_location X B parachain_id)
              8
              l
              m
              p
            ≡ true)
          ↔ IsGranted o p
    with_computed_origin-IsGranted l m p none c =
        let e = B.with_computed_origin_none (origin_tests X B parachain_id) _ 8 l m p c in
        (λ h. absurd (cc (e, h)), λ (k, n, (q, h)). absurd (cc q))
    with_computed_origin-IsGranted l m p (some (l', m')) c =
        let e = B.with_computed_origin_some (origin_tests X B parachain_id) _ 8 l l' m m' p c in
        let (there, back) = origin_tests_iff l' m' p in
        (
          λ h. (l', m', (refl, there (sym e ∙ h))),
          λ (k, n, (q, h)).
              e
              ∙ back (
                  subst (λ u. (B.buys_execution u.1 p ≡ true) ⊎ IsFree u.0 u.1 p) (sym (some_inj q))
                    h),
        )

    -- The tests behind the denial.
    allowed_iff :
        (l : Location) (m : Message) (p : Properties)
        → (B.either B.take_weight_credit
              (B.with_computed_origin
                (origin_tests X B parachain_id)
                (universal_location X B parachain_id)
                8)
              l
              m
              p
            ≡ true)
          ↔ ((B.take_weight_credit l m p ≡ true)
              ⊎ IsGranted (B.computed (universal_location X B parachain_id) 8 l m) p)
    allowed_iff l m p =
        let e = B.either_lem B.take_weight_credit _ l m p in
        let (there, back) = or_true (B.take_weight_credit l m p) _ in
        let (granted, grants) = with_computed_origin-IsGranted l m p _ refl in
        (
          λ h. elim (there (sym e ∙ h)) [ inl c ↦ inl c | inr g ↦ inr (granted g) ],
          λ h. e ∙ back (elim h [ inl c ↦ inl c | inr g ↦ inr (grants g) ]),
        )

    -- The barrier lets a message pass if and only if, without its trailing topic, it is not denied,
    -- and it has weight credit, or an origin is computed for it and what is left of it buys its
    -- execution, or asks for unpaid execution where the origin is the parent or its executive body.
    pub barrier_iff :
        (l : Location) (m : Message) (p : Properties)
        → (barrier X B parachain_id l m p ≡ true) ↔ Passes l m p
    unfolding barrier
    barrier_iff l m p =
        let topic = B.trailing_set_topic_as_id_lem _ l m p in
        let n = B.without_topic m in
        let (there, back) = allowed_iff l n p in
        (
          λ h. elim (Bool-cases (B.deny_recursively B.deny_reserve_transfer_to_relay_chain l n p)) [
            | inl t ↦ absurd (cc (sym h ∙ topic ∙ B.deny_then_try_denied _ _ l n p t))
            | inr f ↦ (f, there (sym (B.deny_then_try_allowed _ _ l n p f) ∙ sym topic ∙ h))
          ],
          λ (f, h). topic ∙ B.deny_then_try_allowed _ _ l n p f ∙ back h,
        )
