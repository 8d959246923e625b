-- ===== src/Node/Effects/Laws.antt =====
-- What a run leaves behind, by its parts: the calls it makes, in order, and how it ends.
use swarm_robotics_parachain.Common.{
  Bool, true, false, Option, none, some, List, [], ◌∷◌, ◌++◌, map, append-nil, append_assoc, ◌⊎◌,
  inl, inr, ◌≡◌, refl, sym, subst, ap, ap₂, ◌∙◌,
}
use swarm_robotics_parachain.Node.Effects.{
  Outcome, done, failed, panicked, Io, run, continue, ◌>>=◌, pure, call, outcome, expect, fail,
  ok_or, notify, when,
}

module _ {A B : Type 0} (f : A → B) where
  pub map-append : (xs ys : List A) → map f (xs ++ ys) ≡ map f xs ++ map f ys
  map-append [] ys = refl
  map-append (x ∷ xs) ys = ap (◌∷◌ (f x)) (map-append xs ys)

abbrev pub planned : {S : Type 0} → Bool → List S → List S
planned true p = p
planned false p = []

-- `step` reads a call; `F` holds of the errors that may come back, `X` where a panic may happen.
module _ {C S E : Type 0} (step : C → S) (F : E → Type 0) (X : Type 0) where
  -- The new calls are a beginning of the plan.
  abbrev pub Begins : List S → List C → List C → Type 0
  Begins p h h' = (t : List C) × (q : List S) × (h' ≡ h ++ t) × (map step t ++ q ≡ p)

  -- Where the run returns, `P` holds of the value and the new calls are the whole plan.
  abbrev pub Kept : {A : Type 0} → (A → Type 0) → List S → List C → Outcome E A × List C → Type 0
  Kept P p h (done a, h') = P a × ((t : List C) × (h' ≡ h ++ t) × (map step t ≡ p))
  Kept P p h (failed e, h') = F e × Begins p h h'
  Kept P p h (panicked, h') = X × Begins p h h'

  pub Runs : {A : Type 0} → (A → Type 0) → List S → Io C E A → Type 0
  Runs P p m = (h : List C) → Kept P p h (run m h)

  pub Runs-Kept :
      {A : Type 0} (P : A → Type 0) (p : List S) (m : Io C E A)
      → Runs P p m
      → (h : List C) → Kept P p h (run m h)
  unfolding Runs
  Runs-Kept P p m k h = k h

  pub Kept-Runs :
      {A : Type 0} (P : A → Type 0) (p : List S) (m : Io C E A)
      → ((h : List C) → Kept P p h (run m h))
      → Runs P p m
  unfolding Runs
  Kept-Runs P p m k h = k h

  Begins-append :
      (p q : List S) (h h' k t : List C)
      → h' ≡ h ++ t
      → map step t ≡ p
      → Begins q h' k
      → Begins (p ++ q) h k
  Begins-append p q h h' k t e w (u, z, f, v) = (
    t ++ u,
    z,
    f ∙ ap (λ x. x ++ u) e ∙ append_assoc h t u,
    ap (λ x. x ++ z) (map-append step t u)
        ∙ append_assoc (map step t) (map step u) z
        ∙ ap₂ (λ x y. x ++ y) w v,
  )

  Begins-left : (p q : List S) (h h' : List C) → Begins p h h' → Begins (p ++ q) h h'
  Begins-left p q h h' (t, z, e, w) =
      (t, z ++ q, e, sym (append_assoc (map step t) z q) ∙ ap (λ x. x ++ q) w)

  module _ {A : Type 0} (P : A → Type 0) where
    Kept-append :
        (p q : List S) (h h' t : List C) (r : Outcome E A × List C)
        → h' ≡ h ++ t
        → map step t ≡ p
        → Kept P q h' r
        → Kept P (p ++ q) h r
    Kept-append p q h h' t (done a, k) e w (x, (u, f, v)) = (
      x,
      (
        t ++ u,
        f ∙ ap (λ x. x ++ u) e ∙ append_assoc h t u,
        map-append step t u ∙ ap₂ (λ x y. x ++ y) w v,
      ),
    )
    Kept-append p q h h' t (failed a, k) e w (x, b) = (x, Begins-append p q h h' k t e w b)
    Kept-append p q h h' t (panicked, k) e w (x, b) = (x, Begins-append p q h h' k t e w b)

  module _ {A B : Type 0} (P : A → Type 0) (Q : B → Type 0) where
    Kept-continue :
        (p q : List S) (h h' : List C) (r : Outcome E A) (f : A → Io C E B)
        → Kept P p h (r, h')
        → ((a : A) → P a → Runs Q q (f a))
        → Kept Q (p ++ q) h (continue r f h')
    unfolding Runs
    Kept-continue p q h h' (done a) f (x, (t, e, w)) g =
        Kept-append Q p q h h' t (run (f a) h') e w (g a x h')
    Kept-continue p q h h' (failed a) f (x, b) g = (x, Begins-left p q h h' b)
    Kept-continue p q h h' panicked f (x, b) g = (x, Begins-left p q h h' b)

    pub bind-Runs :
        (p q : List S) (m : Io C E A) (f : A → Io C E B)
        → Runs P p m
        → ((a : A) → P a → Runs Q q (f a))
        → Runs Q (p ++ q) (m >>= f)
    unfolding Runs ◌>>=◌
    bind-Runs p q m f hm hf h = Kept-continue p q h (run m h).1 (run m h).0 f (hm h) hf

  module _ {A : Type 0} (P : A → Type 0) where
    pub pure-Runs : (a : A) → P a → Runs P [] (pure a)
    unfolding Runs pure
    pure-Runs a x h = (x, ([], sym (append-nil h), refl))

    abbrev pub Answered : E ⊎ A → Type 0
    Answered (inl e) = F e
    Answered (inr a) = P a

    Kept-outcome :
        (c : C) (h : List C) (r : E ⊎ A)
        → Answered r
        → Kept P (step c ∷ []) h (outcome r, h ++ (c ∷ []))
    Kept-outcome c h (inl e) x = (x, (c ∷ [], [], refl, refl))
    Kept-outcome c h (inr a) x = (x, (c ∷ [], refl, refl))

    pub call-Runs :
        (c : C) (answer : List C → E ⊎ A)
        → ((h : List C) → Answered (answer h))
        → Runs P (step c ∷ []) (call c answer)
    unfolding Runs call
    call-Runs c answer x h = Kept-outcome c h (answer h) (x h)

    -- A call, and then the rest.
    pub call-then :
        {B : Type 0} (Q : B → Type 0) (q : List S) (c : C) (answer : List C → E ⊎ A)
        (f : A → Io C E B)
        → ((h : List C) → Answered (answer h))
        → ((a : A) → P a → Runs Q q (f a))
        → Runs Q (step c ∷ q) (call c answer >>= f)
    call-then Q q c answer f x = bind-Runs P Q _ q _ f (call-Runs c answer x)

    pub expect-Runs :
        (o : Option A) → ((o ≡ none) → X) → ((a : A) → (o ≡ some a) → P a) → Runs P [] (expect o)
    unfolding Runs expect
    expect-Runs none x k h = (x refl, ([], [], sym (append-nil h), refl))
    expect-Runs (some a) x k h = (k a refl, ([], sym (append-nil h), refl))

    pub fail-Runs : (e : E) → F e → Runs P [] (fail e)
    unfolding Runs fail
    fail-Runs e x h = (x, ([], [], sym (append-nil h), refl))

    pub ok_or-Runs :
        (o : Option A) (e : E)
        → ((o ≡ none) → F e)
        → ((a : A) → (o ≡ some a) → P a)
        → Runs P [] (ok_or o e)
    unfolding Runs ok_or
    ok_or-Runs none e x k h = (x refl, ([], [], sym (append-nil h), refl))
    ok_or-Runs (some a) e x k h = (k a refl, ([], sym (append-nil h), refl))

  module _ {A B : Type 0} (P : A → Type 0) (Q : B → Type 0) where
    -- A last step, and what is returned after it.
    pub last-Runs :
        (p : List S) (m : Io C E A) (f : A → B)
        → Runs P p m
        → ((a : A) → P a → Q (f a))
        → Runs Q p (m >>= λ a. pure (f a))
    last-Runs p m f h k =
        subst (λ q. Runs Q q (m >>= λ a. pure (f a))) (append-nil p)
          (bind-Runs P Q p [] m _ h (λ a x. pure-Runs Q (f a) (k a x)))

  pub notify-Runs : (c : C) → Runs (λ u. Unit {0}) (step c ∷ []) (notify c)
  unfolding Runs notify
  notify-Runs c h = (tt, (c ∷ [], refl, refl))

  pub notify-then :
      {B : Type 0} (Q : B → Type 0) (q : List S) (c : C) (f : Unit {0} → Io C E B)
      → ((u : Unit {0}) → Runs Q q (f u))
      → Runs Q (step c ∷ q) (notify c >>= f)
  notify-then Q q c f k = bind-Runs _ Q _ q _ f (notify-Runs c) (λ a x. k a)

  pub when-Runs :
      (b : Bool) (p : List S) (m : Io C E (Unit {0}))
      → ((b ≡ true) → Runs (λ u. Unit {0}) p m)
      → Runs (λ u. Unit {0}) (planned b p) (when b m)
  unfolding when
  when-Runs true p m hm = hm refl
  when-Runs false p m hm = pure-Runs _ tt tt
