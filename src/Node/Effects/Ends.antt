-- ===== src/Node/Effects/Ends.antt =====
-- What a kept plan says of a run from its start: which calls it made, and how it ended.
use swarm_robotics_parachain.Common.{List, [], ◌++◌, map, append-nil, ◌≡◌, ◌≢◌, refl, ap, ◌∙◌}
use swarm_robotics_parachain.Node.Effects.{Outcome, done, failed, panicked}
use swarm_robotics_parachain.Node.Effects.Laws.{Kept}

-- A run that returns made all of its planned calls, any other run a beginning of them.
abbrev pub Follows : {E A S : Type 0} → Outcome E A → List S → List S → Type 0
Follows (done a) made plan = made ≡ plan
Follows (failed e) made plan = (q : List _) × (made ++ q ≡ plan)
Follows panicked made plan = (q : List _) × (made ++ q ≡ plan)

pub Follows-begins :
    {E A S : Type 0} (o : Outcome E A) (made plan : List S)
    → Follows o made plan
    → (q : List S) × (made ++ q ≡ plan)
Follows-begins (done a) made plan h = ([], append-nil _ ∙ h)
Follows-begins (failed e) made plan h = h
Follows-begins panicked made plan h = h

module _ {C S E A : Type 0} (step : C → S) (F : E → Type 0) where
  pub begins :
      (X : Type 0) (p : List S) (r : Outcome E A × List C)
      → Kept step F X (λ (a : A). Unit {0}) p [] r
      → (q : List S) × (map step r.1 ++ q ≡ p)
  begins X p (done a, h) (x, (t, e, w)) = ([], append-nil _ ∙ ap (map step) e ∙ w)
  begins X p (failed a, h) (x, (t, q, e, w)) = (q, ap (λ k. map step k ++ q) e ∙ w)
  begins X p (panicked, h) (x, (t, q, e, w)) = (q, ap (λ k. map step k ++ q) e ∙ w)

  pub follows :
      (p : List S) (r : Outcome E A × List C)
      → Kept step F (Unit {0}) (λ (a : A). Unit {0}) p [] r
      → Follows r.0 (map step r.1) p
  follows p (done b, h) (x, (t, e, w)) = ap (map step) e ∙ w
  follows p (failed b, h) k = begins (Unit {0}) p (failed b, h) k
  follows p (panicked, h) k = begins (Unit {0}) p (panicked, h) k

  pub unpanicked :
      (p : List S) (r : Outcome E A × List C)
      → Kept step F ⊥ (λ (a : A). Unit {0}) p [] r
      → r.0 ≢ panicked
  unpanicked p (done b, h) k d = cc d
  unpanicked p (failed b, h) k d = cc d
  unpanicked p (panicked, h) k d = k.0

module _ {C S E A : Type 0} (step : C → S) where
  pub returns :
      (p : List S) (r : Outcome E A × List C)
      → Kept step (λ (e : E). ⊥) ⊥ (λ (a : A). Unit {0}) p [] r
      → ((a : A) × (r.0 ≡ done a)) × (map step r.1 ≡ p)
  returns p (done b, h) (x, (t, e, w)) = ((b, refl), ap (map step) e ∙ w)
  returns p (failed b, h) k = absurd k.0
  returns p (panicked, h) k = absurd k.0
