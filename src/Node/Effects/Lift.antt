-- ===== src/Node/Effects/Lift.antt =====
-- A part of the program keeps its plan within the whole.
use swarm_robotics_parachain.Common.{List, [], ◌∷◌, ◌++◌, map, ◌≡◌, refl, sym, ap, ap₂, ◌∙◌}
use swarm_robotics_parachain.Node.Effects.{
  Outcome, done, failed, panicked, Io, run, map_error, lift,
}
use swarm_robotics_parachain.Node.Effects.Laws.{map-append, Kept, Runs, Runs-Kept, Kept-Runs}

module _ {C D S T E E' : Type 0} (part : D → T) (step : C → S) (g : D → C) (place : T → S)
    (k : E → E') (placed : (d : D) → step (g d) ≡ place (part d)) where
  map-place : (t : List D) → map step (map g t) ≡ map place (map part t)
  map-place [] = refl
  map-place (d ∷ t) = ap₂ (λ x xs. x ∷ xs) (placed d) (map-place t)

  map-planned :
      (p q : List T) (t : List D)
      → map part t ++ q ≡ p
      → map step (map g t) ++ map place q ≡ map place p
  map-planned p q t w =
      ap (λ x. x ++ map place q) (map-place t)
      ∙ sym (map-append place (map part t) q)
      ∙ ap (map place) w

  module _ (F : E → Type 0) (F' : E' → Type 0) (X : Type 0) (fails : (e : E) → F e → F' (k e)) where
    module _ {A : Type 0} (P : A → Type 0) where
      Kept-lift :
          (p : List T) (h : List C) (r : Outcome E A × List D)
          → Kept part F X P p [] r
          → Kept step F' X P (map place p) h (map_error k r.0, h ++ map g r.1)
      Kept-lift p h (done a, t) (x, (u, e, w)) =
          (x, (map g t, refl, map-place t ∙ ap (λ v. map place (map part v)) e ∙ ap (map place) w))
      Kept-lift p h (failed a, t) (x, (u, q, e, w)) = (
        fails a x,
        (map g t, map place q, refl, map-planned p q t (ap (λ v. map part v ++ q) e ∙ w)),
      )
      Kept-lift p h (panicked, t) (x, (u, q, e, w)) =
          (x, (map g t, map place q, refl, map-planned p q t (ap (λ v. map part v ++ q) e ∙ w)))

      pub lift-Runs :
          (p : List T) (m : Io D E A)
          → Runs part F X P p m
          → Runs step F' X P (map place p) (lift g k m)
      unfolding lift
      lift-Runs p m r =
          Kept-Runs step F' X P (map place p) _
            (λ h. Kept-lift p h (run m []) (Runs-Kept part F X P p m r []))
