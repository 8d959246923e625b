-- ===== src/Host/Places.antt =====
-- Origins that know where a message comes from, and converters that go by the shape of a location, for
-- the instance of `XcmOrigins`.
use swarm_robotics_parachain.Common.{
  ℕ, zero, suc, ◌≡◌, refl, sym, subst, ◌∙◌, ap, ◌↔◌, ◌⊎◌, inl, inr, Bool, true, false, Option, none,
  some, List, [], ◌∷◌, ℕ_discrete, arith,
}
use swarm_robotics_parachain.Frame.Origin.{Origins}
use swarm_robotics_parachain.Frame.XcmOrigin.{OriginKind, native, sovereign_account, superuser, xcm}
use swarm_robotics_parachain.Host.Xcm.{HostJunction, plurality, parachain, account_id32}

abbrev pub Place : Type 0
Place = ℕ × List HostJunction

pub data HostCaller : Type 0 where
  root : HostCaller
  account : ℕ → HostCaller
  relay : HostCaller
  sibling : ℕ → HostCaller
  located : ℕ × List HostJunction → HostCaller

abbrev pub signer : HostCaller → Option ℕ
signer root = none
signer (account a) = some a
signer relay = none
signer (sibling id) = none
signer (located l) = none

pub signer_sound : (o : HostCaller) (who : ℕ) → signer o ≡ some who → o ≡ account who
signer_sound o who h = ground arith

abbrev pub located_origins : Origins
located_origins = record {
  RuntimeOrigin = HostCaller;
  AccountId = ℕ;
  signed = account;
  ensure_signed = signer;
  ensure_signed-signed = λ who. refl;
  ensure_signed_sound = signer_sound;
}

pub data Shape : Type 0 where
  at_parent : Shape
  at_sibling : ℕ → Shape
  at_account : Option (Unit {0}) → ℕ → Shape
  at_other : Shape

abbrev pub shape : ℕ × List HostJunction → Shape
shape (suc zero, []) = at_parent
shape (suc zero, parachain id ∷ []) = at_sibling id
shape (zero, account_id32 m a ∷ []) = at_account m a
shape _ = at_other

abbrev pub IsAt : Place → Shape → Type 0
IsAt u at_parent = u ≡ (1, [])
IsAt u (at_sibling id) = u ≡ (1, parachain id ∷ [])
IsAt u (at_account m a) = u ≡ (0, account_id32 m a ∷ [])
IsAt u at_other = Unit {0}

IsAt-shape : (u : Place) → IsAt u (shape u)
IsAt-shape (zero, []) = tt
IsAt-shape (zero, plurality id part ∷ []) = tt
IsAt-shape (zero, parachain id ∷ []) = tt
IsAt-shape (zero, account_id32 m a ∷ []) = refl
IsAt-shape (zero, plurality id part ∷ j ∷ js) = tt
IsAt-shape (zero, parachain id ∷ j ∷ js) = tt
IsAt-shape (zero, account_id32 m a ∷ j ∷ js) = tt
IsAt-shape (suc zero, []) = refl
IsAt-shape (suc zero, plurality id part ∷ []) = tt
IsAt-shape (suc zero, parachain id ∷ []) = refl
IsAt-shape (suc zero, account_id32 m a ∷ []) = tt
IsAt-shape (suc zero, plurality id part ∷ j ∷ js) = tt
IsAt-shape (suc zero, parachain id ∷ j ∷ js) = tt
IsAt-shape (suc zero, account_id32 m a ∷ j ∷ js) = tt
IsAt-shape (suc (suc n), []) = tt
IsAt-shape (suc (suc n), j ∷ js) = tt

-- A location that is at a shape has it.
pub IsAt-shape_eq : (u : Place) (s : Shape) → shape u ≡ s → IsAt u s
IsAt-shape_eq u s e = subst (IsAt u) e (IsAt-shape u)

abbrev pub parent_of : {A : Type 0} → A → Shape → Option A
parent_of v at_parent = some v
parent_of v (at_sibling id) = none
parent_of v (at_account m a) = none
parent_of v at_other = none

abbrev pub sibling_of : {A : Type 0} → (ℕ → A) → Shape → Option A
sibling_of f at_parent = none
sibling_of f (at_sibling id) = some (f id)
sibling_of f (at_account m a) = none
sibling_of f at_other = none

module _ {A : Type 0} (u : Place) where
  pub parent_of_iff :
      (v : A) (s : Shape) (a : A)
      → shape u ≡ s
      → (parent_of v s ≡ some a) ↔ ((u ≡ (1, [])) × (a ≡ v))
  parent_of_iff v at_parent a p = (λ e. (IsAt-shape_eq u at_parent p, cc e), λ h. cc h.1)
  parent_of_iff v (at_sibling id) a p = ground arith
  parent_of_iff v (at_account m b) a p = ground arith
  parent_of_iff v at_other a p = ground arith

  pub sibling_of_iff :
      (f : ℕ → A) (s : Shape) (a : A)
      → shape u ≡ s
      → (sibling_of f s ≡ some a) ↔ ((id : ℕ) × ((u ≡ (1, parachain id ∷ [])) × (a ≡ f id)))
  sibling_of_iff f (at_sibling id) a p =
      (λ e. (id, (IsAt-shape_eq u (at_sibling id) p, cc e)), λ (i, (e, h)). cc (p, ap shape e, h))
  sibling_of_iff f at_parent a p = (λ e. absurd (cc e), λ (i, (e, h)). absurd (cc (p, ap shape e)))
  sibling_of_iff f (at_account m b) a p =
      (λ e. absurd (cc e), λ (i, (e, h)). absurd (cc (p, ap shape e)))
  sibling_of_iff f at_other a p = (λ e. absurd (cc e), λ (i, (e, h)). absurd (cc (p, ap shape e)))

-- No network, or the given one; there is one network.
abbrev pub fits : Option (Unit {0}) → Option (Unit {0}) → Bool
fits none n = true
fits (some a) none = false
fits (some a) (some b) = true

fits_iff : (m n : Option (Unit {0})) → (fits m n ≡ true) ↔ ((m ≡ none) ⊎ (m ≡ n))
fits_iff none n = (λ e. inl refl, λ h. refl)
fits_iff (some a) none =
    (λ e. absurd (cc e), λ h. elim h [ inl e ↦ absurd (cc e) | inr e ↦ absurd (cc e) ])
fits_iff (some a) (some b) = (λ e. inr refl, λ h. refl)

abbrev pub some_if : {A : Type 0} → Bool → A → Option A
some_if true a = some a
some_if false a = none

some_if_iff : {A : Type 0} (b : Bool) (a c : A) → (some_if b a ≡ some c) ↔ ((b ≡ true) × (c ≡ a))
some_if_iff true a c = (λ e. (refl, cc e), λ h. cc h.1)
some_if_iff false a c = (λ e. absurd (cc e), λ h. absurd (cc h.0))

abbrev pub account_of : Option (Unit {0}) → Shape → Option ℕ
account_of n at_parent = none
account_of n (at_sibling id) = none
account_of n (at_account m a) = some_if (fits m n) a
account_of n at_other = none

pub account_of_iff :
    (n : Option (Unit {0})) (u : Place) (s : Shape) (who : ℕ)
    → shape u ≡ s
    → (account_of n s ≡ some who)
      ↔ ((m : Option (Unit {0})) × ((u ≡ (0, account_id32 m who ∷ [])) × ((m ≡ none) ⊎ (m ≡ n))))
account_of_iff n u (at_account m a) who p = (
  λ e.
      let (f, h) = (some_if_iff (fits m n) a who).0 e in
      (m, (IsAt-shape_eq u _ p ∙ ap (λ w. (0, account_id32 m w ∷ [])) (sym h), (fits_iff m n).0 f)),
  λ (m', (e, f)).
      let h : at_account m a ≡ at_account m' who = sym p ∙ ap shape e in
      (some_if_iff (fits m n) a who).1
        ((fits_iff m n).1 (subst (λ k. (k ≡ none) ⊎ (k ≡ n)) (cc h) f), cc h),
)
account_of_iff n u at_parent who p =
    (λ e. absurd (cc e), λ (m, (e, h)). absurd (cc (p, ap shape e)))
account_of_iff n u (at_sibling id) who p =
    (λ e. absurd (cc e), λ (m, (e, h)). absurd (cc (p, ap shape e)))
account_of_iff n u at_other who p = (λ e. absurd (cc e), λ (m, (e, h)). absurd (cc (p, ap shape e)))

-- An origin for one kind only.
abbrev pub for_native : {A : Type 0} → OriginKind → Option A → Option A
for_native native o = o
for_native sovereign_account o = none
for_native superuser o = none
for_native xcm o = none

abbrev pub for_sovereign : {A : Type 0} → OriginKind → Option A → Option A
for_sovereign native o = none
for_sovereign sovereign_account o = o
for_sovereign superuser o = none
for_sovereign xcm o = none

abbrev pub for_xcm : {A : Type 0} → OriginKind → Option A → Option A
for_xcm native o = none
for_xcm sovereign_account o = none
for_xcm superuser o = none
for_xcm xcm o = o

module _ {A : Type 0} (o : Option A) (P : A → Type 0) (i : (a : A) → (o ≡ some a) ↔ P a) where
  pub for_native_iff : (k : OriginKind) (a : A) → (for_native k o ≡ some a) ↔ ((k ≡ native) × P a)
  for_native_iff native a = (λ e. (refl, (i a).0 e), λ h. (i a).1 h.1)
  for_native_iff sovereign_account a = (λ e. absurd (cc e), λ h. absurd (cc h.0))
  for_native_iff superuser a = (λ e. absurd (cc e), λ h. absurd (cc h.0))
  for_native_iff xcm a = (λ e. absurd (cc e), λ h. absurd (cc h.0))

  pub for_sovereign_iff :
      (k : OriginKind) (a : A) → (for_sovereign k o ≡ some a) ↔ ((k ≡ sovereign_account) × P a)
  for_sovereign_iff native a = (λ e. absurd (cc e), λ h. absurd (cc h.0))
  for_sovereign_iff sovereign_account a = (λ e. (refl, (i a).0 e), λ h. (i a).1 h.1)
  for_sovereign_iff superuser a = (λ e. absurd (cc e), λ h. absurd (cc h.0))
  for_sovereign_iff xcm a = (λ e. absurd (cc e), λ h. absurd (cc h.0))

  pub for_xcm_iff : (k : OriginKind) (a : A) → (for_xcm k o ≡ some a) ↔ ((k ≡ xcm) × P a)
  for_xcm_iff native a = (λ e. absurd (cc e), λ h. absurd (cc h.0))
  for_xcm_iff sovereign_account a = (λ e. absurd (cc e), λ h. absurd (cc h.0))
  for_xcm_iff superuser a = (λ e. absurd (cc e), λ h. absurd (cc h.0))
  for_xcm_iff xcm a = (λ e. (refl, (i a).0 e), λ h. (i a).1 h.1)

abbrev pub map_option : {A C : Type 0} → (A → C) → Option A → Option C
map_option f none = none
map_option f (some a) = some (f a)

pub map_option_iff :
    {A C : Type 0} (f : A → C) (o : Option A) (c : C)
    → (map_option f o ≡ some c) ↔ ((a : A) × ((o ≡ some a) × (c ≡ f a)))
map_option_iff f none c = (λ e. absurd (cc e), λ (a, (e, h)). absurd (cc e))
map_option_iff f (some a) c = (λ e. (a, (refl, cc e)), λ (b, (e, h)). cc (e, h))

-- The accounts and origins of a place.
abbrev pub native_account : Option (Unit {0}) → Place → Option HostCaller
native_account n u = map_option account (account_of n (shape u))

pub native_account_iff :
    (n : Option (Unit {0})) (u : Place) (o : HostCaller)
    → (native_account n u ≡ some o) ↔ (
        (who : ℕ) × (m : Option (Unit {0})) × ((u ≡ (0, account_id32 m who ∷ []))
          × ((m ≡ none) ⊎ (m ≡ n))
          × (o ≡ account who)))
native_account_iff n u o =
    let (there, back) = map_option_iff account (account_of n (shape u)) o in
    (
      λ e.
          let (who, (f, h)) = there e in
          let (m, (p, q)) = (account_of_iff n u (shape u) who refl).0 f in (who, m, (p, q, h)),
      λ (who, m, (p, q, h)). back (who, ((account_of_iff n u (shape u) who refl).1 (m, (p, q)), h)),
    )

abbrev pub is_root : HostCaller → Bool
is_root root = true
is_root (account a) = false
is_root relay = false
is_root (sibling id) = false
is_root (located l) = false

pub is_root_iff : (o : HostCaller) → (is_root o ≡ true) ↔ (o ≡ root)
is_root_iff o = ground arith

-- A location of an origin, or that of root.
abbrev pub or_here : HostCaller → Option Place → Option Place
or_here o (some l) = some l
or_here root none = some (0, [])
or_here (account a) none = none
or_here relay none = none
or_here (sibling id) none = none
or_here (located l) none = none

pub or_here_iff :
    (o : HostCaller) (p : Option Place) (l : Place)
    → (or_here o p ≡ some l) ↔ ((p ≡ some l) ⊎ ((p ≡ none) × ((o ≡ root) × (l ≡ (0, [])))))
or_here_iff o (some k) l = (λ e. inl e, λ h. elim h [ inl e ↦ e | inr (n, r) ↦ absurd (cc n) ])
or_here_iff root none l =
    (λ e. inr (refl, (refl, cc e)), λ h. elim h [ inl e ↦ absurd (cc e) | inr (n, (r, k)) ↦ cc k ])
or_here_iff (account a) none l =
    (λ e. absurd (cc e), λ h. elim h [ inl e ↦ absurd (cc e) | inr (n, (r, k)) ↦ absurd (cc r) ])
or_here_iff relay none l =
    (λ e. absurd (cc e), λ h. elim h [ inl e ↦ absurd (cc e) | inr (n, (r, k)) ↦ absurd (cc r) ])
or_here_iff (sibling id) none l =
    (λ e. absurd (cc e), λ h. elim h [ inl e ↦ absurd (cc e) | inr (n, (r, k)) ↦ absurd (cc r) ])
or_here_iff (located u) none l =
    (λ e. absurd (cc e), λ h. elim h [ inl e ↦ absurd (cc e) | inr (n, (r, k)) ↦ absurd (cc r) ])

abbrev pub is_located : (Place → Bool) → HostCaller → Bool
is_located f root = false
is_located f (account a) = false
is_located f relay = false
is_located f (sibling id) = false
is_located f (located l) = f l

pub is_located_iff :
    (f : Place → Bool) (o : HostCaller)
    → (is_located f o ≡ true) ↔ ((l : Place) × ((o ≡ located l) × (f l ≡ true)))
is_located_iff f root = (λ e. absurd (cc e), λ (l, (e, h)). absurd (cc e))
is_located_iff f (account a) = (λ e. absurd (cc e), λ (l, (e, h)). absurd (cc e))
is_located_iff f relay = (λ e. absurd (cc e), λ (l, (e, h)). absurd (cc e))
is_located_iff f (sibling id) = (λ e. absurd (cc e), λ (l, (e, h)). absurd (cc e))
is_located_iff f (located k) = (λ e. (k, (refl, e)), λ (l, (e, h)). cc (e, h))

HostJunction-discrete : Discrete HostJunction
HostJunction-discrete = hlevel ℕ_discrete

pub Place-discrete : Discrete (ℕ × List HostJunction)
Place-discrete = hlevel (ℕ_discrete, HostJunction-discrete)

abbrev pub decided : {A : Type 0} → Dec A → Bool
decided (yes a) = true
decided (no n) = false

pub decided_iff : {A : Type 0} (d : Dec A) → (decided d ≡ true) ↔ A
decided_iff (yes a) = (λ e. a, λ h. refl)
decided_iff (no n) = (λ e. absurd (cc e), λ h. absurd (n h))
