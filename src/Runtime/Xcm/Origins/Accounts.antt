-- ===== src/Runtime/Xcm/Origins/Accounts.antt =====
-- Which locations have an account on this chain.
use swarm_robotics_parachain.Common.{
  ℕ, ◌≡◌, refl, sym, ◌∙◌, ap, arith, ◌↔◌, ◌⊎◌, inl, inr, Option, none, some, List, [], ◌∷◌, or_else,
}
use swarm_robotics_parachain.Frame.Origin.{Origins}
use swarm_robotics_parachain.Frame.Xcm.{XcmCrates}
use swarm_robotics_parachain.Frame.XcmOrigin.{XcmOrigins}
use swarm_robotics_parachain.Runtime.Xcm.Origins.{
  relay_network, location_to_account_id, local_origin_to_location,
}

-- The first of two partial results, where no value fits both.
pub or_else_iff :
    {A : Type 0} (o p : Option A) (P Q : A → Type 0)
    → ((a : A) → (o ≡ some a) ↔ P a)
    → ((a : A) → (p ≡ some a) ↔ Q a)
    → ((a b : A) → P a → ¬ Q b)
    → (a : A) → (or_else o p ≡ some a) ↔ (P a ⊎ Q a)
or_else_iff none p P Q f g apart a =
    (λ e. inr ((g a).0 e), λ h. elim h [ inl x ↦ absurd (cc ((f a).1 x)) | inr y ↦ (g a).1 y ])
or_else_iff (some b) p P Q f g apart a = (
  λ e. inl ((f a).0 e),
  λ h. elim h [ inl x ↦ (f a).1 x | inr y ↦ absurd (apart b a ((f b).0 refl) y) ],
)

module _ (X : XcmCrates) (O : Origins) (G : XcmOrigins X O) where
  open X use {Location, Junction, unpack}
  open O use {AccountId, signed}

  abbrev pub IsParent : Location → Type 0
  IsParent l = unpack l ≡ (1, [])

  abbrev pub IsSibling : ℕ → Location → Type 0
  IsSibling id l = unpack l ≡ (1, G.parachain_junction id ∷ [])

  -- An account of this chain, with no network named.
  abbrev pub IsAccount : AccountId → Location → Type 0
  IsAccount who l = unpack l ≡ (0, G.account_id32 none who ∷ [])

  -- The account of a location: the preset one of the relay chain, the one derived from the id of a
  -- sibling chain, or the account that the location names.
  abbrev pub Owns : Location → AccountId → Type 0
  Owns l who =
      (IsParent l × (who ≡ G.parent_account))
      ⊎ (((id : ℕ) × (IsSibling id l × (who ≡ G.sibling_account id))) ⊎ IsAccount who l)

  pub not_parent : {l : Location} {j : Junction} {n : ℕ} → IsParent l → ¬ (unpack l ≡ (n, j ∷ []))
  not_parent p e = absurd (cc (p, e))

  pub not_sibling :
      {l : Location} {id : ℕ} {js : List Junction} → IsSibling id l → ¬ (unpack l ≡ (0, js))
  not_sibling p e = absurd (omega (arith, ap (λ u. u.0) (sym p ∙ e)))

  pub no_network :
      {l : Location} {who : AccountId}
      → ((m : Option G.NetworkId) × ((unpack l ≡ (0, G.account_id32 m who ∷ []))
            × ((m ≡ none) ⊎ (m ≡ relay_network X O G))))
      → IsAccount who l
  no_network {who} (m, (e, inl h)) = e ∙ ap (λ n. (0, G.account_id32 n who ∷ [])) h
  no_network {who} (m, (e, inr h)) = e ∙ ap (λ n. (0, G.account_id32 n who ∷ [])) h

  account_id32_aliases-IsAccount :
      (l : Location) (who : AccountId)
      → (G.account_id32_aliases (relay_network X O G) l ≡ some who) ↔ IsAccount who l
  account_id32_aliases-IsAccount l who =
      let (there, back) = G.account_id32_aliases_iff none l who in
      (λ e. no_network (there e), λ e. back (none, (e, inl refl)))

  -- A location has an account on this chain if and only if it is the relay chain, a sibling chain
  -- or an account of this chain with no network named; and the account is the one of that case.
  pub location_to_account_id_iff :
      (l : Location) (who : AccountId) → (location_to_account_id X O G l ≡ some who) ↔ Owns l who
  unfolding location_to_account_id
  location_to_account_id_iff l =
      or_else_iff _ _ _ _ (G.parent_is_preset_iff l)
        (or_else_iff _ _ _ _ (G.sibling_parachain_converts_via_iff l)
          (account_id32_aliases-IsAccount l) (λ a b h k. not_sibling h.1.0 k))
        (λ a b h k. elim k [ inl (id, s) ↦ not_parent h.0 s.0 | inr w ↦ not_parent h.0 w ])

  -- The location that stands for a signed origin of this chain has the signer's account.
  pub location_to_account_id-local_origin_to_location :
      (who : AccountId)
      → (l : Location) × ((local_origin_to_location X O G (signed who) ≡ some l)
          × (location_to_account_id X O G l ≡ some who))
  unfolding local_origin_to_location
  location_to_account_id-local_origin_to_location who =
      let (l, (e, u)) = G.signed_to_account_id32_lem (relay_network X O G) who in
      (l, (e, (location_to_account_id_iff l who).1 (inr (inr u))))
