-- ===== src/Runtime/Xcm/Origins/Transact.antt =====
-- With which origin a `Transact` of another chain calls this one.
use swarm_robotics_parachain.Common.{
  ℕ, ◌≡◌, refl, sym, subst, ◌∙◌, ap, ◌↔◌, ◌⊎◌, inl, inr, Option, none, some, [], ◌∷◌,
}
use swarm_robotics_parachain.Frame.Origin.{Origins}
use swarm_robotics_parachain.Frame.Xcm.{XcmCrates}
use swarm_robotics_parachain.Frame.XcmOrigin.{
  OriginKind, native, sovereign_account, xcm, Caller, XcmOrigins,
}
use swarm_robotics_parachain.Runtime.Xcm.Origins.{
  transact_dispatch_origin, location_to_account_id, relay_network,
}
use swarm_robotics_parachain.Runtime.Xcm.Origins.Accounts.{
  or_else_iff, IsParent, IsSibling, IsAccount, Owns, not_parent, not_sibling,
  location_to_account_id_iff, no_network,
}

module _ (X : XcmCrates) (O : Origins) (G : XcmOrigins X O) where
  open X use {Location, unpack}
  open O use {RuntimeOrigin, AccountId, signed}

  -- The cases of a conversion: the account of a location, and natively the relay chain, a sibling
  -- chain and an account; or the location itself.
  abbrev pub AsAccount : Location → OriginKind → RuntimeOrigin → Type 0
  AsAccount l k o =
      (k ≡ sovereign_account)
      × ((who : AccountId) × ((location_to_account_id X O G l ≡ some who) × (o ≡ signed who)))

  abbrev pub AsRelay : Location → OriginKind → RuntimeOrigin → Type 0
  AsRelay l k o = (k ≡ native) × (IsParent X O G l × (o ≡ G.relay))

  abbrev pub AsSibling : Location → OriginKind → RuntimeOrigin → Type 0
  AsSibling l k o = (k ≡ native) × ((id : ℕ) × (IsSibling X O G id l × (o ≡ G.sibling_para id)))

  abbrev pub AsSigned : Location → OriginKind → RuntimeOrigin → Type 0
  AsSigned l k o =
      (k ≡ native)
      × ((who : AccountId) × (m : Option G.NetworkId) × ((unpack l ≡ (0, G.account_id32 m who ∷ []))
            × ((m ≡ none) ⊎ (m ≡ relay_network X O G))
            × (o ≡ signed who)))

  abbrev pub AsLocation : Location → OriginKind → RuntimeOrigin → Type 0
  AsLocation l k o = (k ≡ xcm) × (o ≡ G.xcm_origin l)

  abbrev pub Converts : Location → OriginKind → RuntimeOrigin → Type 0
  Converts l k o =
      AsAccount l k o ⊎ (AsRelay l k o ⊎ (AsSibling l k o ⊎ (AsSigned l k o ⊎ AsLocation l k o)))

  AsRelay-apart :
      {l : Location} {k : OriginKind} {o o' : RuntimeOrigin}
      → AsRelay l k o
      → ¬ (AsSibling l k o' ⊎ (AsSigned l k o' ⊎ AsLocation l k o'))
  AsRelay-apart (n, (p, e)) (inl (n', (id, (s, e')))) = not_parent X O G p s
  AsRelay-apart (n, (p, e)) (inr (inl (n', (who, m, (u, d, e'))))) = not_parent X O G p u
  AsRelay-apart (n, (p, e)) (inr (inr (k, e'))) = absurd (cc (n, k))

  AsSibling-apart :
      {l : Location} {k : OriginKind} {o o' : RuntimeOrigin}
      → AsSibling l k o
      → ¬ (AsSigned l k o' ⊎ AsLocation l k o')
  AsSibling-apart (n, (id, (s, e))) (inl (n', (who, m, (u, d, e')))) = not_sibling X O G s u
  AsSibling-apart (n, h) (inr (k, e')) = absurd (cc (n, k))

  AsAccount-apart :
      {l : Location} {k : OriginKind} {o o' : RuntimeOrigin}
      → AsAccount l k o
      → ¬ (AsRelay l k o' ⊎ (AsSibling l k o' ⊎ (AsSigned l k o' ⊎ AsLocation l k o')))
  AsAccount-apart (n, h) (inl (k, e)) = absurd (cc (n, k))
  AsAccount-apart (n, h) (inr (inl (k, e))) = absurd (cc (n, k))
  AsAccount-apart (n, h) (inr (inr (inl (k, e)))) = absurd (cc (n, k))
  AsAccount-apart (n, h) (inr (inr (inr (k, e)))) = absurd (cc (n, k))

  pub transact_dispatch_origin-Converts :
      (l : Location) (k : OriginKind) (o : RuntimeOrigin)
      → (transact_dispatch_origin X O G l k ≡ some o) ↔ Converts l k o
  unfolding transact_dispatch_origin
  transact_dispatch_origin-Converts l k =
      or_else_iff _ _ (AsAccount l k) _ (G.sovereign_signed_iff _ l k)
        (or_else_iff _ _ (AsRelay l k) _ (G.relay_chain_as_native_iff _ l k)
          (or_else_iff _ _ (AsSibling l k) _ (G.sibling_parachain_as_native_iff l k)
            (or_else_iff _ _ (AsSigned l k) (AsLocation l k)
              (G.signed_account_id32_as_native_iff none l k) (G.xcm_passthrough_iff l k)
              (λ a b h q. absurd (cc (h.0, q.0))))
            (λ a b h q. AsSibling-apart h q))
          (λ a b h q. AsRelay-apart h q))
        (λ a b h q. AsAccount-apart h q)

  -- Who signs for a location: its account, or natively the account that it names.
  abbrev pub SignsAs : Location → OriginKind → AccountId → Type 0
  SignsAs l k who =
      ((k ≡ sovereign_account) × Owns X O G l who) ⊎ ((k ≡ native) × IsAccount X O G who l)

  pub same_caller :
      {o o' : RuntimeOrigin} {c c' : Caller X O}
      → o ≡ o'
      → G.caller o ≡ c
      → G.caller o' ≡ c'
      → c ≡ c'
  same_caller e p q = sym p ∙ ap (G.caller) e ∙ q

  signed_inj : (who who' : AccountId) → signed who ≡ signed who' → who' ≡ who
  signed_inj who who' e = cc (same_caller e (G.caller-signed who) (G.caller-signed who'))

  pub Converts-SignsAs :
      (l : Location) (k : OriginKind) (who : AccountId)
      → Converts l k (signed who)
      → SignsAs l k who
  Converts-SignsAs l k who (inl (n, (w, (e, q)))) =
      inl
        (n, subst (Owns X O G l) (signed_inj who w q) ((location_to_account_id_iff X O G l w).0 e))
  Converts-SignsAs l k who (inr (inl (n, (p, q)))) =
      absurd (cc (same_caller q (G.caller-signed who) (G.caller-relay)))
  Converts-SignsAs l k who (inr (inr (inl (n, (id, (p, q)))))) =
      absurd (cc (same_caller q (G.caller-signed who) (G.caller-sibling_para id)))
  Converts-SignsAs l k who (inr (inr (inr (inl (n, (w, m, (u, d, q))))))) =
      inr (n, subst (λ v. IsAccount X O G v l) (signed_inj who w q) (no_network X O G (m, (u, d))))
  Converts-SignsAs l k who (inr (inr (inr (inr (n, q))))) =
      absurd (cc (same_caller q (G.caller-signed who) (G.caller-xcm_origin l)))

  SignsAs-Converts :
      (l : Location) (k : OriginKind) (who : AccountId)
      → SignsAs l k who
      → Converts l k (signed who)
  SignsAs-Converts l k who (inl (n, h)) =
      inl (n, (who, ((location_to_account_id_iff X O G l who).1 h, refl)))
  SignsAs-Converts l k who (inr (n, h)) =
      inr (inr (inr (inl (n, (who, none, (h, inl refl, refl))))))

  -- A `Transact` calls with a signed origin if and only if it asks for the account of a location
  -- that has one, or natively from an account with no network named; the signer is that account.
  pub transact_dispatch_origin-SignsAs :
      (l : Location) (k : OriginKind) (who : AccountId)
      → (transact_dispatch_origin X O G l k ≡ some (signed who)) ↔ SignsAs l k who
  transact_dispatch_origin-SignsAs l k who =
      let (there, back) = transact_dispatch_origin-Converts l k (signed who) in
      (λ e. Converts-SignsAs l k who (there e), λ h. back (SignsAs-Converts l k who h))
