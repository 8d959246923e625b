-- ===== src/Runtime/Xcm/Assets/Balances.antt =====
-- When an asset of a message is taken from a balance or added to one.
use swarm_robotics_parachain.Common.{
  ℕ, ◌≡◌, refl, sym, subst, ◌↔◌, ◌⊎◌, inl, inr, Option, none, some,
}
use swarm_robotics_parachain.Frame.Origin.{Origins}
use swarm_robotics_parachain.Frame.Transactor.{TransactError, transacted, moved, Transactors}
use swarm_robotics_parachain.Frame.Xcm.{XcmCrates}
use swarm_robotics_parachain.Frame.XcmOrigin.{XcmOrigins}
use swarm_robotics_parachain.Runtime.Xcm.Assets.{deposit_asset, withdraw_asset}
use swarm_robotics_parachain.Runtime.Xcm.Origins.{relay_location, location_to_account_id}
use swarm_robotics_parachain.Runtime.Xcm.Origins.Accounts.{Owns, location_to_account_id_iff}

module _ (X : XcmCrates) (O : Origins) (G : XcmOrigins X O) (S : Type 0)
    (T : Transactors X O S) where
  open X use {Location}
  open O use {AccountId}
  open T use {Asset}

  -- An amount of the relay chain's token.
  abbrev pub IsRelayToken : ℕ → Asset → Type 0
  IsRelayToken n a = (T.asset_location a ≡ relay_location X O G) × (T.fungible_amount a ≡ some n)

  -- The result of an operation is a success, with a state: the asset is an amount of the relay
  -- chain's token, the location has an account here, and the balances move to the state.
  abbrev pub Moves : (AccountId → ℕ → S → Option S) → Asset → Location → S → S → Type 0
  Moves f a l s s' =
      (n : ℕ) × (who : AccountId) × (IsRelayToken n a × Owns X O G l who × (f who n s ≡ some s'))

  -- Success with a state, and a state that is unchanged otherwise.
  abbrev pub Ends : (TransactError ⊎ (Unit {0})) × S → S → S → Type 0 → Type 0
  Ends r s s' P = ((r ≡ (inr tt, s')) ↔ P) × ((r.0 ≡ inr tt) ⊎ (r.1 ≡ s))

  transacted-Ends : (o : Option S) (s s' : S) → Ends (transacted X O S o s) s s' (o ≡ some s')
  transacted-Ends none s s' = ((λ e. absurd (cc e), λ e. absurd (cc e)), inr refl)
  transacted-Ends (some u) s s' = ((λ e. cc e, λ e. cc e), inl refl)

  moved-Ends :
      (m : Option ℕ) (c : Option AccountId) (f : AccountId → ℕ → S → Option S) (s s' : S)
      → Ends
          (moved X O S m c f s)
          s
          s'
          ((n : ℕ) × (who : AccountId) × ((m ≡ some n) × (c ≡ some who) × (f who n s ≡ some s')))
  moved-Ends none c f s s' = ((λ e. absurd (cc e), λ (n, who, (e, h, q)). absurd (cc e)), inr refl)
  moved-Ends (some n) none f s s' =
      ((λ e. absurd (cc e), λ (k, who, (e, h, q)). absurd (cc h)), inr refl)
  moved-Ends (some n) (some who) f s s' =
      let (both, rest) = transacted-Ends (f who n s) s s' in
      ((λ e. (n, who, (refl, refl, both.0 e)), λ (k, w, (e, h, q)). both.1 (cc (e, h, q))), rest)

  -- The adapter at the relay chain's token and the accounts of locations.
  transactor-Ends :
      (f : AccountId → ℕ → S → Option S) (a : Asset) (l : Location) (s s' : S)
      → Ends
          (moved X O S
            (T.is_concrete (relay_location X O G) a)
            (location_to_account_id X O G l)
            f
            s)
          s
          s'
          (Moves f a l s s')
  transactor-Ends f a l s s' =
      let (both, rest) = moved-Ends _ _ f s s' in
      (
        (
          λ e.
              let (n, who, (m, c, h)) = both.0 e in
              (
                n,
                who,
                ((T.is_concrete_iff _ a n).0 m, (location_to_account_id_iff X O G l who).0 c, h),
              ),
          λ (n, who, (m, c, h)). both.1 (
            n,
            who,
            ((T.is_concrete_iff _ a n).1 m, (location_to_account_id_iff X O G l who).1 c, h),
          ),
        ),
        rest,
      )

  -- An asset is deposited at a location, or withdrawn from it, if and only if it is an amount of the
  -- relay chain's token, the location has an account on this chain, and the balances mint the amount
  -- into this account, or burn it from it, with the same state as the end; otherwise nothing
  -- changes.
  pub local_asset_transactor-Moves :
      (a : Asset) (l : Location) (s s' : S)
      → Ends (deposit_asset X O G S T a l s) s s' (Moves T.mint_into a l s s')
        × Ends (withdraw_asset X O G S T a l s) s s' (Moves T.burn_from a l s s')
  unfolding deposit_asset withdraw_asset
  local_asset_transactor-Moves a l s s' = (
    subst (λ r. Ends r s s' (Moves T.mint_into a l s s')) (sym (T.deposit_by_lem _ _ a l s))
        (transactor-Ends T.mint_into a l s s'),
    subst (λ r. Ends r s s' (Moves T.burn_from a l s s')) (sym (T.withdraw_by_lem _ _ a l s))
        (transactor-Ends T.burn_from a l s s'),
  )
