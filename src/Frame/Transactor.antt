-- ===== src/Frame/Transactor.antt =====
-- `FungibleAdapter` of staging_xcm_builder: assets of messages as balances of accounts.
use swarm_robotics_parachain.Common.{ℕ, ◌≡◌, ◌↔◌, ◌⊎◌, inl, inr, Option, none, some}
use swarm_robotics_parachain.Frame.Origin.{Origins}
use swarm_robotics_parachain.Frame.Xcm.{XcmCrates}
use swarm_robotics_parachain.Frame.XcmOrigin.{LocationConverter}

-- The errors of the adapter.
pub data TransactError : Type 0 where
  asset_not_handled : TransactError
  account_id_conversion_failed : TransactError
  failed_to_transact_asset : TransactError

module _ (X : XcmCrates) (O : Origins) (S : Type 0) where
  open X use {Location}
  open O use {AccountId}

  -- An operation on an asset and a location.
  abbrev pub Transact : Type 0 → Type 0
  Transact Asset = Asset → Location → S → (TransactError ⊎ (Unit {0})) × S

  -- The end of an operation, by the balances.
  abbrev pub transacted : Option S → S → (TransactError ⊎ (Unit {0})) × S
  transacted none s = (inl failed_to_transact_asset, s)
  transacted (some s') s = (inr tt, s')

  -- What the adapter does with an amount, if there is one, and an account, if there is one.
  abbrev pub moved :
      Option ℕ
      → Option AccountId
      → (AccountId → ℕ → S → Option S)
      → S
      → (TransactError ⊎ (Unit {0})) × S
  moved none account f s = (inl asset_not_handled, s)
  moved (some n) none f s = (inl account_id_conversion_failed, s)
  moved (some n) (some who) f s = transacted (f who n s) s

  pub record Transactors : Type 1 where
    pub Asset : Type 0
    pub asset_location : Asset → Location
    -- `none` for an asset that is not fungible.
    pub fungible_amount : Asset → Option ℕ
    pub is_concrete : Location → Asset → Option ℕ
    -- `Balances`
    pub mint_into : AccountId → ℕ → S → Option S
    pub burn_from : AccountId → ℕ → S → Option S
    pub deposit_by : (Asset → Option ℕ) → LocationConverter X O → Transact Asset
    pub withdraw_by : (Asset → Option ℕ) → LocationConverter X O → Transact Asset
    pub is_concrete_iff :
        (l : Location) (a : Asset) (n : ℕ)
        → (is_concrete l a ≡ some n) ↔ ((asset_location a ≡ l) × (fungible_amount a ≡ some n))
    pub deposit_by_lem :
        (f : Asset → Option ℕ) (g : LocationConverter X O) (a : Asset) (l : Location) (s : S)
        → deposit_by f g a l s ≡ moved (f a) (g l) mint_into s
    pub withdraw_by_lem :
        (f : Asset → Option ℕ) (g : LocationConverter X O) (a : Asset) (l : Location) (s : S)
        → withdraw_by f g a l s ≡ moved (f a) (g l) burn_from s
