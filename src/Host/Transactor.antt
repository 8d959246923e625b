-- ===== src/Host/Transactor.antt =====
-- Balances as a function, in an instance of `Transactors`: an asset is a location and perhaps an
-- amount.
use swarm_robotics_parachain.Common.{
  ℕ, ◌+◌, ◌-◌, ◌≡◌, ◌↔◌, refl, Option, none, some, ltb, ℕ_discrete, if◌then◌else◌,
}
use swarm_robotics_parachain.Frame.Transactor.{moved, Transactors}
use swarm_robotics_parachain.Host.Places.{Place, located_origins, Place-discrete}
use swarm_robotics_parachain.Host.Xcm.{host_xcm}

abbrev pub amount_if : {A : Type 0} → Dec A → Option ℕ → Option ℕ
amount_if (yes e) n = n
amount_if (no ne) n = none

pub amount_if_iff :
    {A : Type 0} (d : Dec A) (p : Option ℕ) (n : ℕ) → (amount_if d p ≡ some n) ↔ (A × (p ≡ some n))
amount_if_iff (yes e) p n = (λ h. (e, h), λ h. h.1)
amount_if_iff (no ne) p n = (λ h. absurd (cc h), λ h. absurd (ne h.0))

abbrev pub set_balance : ℕ → ℕ → (ℕ → ℕ) → ℕ → ℕ
set_balance who n s q = elim (ℕ_discrete who q) [ yes e ↦ n | no ne ↦ s q ]

abbrev pub burn : ℕ → ℕ → (ℕ → ℕ) → Option (ℕ → ℕ)
burn who n s = if ltb (s who) n then none else some (set_balance who (s who - n) s)

abbrev pub host_transactors : Transactors host_xcm located_origins (ℕ → ℕ)
host_transactors = record {
  Asset = Place × Option ℕ;
  asset_location = λ a. a.0;
  fungible_amount = λ a. a.1;
  is_concrete = λ l a. amount_if (Place-discrete (a.0) l) (a.1);
  mint_into = λ who n s. some (set_balance who (s who + n) s);
  burn_from = burn;
  deposit_by = λ f g a l s.
      moved host_xcm located_origins (ℕ → ℕ) (f a) (g l)
        (λ who n s. some (set_balance who (s who + n) s)) s;
  withdraw_by = λ f g a l s. moved host_xcm located_origins (ℕ → ℕ) (f a) (g l) burn s;
  is_concrete_iff = λ l a n. amount_if_iff (Place-discrete (a.0) l) (a.1) n;
  deposit_by_lem = λ f g a l s. refl;
  withdraw_by_lem = λ f g a l s. refl;
}
