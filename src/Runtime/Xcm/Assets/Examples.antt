-- ===== src/Runtime/Xcm/Assets/Examples.antt =====
-- An amount of the relay chain's token at a sibling chain.
use swarm_robotics_parachain.Common.{ℕ, ◌≡◌, refl, inl, inr, some, [], ◌∷◌}
use swarm_robotics_parachain.Host.Places.{located_origins}
use swarm_robotics_parachain.Host.Transactor.{set_balance, host_transactors}
use swarm_robotics_parachain.Host.Xcm.{parachain, host_xcm}
use swarm_robotics_parachain.Host.XcmOrigin.{host_xcm_origins}
use swarm_robotics_parachain.Runtime.Xcm.Assets.{deposit_asset, withdraw_asset}
use swarm_robotics_parachain.Runtime.Xcm.Assets.Balances.{Moves, Ends, local_asset_transactor-Moves}

abbrev start : ℕ → ℕ
start who = 50

local_asset_transactor-Moves_example :
    Ends host_xcm located_origins host_xcm_origins
      (ℕ → ℕ)
      host_transactors
      (deposit_asset host_xcm located_origins host_xcm_origins
        (ℕ → ℕ)
        host_transactors
        ((1, []), some 7)
        (1, parachain 2000 ∷ [])
        start)
      start
      (set_balance 3000 57 start)
      (Moves host_xcm located_origins host_xcm_origins
        (ℕ → ℕ)
        host_transactors
        (host_transactors.mint_into)
        ((1, []), some 7)
        (1, parachain 2000 ∷ [])
        start
        (set_balance 3000 57 start))
    × Ends host_xcm located_origins host_xcm_origins
        (ℕ → ℕ)
        host_transactors
        (withdraw_asset host_xcm located_origins host_xcm_origins
          (ℕ → ℕ)
          host_transactors
          ((1, []), some 7)
          (1, parachain 2000 ∷ [])
          start)
        start
        (set_balance 3000 57 start)
        (Moves host_xcm located_origins host_xcm_origins
          (ℕ → ℕ)
          host_transactors
          (host_transactors.burn_from)
          ((1, []), some 7)
          (1, parachain 2000 ∷ [])
          start
          (set_balance 3000 57 start))
local_asset_transactor-Moves_example =
    local_asset_transactor-Moves host_xcm located_origins host_xcm_origins (ℕ → ℕ) host_transactors
      ((1, []), some 7) (1, parachain 2000 ∷ []) start (set_balance 3000 57 start)

is_deposited :
    deposit_asset host_xcm located_origins host_xcm_origins
      (ℕ → ℕ)
      host_transactors
      ((1, []), some 7)
      (1, parachain 2000 ∷ [])
      start
    ≡ (inr tt, set_balance 3000 57 start)
is_deposited =
    (local_asset_transactor-Moves host_xcm located_origins host_xcm_origins (ℕ → ℕ) host_transactors
        ((1, []), some 7) (1, parachain 2000 ∷ []) start (set_balance 3000 57 start)).0.0.1
      (7, 3000, ((refl, refl), inr (inl (2000, (refl, refl))), refl))
