-- ===== src/Runtime/Pallets.antt =====
-- runtime/src/lib.rs, `mod runtime`: the pallets of the runtime and the indices that their calls,
-- events and errors are encoded with.
use Prim.Native.String.{String}
use swarm_robotics_parachain.Common.{
  Bool, true, ◌&&◌, ltb, ℕ, ◌<◌, ◌≡◌, refl, List, [], ◌∷◌, map, arith,
}

-- The pallets that `Runtime` is composed of.
pub data Pallet : Type 0 where
  system : Pallet
  parachain_system : Pallet
  timestamp : Pallet
  parachain_info : Pallet
  weight_reclaim : Pallet
  balances : Pallet
  transaction_payment : Pallet
  sudo : Pallet
  authorship : Pallet
  collator_selection : Pallet
  session : Pallet
  aura : Pallet
  aura_ext : Pallet
  xcmp_queue : Pallet
  polkadot_xcm : Pallet
  cumulus_xcm : Pallet
  message_queue : Pallet
  template_pallet : Pallet
  swarm_robot_pallet : Pallet

-- `#[runtime::pallet_index(..)]`
unfoldable pub pallet_index : Pallet → ℕ
pallet_index system = 0
pallet_index parachain_system = 1
pallet_index timestamp = 2
pallet_index parachain_info = 3
pallet_index weight_reclaim = 4
pallet_index balances = 10
pallet_index transaction_payment = 11
pallet_index sudo = 15
pallet_index authorship = 20
pallet_index collator_selection = 21
pallet_index session = 22
pallet_index aura = 23
pallet_index aura_ext = 24
pallet_index xcmp_queue = 30
pallet_index polkadot_xcm = 31
pallet_index cumulus_xcm = 32
pallet_index message_queue = 33
pallet_index template_pallet = 50
pallet_index swarm_robot_pallet = 51

-- The declarations in their order, which is that of `AllPalletsWithSystem`.
abbrev pub all_pallets_with_system : List Pallet
all_pallets_with_system =
    system ∷ parachain_system ∷ timestamp ∷ parachain_info ∷ weight_reclaim ∷ balances
    ∷ transaction_payment ∷ sudo ∷ authorship ∷ collator_selection ∷ session ∷ aura ∷ aura_ext
    ∷ xcmp_queue ∷ polkadot_xcm ∷ cumulus_xcm ∷ message_queue ∷ template_pallet ∷ swarm_robot_pallet
    ∷ []

-- runtime/src/benchmarks.rs: the pallets with benchmarks, by the names of their crates. Those of the
-- system and of the session have a pallet of benchmarks of their own.
abbrev pub benchmarks : List (String × Pallet)
benchmarks =
    ("frame_system", system)
    ∷ ("pallet_balances", balances)
    ∷ ("pallet_session", session)
    ∷ ("pallet_timestamp", timestamp)
    ∷ ("pallet_message_queue", message_queue)
    ∷ ("pallet_sudo", sudo)
    ∷ ("pallet_collator_selection", collator_selection)
    ∷ ("cumulus_pallet_parachain_system", parachain_system)
    ∷ ("cumulus_pallet_xcmp_queue", xcmp_queue)
    ∷ ("cumulus_pallet_weight_reclaim", weight_reclaim)
    ∷ []

-- Every number of a list is below the next one.
abbrev pub increases : List ℕ → Bool
increases [] = true
increases (n ∷ []) = true
increases (n ∷ m ∷ ns) = ltb n m && increases (m ∷ ns)

index_below : (p : Pallet) → pallet_index p < 256
unfolding pallet_index
index_below system = omega arith
index_below parachain_system = omega arith
index_below timestamp = omega arith
index_below parachain_info = omega arith
index_below weight_reclaim = omega arith
index_below balances = omega arith
index_below transaction_payment = omega arith
index_below sudo = omega arith
index_below authorship = omega arith
index_below collator_selection = omega arith
index_below session = omega arith
index_below aura = omega arith
index_below aura_ext = omega arith
index_below xcmp_queue = omega arith
index_below polkadot_xcm = omega arith
index_below cumulus_xcm = omega arith
index_below message_queue = omega arith
index_below template_pallet = omega arith
index_below swarm_robot_pallet = omega arith

-- The pallets are declared by increasing index, each of a byte.
pub increases-pallet_index :
    (increases (map pallet_index all_pallets_with_system) ≡ true)
    × ((p : Pallet) → pallet_index p < 256)
unfolding pallet_index
increases-pallet_index = (refl, index_below)
