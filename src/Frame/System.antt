-- ===== src/Frame/System.antt =====
-- `frame_system::Pallet::deposit_event`: it adds an event to the record of the block, and omits it
-- in the genesis block.
use swarm_robotics_parachain.Common.{◌≡◌, List, [], ◌∷◌, ◌++◌, Bool, true, false}

pub record System (RuntimeEvent : Type 0) : Type 1 where
  pub State : Type 0
  pub is_genesis : State → Bool
  pub events : State → List RuntimeEvent
  pub deposit_event : State → RuntimeEvent → State
  pub is_genesis-deposit_event :
      (s : State) (e : RuntimeEvent) → is_genesis (deposit_event s e) ≡ is_genesis s
  pub events-deposit_event :
      (s : State) (e : RuntimeEvent)
      → is_genesis s ≡ false
      → events (deposit_event s e) ≡ events s ++ e ∷ []
  pub deposit_event_genesis :
      (s : State) (e : RuntimeEvent) → is_genesis s ≡ true → deposit_event s e ≡ s
