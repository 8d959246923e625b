-- ===== src/Template/Types.antt =====
-- pallets/template/src/lib.rs: the storage, the events and the errors of the template pallet.
use swarm_robotics_parachain.Common.{ℕ, ◌≡◌, Option, some}
use swarm_robotics_parachain.Frame.Origin.{Origins}
use swarm_robotics_parachain.Frame.System.{System}
use swarm_robotics_parachain.Frame.BlockNumbers.{BlockNumbers}

-- What the storage holds: one block number.
pub record CompositeStruct (N : BlockNumbers) : Type 0 where
  pub block_number : N.BlockNumber

pub data Error : Type 0 where
  none_value storage_overflow : Error

pub data Event (N : BlockNumbers) (O : Origins) : Type 0 where
  something_stored : N.BlockNumber → O.AccountId → Event N O

-- What the pallet takes from FRAME, and the runtime's event type.
pub record Deps : Type 1 where
  pub numbers : BlockNumbers
  pub origins : Origins
  pub RuntimeEvent : Type 0
  pub from_event : Event numbers origins → RuntimeEvent
  pub as_event : RuntimeEvent → Option (Event numbers origins)
  pub as_event-from_event : (e : Event numbers origins) → as_event (from_event e) ≡ some e
  pub system : System RuntimeEvent

-- `Something`, an `OptionQuery`, beside the part of frame_system's storage that the pallet writes.
pub record State (F : Deps) : Type 0 where
  pub something : Option (CompositeStruct F.numbers)
  pub system : F.system.State

-- The pallet's `Call`.
pub data Call : Type 0 where
  does_something : ℕ → Call
  causes_error : Call
