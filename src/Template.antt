-- ===== src/Template.antt =====
-- pallets/template/src/lib.rs: the two dispatchable functions of the template pallet.
pub mod Types
pub mod Branch
pub mod Counter
pub mod Log
pub mod Weights
mod Examples
use swarm_robotics_parachain.Common.{ℕ, Option, none, some, List, [], ◌∷◌}
use swarm_robotics_parachain.Frame.Dispatch.{
  Dispatch, Result, bad_origin, module_error, ◌>>=◌, ◌>>◌, gets, modify, ok_or,
}
use Types.{
  CompositeStruct, Error, none_value, storage_overflow, Event, something_stored, Deps, State, Call,
  does_something, causes_error,
}

module _ (F : Deps) where
  open F use {numbers, origins, system, from_event}
  open origins use {RuntimeOrigin, AccountId, ensure_signed}

  deposit_event : Event numbers origins → Dispatch (State F) Error (Unit {0})
  deposit_event e = modify λ s. record s { system = system.deposit_event s.system (from_event e) }

  put_something : CompositeStruct numbers → Dispatch (State F) Error (Unit {0})
  put_something v = modify λ s. record s { something = some v }

  -- `bn` is a u32.
  unfoldable pub do_something : RuntimeOrigin → ℕ → Dispatch (State F) Error (Unit {0})
  unfolding put_something deposit_event
  do_something origin bn = do
    who ← ok_or (ensure_signed origin) bad_origin
    let block_number = numbers.u32_into bn
    put_something (record { block_number = block_number })
    deposit_event (something_stored block_number who)

  unfoldable pub cause_error : RuntimeOrigin → Dispatch (State F) Error (Unit {0})
  unfolding put_something
  cause_error origin = do
    ok_or (ensure_signed origin) bad_origin
    found ← gets λ s. s.something
    old ← ok_or found (module_error none_value)
    block_number ←
        ok_or (numbers.checked_add old.block_number numbers.one) (module_error storage_overflow)
    put_something (record old { block_number = block_number })

  unfoldable pub dispatch : RuntimeOrigin → Call → Dispatch (State F) Error (Unit {0})
  dispatch origin (does_something bn) = do_something origin bn
  dispatch origin causes_error = cause_error origin

  -- The calls of a block in order, the failed ones included.
  unfoldable pub run : List (RuntimeOrigin × Call) → State F → State F
  run [] s = s
  run ((origin, call) ∷ rest) s = run rest (dispatch origin call s).1
