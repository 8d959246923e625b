-- ===== src/Runtime/Constants.antt =====
-- runtime/src/lib.rs, runtime/src/configs/mod.rs: the constants of the runtime. Block numbers are
-- u32, times u64, balances u128.
use swarm_robotics_parachain.Common.{ℕ, ◌*◌, ◌/◌, ◌%◌, ◌^◌}

abbrev pub milli_secs_per_block : ℕ
milli_secs_per_block = 6000

abbrev pub slot_duration : ℕ
slot_duration = milli_secs_per_block

-- The cast to `BlockNumber` keeps 32 bits.
abbrev pub minutes : ℕ
minutes = 60_000 / (milli_secs_per_block % 2 ^ 32)

abbrev pub hours : ℕ
hours = minutes * 60

abbrev pub days : ℕ
days = hours * 24

abbrev pub unit : ℕ
unit = 1_000_000_000_000

abbrev pub milli_unit : ℕ
milli_unit = 1_000_000_000

abbrev pub micro_unit : ℕ
micro_unit = 1_000_000

abbrev pub existential_deposit : ℕ
existential_deposit = milli_unit

abbrev pub unincluded_segment_capacity : ℕ
unincluded_segment_capacity = 3

abbrev pub block_processing_velocity : ℕ
block_processing_velocity = 1

abbrev pub relay_chain_slot_duration_millis : ℕ
relay_chain_slot_duration_millis = 6000

abbrev pub transaction_byte_fee : ℕ
transaction_byte_fee = 10 * micro_unit

abbrev pub period : ℕ
period = 6 * hours

abbrev pub offset : ℕ
offset = 0

abbrev pub session_length : ℕ
session_length = 6 * hours

abbrev pub max_global_commands : ℕ
max_global_commands = 64
