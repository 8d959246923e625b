-- ===== src/Runtime/Configs.antt =====
-- runtime/src/configs/mod.rs: the settings of the SDK's pallets that are numbers, pallets of this
-- runtime or functions of it, each as the record of one `impl Config for Runtime`.
use swarm_robotics_parachain.Common.{ℕ, ◌*◌, ◌^◌, Bool, true, List, [], ◌∷◌}
use swarm_robotics_parachain.Frame.Weight.{RuntimeDbWeight, Weights}
use swarm_robotics_parachain.Runtime.Constants.{
  slot_duration, existential_deposit, transaction_byte_fee, period, offset,
}
use swarm_robotics_parachain.Runtime.Pallets.{
  Pallet, system, parachain_system, parachain_info, balances, collator_selection, session, aura,
  xcmp_queue, message_queue,
}
use swarm_robotics_parachain.Runtime.Weights.{rocks_db_weight}

abbrev pub ss58_prefix : ℕ
ss58_prefix = 42

module _ (W : Weights) where
  pub record SystemConfig : Type 0 where
    pub db_weight : RuntimeDbWeight
    pub ss58_prefix : ℕ
    pub on_set_code : Pallet
    pub max_consumers : ℕ

  abbrev pub system_config : SystemConfig
  system_config = record {
    db_weight = rocks_db_weight W;
    ss58_prefix = ss58_prefix;
    on_set_code = parachain_system;
    max_consumers = 16;
  }

pub record TimestampConfig : Type 0 where
  pub on_timestamp_set : Pallet
  pub minimum_period : ℕ

abbrev pub timestamp_config : TimestampConfig
timestamp_config = record { on_timestamp_set = aura; minimum_period = 0 }

-- The author's index is one of the session's accounts, and found by a pallet.
pub record AuthorshipConfig : Type 0 where
  pub find_author : Pallet
  pub event_handler : List Pallet

abbrev pub authorship_config : AuthorshipConfig
authorship_config = record { find_author = aura; event_handler = collator_selection ∷ [] }

pub record BalancesConfig : Type 0 where
  pub max_locks : ℕ
  pub existential_deposit : ℕ
  pub account_store : Pallet
  pub max_reserves : ℕ

abbrev pub balances_config : BalancesConfig
balances_config = record {
  max_locks = 50;
  existential_deposit = existential_deposit;
  account_store = system;
  max_reserves = 50;
}

-- The fees are taken from a pallet's balances.
pub record TransactionPaymentConfig : Type 0 where
  pub on_charge_transaction : Pallet
  pub transaction_byte_fee : ℕ
  pub operational_fee_multiplier : ℕ

abbrev pub transaction_payment_config : TransactionPaymentConfig
transaction_payment_config = record {
  on_charge_transaction = balances;
  transaction_byte_fee = transaction_byte_fee;
  operational_fee_multiplier = 5;
}

pub record ParachainSystemConfig : Type 0 where
  pub self_para_id : Pallet
  pub outbound_xcmp_message_source : Pallet
  pub dmp_queue : Pallet
  pub xcmp_message_handler : Pallet

abbrev pub parachain_system_config : ParachainSystemConfig
parachain_system_config = record {
  self_para_id = parachain_info;
  outbound_xcmp_message_source = xcmp_queue;
  dmp_queue = message_queue;
  xcmp_message_handler = xcmp_queue;
}

pub record MessageQueueConfig : Type 0 where
  pub queue_change_handler : Pallet
  pub queue_paused_query : Pallet
  pub heap_size : ℕ
  pub max_stale : ℕ

abbrev pub message_queue_config : MessageQueueConfig
message_queue_config = record {
  queue_change_handler = xcmp_queue;
  queue_paused_query = xcmp_queue;
  heap_size = 103 * 1024;
  max_stale = 8;
}

pub record XcmpQueueConfig : Type 0 where
  pub channel_info : Pallet
  pub xcmp_queue : Pallet
  pub max_inbound_suspended : ℕ
  pub max_active_outbound_channels : ℕ
  pub max_page_size : ℕ

-- `1 << 16`
abbrev pub xcmp_queue_config : XcmpQueueConfig
xcmp_queue_config = record {
  channel_info = parachain_system;
  xcmp_queue = message_queue;
  max_inbound_suspended = 1000;
  max_active_outbound_channels = 128;
  max_page_size = 2 ^ 16;
}

-- `PeriodicSessions` with a period and an offset, as the end of a session and as its rotation.
pub record SessionConfig : Type 0 where
  pub should_end_session : ℕ × ℕ
  pub next_session_rotation : ℕ × ℕ
  pub session_manager : Pallet

abbrev pub session_config : SessionConfig
session_config = record {
  should_end_session = (period, offset);
  next_session_rotation = (period, offset);
  session_manager = collator_selection;
}

pub record AuraConfig : Type 0 where
  pub max_authorities : ℕ
  pub allow_multiple_blocks_per_slot : Bool
  pub slot_duration : ℕ

abbrev pub aura_config : AuraConfig
aura_config = record {
  max_authorities = 100_000;
  allow_multiple_blocks_per_slot = true;
  slot_duration = slot_duration;
}

pub record CollatorSelectionConfig : Type 0 where
  pub currency : Pallet
  pub max_candidates : ℕ
  pub min_eligible_collators : ℕ
  pub max_invulnerables : ℕ
  pub kick_threshold : ℕ
  pub validator_registration : Pallet

abbrev pub collator_selection_config : CollatorSelectionConfig
collator_selection_config = record {
  currency = balances;
  max_candidates = 100;
  min_eligible_collators = 4;
  max_invulnerables = 20;
  kick_threshold = period;
  validator_registration = session;
}
