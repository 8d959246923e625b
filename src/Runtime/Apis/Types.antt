-- ===== src/Runtime/Apis/Types.antt =====
-- What the runtime APIs call: the executive, the pallets and the helpers of the SDK.
use Prim.Native.String.{String}
use swarm_robotics_parachain.Common.{ℕ, ◌*◌, ◌≤◌, ◌≡◌, Bool, Option, none, some, List, ◌⊎◌}
use swarm_robotics_parachain.Frame.Weight.{Weights}
use swarm_robotics_parachain.Frame.Fee.{u128_max}
use swarm_robotics_parachain.Runtime.Genesis.{Sdk, Preset, preset}
use swarm_robotics_parachain.Runtime.Pallets.{Pallet}

-- A call on the storage; `none` is a panic.
abbrev pub Api : Type 0 → Type 0 → Type 0
Api S X = S → Option X × S

-- pallet_transaction_payment: the fee for a weight is that of the configured function, the weight
-- capped by the largest block, and the fee for a length that of its function at a weight with the
-- length as its reference time. `constant_multiplier` is `ConstantMultiplier` of sp_weights.
pub record Payments (W : Weights) : Type 0 where
  pub weight_to_fee : (W.Weight → ℕ) → W.Weight → W.Weight → ℕ
  pub length_to_fee : (W.Weight → ℕ) → ℕ → ℕ
  pub constant_multiplier : ℕ → W.Weight → ℕ
  pub weight_to_fee_lem :
      (f : W.Weight → ℕ) (max_block w : W.Weight)
      → W.ref_time w ≤ W.ref_time max_block
      → W.proof_size w ≤ W.proof_size max_block
      → weight_to_fee f max_block w ≡ f w
  pub length_to_fee_lem : (f : W.Weight → ℕ) (n : ℕ) → length_to_fee f n ≡ f (W.from_parts n 0)
  pub constant_multiplier_lem :
      (m : ℕ) (w : W.Weight)
      → m * W.ref_time w ≤ u128_max
      → constant_multiplier m w ≡ m * W.ref_time w

pub record RuntimeCrates (W : Weights) (K : Sdk) : Type 1 where
  pub Storage : Type 0
  pub SlotDuration : Type 0
  pub Hash : Type 0
  pub Slot : Type 0
  pub Header : Type 0
  pub Block : Type 0
  pub Extrinsic : Type 0
  pub ApisVec : Type 0
  pub CanAuthorWith : Type 0
  pub ExtrinsicInclusionMode : Type 0
  pub ApplyExtrinsicResult : Type 0
  pub TransactionSource : Type 0
  pub TransactionValidity : Type 0
  pub CollationInfo : Type 0
  pub Nonce : Type 0
  pub Bytes : Type 0
  pub UpgradeCheckSelect : Type 0
  pub TryStateSelect : Type 0
  pub TryError : Type 0
  pub BenchmarkConfig : Type 0
  pub StorageKey : Type 0
  pub BenchmarkBatch : Type 0
  pub BenchmarkList : Type 0
  pub BenchmarkError : Type 0
  pub StorageInfo : Type 0
  pub RuntimeEvent : Type 0
  pub OpaqueMetadata : Type 0
  pub ViewFunctionId : Type 0
  pub ViewFunctionDispatchError : Type 0
  pub InherentData : Type 0
  pub CheckInherentsResult : Type 0
  pub KeyTypeId : Type 0
  pub RuntimeCall : Type 0
  pub RuntimeDispatchInfo : Type 0
  pub FeeDetails : Type 0
  pub payments : Payments W
  -- `RUNTIME_API_VERSIONS`, which `impl_runtime_apis!` generates
  pub runtime_api_versions : ApisVec
  pub default_can_author_with : CanAuthorWith
  -- `SlotDuration::from_millis`
  pub from_millis : ℕ → SlotDuration
  -- `Authorities::<Runtime>::get().into_inner()`
  pub authorities : Api Storage (List K.AuraId)
  -- `FixedVelocityConsensusHook::can_build_upon`, for a slot duration of the relay chain in
  -- milliseconds, a velocity and a capacity
  pub fixed_velocity_can_build_upon : ℕ → ℕ → ℕ → Hash → Slot → Api Storage Bool
  -- `Executive`
  pub execute_block : Block → Api Storage (Unit {0})
  pub initialize_block : Header → Api Storage ExtrinsicInclusionMode
  pub apply_extrinsic : Extrinsic → Api Storage ApplyExtrinsicResult
  pub finalize_block : Api Storage Header
  pub validate_transaction : TransactionSource → Extrinsic → Hash → Api Storage TransactionValidity
  pub offchain_worker : Header → Api Storage (Unit {0})
  pub try_runtime_upgrade : UpgradeCheckSelect → Api Storage (TryError ⊎ W.Weight)
  pub try_execute_block : Block → Bool → Bool → TryStateSelect → Api Storage (TryError ⊎ W.Weight)
  -- What `construct_runtime` generates for metadata and view functions
  pub metadata : OpaqueMetadata
  pub metadata_at_version : ℕ → Option OpaqueMetadata
  pub metadata_versions : List ℕ
  pub execute_view_function :
      ViewFunctionId → Bytes → Api Storage (ViewFunctionDispatchError ⊎ Bytes)
  -- `InherentDataExt`
  pub create_extrinsics : InherentData → Api Storage (List Extrinsic)
  pub check_extrinsics : InherentData → Block → Api Storage CheckInherentsResult
  -- `SessionKeys`
  pub generate_keys : Option Bytes → Api Storage Bytes
  pub decode_into_raw_public_keys : Bytes → Option (List (Bytes × KeyTypeId))
  -- `TransactionPayment`
  pub query_info : Extrinsic → ℕ → Api Storage RuntimeDispatchInfo
  pub query_fee_details : Extrinsic → ℕ → Api Storage FeeDetails
  pub query_call_info : RuntimeCall → ℕ → Api Storage RuntimeDispatchInfo
  pub query_call_fee_details : RuntimeCall → ℕ → Api Storage FeeDetails
  -- `System::account_nonce`
  pub account_nonce : K.AccountId → Api Storage Nonce
  -- `ParachainSystem::collect_collation_info`
  pub collect_collation_info : Header → Api Storage CollationInfo
  -- `AllPalletsWithSystem::whitelisted_storage_keys`
  pub whitelisted_storage_keys : List StorageKey
  -- `list_benchmarks!` and `add_benchmarks!`, which `define_benchmarks!` makes of the benchmarked
  -- pallets, on the list and the batches so far
  pub list_benchmarks : List (String × Pallet) → Bool → List BenchmarkList → List BenchmarkList
  -- `AllPalletsWithSystem::storage_info`
  pub storage_info : List StorageInfo
  -- `ParachainSystem::initialize_for_set_code_benchmark`, of a u32
  pub initialize_for_set_code_benchmark : ℕ → Api Storage (Unit {0})
  pub code_length : Bytes → ℕ
  -- `Event::ValidationFunctionStored` of the parachain system
  pub validation_function_stored : RuntimeEvent
  -- `System::assert_last_event`
  pub assert_last_event : RuntimeEvent → Api Storage (Unit {0})
  pub add_benchmarks :
      List (String × Pallet)
      → BenchmarkConfig
      → List StorageKey
      → List BenchmarkBatch
      → Api Storage (String ⊎ List BenchmarkBatch)
  -- genesis_builder_helper
  pub build_state : Bytes → Api Storage (String ⊎ (Unit {0}))
  pub get_preset : Option K.PresetId → (K.PresetId → Preset K) → Preset K
  -- The state of the default `RuntimeGenesisConfig`, written out.
  pub default_config : K.Json
  pub get_preset-none : (f : K.PresetId → Preset K) → get_preset none f ≡ preset default_config
  pub get_preset-some :
      (f : K.PresetId → Preset K) (id : K.PresetId) → get_preset (some id) f ≡ f id
