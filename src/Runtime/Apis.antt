-- ===== src/Runtime/Apis.antt =====
-- runtime/src/apis.rs: the functions that the node calls of the runtime. A call runs on the storage,
-- and `none` is a panic.
pub mod Types
pub mod Payment
mod Examples
use Prim.Native.String.{String}
use swarm_robotics_parachain.Common.{
  ℕ, ◌*◌, ◌%◌, ◌^◌, Bool, Option, none, some, List, [], ◌∷◌, ◌⊎◌, inl, inr,
}
use swarm_robotics_parachain.Frame.Weight.{Weights}
use swarm_robotics_parachain.Frame.Fee.{Perbills, FeePolynomials}
use swarm_robotics_parachain.Frame.BlockWeights.{WeightArithmetic, BlockWeightsBuilder}
use swarm_robotics_parachain.Runtime.Apis.Types.{Api, RuntimeCrates}
use swarm_robotics_parachain.Runtime.BlockWeights.{runtime_block_weights}
use swarm_robotics_parachain.Runtime.Constants.{
  slot_duration, transaction_byte_fee, relay_chain_slot_duration_millis, block_processing_velocity,
  unincluded_segment_capacity,
}
use swarm_robotics_parachain.Runtime.Fees.{fee}
use swarm_robotics_parachain.Runtime.Genesis
use swarm_robotics_parachain.Runtime.Pallets.{benchmarks}

module _ (W : Weights) (K : Genesis.Sdk) (R : RuntimeCrates W K) where
  open R use {Storage}

  pub record RuntimeVersion : Type 0 where
    pub spec_name : String
    pub impl_name : String
    pub authoring_version : ℕ
    pub spec_version : ℕ
    pub impl_version : ℕ
    pub apis : R.ApisVec
    pub transaction_version : ℕ
    pub system_version : ℕ

  -- A function that does not use the storage.
  abbrev pub pure : {X : Type 0} → X → Api Storage X
  pure x s = (some x, s)

  abbrev pub impl_slot_duration : R.SlotDuration
  impl_slot_duration = R.from_millis slot_duration

  -- `ConsensusHook`
  abbrev pub consensus_hook : R.Hash → R.Slot → Api Storage Bool
  consensus_hook =
      R.fixed_velocity_can_build_upon relay_chain_slot_duration_millis block_processing_velocity
        unincluded_segment_capacity

  abbrev pub impl_can_build_upon : R.Hash → R.Slot → Api Storage Bool
  impl_can_build_upon included_hash slot = consensus_hook included_hash slot

  pub aura_slot_duration : Api Storage R.SlotDuration
  aura_slot_duration = pure impl_slot_duration

  pub authorities : Api Storage (List K.AuraId)
  authorities = R.authorities

  pub can_build_upon : R.Hash → R.Slot → Api Storage Bool
  can_build_upon included_hash slot = impl_can_build_upon included_hash slot

  pub version : RuntimeVersion
  version = record {
    spec_name = "parachain-template-runtime";
    impl_name = "parachain-template-runtime";
    authoring_version = 1;
    spec_version = 1;
    impl_version = 0;
    apis = R.runtime_api_versions;
    transaction_version = 1;
    system_version = 1;
  }

  pub record NativeVersion : Type 0 where
    pub runtime_version : RuntimeVersion
    pub can_author_with : R.CanAuthorWith

  pub native_version : NativeVersion
  unfolding version
  native_version = record { runtime_version = version; can_author_with = R.default_can_author_with }

  pub core_version : Api Storage RuntimeVersion
  core_version = pure version

  pub execute_block : R.Block → Api Storage (Unit {0})
  execute_block block = R.execute_block block

  pub initialize_block : R.Header → Api Storage R.ExtrinsicInclusionMode
  initialize_block header = R.initialize_block header

  pub apply_extrinsic : R.Extrinsic → Api Storage R.ApplyExtrinsicResult
  apply_extrinsic extrinsic = R.apply_extrinsic extrinsic

  pub finalize_block : Api Storage R.Header
  finalize_block = R.finalize_block

  pub validate_transaction :
      R.TransactionSource → R.Extrinsic → R.Hash → Api Storage R.TransactionValidity
  validate_transaction source tx block_hash = R.validate_transaction source tx block_hash

  pub offchain_worker : R.Header → Api Storage (Unit {0})
  offchain_worker header = R.offchain_worker header

  pub account_nonce : K.AccountId → Api Storage R.Nonce
  account_nonce account = R.account_nonce account

  pub collect_collation_info : R.Header → Api Storage R.CollationInfo
  collect_collation_info header = R.collect_collation_info header

  pub metadata : Api Storage R.OpaqueMetadata
  metadata = pure R.metadata

  pub metadata_at_version : ℕ → Api Storage (Option R.OpaqueMetadata)
  metadata_at_version n = pure (R.metadata_at_version n)

  pub metadata_versions : Api Storage (List ℕ)
  metadata_versions = pure R.metadata_versions

  pub execute_view_function :
      R.ViewFunctionId → R.Bytes → Api Storage (R.ViewFunctionDispatchError ⊎ R.Bytes)
  execute_view_function id input = R.execute_view_function id input

  pub inherent_extrinsics : R.InherentData → Api Storage (List R.Extrinsic)
  inherent_extrinsics inherents = R.create_extrinsics inherents

  pub check_inherents : R.Block → R.InherentData → Api Storage R.CheckInherentsResult
  check_inherents block inherents = R.check_extrinsics inherents block

  pub generate_session_keys : Option R.Bytes → Api Storage R.Bytes
  generate_session_keys seed = R.generate_keys seed

  pub decode_session_keys : R.Bytes → Api Storage (Option (List (R.Bytes × R.KeyTypeId)))
  decode_session_keys encoded = pure (R.decode_into_raw_public_keys encoded)

  pub query_info : R.Extrinsic → ℕ → Api Storage R.RuntimeDispatchInfo
  query_info uxt len = R.query_info uxt len

  pub query_fee_details : R.Extrinsic → ℕ → Api Storage R.FeeDetails
  query_fee_details uxt len = R.query_fee_details uxt len

  pub query_call_info : R.RuntimeCall → ℕ → Api Storage R.RuntimeDispatchInfo
  query_call_info call len = R.query_call_info call len

  pub query_call_fee_details : R.RuntimeCall → ℕ → Api Storage R.FeeDetails
  query_call_fee_details call len = R.query_call_fee_details call len

  -- `Vec::is_empty` decides whether a benchmark was found.
  abbrev pub found : String ⊎ List R.BenchmarkBatch → String ⊎ List R.BenchmarkBatch
  found (inl e) = inl e
  found (inr []) = inl "Benchmark not found for this pallet."
  found (inr (b ∷ bs)) = inr (b ∷ bs)

  abbrev pub map_api : {X Y : Type 0} → (X → Y) → Option X × Storage → Option Y × Storage
  map_api f (none, s) = (none, s)
  map_api f (some x, s) = (some (f x), s)

  pub benchmark_metadata : Bool → Api Storage (List R.BenchmarkList × List R.StorageInfo)
  benchmark_metadata extra = pure (R.list_benchmarks benchmarks extra [], R.storage_info)

  -- The cast of the length keeps 32 bits.
  pub setup_set_code_requirements : R.Bytes → Api Storage (R.BenchmarkError ⊎ (Unit {0}))
  setup_set_code_requirements code s =
      map_api (λ u. inr tt) (R.initialize_for_set_code_benchmark (R.code_length code % 2 ^ 32) s)

  pub verify_set_code : Api Storage (Unit {0})
  verify_set_code = R.assert_last_event R.validation_function_stored

  pub dispatch_benchmark : R.BenchmarkConfig → Api Storage (String ⊎ List R.BenchmarkBatch)
  dispatch_benchmark config s =
      map_api found (R.add_benchmarks benchmarks config R.whitelisted_storage_keys [] s)

  pub build_state : R.Bytes → Api Storage (String ⊎ (Unit {0}))
  build_state config = R.build_state config

  unfoldable pub get_preset :
      (Genesis.Genesis K → Option K.Json) → Option K.PresetId → Genesis.Preset K
  get_preset to_string id = R.get_preset id (Genesis.get_preset K to_string)

  abbrev pub preset_names : List K.PresetId
  preset_names = Genesis.preset_names K

  module _ (P : Perbills) (L : FeePolynomials P) (A : WeightArithmetic W P)
      (B : BlockWeightsBuilder W P) (max_pov_size : ℕ) where
    abbrev pub block_weights : Option B.BlockWeights
    block_weights = runtime_block_weights W P A B max_pov_size

    abbrev pub weight_fee : Option B.BlockWeights → W.Weight → Option ℕ
    weight_fee none w = none
    weight_fee (some b) w = some (R.payments.weight_to_fee (fee W P L) (B.max_block b) w)

    -- `LengthToFee`
    abbrev pub length_fee : W.Weight → ℕ
    length_fee = R.payments.constant_multiplier transaction_byte_fee

    unfoldable pub query_weight_to_fee : W.Weight → Api Storage ℕ
    query_weight_to_fee w s = (weight_fee block_weights w, s)

    unfoldable pub query_length_to_fee : ℕ → Api Storage ℕ
    query_length_to_fee n s = (some (R.payments.length_to_fee length_fee n), s)

    -- `TransactionPaymentCallApi` has both of them too.
    unfoldable pub call_query_weight_to_fee : W.Weight → Api Storage ℕ
    call_query_weight_to_fee w s = (weight_fee block_weights w, s)

    unfoldable pub call_query_length_to_fee : ℕ → Api Storage ℕ
    call_query_length_to_fee n s = (some (R.payments.length_to_fee length_fee n), s)

    -- `unwrap` on the result of a check, and the weight of the largest block.
    abbrev pub unwrap_weight : R.TryError ⊎ W.Weight → Option W.Weight
    unwrap_weight (inl e) = none
    unwrap_weight (inr w) = some w

    abbrev pub and_then : {X Y : Type 0} → (X → Option Y) → Option X × Storage → Option Y × Storage
    and_then f (none, s) = (none, s)
    and_then f (some x, s) = (f x, s)

    abbrev pub with_max_block :
        Option B.BlockWeights → R.TryError ⊎ W.Weight → Option (W.Weight × W.Weight)
    with_max_block b (inl e) = none
    with_max_block none (inr w) = none
    with_max_block (some b) (inr w) = some (w, B.max_block b)

    pub on_runtime_upgrade : R.UpgradeCheckSelect → Api Storage (W.Weight × W.Weight)
    on_runtime_upgrade checks s =
        and_then (with_max_block block_weights) (R.try_runtime_upgrade checks s)

    pub try_execute_block : R.Block → Bool → Bool → R.TryStateSelect → Api Storage W.Weight
    try_execute_block block state_root_check signature_check select s =
        and_then unwrap_weight (R.try_execute_block block state_root_check signature_check select s)
