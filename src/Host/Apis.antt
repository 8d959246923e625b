-- ===== src/Host/Apis.antt =====
-- A runtime without state: an instance of `Payments` and `RuntimeCrates`.
use swarm_robotics_parachain.Common.{
  ℕ, ◌*◌, ◌≤◌, ◌≡◌, refl, ap₂, arith, true, Option, none, some, min, [], map, inl, inr,
}
use swarm_robotics_parachain.Host.Weight.{host_weights}
use swarm_robotics_parachain.Runtime.Apis.Types.{Payments, RuntimeCrates}
use swarm_robotics_parachain.Runtime.Genesis.{Sdk, Preset, preset}
use swarm_robotics_parachain.Runtime.Pallets.{Pallet}

min-eq : (a b : ℕ) → a ≤ b → min a b ≡ a
min-eq a b h = omega arith

pub capped :
    (f : ℕ × ℕ → ℕ) (max_block w : ℕ × ℕ)
    → w.0 ≤ max_block.0
    → w.1 ≤ max_block.1
    → f (min w.0 max_block.0, min w.1 max_block.1) ≡ f w
capped f max_block w h k =
    ap₂ (λ a b. f (a, b)) (min-eq w.0 max_block.0 h) (min-eq w.1 max_block.1 k)

abbrev pub host_payments : Payments host_weights
host_payments = record {
  weight_to_fee = λ f max_block w. f (min w.0 max_block.0, min w.1 max_block.1);
  length_to_fee = λ f n. f (host_weights.from_parts n 0);
  constant_multiplier = λ m w. m * w.0;
  weight_to_fee_lem = capped;
  length_to_fee_lem = λ f n. refl;
  constant_multiplier_lem = λ m w h. refl;
}

abbrev pub preset_or : {K : Sdk} → K.Json → Option K.PresetId → (K.PresetId → Preset K) → Preset K
preset_or json none f = preset json
preset_or json (some id) f = f id

-- `json` is the default configuration.
abbrev pub host_runtime : (K : Sdk) → K.Json → RuntimeCrates host_weights K
host_runtime K json = record {
  Storage = ℕ;
  SlotDuration = ℕ;
  Hash = ℕ;
  Slot = ℕ;
  Header = ℕ;
  Block = ℕ;
  Extrinsic = ℕ;
  ApisVec = ℕ;
  CanAuthorWith = ℕ;
  ExtrinsicInclusionMode = ℕ;
  ApplyExtrinsicResult = ℕ;
  TransactionSource = ℕ;
  TransactionValidity = ℕ;
  CollationInfo = ℕ;
  Nonce = ℕ;
  Bytes = ℕ;
  UpgradeCheckSelect = ℕ;
  TryStateSelect = ℕ;
  TryError = ℕ;
  BenchmarkConfig = ℕ;
  StorageKey = ℕ;
  BenchmarkBatch = ℕ;
  BenchmarkList = Pallet;
  BenchmarkError = ℕ;
  StorageInfo = ℕ;
  RuntimeEvent = ℕ;
  OpaqueMetadata = ℕ;
  ViewFunctionId = ℕ;
  ViewFunctionDispatchError = ℕ;
  InherentData = ℕ;
  CheckInherentsResult = ℕ;
  KeyTypeId = ℕ;
  RuntimeCall = ℕ;
  RuntimeDispatchInfo = ℕ;
  FeeDetails = ℕ;
  payments = host_payments;
  runtime_api_versions = 1;
  default_can_author_with = 0;
  from_millis = λ n. n;
  authorities = λ s. (some [], s);
  fixed_velocity_can_build_upon = λ d v c h n s. (some true, s);
  execute_block = λ b s. (some tt, b);
  initialize_block = λ h s. (some h, h);
  apply_extrinsic = λ x s. (some 0, x);
  finalize_block = λ s. (some s, s);
  validate_transaction = λ source tx h s. (some 0, s);
  offchain_worker = λ h s. (some tt, s);
  try_runtime_upgrade = λ c s. (some (inl 1), s);
  try_execute_block = λ b r g c s. (some (inr (0, 0)), b);
  metadata = 0;
  metadata_at_version = λ n. none;
  metadata_versions = [];
  execute_view_function = λ id input s. (some (inl id), s);
  create_extrinsics = λ d s. (some [], s);
  check_extrinsics = λ d b s. (some 0, s);
  generate_keys = λ seed s. (some 0, s);
  decode_into_raw_public_keys = λ b. none;
  query_info = λ x n s. (some n, s);
  query_fee_details = λ x n s. (some n, s);
  query_call_info = λ c n s. (some n, s);
  query_call_fee_details = λ c n s. (some n, s);
  account_nonce = λ a s. (some 0, s);
  collect_collation_info = λ h s. (some h, s);
  whitelisted_storage_keys = [];
  list_benchmarks = λ ps extra found. map (λ p. p.1) ps;
  storage_info = [];
  initialize_for_set_code_benchmark = λ n s. (some tt, n);
  code_length = λ n. n;
  validation_function_stored = 1;
  assert_last_event = λ e s. (some tt, s);
  add_benchmarks = λ ps c k b s. (some (inr b), s);
  build_state = λ c s. (some (inr tt), c);
  get_preset = preset_or json;
  default_config = json;
  get_preset-none = λ f. refl;
  get_preset-some = λ f id. refl;
}
