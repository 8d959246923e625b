-- ===== src/Runtime/Apis/Payment.antt =====
-- What the payment APIs of runtime/src/apis.rs answer.
use swarm_robotics_parachain.Common.{ℕ, ◌*◌, ◌^◌, ◌≤◌, ◌<◌, ◌≡◌, ◌∙◌, ap, some, arith}
use swarm_robotics_parachain.Frame.Weight.{Weights, u64_max}
use swarm_robotics_parachain.Frame.Fee.{Perbills, FeePolynomials}
use swarm_robotics_parachain.Frame.BlockWeights.{WeightArithmetic, BlockWeightsBuilder}
use swarm_robotics_parachain.Runtime.Apis.{
  query_weight_to_fee, query_length_to_fee, call_query_weight_to_fee, call_query_length_to_fee,
  weight_fee, length_fee,
}
use swarm_robotics_parachain.Runtime.Apis.Types.{RuntimeCrates}
use swarm_robotics_parachain.Runtime.BlockWeights.{runtime_block_weights}
use swarm_robotics_parachain.Runtime.Constants.{micro_unit, transaction_byte_fee}
use swarm_robotics_parachain.Runtime.Fees.{fee, fee-base_weight}
use swarm_robotics_parachain.Runtime.Genesis.{Sdk}
use swarm_robotics_parachain.Runtime.Weights.{extrinsic_base_weight}

module _ (W : Weights) (K : Sdk) (R : RuntimeCrates W K) (P : Perbills) (L : FeePolynomials P)
    (A : WeightArithmetic W P) (B : BlockWeightsBuilder W P) (max_pov_size : ℕ) where
  -- A length of `n` bytes, a u32, is answered with ten `MICRO_UNIT`s for each byte.
  length_fee_lem :
      (n : ℕ)
      → n < 2 ^ 32
      → R.payments.length_to_fee (length_fee W K R P L A B max_pov_size) n ≡ n * (10 * micro_unit)
  length_fee_lem n h =
      let t = W.ref_time-from_parts n 0 (omega arith) in
      R.payments.length_to_fee_lem _ n
      ∙ R.payments.constant_multiplier_lem transaction_byte_fee (W.from_parts n 0)
          (rw t (omega arith))
      ∙ rw t (omega arith)

  -- For a weight that fits into the largest block and is `k` times the base weight of an extrinsic,
  -- and a length of `n` bytes, a u32, both payment APIs answer `k` and `10 * n` times a
  -- `MICRO_UNIT`, and leave the storage alone.
  pub query_fees :
      (k n : ℕ) (w : W.Weight) (b : B.BlockWeights) (s : R.Storage)
      → runtime_block_weights W P A B max_pov_size ≡ some b
      → W.ref_time w ≡ k * W.ref_time (extrinsic_base_weight W)
      → W.ref_time w ≤ u64_max
      → W.ref_time w ≤ W.ref_time (B.max_block b)
      → W.proof_size w ≤ W.proof_size (B.max_block b)
      → n < 2 ^ 32
      → (query_weight_to_fee W K R P L A B max_pov_size w s ≡ (some (k * micro_unit), s))
        × (query_length_to_fee W K R P L A B max_pov_size n s ≡ (some (n * (10 * micro_unit)), s))
        × (call_query_weight_to_fee W K R P L A B max_pov_size w s ≡ (some (k * micro_unit), s))
        × (call_query_length_to_fee W K R P L A B max_pov_size n s
            ≡ (some (n * (10 * micro_unit)), s))
  unfolding query_weight_to_fee query_length_to_fee call_query_weight_to_fee
      call_query_length_to_fee
  query_fees k n w b s e h fits time proof short =
      let weight =
        ap (λ o. (weight_fee W K R P L A B max_pov_size o w, s)) e
        ∙ ap (λ f. (some f, s))
            (R.payments.weight_to_fee_lem (fee W P L) (B.max_block b) w time proof
              ∙ fee-base_weight W P L k w h fits) in
      let length = ap (λ f. (some f, s)) (length_fee_lem n short) in
      (weight, length, weight, length)
