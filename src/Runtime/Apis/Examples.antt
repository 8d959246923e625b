-- ===== src/Runtime/Apis/Examples.antt =====
-- The theorems on the runtime APIs at concrete inputs.
use swarm_robotics_parachain.Common.{◌*◌, ◌≡◌, refl, some, arith}
use swarm_robotics_parachain.Host.Apis.{host_runtime}
use swarm_robotics_parachain.Host.BlockWeights.{host_arithmetic, host_builder}
use swarm_robotics_parachain.Host.Weight.{host_weights, host_perbills, host_polynomials}
use swarm_robotics_parachain.Runtime.Apis.{
  query_weight_to_fee, query_length_to_fee, call_query_weight_to_fee, call_query_length_to_fee,
}
use swarm_robotics_parachain.Runtime.Apis.Payment.{query_fees}
use swarm_robotics_parachain.Runtime.BlockWeights.{block_weights_builder, runtime_block_weights}
use swarm_robotics_parachain.Runtime.Constants.{micro_unit}
use swarm_robotics_parachain.Runtime.Genesis.Examples.{keyring}
use swarm_robotics_parachain.Runtime.Weights.{extrinsic_base_weight}

query_fees_example :
    let runtime = host_runtime keyring 0 in
    (query_weight_to_fee host_weights keyring runtime host_perbills host_polynomials host_arithmetic
        host_builder 5_242_880
        (375_000_000, 10)
        9
      ≡ (some (3 * micro_unit), 9))
    × (query_length_to_fee host_weights keyring runtime host_perbills host_polynomials
          host_arithmetic host_builder 5_242_880 140 9
        ≡ (some (140 * (10 * micro_unit)), 9))
    × (call_query_weight_to_fee host_weights keyring runtime host_perbills host_polynomials
          host_arithmetic host_builder 5_242_880
          (375_000_000, 10)
          9
        ≡ (some (3 * micro_unit), 9))
    × (call_query_length_to_fee host_weights keyring runtime host_perbills host_polynomials
          host_arithmetic host_builder 5_242_880 140 9
        ≡ (some (140 * (10 * micro_unit)), 9))
unfolding extrinsic_base_weight runtime_block_weights
query_fees_example =
    query_fees host_weights keyring (host_runtime keyring 0) host_perbills host_polynomials
      host_arithmetic host_builder 5_242_880 3 140 (375_000_000, 10)
      (block_weights_builder host_weights host_perbills host_arithmetic host_builder 5_242_880) 9
      refl refl (omega arith) (omega arith) (omega arith) (omega arith)
