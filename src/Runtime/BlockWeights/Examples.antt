-- ===== src/Runtime/BlockWeights/Examples.antt =====
-- The theorems on block weights, with a proof of validity of at most 5 MiB.
use swarm_robotics_parachain.Common.{◌+◌, ◌*◌, ◌≡◌, none, some}
use swarm_robotics_parachain.Frame.BlockWeights.{WeightsPerClass}
use swarm_robotics_parachain.Host.Weight.{host_weights, host_perbills}
use swarm_robotics_parachain.Host.BlockWeights.{
  HostClass, normal, operational, mandatory, host_arithmetic, host_builder,
}
use swarm_robotics_parachain.Runtime.Weights.{extrinsic_base_weight}
use swarm_robotics_parachain.Runtime.BlockWeights.{reserved_xcmp_weight, reserved_dmp_weight}
use swarm_robotics_parachain.Runtime.BlockWeights.Limits.{
  limits, most, limits-base_extrinsic, limits_other, limits-reserve,
}

abbrev host_limits : HostClass → WeightsPerClass host_weights
host_limits = limits host_weights host_perbills host_arithmetic host_builder 5_242_880

abbrev host_most : host_weights.Weight
host_most = most host_weights host_perbills host_arithmetic host_builder 5_242_880

operational_base_extrinsic :
    (host_limits operational).base_extrinsic ≡ extrinsic_base_weight host_weights
operational_base_extrinsic =
    limits-base_extrinsic host_weights host_perbills host_arithmetic host_builder 5_242_880
      operational

mandatory_limits : host_limits mandatory ≡ record {
  base_extrinsic = extrinsic_base_weight host_weights;
  max_extrinsic = none;
  max_total = none;
  reserved = none;
}
mandatory_limits =
    limits_other host_weights host_perbills host_arithmetic host_builder 5_242_880 mandatory
      (λ e. absurd (cc e)) (λ e. absurd (cc e))

limits-reserve_example :
    (n : host_weights.Weight) × (r : host_weights.Weight) × (((host_limits normal).max_total
        ≡ some n)
      × ((host_limits operational).max_total ≡ some host_most)
      × ((host_limits operational).reserved ≡ some r)
      × (host_most.0 ≡ 2 * host_weights.weight_ref_time_per_second)
      × (n.0 * 4 ≡ host_most.0 * 3)
      × (n.0 + r.0 ≡ host_most.0)
      × (n.1 + r.1 ≡ host_most.1)
      × ((reserved_xcmp_weight host_weights host_perbills host_arithmetic host_builder 5_242_880).0
          ≡ r.0)
      × ((reserved_dmp_weight host_weights host_perbills host_arithmetic host_builder 5_242_880).0
          ≡ r.0))
limits-reserve_example =
    limits-reserve host_weights host_perbills host_arithmetic host_builder 5_242_880
