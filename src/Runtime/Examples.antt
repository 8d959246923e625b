-- ===== src/Runtime/Examples.antt =====
-- The theorems on weights and fees at concrete inputs.
use swarm_robotics_parachain.Common.{◌+◌, ◌≡◌, arith}
use swarm_robotics_parachain.Frame.Weight.{RuntimeDbWeight}
use swarm_robotics_parachain.Host.Weight.{host_weights}
use swarm_robotics_parachain.Runtime.Weights.{
  BlockIsSane, ExtrinsicIsSane, RocksDbIsSane, ParityDbIsSane, weights-IsSane,
}
use swarm_robotics_parachain.Template.Types.{does_something}
use swarm_robotics_parachain.Template.Weights.{declared_weight, weight_info, declared_weight_short}

all_sane :
    BlockIsSane host_weights
    × ExtrinsicIsSane host_weights
    × RocksDbIsSane host_weights
    × ParityDbIsSane host_weights
all_sane = weights-IsSane host_weights

abbrev db : RuntimeDbWeight
db = record { read = 25_000_000; write = 100_000_000 }

declared_weight_short_example :
    (declared_weight host_weights db (does_something 5)).0 + 8_990_000
    ≡ (weight_info host_weights db (does_something 5)).0
declared_weight_short_example =
    declared_weight_short host_weights db (does_something 5) (omega arith)
