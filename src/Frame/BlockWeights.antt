-- ===== src/Frame/BlockWeights.antt =====
-- The limits on a block's weight: `BlockWeights` of frame_system with its builder, the arithmetic of
-- `Weight` and `Perbill` that they are computed with, and `DispatchClass`.
use mathlib.Core.List.{Memᴰ}
use swarm_robotics_parachain.Common.{ℕ, ◌-◌, ◌*◌, ◌/◌, ◌≤◌, ◌<◌, ◌≡◌, ◌≢◌, Option, List}
use swarm_robotics_parachain.Frame.Weight.{Weights}
use swarm_robotics_parachain.Frame.Fee.{Perbills, billion}

-- The operator `*` of `Perbill`, exact where the product comes out even; `-` of `Weight`, where it
-- does not go below zero; and `saturating_div`.
pub record WeightArithmetic (W : Weights) (P : Perbills) : Type 0 where
  pub from_percent : ℕ → P.Perbill
  pub parts-from_percent : (n : ℕ) → n ≤ 100 → P.parts (from_percent n) ≡ n * 10_000_000
  pub scale : P.Perbill → W.Weight → W.Weight
  pub subtract : W.Weight → W.Weight → W.Weight
  pub saturating_div : W.Weight → ℕ → W.Weight
  pub ref_time-scale :
      (p : P.Perbill) (w : W.Weight) (n : ℕ)
      → P.parts p ≤ billion
      → P.parts p * W.ref_time w ≡ n * billion
      → W.ref_time (scale p w) ≡ n
  pub ref_time-scale_le : (p : P.Perbill) (w : W.Weight) → W.ref_time (scale p w) ≤ W.ref_time w
  pub proof_size-scale_le :
      (p : P.Perbill) (w : W.Weight) → W.proof_size (scale p w) ≤ W.proof_size w
  pub ref_time-subtract :
      (a b : W.Weight)
      → W.ref_time b ≤ W.ref_time a
      → W.proof_size b ≤ W.proof_size a
      → W.ref_time (subtract a b) ≡ W.ref_time a - W.ref_time b
  pub proof_size-subtract :
      (a b : W.Weight)
      → W.ref_time b ≤ W.ref_time a
      → W.proof_size b ≤ W.proof_size a
      → W.proof_size (subtract a b) ≡ W.proof_size a - W.proof_size b
  pub ref_time-saturating_div :
      (w : W.Weight) (n : ℕ) → 0 < n → W.ref_time (saturating_div w n) ≡ W.ref_time w / n
  pub proof_size-saturating_div :
      (w : W.Weight) (n : ℕ) → 0 < n → W.proof_size (saturating_div w n) ≡ W.proof_size w / n

-- `WeightsPerClass`
pub record WeightsPerClass (W : Weights) : Type 0 where
  pub base_extrinsic : W.Weight
  pub max_extrinsic : Option W.Weight
  pub max_total : Option W.Weight
  pub reserved : Option W.Weight

-- `per_class` is what a builder has for a class so far: `for_class` changes it for the classes that
-- it is given, and the other steps do not.
pub record BlockWeightsBuilder (W : Weights) (P : Perbills) : Type 1 where
  pub DispatchClass : Type 0
  pub normal : DispatchClass
  pub operational : DispatchClass
  pub all : List DispatchClass
  pub class_eq : Discrete DispatchClass
  pub normal-operational : normal ≢ operational
  pub Memᴰ-all : (c : DispatchClass) → Memᴰ c all
  pub Builder : Type 0
  pub BlockWeights : Type 0
  pub builder : Builder
  pub base_block : W.Weight → Builder → Builder
  pub for_class : List DispatchClass → (WeightsPerClass W → WeightsPerClass W) → Builder → Builder
  pub avg_block_initialization : P.Perbill → Builder → Builder
  -- `none` is a panic.
  pub build_or_panic : Builder → Option BlockWeights
  pub max_block : BlockWeights → W.Weight
  pub per_class : Builder → DispatchClass → WeightsPerClass W
  pub per_class-base_block :
      (w : W.Weight) (b : Builder) (c : DispatchClass)
      → per_class (base_block w b) c ≡ per_class b c
  pub per_class-for_class :
      (cs : List DispatchClass) (f : WeightsPerClass W → WeightsPerClass W) (b : Builder)
      (c : DispatchClass)
      → Memᴰ c cs
      → per_class (for_class cs f b) c ≡ f (per_class b c)
  pub per_class-for_class_other :
      (cs : List DispatchClass) (f : WeightsPerClass W → WeightsPerClass W) (b : Builder)
      (c : DispatchClass)
      → ¬ Memᴰ c cs
      → per_class (for_class cs f b) c ≡ per_class b c
  pub per_class-avg_block_initialization :
      (p : P.Perbill) (b : Builder) (c : DispatchClass)
      → per_class (avg_block_initialization p b) c ≡ per_class b c
