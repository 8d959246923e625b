-- ===== src/Runtime/BlockWeights/Limits.antt =====
-- What each class of calls may use of a block.
use mathlib.Core.List.{Memᴰ}
use swarm_robotics_parachain.Common.{
  ℕ, ◌+◌, ◌*◌, ◌≤◌, ◌≡◌, ◌≢◌, refl, ◌∙◌, ap, some, [], ◌∷◌, arith,
}
use swarm_robotics_parachain.Frame.Weight.{Weights, saturating}
use swarm_robotics_parachain.Frame.Fee.{Perbills}
use swarm_robotics_parachain.Frame.BlockWeights.{
  WeightArithmetic, WeightsPerClass, BlockWeightsBuilder,
}
use swarm_robotics_parachain.Runtime.BlockWeights.{
  normal_dispatch_ratio, maximum_block_weight, with_base_extrinsic, with_normal_limit,
  with_operational_limit, block_weights_builder, reserved_xcmp_weight, reserved_dmp_weight,
}
use swarm_robotics_parachain.Runtime.Weights.{block_execution_weight, extrinsic_base_weight}

module _ (W : Weights) (P : Perbills) (A : WeightArithmetic W P) (B : BlockWeightsBuilder W P)
    (max_pov_size : ℕ) where
  open W use {Weight, ref_time, proof_size}

  abbrev pub limits : B.DispatchClass → WeightsPerClass W
  limits c = B.per_class (block_weights_builder W P A B max_pov_size) c

  abbrev pub most : Weight
  most = maximum_block_weight W P A B max_pov_size

  abbrev normal_most : Weight
  normal_most = A.scale (normal_dispatch_ratio W P A B max_pov_size) most

  pub ref_time-most : ref_time most ≡ 2_000_000_000_000
  ref_time-most =
      ap (λ s. ref_time (W.from_parts (saturating (s * 2)) max_pov_size)) W.per_second_lem
      ∙ W.ref_time-from_parts 2_000_000_000_000 max_pov_size (omega arith)

  ref_time-normal_most : ref_time normal_most ≡ 1_500_000_000_000
  ref_time-normal_most =
      A.ref_time-scale (A.from_percent 75) most 1_500_000_000_000
        (rw (A.parts-from_percent 75 (omega arith)) (omega arith))
        (rw (A.parts-from_percent 75 (omega arith), ref_time-most) refl)

  Memᴰ-one : {A : Type 0} (a b : A) → Memᴰ a (b ∷ []) → a ≡ b
  Memᴰ-one a b (Memᴰ.head e) = e
  Memᴰ-one a b (Memᴰ.tail m) = elim m [ ]

  normal_most_le : proof_size normal_most ≤ proof_size most
  normal_most_le = A.proof_size-scale_le (A.from_percent 75) most

  abbrev rest : Weight
  rest = A.subtract most normal_most

  ref_time-rest : ref_time rest ≡ 500_000_000_000
  ref_time-rest =
      A.ref_time-subtract most normal_most (A.ref_time-scale_le _ _) normal_most_le
      ∙ rw (ref_time-most, ref_time-normal_most) refl

  proof_size-rest : proof_size normal_most + proof_size rest ≡ proof_size most
  proof_size-rest = omega (
    arith,
    normal_most_le,
    A.proof_size-subtract most normal_most (A.ref_time-scale_le _ _) normal_most_le,
  )

  module _ (d : B.DispatchClass) (f : WeightsPerClass W → WeightsPerClass W) (b : B.Builder) where
    at_class : B.per_class (B.for_class (d ∷ []) f b) d ≡ f (B.per_class b d)
    at_class = B.per_class-for_class (d ∷ []) f b d (Memᴰ.head refl)

    off_class :
        (c : B.DispatchClass) → c ≢ d → B.per_class (B.for_class (d ∷ []) f b) c ≡ B.per_class b c
    off_class c n = B.per_class-for_class_other (d ∷ []) f b c (λ m. n (Memᴰ-one c d m))

    keeps_base :
        (c : B.DispatchClass)
        → ((w : WeightsPerClass W) → (f w).base_extrinsic ≡ w.base_extrinsic)
        → (B.per_class (B.for_class (d ∷ []) f b) c).base_extrinsic
          ≡ (B.per_class b c).base_extrinsic
    keeps_base c k = elim (B.class_eq c d) [
      | yes e ↦
          ap (λ w. w.base_extrinsic) (B.per_class-for_class (d ∷ []) f b c (Memᴰ.head e))
          ∙ k (B.per_class b c)
      | no ne ↦ ap (λ w. w.base_extrinsic) (off_class c ne)
    ]

  -- The builder after the steps for all classes and for each of the two.
  abbrev for_all : B.Builder
  for_all =
      B.for_class B.all (with_base_extrinsic W P A B max_pov_size)
        (B.base_block (block_execution_weight W) B.builder)

  abbrev for_normal : B.Builder
  for_normal = B.for_class (B.normal ∷ []) (with_normal_limit W P A B max_pov_size) for_all

  abbrev for_operational : B.Builder
  for_operational =
      B.for_class (B.operational ∷ []) (with_operational_limit W P A B max_pov_size) for_normal

  per_class-for_all :
      (c : B.DispatchClass)
      → B.per_class for_all c
        ≡ record (B.per_class B.builder c) { base_extrinsic = extrinsic_base_weight W }
  per_class-for_all c =
      B.per_class-for_class B.all (with_base_extrinsic W P A B max_pov_size) _ c (B.Memᴰ-all c)
      ∙ rw (B.per_class-base_block (block_execution_weight W) B.builder c) refl

  limits_last : (c : B.DispatchClass) → limits c ≡ B.per_class for_operational c
  unfolding block_weights_builder
  limits_last c = B.per_class-avg_block_initialization _ for_operational c

  -- Every call has the measured base weight of an extrinsic, in whatever class it is.
  pub limits-base_extrinsic :
      (c : B.DispatchClass) → (limits c).base_extrinsic ≡ extrinsic_base_weight W
  limits-base_extrinsic c =
      ap (λ w. w.base_extrinsic) (limits_last c)
      ∙ keeps_base B.operational (with_operational_limit W P A B max_pov_size) for_normal c
          (λ w. refl)
      ∙ keeps_base B.normal (with_normal_limit W P A B max_pov_size) for_all c (λ w. refl)
      ∙ ap (λ w. w.base_extrinsic) (per_class-for_all c)

  -- Calls that are neither normal nor operational have no limit but those that the builder begins
  -- with: only the base weight of an extrinsic is set.
  pub limits_other :
      (c : B.DispatchClass)
      → c ≢ B.normal
      → c ≢ B.operational
      → limits c ≡ record (B.per_class B.builder c) { base_extrinsic = extrinsic_base_weight W }
  limits_other c n o =
      limits_last c
      ∙ off_class B.operational _ for_normal c o
      ∙ off_class B.normal _ for_all c n
      ∙ per_class-for_all c

  limits-normal :
      limits B.normal ≡ with_normal_limit W P A B max_pov_size (B.per_class for_all B.normal)
  limits-normal =
      limits_last B.normal
      ∙ off_class B.operational _ for_normal B.normal B.normal-operational
      ∙ at_class B.normal _ for_all

  limits-operational :
      limits B.operational
      ≡ with_operational_limit W P A B max_pov_size (B.per_class for_normal B.operational)
  limits-operational = limits_last B.operational ∙ at_class B.operational _ for_normal

  -- Normal calls take at most three quarters of the time of the largest block, which is two
  -- seconds; operational calls may fill it all, and what is reserved for them is just what the
  -- normal calls leave, in time and in proof size; the messages of the sibling chains and of the
  -- relay chain have as much time reserved each.
  pub limits-reserve :
      (n : Weight) × (r : Weight) × (((limits B.normal).max_total ≡ some n)
        × ((limits B.operational).max_total ≡ some most)
        × ((limits B.operational).reserved ≡ some r)
        × (ref_time most ≡ 2 * W.weight_ref_time_per_second)
        × (ref_time n * 4 ≡ ref_time most * 3)
        × (ref_time n + ref_time r ≡ ref_time most)
        × (proof_size n + proof_size r ≡ proof_size most)
        × (ref_time (reserved_xcmp_weight W P A B max_pov_size) ≡ ref_time r)
        × (ref_time (reserved_dmp_weight W P A B max_pov_size) ≡ ref_time r))
  limits-reserve = (
    normal_most,
    rest,
    (
      ap (λ w. w.max_total) limits-normal,
      ap (λ w. w.max_total) limits-operational,
      ap (λ w. w.reserved) limits-operational,
      rw (ref_time-most, W.per_second_lem) refl,
      rw (ref_time-most, ref_time-normal_most) refl,
      rw (ref_time-most, ref_time-normal_most, ref_time-rest) refl,
      proof_size-rest,
      A.ref_time-saturating_div most 4 (omega arith) ∙ rw (ref_time-most, ref_time-rest) refl,
      A.ref_time-saturating_div most 4 (omega arith) ∙ rw (ref_time-most, ref_time-rest) refl,
    ),
  )
