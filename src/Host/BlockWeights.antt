-- ===== src/Host/BlockWeights.antt =====
-- The arithmetic of weights as pairs of numbers, and a builder that keeps the settings of each class:
-- instances of `WeightArithmetic` and `BlockWeightsBuilder`.
use mathlib.Core.List.{Memᴰ}
use swarm_robotics_parachain.Common.{
  ℕ, ◌-◌, ◌*◌, ◌/◌, ◌≤◌, ◌≡◌, ◌≢◌, refl, ◌∙◌, min, none, some, List, [], ◌∷◌, arith,
}
use swarm_robotics_parachain.Frame.Fee.{billion}
use swarm_robotics_parachain.Frame.BlockWeights.{
  WeightArithmetic, WeightsPerClass, BlockWeightsBuilder,
}
use swarm_robotics_parachain.Host.Weight.{host_weights, host_perbills}

-- A product by parts of a billion, rounded down, and at most the number itself.
abbrev part : ℕ → ℕ → ℕ
part p n = min (p * n / billion) n

pub part-even : (p w n : ℕ) → p ≤ billion → p * w ≡ n * billion → part p w ≡ n
part-even p w n h e = grind arith

abbrev pub host_arithmetic : WeightArithmetic host_weights host_perbills
host_arithmetic = record {
  from_percent = λ n. n * 10_000_000;
  parts-from_percent = λ n h. refl;
  scale = λ p w. (part p w.0, part p w.1);
  subtract = λ a b. (a.0 - b.0, a.1 - b.1);
  saturating_div = λ w n. (w.0 / n, w.1 / n);
  ref_time-scale = λ p w n h e. part-even p w.0 n h e;
  ref_time-scale_le = λ p w. omega arith;
  proof_size-scale_le = λ p w. omega arith;
  ref_time-subtract = λ a b h k. refl;
  proof_size-subtract = λ a b h k. refl;
  ref_time-saturating_div = λ w n h. refl;
  proof_size-saturating_div = λ w n h. refl;
}

pub data HostClass : Type 0 where
  normal : HostClass
  operational : HostClass
  mandatory : HostClass

pub HostClass-discrete : Discrete HostClass
HostClass-discrete = hlevel

abbrev HostBuilder : Type 0
HostBuilder = HostClass → WeightsPerClass host_weights

abbrev change_if : {A B : Type 0} → Dec A → B → B → B
change_if (yes a) x y = x
change_if (no n) x y = y

-- The settings of a class changed once, if the class is among some.
abbrev change :
    List HostClass
    → (WeightsPerClass host_weights → WeightsPerClass host_weights)
    → HostBuilder
    → HostBuilder
change [] f b c = b c
change (d ∷ ds) f b c = change_if (HostClass-discrete c d) (f (b c)) (change ds f b c)

change_if_yes : {A B : Type 0} (d : Dec A) (x y : B) → A → change_if d x y ≡ x
change_if_yes (yes e) x y a = refl
change_if_yes (no n) x y a = absurd (n a)

change_if_no : {A B : Type 0} (d : Dec A) (x y : B) → ¬ A → change_if d x y ≡ y
change_if_no (yes e) x y n = absurd (n e)
change_if_no (no ne) x y n = refl

change_if_same : {A B : Type 0} (d : Dec A) (x y : B) → y ≡ x → change_if d x y ≡ x
change_if_same (yes e) x y h = refl
change_if_same (no n) x y h = h

pub change_in :
    (cs : List HostClass) (f : WeightsPerClass host_weights → WeightsPerClass host_weights)
    (b : HostBuilder) (c : HostClass)
    → Memᴰ c cs
    → change cs f b c ≡ f (b c)
change_in [] f b c m = elim m [ ]
change_in (d ∷ ds) f b c (Memᴰ.head e) = change_if_yes (HostClass-discrete c d) _ _ e
change_in (d ∷ ds) f b c (Memᴰ.tail m) =
    change_if_same (HostClass-discrete c d) _ _ (change_in ds f b c m)

pub change_out :
    (cs : List HostClass) (f : WeightsPerClass host_weights → WeightsPerClass host_weights)
    (b : HostBuilder) (c : HostClass)
    → ¬ Memᴰ c cs
    → change cs f b c ≡ b c
change_out [] f b c n = refl
change_out (d ∷ ds) f b c n =
    change_if_no (HostClass-discrete c d) _ _ (λ e. n (Memᴰ.head e))
    ∙ change_out ds f b c (λ m. n (Memᴰ.tail m))

pub normal-operational : normal ≢ operational
normal-operational e = absurd (cc e)

pub Memᴰ-all : (c : HostClass) → Memᴰ c (normal ∷ operational ∷ mandatory ∷ [])
Memᴰ-all normal = Memᴰ.head refl
Memᴰ-all operational = Memᴰ.tail (Memᴰ.head refl)
Memᴰ-all mandatory = Memᴰ.tail (Memᴰ.tail (Memᴰ.head refl))

abbrev pub host_builder : BlockWeightsBuilder host_weights host_perbills
host_builder = record {
  DispatchClass = HostClass;
  normal = normal;
  operational = operational;
  all = normal ∷ operational ∷ mandatory ∷ [];
  class_eq = HostClass-discrete;
  normal-operational = normal-operational;
  Memᴰ-all = Memᴰ-all;
  Builder = HostBuilder;
  BlockWeights = HostBuilder;
  builder = λ c. record {
    base_extrinsic = (0, 0);
    max_extrinsic = none;
    max_total = none;
    reserved = none;
  };
  base_block = λ w b. b;
  for_class = change;
  avg_block_initialization = λ p b. b;
  build_or_panic = λ b. some b;
  max_block = λ b. (2_000_000_000_000, 5_242_880);
  per_class = λ b c. b c;
  per_class-base_block = λ w b c. refl;
  per_class-for_class = change_in;
  per_class-for_class_other = change_out;
  per_class-avg_block_initialization = λ p b c. refl;
}
