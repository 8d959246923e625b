-- ===== src/Node/Rpc/Examples.antt =====
-- The node's RPC module with modules that are lists of methods.
use mathlib.Core.List.{Memᴰ}
use mathlib.Core.List.Memᴰ
use Prim.Native.String.{String}
use text.Mathlib.Text.{◌==◌ as str_eq}
use text.Mathlib.TextEquality.{eq_iff}
use swarm_robotics_parachain.Common.{
  ℕ, false, Bool-cases, List, [], ◌∷◌, ◌++◌, ◌⊎◌, inl, inr, ◌≡◌, refl, sym, ◌∙◌, subst,
}
use swarm_robotics_parachain.Node.Rpc.{
  AreApart, AreJoined, RpcCrates, FullDeps, create_full, system_methods, payment_methods,
  create_full-AreJoined,
}

has : (n : String) (b : List String) → Memᴰ n b ⊎ (¬ Memᴰ n b)
has n [] = inr (λ m. elim m [ ])
has n (x ∷ b) = elim (Bool-cases (str_eq n x)) [
  | inl e ↦ inl (Memᴰ.head ((eq_iff n x).0 e))
  | inr e ↦ elim (has n b) [ inl m ↦ inl (Memᴰ.tail m) | inr k ↦ inr (λ m. absent n x b e k m) ]
]
  where
    absent : (n x : String) (b : List String) → str_eq n x ≡ false → ¬ Memᴰ n b → ¬ Memᴰ n (x ∷ b)
    absent n x b e k (Memᴰ.head h) = absurd (cc (e, (eq_iff n x).1 h))
    absent n x b e k (Memᴰ.tail m) = k m

common : (a b : List String) → AreApart a b ⊎ ((n : String) × (Memᴰ n a × Memᴰ n b))
common [] b = inl (λ n m. elim m [ ])
common (x ∷ a) b = elim (has x b) [
  | inl m ↦ inr (x, (Memᴰ.head refl, m))
  | inr k ↦ elim (common a b) [
    | inl apart ↦ inl (λ n m. apart_from x a b k apart n m)
    | inr (n, (m, m')) ↦ inr (n, (Memᴰ.tail m, m'))
  ]
]
  where
    apart_from : (x : String) (a b : List String) → ¬ Memᴰ x b → AreApart a b → AreApart (x ∷ a) b
    apart_from x a b k apart n (Memᴰ.head e) m' = k (subst (λ t. Memᴰ t b) e m')
    apart_from x a b k apart n (Memᴰ.tail m) m' = apart n m m'

Memᴰ-append : (a b : List String) → AreJoined a b (a ++ b)
Memᴰ-append a b n = (
  λ m. Memᴰ.append_cases a m,
  λ x. elim x [ inl m ↦ Memᴰ.append_left b m | inr m ↦ Memᴰ.append_right a m ],
)

abbrev merged :
    (a b : List String) → AreApart a b ⊎ ((n : String) × (Memᴰ n a × Memᴰ n b)) → ℕ ⊎ List String
merged a b (inl apart) = inr (a ++ b)
merged a b (inr n) = inl 0

merged_apart :
    (a b : List String) (c : AreApart a b ⊎ ((n : String) × (Memᴰ n a × Memᴰ n b)))
    → AreApart a b
    → merged a b c ≡ inr (a ++ b)
merged_apart a b (inl x) h = refl
merged_apart a b (inr (n, (m, m'))) h = absurd (h n m m')

merged_common :
    (a b : List String) (c : AreApart a b ⊎ ((n : String) × (Memᴰ n a × Memᴰ n b))) (n : String)
    → Memᴰ n a
    → Memᴰ n b
    → merged a b c ≡ inl 0
merged_common a b (inl apart) n m m' = absurd (apart n m m')
merged_common a b (inr x) n m m' = refl

-- A client and a pool are the methods that are served of them.
abbrev lists : RpcCrates
lists = record {
  Client = List String;
  Pool = List String;
  RegisterMethodError = ℕ;
  BoxError = ℕ;
  box_error = λ e. e;
  RpcModule = List String;
  new = [];
  merge = λ a b. merged a b (common a b);
  system_rpc = λ client pool. pool;
  transaction_payment_rpc = λ client. client;
  methods = λ m. m;
  methods-new = refl;
  merge-AreApart = λ a b h. (a ++ b, (merged_apart a b (common a b) h, Memᴰ-append a b));
  merge-common = λ a b n m m'. (0, merged_common a b (common a b) n m m');
}

abbrev deps : FullDeps lists
deps = record {
  client = "payment_queryInfo" ∷ "payment_queryFeeDetails" ∷ [];
  pool = "system_accountNextIndex" ∷ "system_dryRun" ∷ [];
}

differ : {s t : String} → str_eq s t ≡ false → ¬ (s ≡ t)
differ {s} {t} d e = absurd (cc (d, (eq_iff s t).1 e))

deps-AreApart : AreApart (system_methods lists deps) (payment_methods lists deps)
deps-AreApart n (Memᴰ.head e) (Memᴰ.head f) = differ refl (sym e ∙ f)
deps-AreApart n (Memᴰ.head e) (Memᴰ.tail (Memᴰ.head f)) = differ refl (sym e ∙ f)
deps-AreApart n (Memᴰ.tail (Memᴰ.head e)) (Memᴰ.head f) = differ refl (sym e ∙ f)
deps-AreApart n (Memᴰ.tail (Memᴰ.head e)) (Memᴰ.tail (Memᴰ.head f)) = differ refl (sym e ∙ f)
deps-AreApart n (Memᴰ.head e) (Memᴰ.tail (Memᴰ.tail m)) = elim m [ ]
deps-AreApart n (Memᴰ.tail (Memᴰ.head e)) (Memᴰ.tail (Memᴰ.tail m)) = elim m [ ]
deps-AreApart n (Memᴰ.tail (Memᴰ.tail m)) k = elim m [ ]

create_full-AreJoined_example :
    (m : List String) × ((create_full lists deps ≡ inr m)
      × AreJoined (system_methods lists deps) (payment_methods lists deps) m)
create_full-AreJoined_example = create_full-AreJoined lists deps deps-AreApart
