-- ===== src/Node/Rpc.antt =====
-- node/src/rpc.rs: the RPC methods that the node serves beside those of sc_rpc.
mod Examples
use mathlib.Core.List.{Memᴰ}
use Prim.Native.String.{String}
use swarm_robotics_parachain.Common.{List, [], ◌⊎◌, inl, inr, ◌≡◌, refl, ◌↔◌, subst}

abbrev pub AreApart : List String → List String → Type 0
AreApart a b = (n : String) → Memᴰ n a → ¬ Memᴰ n b

-- Every method of two lists, and no other.
abbrev pub AreJoined : List String → List String → List String → Type 0
AreJoined a b c = (n : String) → Memᴰ n c ↔ (Memᴰ n a ⊎ Memᴰ n b)

-- jsonrpsee, and the two RPC servers of the SDK. A merge fails if a method is there already.
pub record RpcCrates : Type 1 where
  pub Client : Type 0
  pub Pool : Type 0
  pub RegisterMethodError : Type 0
  -- `Box<dyn std::error::Error + Send + Sync>`
  pub BoxError : Type 0
  pub box_error : RegisterMethodError → BoxError
  pub RpcModule : Type 0
  pub new : RpcModule
  pub merge : RpcModule → RpcModule → RegisterMethodError ⊎ RpcModule
  -- `System::new(client, pool).into_rpc()`
  pub system_rpc : Client → Pool → RpcModule
  -- `TransactionPayment::new(client).into_rpc()`
  pub transaction_payment_rpc : Client → RpcModule
  pub methods : RpcModule → List String
  pub methods-new : methods new ≡ []
  pub merge-AreApart :
      (a b : RpcModule)
      → AreApart (methods a) (methods b)
      → (m : RpcModule) × ((merge a b ≡ inr m) × AreJoined (methods a) (methods b) (methods m))
  pub merge-common :
      (a b : RpcModule) (n : String)
      → Memᴰ n (methods a)
      → Memᴰ n (methods b)
      → (e : RegisterMethodError) × (merge a b ≡ inl e)

module _ (R : RpcCrates) where
  open R use {RpcModule, BoxError}

  pub record FullDeps : Type 0 where
    pub client : R.Client
    pub pool : R.Pool

  -- The operator `?` on the result of a merge.
  abbrev pub then_with :
      R.RegisterMethodError ⊎ RpcModule → (RpcModule → BoxError ⊎ RpcModule) → BoxError ⊎ RpcModule
  then_with (inl e) f = inl (R.box_error e)
  then_with (inr m) f = f m

  pub create_full : FullDeps → BoxError ⊎ RpcModule
  create_full deps =
      then_with (R.merge R.new (R.system_rpc (deps.client) (deps.pool)))
        (λ m. then_with (R.merge m (R.transaction_payment_rpc (deps.client))) (λ m'. inr m'))

  map_left : {A C D : Type 0} → (A → C) → A ⊎ D → C ⊎ D
  map_left f (inl a) = inl (f a)
  map_left f (inr b) = inr b

  new-AreApart : (b : List String) → AreApart (R.methods R.new) b
  new-AreApart b n m = elim (subst (λ l. Memᴰ n l) R.methods-new m) [ ]

  module _ (deps : FullDeps) where
    abbrev pub system_methods : List String
    system_methods = R.methods (R.system_rpc (deps.client) (deps.pool))

    abbrev pub payment_methods : List String
    payment_methods = R.methods (R.transaction_payment_rpc (deps.client))

    -- The module after the first merge.
    first_merge :
        (m : RpcModule) × ((R.merge R.new (R.system_rpc (deps.client) (deps.pool)) ≡ inr m)
          × ((n : String) → Memᴰ n (R.methods m) ↔ Memᴰ n system_methods))
    first_merge =
        let (m, (e, j)) =
          R.merge-AreApart R.new (R.system_rpc (deps.client) (deps.pool))
            (new-AreApart system_methods) in
        (m, (e, λ n. (λ q. of_system n ((j n).0 q), λ q. (j n).1 (inr q))))
      where
        of_system :
            (n : String) → Memᴰ n (R.methods R.new) ⊎ Memᴰ n system_methods → Memᴰ n system_methods
        of_system n (inl q) = elim (subst (λ l. Memᴰ n l) R.methods-new q) [ ]
        of_system n (inr q) = q

    abbrev payment : RpcModule
    payment = R.transaction_payment_rpc (deps.client)

    -- If the two servers of the SDK have no method in common, the node's RPC module is created, and
    -- it has every method of both and no other.
    pub create_full-AreJoined :
        AreApart system_methods payment_methods
        → (m : RpcModule) × ((create_full deps ≡ inr m)
            × AreJoined system_methods payment_methods (R.methods m))
    unfolding create_full
    create_full-AreJoined h =
        let (m, (e, j)) = first_merge in
        let (m', (e', j')) = R.merge-AreApart m payment (λ n q. h n ((j n).0 q)) in
        (
          m',
          (
            rw (e, e') refl,
            λ n. (λ q. map_left (j n).0 ((j' n).0 q), λ q. (j' n).1 (map_left (j n).1 q)),
          ),
        )

    -- If they have a method in common, the error of the second merge is returned.
    pub create_full_common :
        (n : String)
        → Memᴰ n system_methods
        → Memᴰ n payment_methods
        → (e : R.RegisterMethodError) × (create_full deps ≡ inl (R.box_error e))
    unfolding create_full
    create_full_common n s p =
        let (m, (e, j)) = first_merge in
        let (x, e') = R.merge-common m payment n ((j n).1 s) p in (x, rw (e, e') refl)
