-- ===== src/Frame/StorageMap.antt =====
-- `StorageMap` of frame_support, under a hasher that keeps the key (`Blake2_128Concat`), so that
-- different keys have different places.
use swarm_robotics_parachain.Common.{◌≡◌, ◌≢◌, Bool, true, false}

pub record StorageMap (K V : Type 0) : Type 1 where
  pub Map : Type 0
  -- The map with no entry.
  pub empty : Map
  pub contains_key : Map → K → Bool
  pub insert : Map → K → V → Map
  pub contains_key-empty : (k : K) → contains_key empty k ≡ false
  pub contains_key-insert_self : (m : Map) (k : K) (v : V) → contains_key (insert m k v) k ≡ true
  pub contains_key-insert_ne :
      (m : Map) (k j : K) (v : V) → k ≢ j → contains_key (insert m k v) j ≡ contains_key m j
