-- ===== src/Frame/Origin.antt =====
-- `frame_system::ensure_signed`: the origins of a runtime, and its accounts.
use swarm_robotics_parachain.Common.{◌≡◌, Option, some}

pub record Origins : Type 1 where
  pub RuntimeOrigin : Type 0
  pub AccountId : Type 0
  pub signed : AccountId → RuntimeOrigin
  -- `none` is `Err(BadOrigin)`.
  pub ensure_signed : RuntimeOrigin → Option AccountId
  pub ensure_signed-signed : (who : AccountId) → ensure_signed (signed who) ≡ some who
  pub ensure_signed_sound :
      (origin : RuntimeOrigin) (who : AccountId)
      → ensure_signed origin ≡ some who
      → origin ≡ signed who
