-- ===== src/Swarm/Errors.antt =====
-- When a call succeeds, and what an error leaves behind.
use swarm_robotics_parachain.Common.{◌<◌, ◌≡◌, ◌≢◌, ◌↔◌, true, none, some, [], length, arith}
use swarm_robotics_parachain.Frame.Dispatch.{ok, panic}
use swarm_robotics_parachain.Swarm.Types.{Config, Deps, State, Call, registers, enqueues, pulls}
use swarm_robotics_parachain.Swarm.{dispatch}
use swarm_robotics_parachain.Swarm.Branch.{
  queued, Outcome, Branch, unsigned, registered, full, enqueued, unknown, drained, pulled,
  dispatch-Branch,
}

module _ {T : Config} (F : Deps T) where
  open F use {origins, robots}
  open origins use {RuntimeOrigin, AccountId, ensure_signed, signed}

  -- What a signed call needs of the state.
  abbrev pub Admits : State F → Call T → Type 0
  Admits s (registers robot_id) = Unit {0}
  Admits s (enqueues command) = length (queued F s) < T.max_global_commands
  Admits s (pulls robot_id) =
      (robots.contains_key s.registered_robots robot_id ≡ true) × (queued F s ≢ [])

  Branch-noop :
      {origin : RuntimeOrigin} {s : State F} {o : Outcome F} (c : Call T)
      → Branch F origin s o c
      → o.0 ≢ ok tt
      → (o.1 ≡ s) × (o.0 ≢ panic)
  Branch-noop c (unsigned e p) h = ground arith
  Branch-noop _ (registered r w e p) h = ground arith
  Branch-noop _ (full d w e n p) h = ground arith
  Branch-noop _ (enqueued d w v e n q p) h = ground arith
  Branch-noop _ (unknown r w e n p) h = ground arith
  Branch-noop _ (drained r w e n q p) h = ground arith
  Branch-noop _ (pulled r w d v e n q p) h = ground arith

  -- A call that does not return `Ok` returns an error and leaves the whole storage, events
  -- included, as it was; no call panics.
  pub dispatch_noop :
      (origin : RuntimeOrigin) (c : Call T) (s : State F)
      → (dispatch F origin c s).0 ≢ ok tt
      → ((dispatch F origin c s).1 ≡ s) × ((dispatch F origin c s).0 ≢ panic)
  dispatch_noop origin c s h = Branch-noop c (dispatch-Branch F origin c s) h

  abbrev pub IsSigned : RuntimeOrigin → Type 0
  IsSigned origin = (who : AccountId) × (origin ≡ signed who)

  not-IsSigned : {origin : RuntimeOrigin} → ensure_signed origin ≡ none → ¬ IsSigned origin
  not-IsSigned e (who, p) = cc (origins.ensure_signed-signed who)

  IsSigned-of_eq :
      (origin : RuntimeOrigin) (who : AccountId) → ensure_signed origin ≡ some who → IsSigned origin
  IsSigned-of_eq origin who e = (who, origins.ensure_signed_sound origin who e)

  Branch-ok_iff :
      {origin : RuntimeOrigin} {s : State F} {o : Outcome F} (c : Call T)
      → Branch F origin s o c
      → (o.0 ≡ ok tt) ↔ (IsSigned origin × Admits s c)
  Branch-ok_iff c (unsigned e p) = (λ h. ground arith, λ h. absurd (not-IsSigned e h.0))
  Branch-ok_iff {origin} _ (registered r w e p) =
      (λ h. (IsSigned-of_eq origin w e, tt), λ h. ground arith)
  Branch-ok_iff _ (full d w e n p) = (λ h. ground arith, λ h. absurd (omega arith))
  Branch-ok_iff {origin} _ (enqueued d w v e n q p) =
      (λ h. (IsSigned-of_eq origin w e, n), λ h. ground arith)
  Branch-ok_iff _ (unknown r w e n p) = (λ h. ground arith, λ h. ground arith)
  Branch-ok_iff _ (drained r w e n q p) = (λ h. ground arith, λ h. absurd (h.1.1 q))
  Branch-ok_iff {origin} _ (pulled r w d v e n q p) =
      (λ h. (IsSigned-of_eq origin w e, (n, λ z. ground arith)), λ h. ground arith)

  -- A call succeeds exactly when its origin is signed and the state admits it: always for a
  -- registration, below the capacity for a command to enqueue, and for a pull if the robot is
  -- registered and the queue is not empty.
  pub dispatch-ok_iff :
      (origin : RuntimeOrigin) (c : Call T) (s : State F)
      → ((dispatch F origin c s).0 ≡ ok tt) ↔ (IsSigned origin × Admits s c)
  dispatch-ok_iff origin c s = Branch-ok_iff c (dispatch-Branch F origin c s)
