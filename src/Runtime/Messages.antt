-- ===== src/Runtime/Messages.antt =====
-- runtime/src/configs/mod.rs: how messages of other chains are queued and executed, as the
-- configurations of the parachain system, the message queue and the queue of sibling chains put the
-- pallets together.
pub mod Arrivals
pub mod Unpaid
mod Examples
use swarm_robotics_parachain.Common.{ℕ, Bool, true, false}
use swarm_robotics_parachain.Frame.Executor.{Executors}
use swarm_robotics_parachain.Frame.Messages.{MessageOrigin, parent, MessageQueues}
use swarm_robotics_parachain.Frame.Origin.{Origins}
use swarm_robotics_parachain.Frame.Weight.{Weights}
use swarm_robotics_parachain.Frame.Xcm.{XcmCrates, Barriers}
use swarm_robotics_parachain.Frame.XcmOrigin.{XcmOrigins}
use swarm_robotics_parachain.Frame.XcmRouter.{XcmRouters}
use swarm_robotics_parachain.Runtime.Xcm.Executor.{xcm_config}

module _ {X : XcmCrates} {S Outcome : Type 0} (Q : MessageQueues X S Outcome) where
  open Q use {Bytes, Footprint, Meter, ProcessResult}

  abbrev pub relay_origin : MessageOrigin
  relay_origin = parent

  -- `DmpQueue` of the parachain system.
  unfoldable pub dmp_queue : Bytes → S → S
  dmp_queue = Q.enqueue_with_origin Q.enqueue_message relay_origin

  -- `XcmpQueue` of the pallet of that name.
  unfoldable pub sibling_queue : Bytes → ℕ → S → S
  sibling_queue = Q.transform_origin Q.enqueue_message Q.para_id_to_sibling

  abbrev pub queue_change_handler : MessageOrigin → Footprint → S → S
  queue_change_handler = Q.narrow_change_to_sibling Q.xcmp_on_queue_changed

  abbrev pub queue_paused_query : MessageOrigin → S → Bool
  queue_paused_query = Q.narrow_pause_to_sibling Q.xcmp_is_paused

-- `runtime_benchmarks` is whether the feature of that name is enabled.
module _ (X : XcmCrates) (O : Origins) (G : XcmOrigins X O) (R : XcmRouters X) (B : Barriers X)
    (W : Weights) (Asset S : Type 0) (E : Executors X O R W Asset S)
    (Q : MessageQueues X S E.Outcome) (parachain_id : ℕ) where
  open Q use {Bytes, Meter, ProcessResult}

  abbrev pub execute_message : X.Location → X.Message → X.Properties → S → E.Outcome × S
  execute_message = E.execute (xcm_config X O G R B W Asset S E parachain_id)

  unfoldable pub message_processor : Bool → Bytes → MessageOrigin → Meter → S → ProcessResult × S
  message_processor true = Q.noop_message_processor
  message_processor false = Q.process_xcm_message execute_message
