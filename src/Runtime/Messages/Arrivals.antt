-- ===== src/Runtime/Messages/Arrivals.antt =====
-- In which order the messages of other chains wait.
use swarm_robotics_parachain.Common.{
  ℕ, ◌≡◌, sym, ◌∙◌, ap, List, [], ◌∷◌, ◌++◌, append-nil, append_assoc,
}
use swarm_robotics_parachain.Frame.Messages.{
  MessageOrigin, parent, sibling, MessageOrigin-discrete, MessageQueues,
}
use swarm_robotics_parachain.Frame.Xcm.{XcmCrates}
use swarm_robotics_parachain.Runtime.Messages.{relay_origin, dmp_queue, sibling_queue}

module _ {X : XcmCrates} {S Outcome : Type 0} (Q : MessageQueues X S Outcome) where
  open Q use {Bytes, enqueue_message, waiting}

  pub data Arrival : Type 0 where
    from_relay : Bytes → Arrival
    from_sibling : ℕ → Bytes → Arrival

  abbrev pub chain_of : Arrival → MessageOrigin
  chain_of (from_relay b) = parent
  chain_of (from_sibling id b) = sibling id

  abbrev pub message_of : Arrival → Bytes
  message_of (from_relay b) = b
  message_of (from_sibling id b) = b

  abbrev pub arrive : Arrival → S → S
  arrive (from_relay b) s = dmp_queue Q b s
  arrive (from_sibling id b) s = sibling_queue Q b id s

  unfoldable pub receive : List Arrival → S → S
  receive [] s = s
  receive (a ∷ later) s = receive later (arrive a s)

  abbrev pub kept : {A C : Type 0} → Dec A → C → List C → List C
  kept (yes e) c cs = c ∷ cs
  kept (no ne) c cs = cs

  -- The messages of a chain among those that arrive.
  abbrev pub messages_of : MessageOrigin → List Arrival → List Bytes
  messages_of o [] = []
  messages_of o (a ∷ later) =
      kept (MessageOrigin-discrete (chain_of a) o) (message_of a) (messages_of o later)

  arrive_lem : (a : Arrival) (s : S) → arrive a s ≡ enqueue_message (message_of a) (chain_of a) s
  unfolding dmp_queue sibling_queue
  arrive_lem (from_relay b) s = Q.enqueue_with_origin_lem enqueue_message (relay_origin Q) b s
  arrive_lem (from_sibling id b) s =
      Q.transform_origin_lem enqueue_message Q.para_id_to_sibling b id s
      ∙ ap (λ o. enqueue_message b o s) (Q.para_id_to_sibling_lem id)

  waiting-arrive :
      (a : Arrival) (o : MessageOrigin) (s : S) (bs : List Bytes)
      → (d : Dec (chain_of a ≡ o))
      → waiting (arrive a s) o ++ bs ≡ waiting s o ++ kept d (message_of a) bs
  waiting-arrive a o s bs (yes e) =
      ap (λ u. waiting u o ++ bs) (arrive_lem a s ∙ ap (λ q. enqueue_message (message_of a) q s) e)
      ∙ ap (λ u. u ++ bs) (Q.waiting-enqueue_message_self (message_of a) o s)
      ∙ append_assoc (waiting s o) (message_of a ∷ []) bs
  waiting-arrive a o s bs (no ne) =
      ap (λ u. waiting u o ++ bs) (arrive_lem a s)
      ∙ ap (λ u. u ++ bs) (Q.waiting-enqueue_message_ne (message_of a) (chain_of a) o s ne)

  -- After any arrivals from the relay chain and the sibling chains, the messages of a chain wait
  -- behind those that waited before, all of them, in the order in which they arrived, and with no
  -- message of another chain among them.
  pub waiting-receive :
      (later : List Arrival) (o : MessageOrigin) (s : S)
      → waiting (receive later s) o ≡ waiting s o ++ messages_of o later
  unfolding receive
  waiting-receive [] o s = sym (append-nil (waiting s o))
  waiting-receive (a ∷ later) o s =
      waiting-receive later o (arrive a s)
      ∙ waiting-arrive a o s (messages_of o later) (MessageOrigin-discrete (chain_of a) o)
