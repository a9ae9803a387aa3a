-- ===== src/Broker/SingleActive/Sends.antt =====
-- What sending does to a consumer's queue and permits, for the loops of exclusive.rs.
use pulsar_lite.Prelude.{Bool, false, [], ◌∷◌, ◌++◌, if◌then◌else◌, ◌≡◌, ap, sym, subst, ◌∙◌, arith}
use pulsar_lite.ManagedLedger.Position.{StoredMessage}
use pulsar_lite.Broker.ConsumerDispatch.{
  ConsumerState, PendingMessage, send_message_with_sticky_hash, track_message_dispatched,
  remove_pending_ack,
}
use pulsar_lite.Broker.PendingAcks.{PendingAck}
use pulsar_lite.Broker.SingleActive.Permits.{accepts, sent-permits, refused-accepts}

abbrev pub text : StoredMessage → PendingMessage
text e = record {
  message_id = e.message_id;
  metadata = e.metadata;
  payload = e.payload;
  redelivery_count = 0;
}

-- A message that is sent stands at the end of the channel; one that is refused does not.
pub sent-queue :
    (s : ConsumerState) (m : PendingMessage) (ack : PendingAck)
    → (send_message_with_sticky_hash s m ack).0.queue
      ≡ (if (send_message_with_sticky_hash s m ack).1 then s.queue ++ m ∷ [] else s.queue)
unfolding send_message_with_sticky_hash track_message_dispatched remove_pending_ack
sent-queue s m ack = ground arith

pub enqueued-queue :
    (s : ConsumerState) (m : PendingMessage) (ack : PendingAck) (r : ConsumerState × Bool)
    → send_message_with_sticky_hash s m ack ≡ r
    → r.0.queue ≡ (if r.1 then s.queue ++ m ∷ [] else s.queue)
enqueued-queue s m ack r h =
    subst (λ (x : ConsumerState × Bool). x.0.queue ≡ (if x.1 then s.queue ++ m ∷ [] else s.queue)) h
      (sent-queue s m ack)

pub enqueued-permits :
    (s : ConsumerState) (m : PendingMessage) (ack : PendingAck) (r : ConsumerState × Bool)
    → send_message_with_sticky_hash s m ack ≡ r
    → r.0.available_permits ≡ s.available_permits
enqueued-permits s m ack r h =
    ap (λ (x : ConsumerState × Bool). x.0.available_permits) (sym h) ∙ sent-permits s m ack

pub enqueued-accepts :
    (s : ConsumerState) (m : PendingMessage) (ack : PendingAck) (s' : ConsumerState)
    → send_message_with_sticky_hash s m ack ≡ (s', false)
    → accepts s' ≡ false
enqueued-accepts s m ack s' h =
    ap (λ (x : ConsumerState × Bool). accepts x.0) (sym h)
    ∙ refused-accepts s m ack (ap (λ (x : ConsumerState × Bool). x.1) h)
