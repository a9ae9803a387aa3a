-- ===== src/Broker/KeyShared/Channels.antt =====
-- How many messages stand in the channels of the consumers of key_shared.rs.
use pulsar_lite.Prelude.{
  ℕ, ◌+◌, Bool, true, Option, none, some, List, [], ◌∷◌, length, if◌then◌else◌, ◌≡◌, refl, ap, sym,
  subst, ◌∙◌, arith, Bool-cases, Option-cases, inl, inr, length-append, some_injective,
}
use pulsar_lite.Prelude.Maps.{get, insert_entry, nat_key}
use pulsar_lite.Broker.ConsumerDispatch.{
  ConsumerState, PendingMessage, try_use_permits, send_message_with_sticky_hash,
}
use pulsar_lite.Broker.SingleActive.Sends.{sent-queue}
use pulsar_lite.Broker.PendingAcks.{PendingAck}
use pulsar_lite.Broker.KeyShared.{Consumer}
use pulsar_lite.Broker.KeyShared.Batch.{KeySharedDispatcher, state_of}

unfoldable pub queued_in : List (ℕ × ConsumerState) → ℕ
queued_in [] = 0
queued_in ((_, s) ∷ rest) = length s.queue + queued_in rest

-- The messages in all channels.
abbrev pub in_channels : KeySharedDispatcher → ℕ
in_channels d = queued_in d.states

pub queued_in-insert_entry :
    (id : ℕ) (s old : ConsumerState) (m : List (ℕ × ConsumerState))
    → get id m ≡ some old
    → queued_in (insert_entry id s m) + length old.queue ≡ queued_in m + length s.queue
unfolding queued_in get insert_entry
queued_in-insert_entry id s old [] h = absurd (cc)
queued_in-insert_entry id s old ((j, w) ∷ m) h = ground (arith, queued_in-insert_entry id s old m)

-- A consumer that is there has another state, with as many messages or more.
pub grown :
    (id n : ℕ) (s old : ConsumerState) (m : List (ℕ × ConsumerState))
    → get id m ≡ some old
    → length s.queue ≡ length old.queue + n
    → queued_in (insert_entry id s m) ≡ queued_in m + n
grown id n s old m h more = omega (arith, queued_in-insert_entry id s old m h, more)

pub get-insert_self :
    (id : ℕ) (s : ConsumerState) (m : List (ℕ × ConsumerState))
    → get id (insert_entry id s m) ≡ some s
unfolding get insert_entry
get-insert_self id s [] = ground arith
get-insert_self id s ((j, w) ∷ m) = ground (arith, get-insert_self id s m)

pub used-queue : (s : ConsumerState) (n : ℕ) → (try_use_permits s n).0.queue ≡ s.queue
unfolding try_use_permits
used-queue s n = ground arith

-- Sending adds one message to the channel, or none.
pub sent-length :
    (s : ConsumerState) (m : PendingMessage) (ack : PendingAck)
    → length (send_message_with_sticky_hash s m ack).0.queue
      ≡ length s.queue + (if (send_message_with_sticky_hash s m ack).1 then 1 else 0)
sent-length s m ack =
    let more = length-append s.queue (m ∷ []) in
    elim (Bool-cases (send_message_with_sticky_hash s m ack).1) [
      | inl y ↦ ap length (sent-queue s m ack) ∙ rw (y, if◌then◌else◌) (omega (arith, more))
      | inr y ↦ ap length (sent-queue s m ack) ∙ rw (y, if◌then◌else◌) (omega arith)
    ]

pub state_of-get :
    (d : KeySharedDispatcher) (o : Option Consumer) (id : ℕ) (s : ConsumerState)
    → state_of d o ≡ some (id, s)
    → get id d.states ≡ some s
state_of-get d none id s h = absurd (cc)
state_of-get d (some c) id s h = elim (Option-cases (get c.consumer_id d.states)) [
  | inl gone ↦ absurd (ground arith)
  | inr (old, there) ↦
      let same : some (c.consumer_id, old) ≡ some (id, s) = sym (rw (there, state_of) refl) ∙ h in
      subst (λ (x : ℕ × ConsumerState). get x.0 d.states ≡ some x.1)
        (some_injective (c.consumer_id, old) (id, s) same) there
]

-- A permit is used, and then a message is sent: one more stands in the channels.
pub one_sent :
    (id n : ℕ) (m : PendingMessage) (ack : PendingAck) (before used sent : ConsumerState)
    (states : List (ℕ × ConsumerState))
    → get id states ≡ some before
    → try_use_permits before n ≡ (used, true)
    → send_message_with_sticky_hash used m ack ≡ (sent, true)
    → queued_in (insert_entry id sent (insert_entry id used states)) ≡ queued_in states + 1
one_sent id n m ack before used sent states there uses sends =
    let same : used.queue ≡ before.queue =
      ap (λ (r : ConsumerState × Bool). r.0.queue) (sym uses) ∙ used-queue before n in
    let kept = ap length same in
    let longer : length sent.queue ≡ length used.queue + 1 =
      subst
        (λ (r : ConsumerState × Bool).
          length r.0.queue ≡ length used.queue + (if r.1 then 1 else 0))
        sends (sent-length used m ack) in
    let first = grown id 0 used before states there (omega (arith, kept)) in
    grown id 1 sent used (insert_entry id used states) (get-insert_self id used states) longer
    ∙ omega (arith, first)
