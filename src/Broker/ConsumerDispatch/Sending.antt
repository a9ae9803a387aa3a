-- ===== src/Broker/ConsumerDispatch/Sending.antt =====
-- Dispatch and its roll-back in consumer.rs.
use pulsar_lite.Prelude.{
  ℕ, suc, ◌+◌, ◌-◌, ◌%◌, leb, ◌<◌, Bool, true, false, none, some, List, [], ◌∷◌, ◌++◌, length, ltb,
  ◌≡◌, refl, ap, ◌∙◌, arith, if◌then◌else◌, Bool-cases, inl, inr,
}
use pulsar_lite.Prelude.Int.{pos, negsuc, lt_int, to_i32, wrap_i32, plus_int, minus_int, minus}
use pulsar_lite.Prelude.Maps.{get, insert_ordered, remove_absent, remove-insert_ordered}
use pulsar_lite.ManagedLedger.Position.{MessageId, id_key}
use pulsar_lite.Broker.PendingAcks.{
  PendingAck, PendingAcksMap, add_pending_ack, begin_add, finish_add, remove_pending,
}
use pulsar_lite.Broker.ConsumerDispatch.{
  PendingMessage, ConsumerState, try_use_permits, has_slot, track_message_dispatched,
  remove_pending_ack, send_message_with_sticky_hash, DispatchReservation, reserve_rest,
  try_reserve_dispatch, drop_reservation,
}

untracked_at :
    (inner : List (MessageId × PendingAck)) (closed : Bool) (id : MessageId) (ack : PendingAck)
    → get id inner ≡ none
    → (remove_pending (add_pending_ack (record { inner = inner; closed = closed }) id ack).0 id).0
      ≡ record { inner = inner; closed = closed }
unfolding remove_pending add_pending_ack begin_add finish_add
untracked_at inner true id ack fresh =
    let gone = remove_absent id inner fresh in λ i. record { inner = gone i; closed = true }
untracked_at inner false id ack fresh =
    let gone = remove-insert_ordered id ack inner fresh in
    λ i. record { inner = gone i; closed = false }

-- A message that was not pending is taken back.
untracked :
    (m : PendingAcksMap) (id : MessageId) (ack : PendingAck)
    → get id m.inner ≡ none
    → (remove_pending (add_pending_ack m id ack).0 id).0 ≡ m
untracked m id ack fresh = untracked_at m.inner m.closed id ack fresh

refused :
    (m : PendingAcksMap) (id : MessageId) (ack : PendingAck)
    → (add_pending_ack m id ack).1 ≡ false
    → (add_pending_ack m id ack).0 ≡ m
unfolding add_pending_ack begin_add finish_add
refused m id ack h = ground arith

-- The branches of a call that answers whether it has changed the state.
abbrev answer :
    Bool
    → Bool
    → Bool
    → ConsumerState
    → ConsumerState
    → ConsumerState
    → ConsumerState
    → ConsumerState × Bool
answer w t h ok lost left s =
    if w
    then (if t then (if h then (ok, true) else (lost, false)) else (left, false))
    else (s, false)

all_branches :
    (w t h : Bool) (ok lost left s : ConsumerState)
    → lost ≡ s
    → (t ≡ false → left ≡ s)
    → (answer w t h ok lost left s).1 ≡ false
    → (answer w t h ok lost left s).0 ≡ s
all_branches true true true ok lost left s l u e = absurd (ground arith)
all_branches true true false ok lost left s l u e = l
all_branches true false h ok lost left s l u e = u refl
all_branches false t h ok lost left s l u e = refl

-- For a message that is not pending, send_message_with_sticky_hash leaves the consumer as it was
-- when it answers false: when the connection is not writable, when the pending acknowledgements
-- are closed, and when the channel has no slot.
pub send_message_with_sticky_hash_lem :
    (s : ConsumerState) (message : PendingMessage) (ack : PendingAck)
    → get message.message_id s.pending_acks.inner ≡ none
    → (send_message_with_sticky_hash s message ack).1 ≡ false
    → (send_message_with_sticky_hash s message ack).0 ≡ s
unfolding send_message_with_sticky_hash track_message_dispatched remove_pending_ack
send_message_with_sticky_hash_lem s message ack fresh h =
    let back = untracked s.pending_acks message.message_id ack fresh in
    let kept = refused s.pending_acks message.message_id ack in
    all_branches s.is_writable (add_pending_ack s.pending_acks message.message_id ack).1
      (has_slot (track_message_dispatched s message.message_id ack).0)
      (record (track_message_dispatched s message.message_id ack).0 {
        queue = s.queue ++ message ∷ [];
      })
      (remove_pending_ack (track_message_dispatched s message.message_id ack).0 message.message_id)
      (track_message_dispatched s message.message_id ack).0 s
      (λ i. record s { pending_acks = back i })
      (λ e. let same = kept e in λ i. record s { pending_acks = same i }) h

low_i32 : (n : ℕ) → n < 2147483648 → to_i32 n ≡ pos n
low_i32 n h = let low : n % 4294967296 ≡ n = omega arith in rw low (ground arith)

negative_i32 : (n : ℕ) → n < 2147483648 → wrap_i32 (negsuc n) ≡ negsuc n
negative_i32 n h =
    let low : n % 4294967296 ≡ n = omega arith in
    let high : (4294967295 - n) % 4294967296 ≡ 4294967295 - n = omega arith in
    rw (low, to_i32, high)
      (let back : 4294967296 - (4294967295 - n) - 1 ≡ n = omega arith in ground arith)

-- An `i32` result that fits is what it is.
fits_i32 : (a b : ℕ) → a < 2147483648 → b < 2147483648 → wrap_i32 (minus a b) ≡ minus a b
fits_i32 a b h k = elim (Bool-cases (leb b a)) [
  | inl e ↦ rw (e, minus, if◌then◌else◌) (low_i32 (a - b) (omega arith))
  | inr e ↦ rw (e, minus, if◌then◌else◌) (negative_i32 (b - a - 1) (omega arith))
]

same_minus : (a b c d : ℕ) → a + d ≡ c + b → minus a b ≡ minus c d
same_minus a b c d h = elim (Bool-cases (leb b a)) [
  | inl e ↦
      let also : leb d c ≡ true = ground arith in
      let same : a - b ≡ c - d = ground arith in rw (minus, e, also, if◌then◌else◌) (ap pos same)
  | inr e ↦
      let also : leb d c ≡ false = ground arith in
      let same : b - a - 1 ≡ d - c - 1 = ground arith in
      rw (minus, e, also, if◌then◌else◌) (ap negsuc same)
]

taken_value :
    (permits n : ℕ)
    → permits < 2147483648
    → n < 2147483648
    → wrap_i32 (minus_int (pos permits) (to_i32 n)) ≡ minus permits n
taken_value permits n h k =
    ap (λ x. wrap_i32 (minus_int (pos permits) x)) (low_i32 n k)
    ∙ ap wrap_i32 (same_minus (permits + 0) (0 + n) permits n (omega arith))
    ∙ fits_i32 permits n h k

plus_one_minus : (a b : ℕ) → plus_int (minus a b) (pos 1) ≡ minus (a + 1) b
plus_one_minus a b = elim (Bool-cases (leb b a)) [
  | inl e ↦ rw (e, minus, if◌then◌else◌) (same_minus (a - b + 1) 0 (a + 1) b (ground arith))
  | inr e ↦
      rw (e, minus, if◌then◌else◌) (same_minus 1 (suc (b - a - 1) + 0) (a + 1) b (ground arith))
]

given_value :
    (permits n : ℕ)
    → permits < 2147483647
    → n < 2147483648
    → wrap_i32 (plus_int (minus permits n) (pos 1)) ≡ minus (permits + 1) n
given_value permits n h k =
    ap wrap_i32 (plus_one_minus permits n) ∙ fits_i32 (permits + 1) n (omega arith) k

-- A consumer that can be sent to: it has permits, its connection is writable, and its pending
-- acknowledgements are open.
abbrev pub ready : ℕ → List (MessageId × PendingAck) → List PendingMessage → ℕ → ℕ → ConsumerState
ready permits inner queue slots capacity = record {
  available_permits = pos permits;
  pending_acks = record { inner = inner; closed = false };
  is_writable = true;
  queue = queue;
  reserved_slots = slots;
  capacity = capacity;
  receiver_open = true;
}

-- For a consumer with 1 to 2^31 - 2 permits, a writable connection, a free slot and open pending
-- acknowledgements, where the message is not pending, try_reserve_dispatch of fewer than 2^31
-- permits gives a reservation; when it is dropped unsent, the consumer is what it was but for its
-- permits, of which one is given back, however many were taken.
pub drop_reservation-try_reserve_dispatch :
    (permits n : ℕ) (inner : List (MessageId × PendingAck)) (queue : List PendingMessage)
    (slots capacity : ℕ) (message : PendingMessage) (ack : PendingAck)
    → 0 < permits
    → permits < 2147483647
    → n < 2147483648
    → get message.message_id inner ≡ none
    → length queue + slots < capacity
    → (s : ConsumerState) × (r : DispatchReservation) × (try_reserve_dispatch
          (ready permits inner queue slots capacity)
          message
          ack
          n
        ≡ (s, some r))
      × (drop_reservation s r ≡ record (ready permits inner queue slots capacity) {
        available_permits = minus (permits + 1) n;
      })
unfolding remove_pending try_reserve_dispatch try_use_permits reserve_rest track_message_dispatched
    drop_reservation remove_pending_ack add_pending_ack begin_add finish_add
drop_reservation-try_reserve_dispatch permits n inner queue slots capacity message ack some_permits
      few small fresh room =
    let positive : lt_int (pos 0) (pos permits) ≡ true = ground arith in
    let slot : ltb (length queue + slots) capacity ≡ true = ground arith in
    (
      record {
        available_permits = minus permits n;
        pending_acks = record {
          inner = insert_ordered message.message_id ack inner;
          closed = false;
        };
        is_writable = true;
        queue = queue;
        reserved_slots = slots + 1;
        capacity = capacity;
        receiver_open = true;
      },
      record { message = message; pending_ack_message_id = some message.message_id },
      rw (positive, taken_value permits n (omega arith) small, slot) refl,
      (let given = given_value permits n few small in
          let gone = remove-insert_ordered message.message_id ack inner fresh in
          let freed : slots + 1 - 1 ≡ slots = omega arith in
          λ i. record (ready permits inner queue slots capacity) {
            available_permits = given i;
            reserved_slots = freed i;
            pending_acks = record { inner = gone i; closed = false };
          }),
    )
