-- ===== src/Broker/KeyShared/Growth.antt =====
-- No round of a batch of key_shared.rs takes a message out of a channel.
use pulsar_lite.Prelude.{
  ℕ, zero, suc, ◌+◌, ◌≤◌, Bool, true, false, Option, none, some, List, length, ◌==◌, if◌then◌else◌,
  ◌≡◌, refl, ap, subst, arith, Bool-cases, Option-cases, inl, inr,
}
use pulsar_lite.Prelude.Int.{ℤ}
use pulsar_lite.Prelude.Maps.{get, insert_entry, nat_key}
use pulsar_lite.Prelude.Results.{ok, err}
use pulsar_lite.ManagedLedger.Position.{StoredMessage}
use pulsar_lite.Broker.ConsumerDispatch.{
  ConsumerState, PendingMessage, try_use_permits, add_permits, send_message_with_sticky_hash,
}
use pulsar_lite.Broker.PendingAcks.{PendingAck}
use pulsar_lite.Broker.ReadPosition.{Read, ReadCandidate}
use pulsar_lite.Broker.Redelivery.{RedeliveryController, RedeliveryEntry, is_hash_blocked}
use pulsar_lite.Broker.KeyShared.{Consumer, select_consumer_for_hash}
use pulsar_lite.Broker.KeyShared.Redelivered.{
  Popped, popped, nothing, storage_error, hash_of, pop_dispatchable_redelivery_message,
}
use pulsar_lite.Broker.KeyShared.Batch.{
  KeySharedDispatcher, Storage, Again, readiness, send, sent_new, use_new, send_new, put_state,
  subtract_total_permits, at_position, one_less, new_message, state_of, next_dispatchable_message,
  hold_back,
}
use pulsar_lite.Broker.KeyShared.Rounds.{
  resent, use_redelivery, redelivery_to, redelivery, second_half, batch_loop,
}
use pulsar_lite.Broker.KeyShared.Channels.{
  in_channels, queued_in, queued_in-insert_entry, get-insert_self, used-queue, sent-length,
  state_of-get,
}

not_less :
    (id : ℕ) (s old : ConsumerState) (m : List (ℕ × ConsumerState))
    → get id m ≡ some old
    → length old.queue ≤ length s.queue
    → queued_in m ≤ queued_in (insert_entry id s m)
not_less id s old m h more = omega (arith, queued_in-insert_entry id s old m h)

kept_by :
    (s : ConsumerState) (m : PendingMessage) (ack : PendingAck) (r : ConsumerState × Bool)
    → send_message_with_sticky_hash s m ack ≡ r
    → length s.queue ≤ length r.0.queue
kept_by s m ack r h =
    subst (λ (x : ConsumerState × Bool). length s.queue ≤ length x.0.queue) h
      (omega (arith, sent-length s m ack))

module _ (now : ℕ) (storage : Storage) (again : Again)
    (grows : (e : KeySharedDispatcher) (remaining progress : ℕ)
      → in_channels e ≤ in_channels (again e remaining progress).0) where
  sent_new-grows :
      (d : KeySharedDispatcher) (id : ℕ) (candidate : ReadCandidate) (hash : ℤ)
      (batch_count remaining progress : ℕ) (s : ConsumerState) (r : ConsumerState × Bool)
      → get id d.states ≡ some s
      → length s.queue ≤ length r.0.queue
      → in_channels d
        ≤ in_channels (sent_new again d id candidate hash batch_count remaining progress r).0
  unfolding add_permits
  sent_new-grows d id candidate hash batch_count remaining progress s (t, true) there more =
      let step = not_less id t s d.states there more in
      let rest =
        grows (at_position candidate.next_position (put_state id t d)) (one_less remaining)
          (progress + 1) in
      omega arith
  sent_new-grows d id candidate hash batch_count remaining progress s (t, false) there more =
      not_less id (add_permits t batch_count) s d.states there more

  use_new-grows :
      (d : KeySharedDispatcher) (id : ℕ) (candidate : ReadCandidate) (hash : ℤ)
      (batch_count remaining progress : ℕ) (s : ConsumerState) (r : ConsumerState × Bool)
      → get id d.states ≡ some s
      → length r.0.queue ≡ length s.queue
      → in_channels d
        ≤ in_channels (use_new now again d id candidate hash batch_count remaining progress r).0
  use_new-grows d id candidate hash batch_count remaining progress s (t, false) there same =
      not_less id t s d.states there (omega (arith, same))
  use_new-grows d id candidate hash batch_count remaining progress s (t, true) there same =
      let step = not_less id t s d.states there (omega (arith, same)) in
      let used : KeySharedDispatcher = subtract_total_permits batch_count (put_state id t d) in
      let sent =
        sent_new-grows used id candidate hash batch_count remaining progress t
          (send now t candidate.message_id candidate.metadata candidate.payload 0 hash)
          (get-insert_self id t d.states) (kept_by t _ _ _ refl) in
      omega arith

  send_new-grows :
      (d : KeySharedDispatcher) (candidate : ReadCandidate) (hash : ℤ)
      (batch_count remaining progress : ℕ) (c : Option Consumer)
      → in_channels d
        ≤ in_channels
            (send_new now again d candidate hash batch_count remaining progress (state_of d c)).0
  send_new-grows d candidate hash batch_count remaining progress c =
      elim (Option-cases (state_of d c)) [
        | inl gone ↦ rw gone (omega arith)
        | inr ((id, s), there) ↦ rw there (
            use_new-grows d id candidate hash batch_count remaining progress s
              (try_use_permits s batch_count) (state_of-get d c id s there)
              (ap length (used-queue s batch_count)))
      ]

  new_message-grows :
      (d : KeySharedDispatcher) (remaining progress : ℕ) (r : Read)
      → in_channels d ≤ in_channels (new_message now storage again d remaining progress r).0
  new_message-grows d remaining progress (rp, err e) = omega arith
  new_message-grows d remaining progress (rp, ok none) = omega arith
  new_message-grows d remaining progress (rp, ok (some candidate)) =
      let hash = storage.store.sticky_key_hash_from_metadata candidate.metadata in
      let here : KeySharedDispatcher = record d { read_position = rp } in
      elim (Bool-cases (is_hash_blocked d.redelivery_controller hash)) [
        | inl y ↦
            rw (y, if◌then◌else◌) (grows (hold_back here candidate hash) remaining (progress + 1))
        | inr n ↦
            rw (n, if◌then◌else◌)
              (send_new-grows here candidate hash (storage.messages_in_batch candidate.metadata)
                remaining progress
                (select_consumer_for_hash (readiness here) here.assignments hash))
      ]

  resent-grows :
      (d : KeySharedDispatcher) (id : ℕ) (entry : RedeliveryEntry) (hash : ℤ)
      (batch_count remaining progress : ℕ) (s : ConsumerState) (r : ConsumerState × Bool)
      → get id d.states ≡ some s
      → length s.queue ≤ length r.0.queue
      → in_channels d
        ≤ in_channels (resent again d id entry hash batch_count remaining progress r).0
  unfolding add_permits
  resent-grows d id entry hash batch_count remaining progress s (t, true) there more =
      let step = not_less id t s d.states there more in
      let rest = grows (put_state id t d) (one_less remaining) (progress + 1) in omega arith
  resent-grows d id entry hash batch_count remaining progress s (t, false) there more =
      not_less id (add_permits t batch_count) s d.states there more

  use_redelivery-grows :
      (d : KeySharedDispatcher) (id : ℕ) (entry : RedeliveryEntry) (stored : StoredMessage)
      (hash : ℤ) (batch_count remaining progress : ℕ) (s : ConsumerState) (r : ConsumerState × Bool)
      → get id d.states ≡ some s
      → length r.0.queue ≡ length s.queue
      → in_channels d
        ≤ in_channels
            (use_redelivery now again d id entry stored hash batch_count remaining progress r).0
  use_redelivery-grows d id entry stored hash batch_count remaining progress s (t, false) there
        same =
      not_less id t s d.states there (omega (arith, same))
  use_redelivery-grows d id entry stored hash batch_count remaining progress s (t, true) there
        same =
      let step = not_less id t s d.states there (omega (arith, same)) in
      let used : KeySharedDispatcher = subtract_total_permits batch_count (put_state id t d) in
      let sent =
        resent-grows used id (record entry { message_id = stored.message_id }) hash batch_count
          remaining progress t
          (send now t stored.message_id stored.metadata stored.payload entry.redelivery_count hash)
          (get-insert_self id t d.states) (kept_by t _ _ _ refl) in
      omega arith

  redelivery_to-grows :
      (d : KeySharedDispatcher) (entry : RedeliveryEntry) (stored : StoredMessage) (hash : ℤ)
      (batch_count remaining progress : ℕ) (c : Consumer)
      → in_channels d
        ≤ in_channels
            (redelivery_to now again d entry stored hash batch_count remaining progress
              (state_of d (some c))).0
  redelivery_to-grows d entry stored hash batch_count remaining progress c =
      elim (Option-cases (state_of d (some c))) [
        | inl gone ↦ rw gone (omega arith)
        | inr ((id, s), there) ↦ rw there (
            use_redelivery-grows d id entry stored hash batch_count remaining progress s
              (try_use_permits s batch_count) (state_of-get d (some c) id s there)
              (ap length (used-queue s batch_count)))
      ]

  redelivery-grows :
      (d : KeySharedDispatcher) (remaining progress : ℕ) (r : RedeliveryController × Popped)
      → in_channels d ≤ in_channels (redelivery now storage again d remaining progress r).0
  redelivery-grows d remaining progress (c, storage_error) = omega arith
  redelivery-grows d remaining progress (c, nothing) =
      grows (record d { redelivery_controller = c }) remaining progress
  redelivery-grows d remaining progress (c, popped entry stored consumer) =
      redelivery_to-grows (record d { redelivery_controller = c }) entry stored
        (hash_of storage.store entry stored) (storage.messages_in_batch stored.metadata) remaining
        progress consumer

-- A batch takes no message out of a channel.
pub batch_loop-grows :
    (turns rounds fuel now : ℕ) (storage : Storage) (d : KeySharedDispatcher)
    (remaining progress : ℕ)
    → in_channels d ≤ in_channels (batch_loop turns rounds fuel now storage d remaining progress).0
unfolding batch_loop
batch_loop-grows zero rounds fuel now storage d remaining progress = omega arith
batch_loop-grows (suc turns) rounds fuel now storage d remaining progress =
    elim (Bool-cases (remaining == 0)) [
      | inl y ↦ rw (y, if◌then◌else◌) (omega arith)
      | inr n ↦
          rw (n, if◌then◌else◌)
            (redelivery-grows now storage
              (second_half rounds fuel now storage
                (λ e r p. batch_loop turns rounds fuel now storage e r p))
              (λ e r p.
                new_message-grows now storage
                  (λ e' r' p'. batch_loop turns rounds fuel now storage e' r' p')
                  (λ e' r' p'. batch_loop-grows turns rounds fuel now storage e' r' p') e r p
                  (next_dispatchable_message rounds fuel storage.log e e.read_position))
              d remaining progress
              (pop_dispatchable_redelivery_message (readiness d) d.assignments storage.store
                d.redelivery_controller))
    ]
