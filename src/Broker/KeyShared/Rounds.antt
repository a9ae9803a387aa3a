-- ===== src/Broker/KeyShared/Rounds.antt =====
-- rust/src/broker/dispatcher/key_shared.rs: the rounds of a batch, the batches of a dispatch, and
-- the calls on the whole state.
use pulsar_lite.Prelude.{
  ℕ, zero, suc, ◌+◌, Bool, true, false, Option, none, some, List, ◌==◌, ltb, if◌then◌else◌, ◌⊎◌,
  inl, inr,
}
use pulsar_lite.Prelude.Int.{ℤ, pos, le_int, pos_part}
use pulsar_lite.Prelude.Maps.{get, insert_entry, remove_key, nat_key}
use pulsar_lite.Prelude.Results.{Result, ok, err, ◌>>=◌}
use pulsar_lite.ManagedLedger.Position.{ManagedLedgerPosition, MessageId, StoredMessage}
use pulsar_lite.Broker.PendingAcks.{close, drain}
use pulsar_lite.Broker.ConsumerDispatch.{ConsumerState, add_permits, try_use_permits}
use pulsar_lite.Broker.ReadPosition.{Log, Read, DispatchError, ReadCandidate, out_of_fuel}
use pulsar_lite.Broker.Redelivery.{RedeliveryController, RedeliveryEntry, queued_message_ids}
use pulsar_lite.Broker.Shared.Passes.{acked_redeliveries, remove_all, moved_read_position}
use pulsar_lite.Broker.KeyShared.{Consumer, add_consumer, remove_consumer, AddError}
use pulsar_lite.Broker.KeyShared.Redelivered.{
  Popped, popped, nothing, storage_error, hash_of, pop_dispatchable_redelivery_message,
  requeue_pending, reset_after_seek,
}
use pulsar_lite.Broker.KeyShared.Batch.{
  KeySharedDispatcher, Storage, Batch, Again, readiness, put_state, subtract_total_permits,
  add_total_permits, restored, one_less, send, new_message, next_dispatchable_message, state_of,
}

abbrev pub failed_resend :
    KeySharedDispatcher → ℕ → RedeliveryEntry → ℤ → ℕ → ConsumerState → KeySharedDispatcher
failed_resend d id entry hash batch_count s = add_total_permits batch_count (
    restored
      (record {
        message_id = entry.message_id;
        redelivery_count = entry.redelivery_count + 1;
        sticky_key_hash = some hash;
      })
      (put_state id (add_permits s batch_count) d))

-- The redelivery is sent, and the round goes on with a new message; or the batch ends.
abbrev pub resent :
    Again → KeySharedDispatcher → ℕ → RedeliveryEntry → ℤ → ℕ → ℕ → ℕ → ConsumerState × Bool → Batch
resent go_on d id entry hash batch_count remaining progress (s, true) =
    go_on (put_state id s d) (one_less remaining) (progress + 1)
resent go_on d id entry hash batch_count remaining progress (s, false) =
    (failed_resend d id entry hash batch_count s, ok progress)

abbrev pub use_redelivery :
    ℕ
    → Again
    → KeySharedDispatcher
    → ℕ
    → RedeliveryEntry
    → StoredMessage
    → ℤ
    → ℕ
    → ℕ
    → ℕ
    → ConsumerState × Bool
    → Batch
use_redelivery now go_on d id entry stored hash batch_count remaining progress (s, false) =
    (restored (record entry { sticky_key_hash = some hash }) (put_state id s d), ok progress)
use_redelivery now go_on d id entry stored hash batch_count remaining progress (s, true) =
    resent go_on (subtract_total_permits batch_count (put_state id s d)) id
      (record entry { message_id = stored.message_id }) hash batch_count remaining progress
      (send now s stored.message_id stored.metadata stored.payload entry.redelivery_count hash)

-- A consumer that was selected is there.
abbrev pub redelivery_to :
    ℕ
    → Again
    → KeySharedDispatcher
    → RedeliveryEntry
    → StoredMessage
    → ℤ
    → ℕ
    → ℕ
    → ℕ
    → Option (ℕ × ConsumerState)
    → Batch
redelivery_to now go_on d entry stored hash batch_count remaining progress none = (d, ok progress)
redelivery_to now go_on d entry stored hash batch_count remaining progress (some (id, s)) =
    use_redelivery now go_on d id entry stored hash batch_count remaining progress
      (try_use_permits s batch_count)

-- The first half of a round.
abbrev pub redelivery :
    ℕ → Storage → Again → KeySharedDispatcher → ℕ → ℕ → RedeliveryController × Popped → Batch
redelivery now storage go_on d remaining progress (c, storage_error) =
    (record d { redelivery_controller = c }, err pulsar_lite.Broker.ReadPosition.storage_error)
redelivery now storage go_on d remaining progress (c, nothing) =
    go_on (record d { redelivery_controller = c }) remaining progress
redelivery now storage go_on d remaining progress (c, popped entry stored consumer) =
    let here = record d { redelivery_controller = c } in
    redelivery_to now go_on here entry stored (hash_of storage.store entry stored)
      (storage.messages_in_batch stored.metadata) remaining progress (state_of here (some consumer))

abbrev pub second_half : ℕ → ℕ → ℕ → Storage → Again → Again
second_half rounds fuel now storage again d remaining progress =
    new_message now storage again d remaining progress
      (next_dispatchable_message rounds fuel storage.log d d.read_position)

-- The loop while dispatches remain, with fuel for its rounds.
unfoldable pub batch_loop : ℕ → ℕ → ℕ → ℕ → Storage → Again
batch_loop zero rounds fuel now storage d remaining progress = (d, err out_of_fuel)
batch_loop (suc turns) rounds fuel now storage d remaining progress =
    if remaining == 0
    then (d, ok progress)
    else redelivery now storage
        (second_half rounds fuel now storage
          (λ e r p. batch_loop turns rounds fuel now storage e r p))
        d remaining progress
        (pop_dispatchable_redelivery_message (readiness d) d.assignments storage.store
          d.redelivery_controller)

abbrev pub max_batch : KeySharedDispatcher → ℕ
max_batch d = let n = pos_part d.total_available_permits in if ltb n 20 then n else 20

unfoldable pub dispatch_messages_batch : ℕ → ℕ → ℕ → ℕ → Storage → KeySharedDispatcher → Batch
dispatch_messages_batch turns rounds fuel now storage d =
    if max_batch d == 0
    then (d, ok 0)
    else batch_loop turns rounds fuel now storage d (max_batch d) 0

abbrev pub Pass : Type 0
Pass = KeySharedDispatcher × Result DispatchError (Unit {0})

abbrev pub after_batch : (KeySharedDispatcher → Pass) → Batch → Pass
after_batch again (d, err e) = (d, err e)
after_batch again (d, ok zero) = (d, ok tt)
after_batch again (d, ok (suc n)) =
    if le_int d.total_available_permits (pos 0) then (d, ok tt) else again d

unfoldable pub dispatch_messages : ℕ → ℕ → ℕ → ℕ → ℕ → Storage → KeySharedDispatcher → Pass
dispatch_messages zero turns rounds fuel now storage d = (d, err out_of_fuel)
dispatch_messages (suc batches) turns rounds fuel now storage d =
    after_batch (λ e. dispatch_messages batches turns rounds fuel now storage e)
      (dispatch_messages_batch turns rounds fuel now storage d)

unfoldable pub consumer_flow : KeySharedDispatcher → ℕ → ℕ → KeySharedDispatcher
consumer_flow d consumer_id additional_permits =
    elim (get consumer_id d.assignments.consumers_by_id) [
      | none ↦ d
      | some c ↦ add_total_permits additional_permits d
    ]

abbrev pub init_read_position :
    KeySharedDispatcher → Option ManagedLedgerPosition → KeySharedDispatcher
init_read_position d position = record d { read_position = position }

abbrev pub with_acks :
    KeySharedDispatcher
    → Result DispatchError (List MessageId × Option ManagedLedgerPosition)
    → Pass
with_acks d (err e) = (d, err e)
with_acks d (ok (acked, first_unacked)) = (
  record d {
    redelivery_controller = remove_all d.redelivery_controller acked;
    read_position = moved_read_position d.read_position first_unacked;
  },
  ok tt,
)

unfoldable pub on_ack_state_updated : Log → KeySharedDispatcher → Pass
on_ack_state_updated log d = with_acks d (do
  acked ← acked_redeliveries log (queued_message_ids d.redelivery_controller)
  first_unacked ← log.first_unacked_position
  ok (acked, first_unacked))

-- The state of a consumer that was removed leaves with it.
abbrev pub recover_state : KeySharedDispatcher → ℕ → Option ConsumerState → KeySharedDispatcher
recover_state d id none = d
recover_state d id (some s) =
    let less = subtract_total_permits (pos_part s.available_permits) d in
    record less {
      states = remove_key id d.states;
      redelivery_controller =
          requeue_pending d.redelivery_controller (drain (close s.pending_acks)).1;
    }

unfoldable pub remove_consumer_with_recovery :
    KeySharedDispatcher → ℕ → KeySharedDispatcher × Option Consumer
remove_consumer_with_recovery d consumer_id =
    let r = remove_consumer d.assignments consumer_id in
    (record (recover_state d consumer_id (get consumer_id d.states)) { assignments = r.0 }, r.1)

abbrev pub leave : KeySharedDispatcher → ℕ → Option ConsumerState → KeySharedDispatcher
leave d id none = d
leave d id (some s) = record (subtract_total_permits (pos_part s.available_permits) d) {
  states = remove_key id d.states;
}

-- `remove_consumer`, with the permits.
unfoldable pub remove_with_permits : KeySharedDispatcher → ℕ → KeySharedDispatcher × Option Consumer
remove_with_permits d consumer_id =
    let r = remove_consumer d.assignments consumer_id in
    (record (leave d consumer_id (get consumer_id d.states)) { assignments = r.0 }, r.1)

-- `add_consumer`, with the state of the consumer.
unfoldable pub add_with_state :
    KeySharedDispatcher → Consumer → ConsumerState → KeySharedDispatcher ⊎ AddError
add_with_state d c s = elim (add_consumer d.assignments c) [
  | inr e ↦ inr e
  | inl a ↦ inl (record d { assignments = a; states = insert_entry c.consumer_id s d.states })
]

abbrev pub reset_whole : KeySharedDispatcher → Option ManagedLedgerPosition → KeySharedDispatcher
reset_whole d position = record d {
  read_position = position;
  redelivery_controller = reset_after_seek d.redelivery_controller;
}
