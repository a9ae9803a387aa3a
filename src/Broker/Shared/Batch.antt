-- ===== src/Broker/Shared/Batch.antt =====
-- rust/src/broker/dispatcher/shared.rs: the dispatch of a batch, first from the redelivery queue,
-- then from the log. No other task changes the state during a batch; `now` is its time.
use pulsar_lite.Prelude.{
  ℕ, zero, suc, ◌+◌, Bool, true, false, ◌||◌, Option, none, some, List, [], ◌∷◌, ltb, leb,
  if◌then◌else◌,
}
use pulsar_lite.Prelude.Int.{pos, lt_int, plus_int, minus_int, wrap_i32, to_i32, pos_part}
use pulsar_lite.Prelude.Maps.{insert_entry, nat_key}
use pulsar_lite.Prelude.Results.{Result, ok, err}
use pulsar_lite.ManagedLedger.Position.{ManagedLedgerPosition, MessageId, StoredMessage}
use pulsar_lite.Broker.PendingAcks.{pending_len, contains_pending}
use pulsar_lite.Broker.ConsumerDispatch.{
  ConsumerState, add_permits, try_use_permits, send_message_with_sticky_hash,
}
use pulsar_lite.Broker.ReadPosition.{
  Log, Read, ReadCandidate, DispatchError, out_of_fuel, next_unacked_candidate,
}
use pulsar_lite.Broker.Redelivery.{RedeliveryEntry, pop_next, restore}
use pulsar_lite.Broker.Shared.{
  Consumer, SharedDispatcher, ordered_consumers, get_next_available_consumer,
}
use pulsar_lite.Broker.Shared.Consumers.{add_to_redelivery_queue}

-- The storage, and the count of messages that the metadata of an entry names.
pub record Storage : Type 0 where
  pub log : Log
  pub get_message_entry_by_id : MessageId → Option StoredMessage
  pub messages_in_batch : List ℕ → ℕ

abbrev pub put_consumer : SharedDispatcher → Consumer → ConsumerState → SharedDispatcher
put_consumer d c s = record d {
  consumers = insert_entry c.consumer_id (record c { state = s }) d.consumers;
}

abbrev pub less_permits : ℕ → SharedDispatcher → SharedDispatcher
less_permits n d = record d {
  total_available_permits = wrap_i32 (minus_int d.total_available_permits (to_i32 n));
}

abbrev pub more_permits : ℕ → SharedDispatcher → SharedDispatcher
more_permits n d = record d {
  total_available_permits = wrap_i32 (plus_int d.total_available_permits (to_i32 n));
}

abbrev pub restore_redelivery_message : SharedDispatcher → RedeliveryEntry → SharedDispatcher
restore_redelivery_message d entry = record d {
  redelivery_controller = restore d.redelivery_controller entry;
}

abbrev pub pop_redelivery_message : SharedDispatcher → SharedDispatcher × Option RedeliveryEntry
pop_redelivery_message d =
    let r = pop_next d.redelivery_controller in (record d { redelivery_controller = r.0 }, r.1)

abbrev pub send_message : ℕ → ConsumerState → MessageId → List ℕ → List ℕ → ℕ → ConsumerState × Bool
send_message now s id metadata payload redelivery_count =
    send_message_with_sticky_hash s
      (record {
        message_id = id;
        metadata = metadata;
        payload = payload;
        redelivery_count = redelivery_count;
      })
      (record { dispatched_at = now; redelivery_count = redelivery_count; sticky_key_hash = none })

abbrev pub Batch : Type 0
Batch = SharedDispatcher × Result DispatchError ℕ

abbrev pub Again : Type 0
Again = SharedDispatcher → ℕ → Batch

-- The redelivered message is sent, or it goes back into the queue with its permits.
abbrev pub resent :
    Again → SharedDispatcher → Consumer → RedeliveryEntry → ℕ → ℕ → ConsumerState × Bool → Batch
resent again d c queued batch_count dispatched (s, true) =
    again (put_consumer d c s) (dispatched + 1)
resent again d c queued batch_count dispatched (s, false) = (
  more_permits batch_count (
      put_consumer
        (restore_redelivery_message d (record queued {
          redelivery_count = queued.redelivery_count + 1;
          sticky_key_hash = none;
        }))
        c (add_permits s batch_count)),
  ok dispatched,
)

abbrev pub redeliver_with :
    ℕ
    → Again
    → SharedDispatcher
    → Consumer
    → RedeliveryEntry
    → StoredMessage
    → ℕ
    → ℕ
    → ConsumerState × Bool
    → Batch
redeliver_with now again d c queued entry batch_count dispatched (s, false) =
    (restore_redelivery_message (put_consumer d c s) queued, ok dispatched)
redeliver_with now again d c queued entry batch_count dispatched (s, true) =
    resent again (less_permits batch_count (put_consumer d c s)) (record c { state = s }) queued
      batch_count dispatched
      (send_message now s entry.message_id entry.metadata entry.payload queued.redelivery_count)

abbrev pub redeliver_entry :
    ℕ
    → Storage
    → Again
    → SharedDispatcher
    → Consumer
    → RedeliveryEntry
    → ℕ
    → Option StoredMessage
    → Batch
redeliver_entry now storage again d c queued dispatched none = again d dispatched
redeliver_entry now storage again d c queued dispatched (some entry) =
    let batch_count = storage.messages_in_batch entry.metadata in
    redeliver_with now again d c (record queued { message_id = entry.message_id }) entry batch_count
      dispatched (try_use_permits c.state batch_count)

abbrev pub redeliver :
    ℕ
    → Storage
    → Again
    → SharedDispatcher
    → Consumer
    → RedeliveryEntry
    → ℕ
    → Result DispatchError Bool
    → Batch
redeliver now storage again d c queued dispatched (err e) = (d, err e)
redeliver now storage again d c queued dispatched (ok true) = again d dispatched
redeliver now storage again d c queued dispatched (ok false) =
    redeliver_entry now storage again d c queued dispatched
      (storage.get_message_entry_by_id queued.message_id)

abbrev pub any_pending : MessageId → List Consumer → Bool
any_pending id [] = false
any_pending id (c ∷ rest) = contains_pending c.state.pending_acks id || any_pending id rest

abbrev pub is_message_pending : SharedDispatcher → MessageId → Bool
is_message_pending d id = any_pending id (ordered_consumers d)

abbrev pub pass_pending : SharedDispatcher → (Option ManagedLedgerPosition → Read) → Read → Read
pass_pending d again (rp, err e) = (rp, err e)
pass_pending d again (rp, ok none) = (rp, ok none)
pass_pending d again (rp, ok (some candidate)) =
    if is_message_pending d candidate.message_id
    then again (some candidate.next_position)
    else (rp, ok (some candidate))

-- `get_next_dispatchable_message`, with fuel for its rounds and for those of the read position.
unfoldable pub dispatchable_loop :
    ℕ → ℕ → Log → SharedDispatcher → Option ManagedLedgerPosition → Read
dispatchable_loop zero fuel log d rp = (rp, err out_of_fuel)
dispatchable_loop (suc rounds) fuel log d rp =
    pass_pending d (λ p. dispatchable_loop rounds fuel log d p) (next_unacked_candidate fuel log rp)

-- The new message is sent, or it goes into the redelivery queue; the read position passes it.
abbrev pub sent :
    Again → SharedDispatcher → Consumer → ReadCandidate → ℕ → ℕ → ConsumerState × Bool → Batch
sent again d c candidate batch_count dispatched (s, true) =
    again (record (put_consumer d c s) { read_position = some candidate.next_position })
      (dispatched + 1)
sent again d c candidate batch_count dispatched (s, false) = (
  more_permits batch_count (
      put_consumer
        (record (add_to_redelivery_queue d ((candidate.message_id, 1) ∷ [])) {
          read_position = some candidate.next_position;
        })
        c (add_permits s batch_count)),
  ok dispatched,
)

abbrev pub dispatch_with :
    ℕ → Again → SharedDispatcher → Consumer → ReadCandidate → ℕ → ℕ → ConsumerState × Bool → Batch
dispatch_with now again d c candidate batch_count dispatched (s, false) =
    (put_consumer d c s, ok dispatched)
dispatch_with now again d c candidate batch_count dispatched (s, true) =
    sent again (less_permits batch_count (put_consumer d c s)) (record c { state = s }) candidate
      batch_count dispatched
      (send_message now s candidate.message_id candidate.metadata candidate.payload 0)

abbrev pub dispatch_new : ℕ → Storage → Again → SharedDispatcher → Consumer → ℕ → Read → Batch
dispatch_new now storage again d c dispatched (rp, err e) = (record d { read_position = rp }, err e)
dispatch_new now storage again d c dispatched (rp, ok none) =
    (record d { read_position = rp }, ok dispatched)
dispatch_new now storage again d c dispatched (rp, ok (some candidate)) =
    let batch_count = storage.messages_in_batch candidate.metadata in
    dispatch_with now again (record d { read_position = rp }) c candidate batch_count dispatched
      (try_use_permits c.state batch_count)

abbrev pub dispatch_one :
    ℕ → ℕ → ℕ → Storage → Again → Consumer → ℕ → SharedDispatcher × Option RedeliveryEntry → Batch
dispatch_one rounds fuel now storage again c dispatched (d, some queued) =
    redeliver now storage again d c queued dispatched
      (storage.log.is_acknowledged queued.message_id)
dispatch_one rounds fuel now storage again c dispatched (d, none) =
    dispatch_new now storage again d c dispatched
      (dispatchable_loop rounds fuel storage.log d d.read_position)

-- The consumer whose turn it is, and its budget of messages that are not acknowledged.
abbrev pub dispatch_to :
    ℕ → ℕ → ℕ → Storage → Again → ℕ → SharedDispatcher × Option Consumer → Batch
dispatch_to rounds fuel now storage again dispatched (d, none) = (d, ok dispatched)
dispatch_to rounds fuel now storage again dispatched (d, some c) =
    if leb d.max_unacked_messages (pending_len c.state.pending_acks)
    then (d, ok dispatched)
    else dispatch_one rounds fuel now storage again c dispatched (pop_redelivery_message d)

unfoldable pub batch_loop : ℕ → ℕ → ℕ → Storage → ℕ → SharedDispatcher → ℕ → Batch
batch_loop rounds fuel now storage zero d dispatched = (d, ok dispatched)
batch_loop rounds fuel now storage (suc left) d dispatched =
    dispatch_to rounds fuel now storage (λ e n. batch_loop rounds fuel now storage left e n)
      dispatched (get_next_available_consumer d)

abbrev pub max_batch : SharedDispatcher → ℕ
max_batch d = let n = pos_part d.total_available_permits in if ltb n 20 then n else 20

unfoldable pub dispatch_messages_batch : ℕ → ℕ → ℕ → Storage → SharedDispatcher → Batch
dispatch_messages_batch rounds fuel now storage d =
    if lt_int (pos 0) d.total_available_permits
    then batch_loop rounds fuel now storage (max_batch d) d 0
    else (d, ok 0)
