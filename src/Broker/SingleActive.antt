-- ===== src/Broker/SingleActive.antt =====
-- rust/src/broker/dispatcher/exclusive.rs, whose loop over batches failover.rs has as well, and
-- single_active.rs. The consumer, the permits that the dispatcher counts and the read position are
-- the state; `now` is the time of dispatch, and no other task changes the state during a call.
pub mod Permits
pub mod Sends
pub mod Delivery
pub mod Rounds
use pulsar_lite.Prelude.{
  ℕ, zero, suc, ◌+◌, ◌%◌, ◌-◌, min, Bool, true, false, Option, none, some, List, [], ◌∷◌, ◌==◌,
  if◌then◌else◌,
}
use pulsar_lite.Prelude.Int.{pos, wrap_i32, minus_int}
use pulsar_lite.Prelude.Results.{Result, ok, err}
use pulsar_lite.ManagedLedger.Position.{ManagedLedgerPosition, lt_position}
use pulsar_lite.Broker.PendingAcks.{PendingAck}
use pulsar_lite.Broker.ConsumerDispatch.{
  ConsumerState, PendingMessage, has_permits, add_permits, send_message_with_sticky_hash,
}
use pulsar_lite.Broker.ReadPosition.{
  Log, ReadCandidate, Read, DispatchError, out_of_fuel, next_unacked_candidate,
}

abbrev pub dispatcher_max_round_robin_batch_size : ℕ
dispatcher_max_round_robin_batch_size = 20

pub record Active : Type 0 where
  pub consumer : ConsumerState
  pub total_available_permits : ℕ
  pub read_position : Option ManagedLedgerPosition

-- `fetch_sub(1)` and `fetch_add(1)` of an `AtomicU32`.
abbrev pub less_one : ℕ → ℕ
less_one n = (n + 4294967295) % 4294967296

abbrev pub plus_one_permit : ℕ → ℕ
plus_one_permit n = (n + 1) % 4294967296

-- `use_permit` where the consumer has one, with the dispatcher's count.
unfoldable pub take_permit : Active → Active
take_permit a = record a {
  consumer = record a.consumer {
    available_permits = wrap_i32 (minus_int a.consumer.available_permits (pos 1));
  };
  total_available_permits = less_one a.total_available_permits;
}

unfoldable pub give_permit : Active → Active
give_permit a = record a {
  consumer = add_permits a.consumer 1;
  total_available_permits = plus_one_permit a.total_available_permits;
}

abbrev pub message_of : ReadCandidate → PendingMessage
message_of c = record {
  message_id = c.message_id;
  metadata = c.metadata;
  payload = c.payload;
  redelivery_count = 0;
}

abbrev pub new_ack : ℕ → PendingAck
new_ack now = record { dispatched_at = now; redelivery_count = 0; sticky_key_hash = none }

-- `enqueue_message`.
abbrev pub enqueue_message : ℕ → ConsumerState → ReadCandidate → ConsumerState × Bool
enqueue_message now s c = send_message_with_sticky_hash s (message_of c) (new_ack now)

abbrev pub Batch : Type 0
Batch = Active × Result DispatchError ℕ

-- After the candidate is sent: the batch goes on, or the permit goes back and it ends.
abbrev pub enqueued :
    (Active → ℕ → Batch) → Active → ReadCandidate → ℕ → ConsumerState × Bool → Batch
enqueued again a c dispatched (s, true) =
    again (record a { consumer = s; read_position = some c.next_position }) (dispatched + 1)
enqueued again a c dispatched (s, false) = (give_permit (record a { consumer = s }), ok dispatched)

abbrev pub read_candidate : ℕ → (Active → ℕ → Batch) → Active → ℕ → Read → Batch
read_candidate now again a dispatched (rp, err e) = (record a { read_position = rp }, err e)
read_candidate now again a dispatched (rp, ok none) =
    (give_permit (record a { read_position = rp }), ok dispatched)
read_candidate now again a dispatched (rp, ok (some c)) =
    enqueued again (record a { read_position = rp }) c dispatched (enqueue_message now a.consumer c)

-- The inner loop, over the messages that the batch may still have.
unfoldable pub batch_loop : ℕ → ℕ → Log → ℕ → Active → ℕ → Batch
batch_loop fuel now log zero a dispatched = (a, ok dispatched)
batch_loop fuel now log (suc left) a dispatched =
    if has_permits a.consumer
    then read_candidate now (λ a' d. batch_loop fuel now log left a' d) (take_permit a) dispatched
        (next_unacked_candidate fuel log (take_permit a).read_position)
    else (a, ok dispatched)

abbrev pub batch_size : Active → ℕ
batch_size a = min a.total_available_permits dispatcher_max_round_robin_batch_size

abbrev pub after_batch :
    (Active → Active × Result DispatchError (Unit {0}))
    → Batch
    → Active × Result DispatchError (Unit {0})
after_batch again (a, err e) = (a, err e)
after_batch again (a, ok zero) = (a, ok tt)
after_batch again (a, ok (suc n)) = if a.total_available_permits == 0 then (a, ok tt) else again a

-- The outer loop, with fuel for its rounds beside that of the read position.
unfoldable pub dispatch_loop : ℕ → ℕ → ℕ → Log → Active → Active × Result DispatchError (Unit {0})
dispatch_loop zero fuel now log a = (a, err out_of_fuel)
dispatch_loop (suc rounds) fuel now log a =
    if a.total_available_permits == 0
    then (a, ok tt)
    else after_batch (λ a'. dispatch_loop rounds fuel now log a')
        (batch_loop fuel now log (batch_size a) a 0)

-- `rewind_read_position`, with an error of the storage as none.
abbrev pub min_position : ManagedLedgerPosition → ManagedLedgerPosition → ManagedLedgerPosition
min_position a b = if lt_position b a then b else a

abbrev pub min_option :
    Option ManagedLedgerPosition → Option ManagedLedgerPosition → Option ManagedLedgerPosition
min_option (some a) (some b) = some (min_position a b)
min_option (some a) none = some a
min_option none (some b) = some b
min_option none none = none

unfoldable pub first_pending : List ManagedLedgerPosition → Option ManagedLedgerPosition
first_pending [] = none
first_pending (p ∷ rest) = min_option (some p) (first_pending rest)

abbrev pub ok_flatten :
    Result DispatchError (Option ManagedLedgerPosition) → Option ManagedLedgerPosition
ok_flatten (err e) = none
ok_flatten (ok o) = o

unfoldable pub rewind_read_position :
    Log → List ManagedLedgerPosition → Option ManagedLedgerPosition
rewind_read_position log pending =
    min_option (ok_flatten log.first_unacked_position) (first_pending pending)
