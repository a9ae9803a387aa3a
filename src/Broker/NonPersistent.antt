-- ===== src/Broker/NonPersistent.antt =====
-- rust/src/broker/non_persistent/dispatcher/single_active.rs: the dispatchers of a topic that stores
-- nothing, and how they send. The counters are `u64`. An entry is the stored
-- message that it carries; its release gives memory back and changes nothing here.
pub mod Failover
pub mod Exclusive
pub mod Accounts
use pulsar_lite.Prelude.{ℕ, ◌+◌, ◌%◌, Option, none, some, List, [], ◌∷◌, length}
use pulsar_lite.ManagedLedger.Position.{StoredMessage}
use pulsar_lite.Broker.ConsumerDispatch.{
  ConsumerState, PendingMessage, DispatchReservation, try_reserve_dispatch, send_reserved,
}
use pulsar_lite.Broker.SingleActive.{new_ack}

pub record Counters : Type 0 where
  pub received_messages : ℕ
  pub dropped_messages : ℕ
  pub dispatched_messages : ℕ

abbrev pub plus_u64 : ℕ → ℕ → ℕ
plus_u64 a b = (a + b) % 18446744073709551616

abbrev pub record_received : ℕ → Counters → Counters
record_received n c = record c { received_messages = plus_u64 c.received_messages n }

abbrev pub record_drop : ℕ → Counters → Counters
record_drop n c = record c { dropped_messages = plus_u64 c.dropped_messages n }

abbrev pub record_dispatched : ℕ → Counters → Counters
record_dispatched n c = record c { dispatched_messages = plus_u64 c.dispatched_messages n }

-- The count of messages that the metadata of an entry names comes from generated code.
module _ (messages_in_batch : List ℕ → ℕ) (now : ℕ) where
  unfoldable pub drop_all : List StoredMessage → Counters → Counters
  drop_all [] c = c
  drop_all (e ∷ rest) c = drop_all rest (record_drop (messages_in_batch e.metadata) c)

  abbrev pub message_of_entry : StoredMessage → PendingMessage
  message_of_entry e = record {
    message_id = e.message_id;
    metadata = e.metadata;
    payload = e.payload;
    redelivery_count = 0;
  }

  abbrev pub reserved :
      Counters → ℕ → ConsumerState × Option DispatchReservation → ConsumerState × Counters
  reserved c batch_count (s, some reservation) =
      (send_reserved s reservation, record_dispatched batch_count c)
  reserved c batch_count (s, none) = (s, record_drop batch_count c)

  abbrev pub send_entry : ConsumerState × Counters → StoredMessage → ConsumerState × Counters
  send_entry (s, c) e =
      reserved c (messages_in_batch e.metadata)
        (try_reserve_dispatch s (message_of_entry e) (new_ack now) (messages_in_batch e.metadata))

  unfoldable pub send_all : List StoredMessage → ConsumerState × Counters → ConsumerState × Counters
  send_all [] r = r
  send_all (e ∷ rest) r = send_all rest (send_entry r e)

  abbrev pub send_to :
      List StoredMessage → Counters → Option ConsumerState → Option ConsumerState × Counters
  send_to entries c none = (none, drop_all entries c)
  send_to entries c (some s) = let r = send_all entries (s, c) in (some r.0, r.1)

  -- `send_messages` to the consumer that is active, if there is one.
  unfoldable pub send_messages :
      List StoredMessage → Counters → Option ConsumerState → Option ConsumerState × Counters
  send_messages entries c consumer = send_to entries (record_received (length entries) c) consumer
