-- ===== src/Broker/KeyShared/Redelivered.antt =====
-- rust/src/broker/dispatcher/key_shared.rs: the scan of the redelivery queue, and what is put back
-- into it. The storage and the decoder of the metadata are the calls that the scan makes of them;
-- `none` of `is_acknowledged` is its error.
use pulsar_lite.Prelude.{
  ℕ, ◌+◌, Bool, true, false, Option, none, some, List, [], ◌∷◌, map, if◌then◌else◌,
}
use pulsar_lite.Prelude.Int.{ℤ}
use pulsar_lite.ManagedLedger.Position.{MessageId, StoredMessage}
use pulsar_lite.Broker.PendingAcks.{PendingAck}
use pulsar_lite.Broker.Redelivery.{
  RedeliveryEntry, RedeliveryController, add, remove, restore, queued_entries, has_in_flight_hash,
  take_for_delivery_with_hash, clear,
}
use pulsar_lite.Broker.KeyShared.{Assignments, Consumer, Readiness, select_consumer_for_hash}

-- The calls of the storage for the topic and the subscription of the dispatcher.
pub record Store : Type 0 where
  pub is_acknowledged : MessageId → Option Bool
  pub get_message_entry_by_id : MessageId → Option StoredMessage
  pub sticky_key_hash_from_metadata : List ℕ → ℤ

pub data Popped : Type 0 where
  popped : RedeliveryEntry → StoredMessage → Consumer → Popped
  nothing : Popped
  storage_error : Popped

abbrev pub hash_or : Option ℤ → ℤ → ℤ
hash_or none hash = hash
hash_or (some own) hash = own

abbrev pub hash_of : Store → RedeliveryEntry → StoredMessage → ℤ
hash_of store entry stored =
    hash_or entry.sticky_key_hash (store.sticky_key_hash_from_metadata stored.metadata)

-- The end of a round: the entry is taken, or the scan goes on with the rest.
abbrev pub hand_out :
    (RedeliveryController → RedeliveryController × Popped)
    → StoredMessage
    → Consumer
    → RedeliveryController × Option RedeliveryEntry
    → RedeliveryController × Popped
hand_out again stored consumer (c, none) = again c
hand_out again stored consumer (c, some entry) = (c, popped entry stored consumer)

abbrev pub offer :
    (RedeliveryController → RedeliveryController × Popped)
    → RedeliveryController
    → RedeliveryEntry
    → StoredMessage
    → ℤ
    → Option Consumer
    → RedeliveryController × Popped
offer again c queued stored hash none = again c
offer again c queued stored hash (some consumer) =
    hand_out again stored consumer (take_for_delivery_with_hash c queued.message_id (some hash))

abbrev pub scan_stored :
    Readiness
    → Assignments
    → Store
    → (RedeliveryController → RedeliveryController × Popped)
    → RedeliveryController
    → RedeliveryEntry
    → Option StoredMessage
    → RedeliveryController × Popped
scan_stored now a store again c queued none = again (remove c queued.message_id).0
scan_stored now a store again c queued (some stored) =
    if has_in_flight_hash c (hash_of store queued stored)
    then again c
    else offer again c queued stored (hash_of store queued stored)
        (select_consumer_for_hash now a (hash_of store queued stored))

abbrev pub scan_entry :
    Readiness
    → Assignments
    → Store
    → (RedeliveryController → RedeliveryController × Popped)
    → RedeliveryController
    → RedeliveryEntry
    → Option Bool
    → RedeliveryController × Popped
scan_entry now a store again c queued none = (c, storage_error)
scan_entry now a store again c queued (some true) = again (remove c queued.message_id).0
scan_entry now a store again c queued (some false) =
    scan_stored now a store again c queued (store.get_message_entry_by_id queued.message_id)

-- The loop over the entries that were queued at the start.
unfoldable pub scan_loop :
    Readiness
    → Assignments
    → Store
    → RedeliveryController
    → List RedeliveryEntry
    → RedeliveryController × Popped
scan_loop now a store c [] = (c, nothing)
scan_loop now a store c (queued ∷ rest) =
    scan_entry now a store (λ c'. scan_loop now a store c' rest) c queued
      (store.is_acknowledged queued.message_id)

unfoldable pub pop_dispatchable_redelivery_message :
    Readiness → Assignments → Store → RedeliveryController → RedeliveryController × Popped
pop_dispatchable_redelivery_message now a store c = scan_loop now a store c (queued_entries c)

unfoldable pub add_redelivery_entries :
    RedeliveryController → List RedeliveryEntry → RedeliveryController
add_redelivery_entries c [] = c
add_redelivery_entries c (entry ∷ rest) = add_redelivery_entries (add c entry) rest

abbrev pub without_hash : MessageId × ℕ → RedeliveryEntry
without_hash (id, count) = record {
  message_id = id;
  redelivery_count = count;
  sticky_key_hash = none;
}

abbrev pub add_to_redelivery_queue :
    RedeliveryController → List (MessageId × ℕ) → RedeliveryController
add_to_redelivery_queue c entries = add_redelivery_entries c (map without_hash entries)

-- What `remove_consumer_with_recovery` makes of a message that the consumer had pending.
abbrev pub recovered : MessageId × PendingAck → RedeliveryEntry
recovered (id, ack) = record {
  message_id = id;
  redelivery_count = ack.redelivery_count + 1;
  sticky_key_hash = ack.sticky_key_hash;
}

-- The redelivery part of `remove_consumer_with_recovery`: the pending messages go back.
unfoldable pub requeue_pending :
    RedeliveryController → List (MessageId × PendingAck) → RedeliveryController
requeue_pending c pending = add_redelivery_entries c (map recovered pending)

abbrev pub restore_redelivery_message :
    RedeliveryController → RedeliveryEntry → RedeliveryController
restore_redelivery_message c entry = restore c entry

abbrev pub on_message_acknowledged : RedeliveryController → MessageId → RedeliveryController
on_message_acknowledged c id = (remove c id).0

-- The redelivery part of `reset_after_seek`.
abbrev pub reset_after_seek : RedeliveryController → RedeliveryController
reset_after_seek c = clear c
