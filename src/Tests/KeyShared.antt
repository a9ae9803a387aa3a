-- ===== src/Tests/KeyShared.antt =====
-- Runs and instances for the routing by sticky key.
use pulsar_lite.Prelude.{
  ℕ, true, false, Option, some, none, List, [], ◌∷◌, ◌≡◌, refl, arith, if◌then◌else◌,
}
use pulsar_lite.Prelude.Int.{pos, negsuc}
use pulsar_lite.Prelude.Maps.{get, insert_ordered}
use pulsar_lite.ManagedLedger.Position.{MessageId, StoredMessage}
use pulsar_lite.Broker.PendingAcks.{PendingAck}
use pulsar_lite.Broker.Redelivery.{
  RedeliveryEntry, RedeliveryController, new_controller, queued_entries, add, increment_hash,
  has_in_flight_hash, take_for_delivery_with_hash,
}
use pulsar_lite.Broker.Redelivery.Delivery.{step, step-IsCounted, adds, new-IsCounted}
use pulsar_lite.Broker.Redelivery.Steps.{IsCounted}
use pulsar_lite.Broker.KeyShared.{
  Assignments, Consumer, Readiness, auto_split, rebuild_auto_split_assignments, rebuild_assignments,
  select_consumer_for_hash, is_ready, first_ready, rebuild_sticky_assignments, assign_ranges,
  sort_by, insert_sorted,
}
use pulsar_lite.Broker.KeyShared.Split.{holders, rebuild_auto_split_once}
use pulsar_lite.Broker.KeyShared.Redelivered.{
  Store, popped, nothing, scan_loop, pop_dispatchable_redelivery_message, requeue_pending,
  add_redelivery_entries,
}
use pulsar_lite.Broker.KeyShared.Answers.{IsGood}
use pulsar_lite.Broker.KeyShared.Requeued.{
  pop-requeue_pending, pop_dispatchable_redelivery_message_lem,
}
use pulsar_lite.Broker.StickyKey.{
  MessageMetadata, murmur3_32, mix_bytes, resolve_sticky_key, sticky_key_hash_from_metadata,
}
use pulsar_lite.Broker.StickyKey.Bounds.{same_key_owner}

-- The published values of the hash with the seed 0, for "", "a", "test" and "hello".
murmur_empty : murmur3_32 [] 0 ≡ 0
unfolding murmur3_32 mix_bytes
murmur_empty = refl

murmur_a : murmur3_32 (97 ∷ []) 0 ≡ 1009084850
unfolding murmur3_32 mix_bytes
murmur_a = refl

murmur_test : murmur3_32 (116 ∷ 101 ∷ 115 ∷ 116 ∷ []) 0 ≡ 3127628307
unfolding murmur3_32 mix_bytes
murmur_test = refl

murmur_hello : murmur3_32 (104 ∷ 101 ∷ 108 ∷ 108 ∷ 111 ∷ []) 0 ≡ 613153351
unfolding murmur3_32 mix_bytes
murmur_hello = refl

abbrev consumer : ℕ → Consumer
consumer id = record { consumer_id = id; key_shared_policy = none }

abbrev two_consumers : Assignments
two_consumers = record {
  consumers_by_id = (4, consumer 4) ∷ (2, consumer 2) ∷ [];
  auto_split_assignments = [];
  sticky_assignments = [];
  key_shared_policy = record {
    mode = auto_split;
    ranges = [];
    allow_out_of_order_delivery = false;
  };
}

rebuild_auto_split_once_example :
    holders (pos 40000) (rebuild_auto_split_assignments two_consumers).auto_split_assignments ≡ 1
rebuild_auto_split_once_example =
    rebuild_auto_split_once two_consumers 40000 (omega arith) (omega arith) (omega arith)

-- A decoder that takes the bytes for the ordering key.
abbrev as_ordering_key : List ℕ → Option MessageMetadata
as_ordering_key bytes = some (record {
  ordering_key = some bytes;
  partition_key = none;
  producer_name = [];
  sequence_id = 0;
})

same_key_owner_example :
    (owner : Consumer) × ((metadata : List ℕ) (now : Readiness)
      → resolve_sticky_key as_ordering_key metadata ≡ 97 ∷ []
      → select_consumer_for_hash now
          (rebuild_assignments two_consumers)
          (sticky_key_hash_from_metadata as_ordering_key metadata)
        ≡ (if is_ready now owner then some owner else none))
same_key_owner_example =
    same_key_owner as_ordering_key two_consumers (97 ∷ []) refl (omega arith) (omega arith)

abbrev seventh : MessageId
seventh = record { ledger = 1; entry = 7; partition = negsuc 0 }

abbrev stored_seventh : StoredMessage
stored_seventh = record { message_id = seventh; metadata = []; payload = 1 ∷ [] }

abbrev unacknowledged : Store
unacknowledged = record {
  is_acknowledged = λ id. some false;
  get_message_entry_by_id = λ id. some stored_seventh;
  sticky_key_hash_from_metadata = λ metadata. pos 5;
}

abbrev all_ready : Readiness
all_ready = record { available_permits_now = λ id. 10; is_writable = λ id. true }

-- The message 7 was handed out from the redelivery queue.
abbrev seventh_in_flight : RedeliveryController
seventh_in_flight = record {
  entries = [];
  in_flight_hashes = (seventh, pos 5) ∷ [];
  blocked_hashes = (pos 5, 1) ∷ [];
  block_hashes = true;
}

abbrev pending_seventh : List (MessageId × PendingAck)
pending_seventh =
    (seventh, record { dispatched_at = 0; redelivery_count = 1; sticky_key_hash = some (pos 5) })
    ∷ []

pop-requeue_pending_example :
    pop_dispatchable_redelivery_message all_ready
      (rebuild_assignments two_consumers)
      unacknowledged
      (requeue_pending seventh_in_flight pending_seventh)
    ≡ (requeue_pending seventh_in_flight pending_seventh, nothing)
unfolding requeue_pending add_redelivery_entries add increment_hash get insert_ordered
pop-requeue_pending_example =
    pop-requeue_pending all_ready (rebuild_assignments two_consumers) unacknowledged
      seventh_in_flight seventh (pos 5) pending_seventh refl
      ((refl, refl, stored_seventh, refl), tt)

abbrev redelivered : RedeliveryEntry
redelivered = record { message_id = seventh; redelivery_count = 3; sticky_key_hash = none }

-- A controller with a message in its queue, whose hash is not known yet.
abbrev one_queued : RedeliveryController
one_queued = add (new_controller true) redelivered

one_queued-IsCounted : IsCounted one_queued
unfolding step get
one_queued-IsCounted =
    (step-IsCounted (new_controller true) (adds redelivered) new-IsCounted refl).0

pop_dispatchable_redelivery_message_lem_example :
    IsGood all_ready
      (rebuild_assignments two_consumers)
      unacknowledged
      one_queued
      (queued_entries one_queued)
      (pop_dispatchable_redelivery_message all_ready
        (rebuild_assignments two_consumers)
        unacknowledged
        one_queued)
pop_dispatchable_redelivery_message_lem_example =
    pop_dispatchable_redelivery_message_lem all_ready (rebuild_assignments two_consumers)
      unacknowledged one_queued one_queued-IsCounted

-- The message is handed out, to the consumer that owns the hash 5.
one_popped :
    (pop_dispatchable_redelivery_message all_ready
      (rebuild_assignments two_consumers)
      unacknowledged
      one_queued).1
    ≡ popped
        (record { message_id = seventh; redelivery_count = 3; sticky_key_hash = some (pos 5) })
        stored_seventh
        (consumer 2)
unfolding pop_dispatchable_redelivery_message scan_loop add get insert_ordered increment_hash
    has_in_flight_hash select_consumer_for_hash first_ready rebuild_assignments
    rebuild_sticky_assignments rebuild_auto_split_assignments assign_ranges sort_by insert_sorted
    take_for_delivery_with_hash
one_popped = refl
