-- ===== src/Tests/Shared.antt =====
-- Instances for the dispatcher of a shared subscription.
use pulsar_lite.Prelude.{ℕ, true, false, none, List, [], ◌∷◌, ◌≡◌, refl}
use pulsar_lite.Prelude.Int.{pos}
use pulsar_lite.Prelude.Maps.{get, insert_entry, nat_key}
use pulsar_lite.Prelude.Results.{err}
use pulsar_lite.Broker.ConsumerDispatch.Sending.{ready}
use pulsar_lite.Broker.ReadPosition.{storage_error}
use pulsar_lite.Broker.Redelivery.{RedeliveryEntry, new_controller}
use pulsar_lite.Broker.Shared.{
  Consumer, SharedDispatcher, new_shared, consumers_in_order, ordered_consumers, chosen, choose,
  find_available_consumer_from_same_or_lower_priority, get_next_available_consumer,
}
use pulsar_lite.Broker.Shared.Consumers.{
  add_consumer, insert_consumer_order, find_place, insert_elem, consumer_flow,
}
use pulsar_lite.Broker.Shared.Selection.{Placed}
use pulsar_lite.Broker.Shared.Turns.{current_of, turn_of}
use pulsar_lite.Broker.Shared.Calls.{Call, adds, flows, run, run-turn_of}
use pulsar_lite.Broker.Shared.Batch.{Storage, dispatch_messages_batch}
use pulsar_lite.Broker.Shared.Passes.{dispatch_messages, dispatch_messages-released}
use pulsar_lite.Broker.Shared.Failures.{IsLost, dispatch_messages_batch-IsLost}
use pulsar_lite.Tests.Dispatchers.{two_messages, id_at}

abbrev consumer : ℕ → ℕ → Consumer
consumer id level = record {
  consumer_id = id;
  priority_level = pos level;
  state = ready 5 [] [] 0 3;
}

-- The last one comes before the others.
abbrev calls : List Call
calls = adds (consumer 4 1) ∷ adds (consumer 5 1) ∷ flows 5 3 ∷ adds (consumer 6 0) ∷ []

run-turn_of_example :
    (c : Consumer) × (p : Placed
      (ordered_consumers (run new_shared calls))
      (current_of (run new_shared calls))
      c)
    × (get_next_available_consumer (run new_shared calls)
        ≡ chosen (run new_shared calls) (ordered_consumers (run new_shared calls)) (turn_of p))
unfolding get insert_entry add_consumer insert_consumer_order find_place insert_elem consumer_flow
    consumers_in_order
run-turn_of_example =
    run-turn_of calls (consumer 6 0) (consumer 4 1 ∷ consumer 5 1 ∷ []) refl
      (refl, (refl, (refl, tt)))

abbrev storage : Storage
storage = record {
  log = two_messages;
  get_message_entry_by_id = λ id. none;
  messages_in_batch = λ metadata. 1;
}

abbrev stopped : Storage
stopped = record storage { log = record two_messages { is_acknowledged = λ id. err storage_error } }

abbrev queued : RedeliveryEntry
queued = record { message_id = id_at 1; redelivery_count = 2; sticky_key_hash = none }

abbrev waiting : SharedDispatcher
waiting = record new_shared {
  consumers = (4, consumer 4 0) ∷ [];
  consumer_order = 4 ∷ [];
  total_available_permits = pos 5;
  redelivery_controller = record (new_controller false) { entries = (id_at 1, queued) ∷ [] };
}

dispatch_messages-released_example :
    (dispatch_messages 2 3 3 9 storage
      (record { asked = true; taken = false } ∷ record { asked = false; taken = false } ∷ [])
      waiting).0.dispatch_in_progress
    ≡ false
dispatch_messages-released_example =
    dispatch_messages-released 2 3 3 9 storage
      (record { asked = true; taken = false } ∷ record { asked = false; taken = false } ∷ [])
      waiting refl refl

dispatch_messages_batch-IsLost_example :
    IsLost waiting [] storage_error (dispatch_messages_batch 3 3 9 stopped waiting)
unfolding get get_next_available_consumer consumers_in_order choose
    find_available_consumer_from_same_or_lower_priority
dispatch_messages_batch-IsLost_example =
    dispatch_messages_batch-IsLost 3 3 9 stopped waiting (consumer 4 0) (id_at 1) queued []
      storage_error refl refl refl refl refl
