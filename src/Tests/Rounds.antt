-- ===== src/Tests/Rounds.antt =====
-- An instance for the rounds of the key-shared dispatcher: one dispatch remains, a redelivery is
-- queued, and a new message with another hash stands at the read position.
use pulsar_lite.Prelude.{◌+◌, ◌≤◌, arith, true, false, none, some, [], ◌∷◌, ◌≡◌, refl}
use pulsar_lite.Prelude.Int.{pos}
use pulsar_lite.Prelude.Maps.{get, insert_entry, nat_key, insert_ordered, remove_key}
use pulsar_lite.Prelude.Results.{ok}
use pulsar_lite.ManagedLedger.Position.{from_message_id}
use pulsar_lite.Broker.ConsumerDispatch.{
  ConsumerState, try_use_permits, send_message_with_sticky_hash, track_message_dispatched,
}
use pulsar_lite.Broker.ConsumerDispatch.Sending.{ready}
use pulsar_lite.Broker.ReadPosition.{
  Log, candidate_of, logical_next, next_unacked_candidate, candidate_loop, look_at,
}
use pulsar_lite.Broker.Redelivery.{
  RedeliveryEntry, RedeliveryController, new_controller, take_for_delivery_with_hash,
  has_in_flight_hash, is_hash_blocked, track_in_flight,
}
use pulsar_lite.Broker.PendingAcks.{add_pending_ack, begin_add, finish_add, contains_pending}
use pulsar_lite.Broker.KeyShared.{Consumer, auto_split, select_consumer_for_hash, first_ready}
use pulsar_lite.Broker.KeyShared.Redelivered.{
  nothing, pop_dispatchable_redelivery_message, scan_loop,
}
use pulsar_lite.Broker.KeyShared.Batch.{
  KeySharedDispatcher, Storage, readiness, send, put_state, subtract_total_permits, at_position,
  next_dispatchable_message, any_pending,
}
use pulsar_lite.Broker.KeyShared.Rounds.{dispatch_messages_batch}
use pulsar_lite.Broker.KeyShared.Channels.{in_channels}
use pulsar_lite.Broker.KeyShared.Underflow.{
  SendsRedelivery, SendsNew, done, then_new, batch_loop_underflow,
}
use pulsar_lite.Tests.Dispatchers.{two_messages, stored, id_at}

abbrev owner : Consumer
owner = record { consumer_id = 4; key_shared_policy = none }

abbrev queued : RedeliveryEntry
queued = record { message_id = id_at 0; redelivery_count = 2; sticky_key_hash = some (pos 7) }

abbrev dispatcher : KeySharedDispatcher
dispatcher = record {
  assignments = record {
    consumers_by_id = (4, owner) ∷ [];
    auto_split_assignments = (record { start = pos 0; end = pos 65535 }, owner) ∷ [];
    sticky_assignments = [];
    key_shared_policy = record {
      mode = auto_split;
      ranges = [];
      allow_out_of_order_delivery = false;
    };
  };
  states = (4, ready 5 [] [] 0 3) ∷ [];
  total_available_permits = pos 1;
  read_position = some (from_message_id (id_at 1));
  redelivery_controller = record (new_controller true) {
    entries = (id_at 0, queued) ∷ [];
    blocked_hashes = (pos 7, 1) ∷ [];
  };
}

-- There is a message at every position.
abbrev endless : Log
endless = record two_messages { read_entry_from = λ p. ok (some (stored p.entry_id)) }

abbrev storage : Storage
storage = record {
  log = endless;
  store = record {
    is_acknowledged = λ id. some false;
    get_message_entry_by_id = λ id. some (stored 0);
    sticky_key_hash_from_metadata = λ metadata. pos 9;
  };
  messages_in_batch = λ metadata. 1;
}

abbrev popped_controller : RedeliveryController
popped_controller =
    (pop_dispatchable_redelivery_message (readiness dispatcher) dispatcher.assignments storage.store
      dispatcher.redelivery_controller).0

abbrev four_left : ConsumerState
four_left = (try_use_permits (ready 5 [] [] 0 3) 1).0

abbrev with_redelivery : ConsumerState
with_redelivery = (send 9 four_left (id_at 0) [] (0 ∷ []) 2 (pos 7)).0

abbrev after_redelivery : KeySharedDispatcher
after_redelivery = put_state 4 with_redelivery (
    subtract_total_permits 1
      (put_state 4 four_left (record dispatcher { redelivery_controller = popped_controller })))

abbrev three_left : ConsumerState
three_left = (try_use_permits with_redelivery 1).0

abbrev with_both : ConsumerState
with_both = (send 9 three_left (id_at 1) [] (1 ∷ []) 0 (pos 9)).0

abbrev after_both : KeySharedDispatcher
after_both = at_position (logical_next (id_at 1)) (
    put_state 4 with_both (
      subtract_total_permits 1 (
        put_state 4 three_left
          (record after_redelivery { read_position = some (from_message_id (id_at 1)) }))))

redelivery_sent : SendsRedelivery 9 storage dispatcher after_redelivery
unfolding get pop_dispatchable_redelivery_message scan_loop has_in_flight_hash
    select_consumer_for_hash first_ready take_for_delivery_with_hash track_in_flight try_use_permits
    send_message_with_sticky_hash track_message_dispatched add_pending_ack begin_add finish_add
redelivery_sent = record {
  controller = popped_controller;
  entry = queued;
  stored = stored 0;
  consumer = owner;
  id = 4;
  before = ready 5 [] [] 0 3;
  used = four_left;
  sent = with_redelivery;
  pops = refl;
  is_there = refl;
  has_permits = refl;
  sends = refl;
  leaves = refl;
}

new_sent : SendsNew 3 3 9 storage after_redelivery after_both
unfolding get insert_entry insert_ordered pop_dispatchable_redelivery_message scan_loop
    has_in_flight_hash select_consumer_for_hash first_ready take_for_delivery_with_hash
    track_in_flight try_use_permits send_message_with_sticky_hash track_message_dispatched
    add_pending_ack begin_add finish_add next_dispatchable_message next_unacked_candidate
    candidate_loop look_at any_pending contains_pending is_hash_blocked
new_sent = record {
  position = some (from_message_id (id_at 1));
  candidate = candidate_of (stored 1) (logical_next (id_at 1));
  id = 4;
  before = with_redelivery;
  used = three_left;
  sent = with_both;
  reads = refl;
  is_free = refl;
  selects = refl;
  has_permits = refl;
  sends = refl;
  leaves = refl;
}

abbrev two_left : ConsumerState
two_left = (try_use_permits with_both 1).0

abbrev with_third : ConsumerState
with_third = (send 9 two_left (id_at 2) [] (2 ∷ []) 0 (pos 9)).0

abbrev after_third : KeySharedDispatcher
after_third = at_position (logical_next (id_at 2)) (
    put_state 4 with_third (
      subtract_total_permits 1 (
        put_state 4 two_left
          (record after_both { read_position = some (from_message_id (id_at 2)) }))))

third_sent : SendsNew 3 3 9 storage after_both after_third
unfolding get insert_entry insert_ordered pop_dispatchable_redelivery_message scan_loop
    has_in_flight_hash select_consumer_for_hash first_ready take_for_delivery_with_hash
    track_in_flight try_use_permits send_message_with_sticky_hash track_message_dispatched
    add_pending_ack begin_add finish_add next_dispatchable_message next_unacked_candidate
    candidate_loop look_at any_pending contains_pending is_hash_blocked
third_sent = record {
  position = some (from_message_id (id_at 2));
  candidate = candidate_of (stored 2) (logical_next (id_at 2));
  id = 4;
  before = with_both;
  used = two_left;
  sent = with_third;
  reads = refl;
  is_free = refl;
  selects = refl;
  has_permits = refl;
  sends = refl;
  leaves = refl;
}

nothing_queued :
    pop_dispatchable_redelivery_message
      (readiness after_both)
      after_both.assignments
      storage.store
      after_both.redelivery_controller
    ≡ (after_both.redelivery_controller, nothing)
unfolding get insert_entry insert_ordered pop_dispatchable_redelivery_message scan_loop
    has_in_flight_hash select_consumer_for_hash first_ready take_for_delivery_with_hash
    track_in_flight try_use_permits send_message_with_sticky_hash track_message_dispatched
    add_pending_ack begin_add finish_add next_dispatchable_message next_unacked_candidate
    candidate_loop look_at any_pending contains_pending is_hash_blocked remove_key
nothing_queued = refl

-- Three messages are sent where the limit is one.
batch_loop_underflow_example :
    in_channels dispatcher + 2 + 1
    ≤ in_channels (dispatch_messages_batch 6 3 3 9 storage dispatcher).0
batch_loop_underflow_example =
    batch_loop_underflow 3 3 9 storage 5 1 dispatcher after_redelivery after_both refl
      redelivery_sent new_sent
      (then_new 0 after_both after_third after_both.redelivery_controller nothing_queued third_sent
        (done after_third))
      (omega arith) (omega arith)
