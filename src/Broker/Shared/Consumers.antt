-- ===== src/Broker/Shared/Consumers.antt =====
-- rust/src/broker/dispatcher/shared.rs: consumers come and go, and permits with them.
use pulsar_lite.Prelude.{
  ℕ, zero, suc, ◌+◌, ◌-◌, Bool, true, false, Option, none, some, List, [], ◌∷◌, ◌⊎◌, inl, inr,
  length, map, ltb, leb, ◌==◌, if◌then◌else◌,
}
use pulsar_lite.Prelude.Int.{
  ℤ, pos, negsuc, lt_int, plus_int, minus_int, wrap_i32, to_i32, pos_part,
}
use pulsar_lite.Prelude.Maps.{get, insert_entry, remove_key, nat_key}
use pulsar_lite.ManagedLedger.Position.{ManagedLedgerPosition, MessageId}
use pulsar_lite.Broker.PendingAcks.{PendingAck, close, drain}
use pulsar_lite.Broker.Redelivery.{RedeliveryController, RedeliveryEntry, add, clear}
use pulsar_lite.Broker.Shared.{Consumer, SharedDispatcher, modulo}

abbrev pub one_later : Option ℕ → Option ℕ
one_later none = none
one_later (some n) = some (suc n)

-- The first place whose consumer has a higher level.
unfoldable pub find_place : List (ℕ × Consumer) → ℤ → List ℕ → Option ℕ
find_place consumers priority_level [] = none
find_place consumers priority_level (id ∷ rest) =
    let later = one_later (find_place consumers priority_level rest) in
    elim (get id consumers) [
      | none ↦ later
      | some existing ↦ if lt_int priority_level existing.priority_level then some 0 else later
    ]

-- `Vec::insert`.
unfoldable pub insert_elem : ℕ → ℕ → List ℕ → List ℕ
insert_elem zero id l = id ∷ l
insert_elem (suc n) id [] = id ∷ []
insert_elem (suc n) id (j ∷ l) = j ∷ insert_elem n id l

abbrev pub or_length : List ℕ → Option ℕ → ℕ
or_length l none = length l
or_length l (some n) = n

unfoldable pub insert_consumer_order : SharedDispatcher → ℕ → ℤ → SharedDispatcher
insert_consumer_order d consumer_id priority_level = record d {
  consumer_order =
      insert_elem
        (or_length d.consumer_order (find_place d.consumers priority_level d.consumer_order))
        consumer_id d.consumer_order;
}

unfoldable pub position_of : ℕ → List ℕ → Option ℕ
position_of id [] = none
position_of id (j ∷ l) =
    let later = one_later (position_of id l) in if j == id then some 0 else later

-- `Vec::remove`.
unfoldable pub remove_at : ℕ → List ℕ → List ℕ
remove_at n [] = []
remove_at zero (j ∷ l) = l
remove_at (suc n) (j ∷ l) = j ∷ remove_at n l

abbrev pub index_after_removal : ℕ → ℕ → ℕ → ℕ
index_after_removal index zero current = 0
index_after_removal index (suc k) current =
    if ltb index current
    then current - 1
    else if leb (suc k) current
    then modulo current (suc k)
    else current

abbrev pub removed_at : SharedDispatcher → Option ℕ → SharedDispatcher
removed_at d none = d
removed_at d (some index) =
    let order = remove_at index d.consumer_order in
    record d {
      consumer_order = order;
      round_robin_index = index_after_removal index (length order) d.round_robin_index;
    }

unfoldable pub remove_consumer_order : SharedDispatcher → ℕ → SharedDispatcher
remove_consumer_order d consumer_id = removed_at d (position_of consumer_id d.consumer_order)

-- `saturating_sub` of two `i32`.
abbrev pub saturate : ℤ → ℤ
saturate n =
    if lt_int (pos 2147483647) n
    then pos 2147483647
    else if lt_int n (negsuc 2147483647)
    then negsuc 2147483647
    else n

unfoldable pub subtract_total_permits : SharedDispatcher → ℕ → SharedDispatcher
subtract_total_permits d permits = record d {
  total_available_permits = saturate (minus_int d.total_available_permits (to_i32 permits));
}

pub data AddError : Type 0 where
  already_exists : ℕ → AddError

unfoldable pub add_consumer : SharedDispatcher → Consumer → SharedDispatcher ⊎ AddError
add_consumer d c = elim (get c.consumer_id d.consumers) [
  | some old ↦ inr (already_exists c.consumer_id)
  | none ↦ inl (
      insert_consumer_order (record d { consumers = insert_entry c.consumer_id c d.consumers })
        c.consumer_id c.priority_level)
]

unfoldable pub remove_consumer : SharedDispatcher → ℕ → SharedDispatcher × Option Consumer
remove_consumer d consumer_id = elim (get consumer_id d.consumers) [
  | none ↦ (d, none)
  | some c ↦ (
    subtract_total_permits
        (remove_consumer_order (record d { consumers = remove_key consumer_id d.consumers })
          consumer_id)
        (pos_part c.state.available_permits),
    some c,
  )
]

unfoldable pub add_all : RedeliveryController → List RedeliveryEntry → RedeliveryController
add_all controller [] = controller
add_all controller (e ∷ rest) = add_all (add controller e) rest

abbrev pub add_redelivery_entries : SharedDispatcher → List RedeliveryEntry → SharedDispatcher
add_redelivery_entries d entries = record d {
  redelivery_controller = add_all d.redelivery_controller entries;
}

abbrev pub without_hash : MessageId × ℕ → RedeliveryEntry
without_hash (id, count) = record {
  message_id = id;
  redelivery_count = count;
  sticky_key_hash = none;
}

abbrev pub add_to_redelivery_queue : SharedDispatcher → List (MessageId × ℕ) → SharedDispatcher
add_to_redelivery_queue d message_ids = add_redelivery_entries d (map without_hash message_ids)

-- Each of the consumer's pending messages, with one more delivery counted.
abbrev pub recovered : Consumer → List (MessageId × ℕ)
recovered c =
    map (λ (e : MessageId × PendingAck). (e.0, e.1.redelivery_count + 1))
      (drain (close c.state.pending_acks)).1

abbrev pub closed : Consumer → Consumer
closed c = record c {
  state = record c.state { pending_acks = (drain (close c.state.pending_acks)).0 };
}

abbrev pub requeue : SharedDispatcher × Option Consumer → SharedDispatcher × Option Consumer
requeue (d, none) = (d, none)
requeue (d, some c) = (add_to_redelivery_queue d (recovered c), some (closed c))

unfoldable pub remove_consumer_with_recovery :
    SharedDispatcher → ℕ → SharedDispatcher × Option Consumer
remove_consumer_with_recovery d consumer_id = requeue (remove_consumer d consumer_id)

abbrev pub is_consumer_connected : SharedDispatcher → Bool
is_consumer_connected d = elim d.consumers [ [] ↦ false | c ∷ rest ↦ true ]

abbrev pub init_read_position : SharedDispatcher → Option ManagedLedgerPosition → SharedDispatcher
init_read_position d position = record d { read_position = position }

abbrev pub reset_after_seek : SharedDispatcher → Option ManagedLedgerPosition → SharedDispatcher
reset_after_seek d position = record d {
  read_position = position;
  redelivery_controller = clear d.redelivery_controller;
}

unfoldable pub consumer_flow : SharedDispatcher → ℕ → ℕ → SharedDispatcher
consumer_flow d consumer_id additional_permits = record d {
  total_available_permits =
      wrap_i32 (plus_int d.total_available_permits (to_i32 additional_permits));
}
