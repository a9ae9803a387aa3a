-- ===== src/Broker/NonPersistent/Failover.antt =====
-- rust/src/broker/non_persistent/dispatcher/single_active.rs: NonPersistentDispatcherFailover, whose
-- active consumer goes by the partition of the topic, or by its name.
use pulsar_lite.Prelude.{
  ℕ, zero, suc, ◌+◌, ◌/◌, ◌%◌, Bool, true, false, ◌&&◌, ◌||◌, Option, none, some, List, [], ◌∷◌,
  ◌++◌, map, length, get_elem?, ◌⊎◌, inl, inr, ltb, leb, ◌==◌, if◌then◌else◌,
}
use pulsar_lite.Prelude.Int.{ℤ, pos, negsuc, lt_int, eq_int}
use pulsar_lite.Prelude.Maps.{lt_bytes}
use pulsar_lite.ManagedLedger.Position.{StoredMessage}
use pulsar_lite.Broker.ConsumerDispatch.{ConsumerState}
use pulsar_lite.Broker.StickyKey.{murmur3_32}
use pulsar_lite.Broker.KeyShared.{sort_by}
use pulsar_lite.Broker.Failover.{
  Consumer, find_consumer, notify_active_consumer_change, remove_first, same_id, tell,
}
use pulsar_lite.Broker.NonPersistent.{Counters, send_messages}

pub record NonPersistentDispatcherFailover : Type 0 where
  pub topic_name : List ℕ
  pub partition_index : ℤ
  pub consumers : List Consumer
  pub active_consumer_id : Option ℕ
  pub counters : Counters

abbrev pub new_non_persistent_failover : List ℕ → ℤ → NonPersistentDispatcherFailover
new_non_persistent_failover topic_name partition_index = record {
  topic_name = topic_name;
  partition_index = partition_index;
  consumers = [];
  active_consumer_id = none;
  counters = record { received_messages = 0; dropped_messages = 0; dispatched_messages = 0 };
}

-- The lower level first, then the name; the sort is stable.
abbrev pub before_by_name : Consumer → Consumer → Bool
before_by_name a b =
    lt_int a.priority_level b.priority_level
    || (eq_int a.priority_level b.priority_level && lt_bytes a.consumer_name b.consumer_name)

abbrev pub sort_by_name : List Consumer → List Consumer
sort_by_name consumers = sort_by before_by_name consumers

unfoldable pub with_level : ℤ → List Consumer → List Consumer
with_level level [] = []
with_level level (c ∷ rest) =
    if eq_int c.priority_level level then c ∷ with_level level rest else with_level level rest

-- A number below 100 in decimal.
abbrev pub decimal : ℕ → List ℕ
decimal n = if ltb n 10 then (48 + n) ∷ [] else (48 + n / 10) ∷ (48 + n % 10) ∷ []

-- The points of a consumer, from a replica on.
unfoldable pub replicas : ℕ → ℕ → List ℕ → ℕ → List (ℕ × ℕ)
replicas zero replica name index = []
replicas (suc left) replica name index =
    (murmur3_32 (name ++ decimal replica) 0, index) ∷ replicas left (replica + 1) name index

unfoldable pub hash_ring : ℕ → List Consumer → List (ℕ × ℕ)
hash_ring index [] = []
hash_ring index (c ∷ rest) = replicas 100 0 c.consumer_name index ++ hash_ring (index + 1) rest

abbrev pub by_hash : ℕ × ℕ → ℕ × ℕ → Bool
by_hash (h, i) (k, j) = ltb h k

unfoldable pub at_or_after : ℕ → List (ℕ × ℕ) → Option ℕ
at_or_after topic_hash [] = none
at_or_after topic_hash ((h, index) ∷ rest) =
    if leb topic_hash h then some index else at_or_after topic_hash rest

abbrev pub first_index : List (ℕ × ℕ) → ℕ
first_index [] = 0
first_index ((h, index) ∷ rest) = index

abbrev pub on_ring : List ℕ → List (ℕ × ℕ) → ℕ
on_ring topic_name ring = elim (at_or_after (murmur3_32 topic_name 0) ring) [
  | none ↦ first_index ring
  | some index ↦ index
]

abbrev pub modulo : ℕ → ℕ → ℕ
modulo n zero = n
modulo n (suc k) = n % suc k

-- A partition counts through the consumers, and a topic without partitions is placed on the ring.
abbrev pub selected_index : List ℕ → ℤ → List Consumer → ℕ
selected_index topic_name (pos partition) consumers = modulo partition (length consumers)
selected_index topic_name (negsuc n) consumers =
    on_ring topic_name (sort_by by_hash (hash_ring 0 consumers))

abbrev pub id_of : Option Consumer → Option ℕ
id_of none = none
id_of (some c) = some c.consumer_id

unfoldable pub select_by_topic : List ℕ → ℤ → List Consumer → Option ℕ
select_by_topic topic_name partition_index [] = none
select_by_topic topic_name partition_index (c ∷ rest) =
    let highest = with_level c.priority_level (c ∷ rest) in
    id_of (get_elem? highest (selected_index topic_name partition_index highest))

abbrev pub notify_all : Option ℕ → List Consumer → List Consumer
notify_all none consumers = consumers
notify_all (some id) consumers = map (notify_active_consumer_change id) consumers

unfoldable pub pick : NonPersistentDispatcherFailover → NonPersistentDispatcherFailover × Bool
pick d =
    let selected = select_by_topic d.topic_name d.partition_index d.consumers in
    if same_id selected d.active_consumer_id then (d, false) else (
      record d { active_consumer_id = selected; consumers = notify_all selected d.consumers },
      true,
    )

abbrev pub tell_new : ℕ → NonPersistentDispatcherFailover × Bool → NonPersistentDispatcherFailover
tell_new id (d, true) = d
tell_new id (d, false) = record d { consumers = tell id d.active_consumer_id d.consumers }

unfoldable pub add_to_failover :
    NonPersistentDispatcherFailover → Consumer → NonPersistentDispatcherFailover ⊎ ℕ
add_to_failover d c = elim (find_consumer c.consumer_id d.consumers) [
  | some old ↦ inr c.consumer_id
  | none ↦ inl (
      tell_new c.consumer_id (pick (record d { consumers = sort_by_name (d.consumers ++ c ∷ []) })))
]

abbrev pub after_leaving :
    NonPersistentDispatcherFailover → List Consumer → NonPersistentDispatcherFailover
after_leaving d [] = record d { consumers = []; active_consumer_id = none }
after_leaving d (c ∷ rest) = (pick (record d { consumers = c ∷ rest })).0

unfoldable pub remove_from_failover :
    NonPersistentDispatcherFailover → ℕ → NonPersistentDispatcherFailover × Option Consumer
remove_from_failover d id = elim (find_consumer id d.consumers) [
  | none ↦ (d, none)
  | some c ↦ (after_leaving d (sort_by_name (remove_first id d.consumers)), some c)
]

abbrev pub state_of : Option Consumer → Option ConsumerState
state_of none = none
state_of (some c) = some c.state

abbrev pub active_consumer : NonPersistentDispatcherFailover → Option Consumer
active_consumer d = elim d.active_consumer_id [
  | none ↦ none
  | some id ↦ find_consumer id d.consumers
]

abbrev pub put_back : Option Consumer → Option ConsumerState → List Consumer → List Consumer
put_back (some c) (some s) consumers =
    map (λ (b : Consumer). if b.consumer_id == c.consumer_id then record b { state = s } else b)
      consumers
put_back (some c) none consumers = consumers
put_back none s consumers = consumers

unfoldable pub send_to_active :
    (List ℕ → ℕ)
    → ℕ
    → List StoredMessage
    → NonPersistentDispatcherFailover
    → NonPersistentDispatcherFailover
send_to_active messages_in_batch now entries d =
    let r = send_messages messages_in_batch now entries d.counters (state_of (active_consumer d)) in
    record d { consumers = put_back (active_consumer d) r.0 d.consumers; counters = r.1 }
