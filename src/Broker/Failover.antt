-- ===== src/Broker/Failover.antt =====
-- rust/src/broker/dispatcher/failover.rs: the active consumer of a failover subscription. A
-- consumer's fields that the dispatcher reads and writes stand with it in the list.
pub mod Elected
pub mod Order
pub mod Calls
use pulsar_lite.Prelude.{
  ℕ, ◌+◌, ◌%◌, Bool, true, false, ◌&&◌, ◌||◌, Option, none, some, List, [], ◌∷◌, ◌++◌, map, ◌⊎◌,
  inl, inr, ltb, ◌==◌, if◌then◌else◌,
}
use pulsar_lite.Prelude.Int.{ℤ, pos, negsuc, pos_part, lt_int, eq_int, minus}
use pulsar_lite.Prelude.Maps.{eq_bytes, lt_bytes}
use pulsar_lite.Prelude.Results.{Result, ok}
use pulsar_lite.ManagedLedger.Position.{ManagedLedgerPosition, MessageId, from_message_id}
use pulsar_lite.Broker.PendingAcks.{PendingAck, close, drain}
use pulsar_lite.Broker.ConsumerDispatch.{ConsumerState}
use pulsar_lite.Broker.KeyShared.{sort_by}
use pulsar_lite.Broker.ReadPosition.{Log, DispatchError}
use pulsar_lite.Broker.SingleActive.{dispatch_loop, rewind_read_position}

pub record Consumer : Type 0 where
  pub consumer_id : ℕ
  pub consumer_name : List ℕ
  pub priority_level : ℤ
  pub active_consumer_id : ℤ
  pub is_active_consumer : Bool
  pub state : ConsumerState

pub record FailoverDispatcher : Type 0 where
  pub consumers : List Consumer
  pub active_consumer_id : Option ℕ
  pub total_available_permits : ℕ
  pub read_position : Option ManagedLedgerPosition

abbrev pub new_failover : FailoverDispatcher
new_failover = record {
  consumers = [];
  active_consumer_id = none;
  total_available_permits = 0;
  read_position = none;
}

unfoldable pub find_consumer : ℕ → List Consumer → Option Consumer
find_consumer id [] = none
find_consumer id (c ∷ rest) = if c.consumer_id == id then some c else find_consumer id rest

abbrev pub get_active_consumer : FailoverDispatcher → Option Consumer
get_active_consumer d = elim d.active_consumer_id [
  | none ↦ none
  | some id ↦ find_consumer id d.consumers
]

-- The comparison of the sort: the higher priority level first, then name and id.
abbrev pub precedes : Consumer → Consumer → Bool
precedes a b =
    lt_int b.priority_level a.priority_level
    || (eq_int b.priority_level a.priority_level
        && (lt_bytes a.consumer_name b.consumer_name
            || (eq_bytes a.consumer_name b.consumer_name && ltb a.consumer_id b.consumer_id)))

abbrev pub sort_consumers : List Consumer → List Consumer
sort_consumers consumers = sort_by precedes consumers

abbrev pub select_active_consumer_id : List Consumer → Option ℕ
select_active_consumer_id [] = none
select_active_consumer_id (c ∷ rest) = some c.consumer_id

-- `id as i64`.
abbrev pub to_i64 : ℕ → ℤ
to_i64 n =
    let low = n % 18446744073709551616 in
    if ltb low 9223372036854775808 then pos low else minus low 18446744073709551616

abbrev pub notify_active_consumer_change : ℕ → Consumer → Consumer
notify_active_consumer_change id c = record c {
  active_consumer_id = to_i64 id;
  is_active_consumer = c.consumer_id == id;
}

abbrev pub clear_active_consumer : Consumer → Consumer
clear_active_consumer c = record c { active_consumer_id = negsuc 0; is_active_consumer = false }

-- `available_permits_now`.
abbrev pub available_permits_now : Option Consumer → ℕ
available_permits_now none = 0
available_permits_now (some c) = pos_part c.state.available_permits

abbrev pub sync_total_available_permits : FailoverDispatcher → FailoverDispatcher
sync_total_available_permits d = record d {
  total_available_permits = available_permits_now (get_active_consumer d);
}

abbrev pub same_id : Option ℕ → Option ℕ → Bool
same_id none none = true
same_id (some a) (some b) = a == b
same_id none (some b) = false
same_id (some a) none = false

-- Everyone is told about the new active consumer, or that there is none.
abbrev pub schedule : Option ℕ → List Consumer → List Consumer
schedule (some id) consumers = map (notify_active_consumer_change id) consumers
schedule none consumers = map clear_active_consumer consumers

unfoldable pub pick_and_schedule_active_consumer : FailoverDispatcher → FailoverDispatcher × Bool
pick_and_schedule_active_consumer d =
    let selected = select_active_consumer_id d.consumers in
    if same_id selected d.active_consumer_id then (sync_total_available_permits d, false) else (
      sync_total_available_permits
          (record d { active_consumer_id = selected; consumers = schedule selected d.consumers }),
      true,
    )

-- The consumer with the id is told who is active.
abbrev pub tell : ℕ → Option ℕ → List Consumer → List Consumer
tell added none consumers = consumers
tell added (some id) consumers =
    map (λ (c : Consumer). if c.consumer_id == added then notify_active_consumer_change id c else c)
      consumers

pub data AddError : Type 0 where
  already_exists : ℕ → AddError

-- The end of `add_consumer`: where the active consumer stays, only the new one is told.
abbrev pub tell_added : ℕ → FailoverDispatcher × Bool → FailoverDispatcher
tell_added id (d, true) = d
tell_added id (d, false) = record d { consumers = tell id d.active_consumer_id d.consumers }

unfoldable pub put_in : FailoverDispatcher → Consumer → FailoverDispatcher
put_in d c = tell_added c.consumer_id (
    pick_and_schedule_active_consumer
      (record d { consumers = sort_consumers (d.consumers ++ c ∷ []) }))

unfoldable pub add_consumer : FailoverDispatcher → Consumer → FailoverDispatcher ⊎ AddError
add_consumer d c = elim (find_consumer c.consumer_id d.consumers) [
  | some old ↦ inr (already_exists c.consumer_id)
  | none ↦ inl (put_in d c)
]

unfoldable pub remove_first : ℕ → List Consumer → List Consumer
remove_first id [] = []
remove_first id (c ∷ rest) = if c.consumer_id == id then rest else c ∷ remove_first id rest

abbrev pub after_removal : FailoverDispatcher → List Consumer → FailoverDispatcher
after_removal d [] = record d {
  consumers = [];
  active_consumer_id = none;
  total_available_permits = 0;
}
after_removal d (c ∷ rest) =
    (pick_and_schedule_active_consumer (record d { consumers = c ∷ rest })).0

unfoldable pub remove_consumer : FailoverDispatcher → ℕ → FailoverDispatcher × Option Consumer
remove_consumer d consumer_id = elim (find_consumer consumer_id d.consumers) [
  | none ↦ (d, none)
  | some c ↦ (
    after_removal d (sort_consumers (remove_first consumer_id d.consumers)),
    some
        (elim (remove_first consumer_id d.consumers) [ [] ↦ clear_active_consumer c | x ∷ xs ↦ c ]),
  )
]

abbrev pub pending_positions : Consumer → List ManagedLedgerPosition
pending_positions c =
    map (λ (e : MessageId × PendingAck). from_message_id e.0) (drain (close c.state.pending_acks)).1

-- The acknowledgements of the consumer are closed and drained where it stands in the list.
abbrev pub drained : ℕ → List Consumer → List Consumer
drained id consumers =
    map
      (λ (c : Consumer).
        if c.consumer_id == id
        then record c {
          state = record c.state { pending_acks = (drain (close c.state.pending_acks)).0 };
        }
        else c)
      consumers

abbrev pub rewound : Log → FailoverDispatcher → ℕ → FailoverDispatcher
rewound log d id = elim (find_consumer id d.consumers) [
  | none ↦ record d { read_position = rewind_read_position log [] }
  | some c ↦ record d {
    consumers = drained id d.consumers;
    read_position = rewind_read_position log (pending_positions c);
  }
]

abbrev pub sort_and_pick :
    FailoverDispatcher × Option Consumer → FailoverDispatcher × Option Consumer
sort_and_pick (d, none) = (d, none)
sort_and_pick (d, some c) = (
  (pick_and_schedule_active_consumer (record d { consumers = sort_consumers d.consumers })).0,
  some c,
)

unfoldable pub remove_consumer_with_recovery :
    Log → FailoverDispatcher → ℕ → FailoverDispatcher × Option Consumer
remove_consumer_with_recovery log d consumer_id = sort_and_pick (
    remove_consumer
      (if same_id d.active_consumer_id (some consumer_id) then rewound log d consumer_id else d)
      consumer_id)

abbrev pub init_read_position :
    FailoverDispatcher → Option ManagedLedgerPosition → FailoverDispatcher
init_read_position d position = record d { read_position = position }

unfoldable pub consumer_flow : FailoverDispatcher → ℕ → ℕ → FailoverDispatcher
consumer_flow d consumer_id additional_permits =
    if same_id d.active_consumer_id (some consumer_id)
    then record d {
      total_available_permits = (d.total_available_permits + additional_permits) % 4294967296;
    }
    else d

abbrev pub put_state : ℕ → ConsumerState → List Consumer → List Consumer
put_state id s consumers =
    map (λ (c : Consumer). if c.consumer_id == id then record c { state = s } else c) consumers

unfoldable pub dispatch_messages :
    ℕ → ℕ → ℕ → Log → FailoverDispatcher → FailoverDispatcher × Result DispatchError (Unit {0})
dispatch_messages rounds fuel now log d = elim (get_active_consumer d) [
  | none ↦ (d, ok tt)
  | some c ↦
      let r = dispatch_loop rounds fuel now log (record {
        consumer = c.state;
        total_available_permits = d.total_available_permits;
        read_position = d.read_position;
      }) in
      (
        record d {
          consumers = put_state c.consumer_id r.0.consumer d.consumers;
          total_available_permits = r.0.total_available_permits;
          read_position = r.0.read_position;
        },
        r.1,
      )
]
