-- ===== src/Broker/Shared.antt =====
-- rust/src/broker/dispatcher/shared.rs: the consumers of a shared subscription in their order, and
-- the choice of the next one. A consumer's fields that the dispatcher reads stand with it in the map.
pub mod Consumers
pub mod Scans
pub mod Selection
pub mod Turns
pub mod Sorted
pub mod Lifecycle
pub mod Calls
pub mod Batch
pub mod Passes
pub mod Failures
use pulsar_lite.Prelude.{
  ℕ, zero, suc, ◌+◌, ◌-◌, ◌%◌, Bool, false, Option, none, some, List, [], ◌∷◌, length, get_elem?,
  ◌==◌, if◌then◌else◌,
}
use pulsar_lite.Prelude.Int.{ℤ, pos, le_int, eq_int}
use pulsar_lite.Prelude.Maps.{get, nat_key}
use pulsar_lite.ManagedLedger.Position.{ManagedLedgerPosition}
use pulsar_lite.Broker.ConsumerDispatch.{ConsumerState, has_permits}
use pulsar_lite.Broker.Redelivery.{RedeliveryController, new_controller}

pub record Consumer : Type 0 where
  pub consumer_id : ℕ
  pub priority_level : ℤ
  pub state : ConsumerState

pub record SharedDispatcher : Type 0 where
  pub consumers : List (ℕ × Consumer)
  pub consumer_order : List ℕ
  pub round_robin_index : ℕ
  pub total_available_permits : ℤ
  pub dispatch_in_progress : Bool
  pub should_reschedule : Bool
  pub max_unacked_messages : ℕ
  pub redelivery_controller : RedeliveryController
  pub read_position : Option ManagedLedgerPosition

abbrev pub new_shared : SharedDispatcher
new_shared = record {
  consumers = [];
  consumer_order = [];
  round_robin_index = 0;
  total_available_permits = pos 0;
  dispatch_in_progress = false;
  should_reschedule = false;
  max_unacked_messages = 50000;
  redelivery_controller = new_controller false;
  read_position = none;
}

unfoldable pub consumers_in_order : List (ℕ × Consumer) → List ℕ → List Consumer
consumers_in_order consumers [] = []
consumers_in_order consumers (id ∷ rest) = elim (get id consumers) [
  | none ↦ consumers_in_order consumers rest
  | some c ↦ c ∷ consumers_in_order consumers rest
]

abbrev pub ordered_consumers : SharedDispatcher → List Consumer
ordered_consumers d = consumers_in_order d.consumers d.consumer_order

-- The index of the first consumer with the priority, from an index on.
unfoldable pub index_of_priority : ℕ → ℤ → List Consumer → Option ℕ
index_of_priority index target [] = none
index_of_priority index target (c ∷ rest) =
    if eq_int c.priority_level target then some index else index_of_priority (index + 1) target rest

abbrev pub first_consumer_index_of_priority : List Consumer → ℤ → Option ℕ
first_consumer_index_of_priority consumers target_priority =
    index_of_priority 0 target_priority consumers

-- `enumerate().take(left)`, from an index on.
unfoldable pub find_higher : ℕ → ℕ → ℤ → List Consumer → Option ℕ
find_higher index zero target l = none
find_higher index (suc left) target [] = none
find_higher index (suc left) target (c ∷ rest) =
    if le_int target c.priority_level
    then none
    else if has_permits c.state
    then some index
    else find_higher (index + 1) left target rest

abbrev pub find_available_consumer_from_higher_priority : List Consumer → ℕ → ℤ → Option ℕ
find_available_consumer_from_higher_priority consumers current_index target_priority =
    find_higher 0 current_index target_priority consumers

-- How the scan of the consumers with the same priority ends: at a consumer, back where it began
-- with the end of the priority, or without the priority; and out of fuel.
pub data Scan : Type 0 where
  found : ℕ → Scan
  ended : ℕ → Scan
  no_such_priority : Scan
  out_of_fuel : Scan

abbrev pub go_on : ℕ → (ℕ → ℕ → Scan) → ℕ → ℕ → Scan
go_on current again scan_index end =
    if scan_index == current then ended end else again scan_index end

abbrev pub wrap_around : ℕ → (ℕ → ℕ → Scan) → ℕ → Option ℕ → Scan
wrap_around current again scan_index none = no_such_priority
wrap_around current again scan_index (some first) = go_on current again first scan_index

abbrev pub scan_at : List Consumer → ℤ → ℕ → (ℕ → ℕ → Scan) → ℕ → ℕ → Option Consumer → Scan
scan_at consumers target current again scan_index end none =
    wrap_around current again scan_index (first_consumer_index_of_priority consumers target)
scan_at consumers target current again scan_index end (some c) =
    if eq_int c.priority_level target
    then (if has_permits c.state
        then found scan_index
        else go_on current again (scan_index + 1) end)
    else wrap_around current again scan_index (first_consumer_index_of_priority consumers target)

unfoldable pub scan_loop : ℕ → List Consumer → ℤ → ℕ → ℕ → ℕ → Scan
scan_loop zero consumers target current scan_index end = out_of_fuel
scan_loop (suc fuel) consumers target current scan_index end =
    scan_at consumers target current (λ s e. scan_loop fuel consumers target current s e) scan_index
      end (get_elem? consumers scan_index)

-- `enumerate().skip(n)`: the first consumer with permits from there on.
unfoldable pub find_skipping : ℕ → ℕ → List Consumer → Option ℕ
find_skipping index skip [] = none
find_skipping index zero (c ∷ rest) =
    if has_permits c.state then some index else find_skipping (index + 1) zero rest
find_skipping index (suc skip) (c ∷ rest) = find_skipping (index + 1) skip rest

abbrev pub after_scan : List Consumer → Scan → Option ℕ
after_scan consumers (found index) = some index
after_scan consumers (ended end) = find_skipping 0 end consumers
after_scan consumers no_such_priority = none
after_scan consumers out_of_fuel = none

-- With a round for each consumer and one more.
unfoldable pub find_available_consumer_from_same_or_lower_priority :
    List Consumer → ℕ → Consumer → Option ℕ
find_available_consumer_from_same_or_lower_priority consumers current_index current =
    if has_permits current.state
    then some current_index
    else after_scan consumers (
        scan_loop (length consumers + 1) consumers current.priority_level current_index
          (current_index + 1) current_index)

abbrev pub or_else : Option ℕ → Option ℕ → Option ℕ
or_else none b = b
or_else (some a) b = some a

-- The index that is chosen, with the consumer at the current index.
unfoldable pub choose : List Consumer → ℕ → Consumer → Option ℕ
choose consumers current_index current =
    or_else
      (if eq_int current.priority_level (pos 0)
        then none
        else find_available_consumer_from_higher_priority consumers current_index
            current.priority_level)
      (find_available_consumer_from_same_or_lower_priority consumers current_index current)

abbrev pub modulo : ℕ → ℕ → ℕ
modulo n zero = n
modulo n (suc k) = n % suc k

abbrev pub chosen : SharedDispatcher → List Consumer → Option ℕ → SharedDispatcher × Option Consumer
chosen d consumers none = (d, none)
chosen d consumers (some index) = (
  record d { round_robin_index = modulo (index + 1) (length consumers) },
  get_elem? consumers index,
)

-- No consumer stands at the index only if there is none.
abbrev pub choose_at :
    SharedDispatcher → List Consumer → ℕ → Option Consumer → SharedDispatcher × Option Consumer
choose_at d consumers current_index none = (d, none)
choose_at d consumers current_index (some current) =
    chosen d consumers (choose consumers current_index current)

unfoldable pub get_next_available_consumer : SharedDispatcher → SharedDispatcher × Option Consumer
get_next_available_consumer d =
    let consumers = ordered_consumers d in
    let current_index = modulo d.round_robin_index (length consumers) in
    choose_at d consumers current_index (get_elem? consumers current_index)
