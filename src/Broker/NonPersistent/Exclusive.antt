-- ===== src/Broker/NonPersistent/Exclusive.antt =====
-- rust/src/broker/non_persistent/dispatcher/single_active.rs: NonPersistentDispatcherExclusive.
use pulsar_lite.Prelude.{ℕ, Option, none, some, List, ◌==◌, if◌then◌else◌}
use pulsar_lite.ManagedLedger.Position.{StoredMessage}
use pulsar_lite.Broker.ConsumerDispatch.{ConsumerState}
use pulsar_lite.Broker.Failover.{Consumer}
use pulsar_lite.Broker.NonPersistent.{Counters, send_messages}
use pulsar_lite.Broker.NonPersistent.Failover.{state_of}

pub record NonPersistentDispatcherExclusive : Type 0 where
  pub consumer : Option Consumer
  pub counters : Counters

unfoldable pub add_to_exclusive :
    NonPersistentDispatcherExclusive → Consumer → Option NonPersistentDispatcherExclusive
add_to_exclusive d c = elim d.consumer [
  | none ↦ some (record d { consumer = some c })
  | some old ↦ none
]

unfoldable pub remove_from_exclusive :
    NonPersistentDispatcherExclusive → ℕ → NonPersistentDispatcherExclusive × Option Consumer
remove_from_exclusive d consumer_id = elim d.consumer [
  | none ↦ (d, none)
  | some c ↦
      if c.consumer_id == consumer_id then (record d { consumer = none }, some c) else (d, none)
]

abbrev pub with_state : Option Consumer → Option ConsumerState → Option Consumer
with_state (some c) (some s) = some (record c { state = s })
with_state (some c) none = some c
with_state none s = none

unfoldable pub send_to_exclusive :
    (List ℕ → ℕ)
    → ℕ
    → List StoredMessage
    → NonPersistentDispatcherExclusive
    → NonPersistentDispatcherExclusive
send_to_exclusive messages_in_batch now entries d =
    let r = send_messages messages_in_batch now entries d.counters (state_of d.consumer) in
    record d { consumer = with_state d.consumer r.0; counters = r.1 }
