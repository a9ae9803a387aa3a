-- ===== src/Broker/Exclusive.antt =====
-- rust/src/broker/dispatcher/exclusive.rs: the dispatcher of an exclusive subscription.
pub mod Failures
pub mod Messages
use pulsar_lite.Prelude.{
  ℕ, ◌+◌, ◌%◌, Bool, true, false, Option, none, some, ◌⊎◌, inl, inr, ◌==◌, if◌then◌else◌,
}
use pulsar_lite.Prelude.Results.{Result, ok}
use pulsar_lite.ManagedLedger.Position.{ManagedLedgerPosition}
use pulsar_lite.Broker.ConsumerDispatch.{ConsumerState}
use pulsar_lite.Broker.ReadPosition.{Log, DispatchError}
use pulsar_lite.Broker.SingleActive.{Active, dispatch_loop}

pub record Consumer : Type 0 where
  pub consumer_id : ℕ
  pub state : ConsumerState

pub record ExclusiveDispatcher : Type 0 where
  pub consumer : Option Consumer
  pub total_available_permits : ℕ
  pub read_position : Option ManagedLedgerPosition

abbrev pub new_exclusive : ExclusiveDispatcher
new_exclusive = record { consumer = none; total_available_permits = 0; read_position = none }

abbrev pub is_consumer_connected : ExclusiveDispatcher → Bool
is_consumer_connected d = elim d.consumer [ none ↦ false | some c ↦ true ]

pub data AddError : Type 0 where
  already_has_consumer : AddError

unfoldable pub add_consumer : ExclusiveDispatcher → Consumer → ExclusiveDispatcher ⊎ AddError
add_consumer d c = elim d.consumer [
  | none ↦ inl (record d { consumer = some c })
  | some old ↦ inr already_has_consumer
]

unfoldable pub remove_consumer : ExclusiveDispatcher → ℕ → ExclusiveDispatcher × Option Consumer
remove_consumer d consumer_id = elim d.consumer [
  | none ↦ (d, none)
  | some c ↦
      if c.consumer_id == consumer_id then (record d { consumer = none }, some c) else (d, none)
]

abbrev pub remove_consumer_with_recovery :
    ExclusiveDispatcher → ℕ → ExclusiveDispatcher × Option Consumer
remove_consumer_with_recovery d consumer_id = remove_consumer d consumer_id

abbrev pub init_read_position :
    ExclusiveDispatcher → Option ManagedLedgerPosition → ExclusiveDispatcher
init_read_position d pos = record d { read_position = pos }

unfoldable pub consumer_flow : ExclusiveDispatcher → ℕ → ℕ → ExclusiveDispatcher
consumer_flow d consumer_id additional_permits = elim d.consumer [
  | none ↦ d
  | some c ↦
      if c.consumer_id == consumer_id
      then record d {
        total_available_permits = (d.total_available_permits + additional_permits) % 4294967296;
      }
      else d
]

abbrev pub active_of : ExclusiveDispatcher → Consumer → Active
active_of d c = record {
  consumer = c.state;
  total_available_permits = d.total_available_permits;
  read_position = d.read_position;
}

abbrev pub with_active : ExclusiveDispatcher → Consumer → Active → ExclusiveDispatcher
with_active d c a = record d {
  consumer = some (record c { state = a.consumer });
  total_available_permits = a.total_available_permits;
  read_position = a.read_position;
}

unfoldable pub dispatch_messages :
    ℕ → ℕ → ℕ → Log → ExclusiveDispatcher → ExclusiveDispatcher × Result DispatchError (Unit {0})
dispatch_messages rounds fuel now log d = elim d.consumer [
  | none ↦ (d, ok tt)
  | some c ↦ let r = dispatch_loop rounds fuel now log (active_of d c) in (with_active d c r.0, r.1)
]
