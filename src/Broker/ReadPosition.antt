-- ===== src/Broker/ReadPosition.antt =====
-- rust/src/broker/dispatcher/read_position.rs: the next message that is not acknowledged. `Log` is
-- the calls of the storage for one topic and subscription; the fuel counts rounds of the loop.
pub mod Candidates
use pulsar_lite.Prelude.{ℕ, zero, suc, ◌+◌, Bool, true, false, Option, none, some, List}
use pulsar_lite.Prelude.Results.{Result, ok, err, ◌>>=◌}
use pulsar_lite.ManagedLedger.Position.{
  ManagedLedgerPosition, MessageId, StoredMessage, from_message_id,
}

pub data DispatchError : Type 0 where
  storage_error : DispatchError
  out_of_fuel : DispatchError

-- `read_entries_from` of one entry gives that entry or none.
pub record Log : Type 0 where
  pub is_acknowledged : MessageId → Result DispatchError Bool
  pub first_unacked_position : Result DispatchError (Option ManagedLedgerPosition)
  pub read_entry_from : ManagedLedgerPosition → Result DispatchError (Option StoredMessage)
  pub get_next_position :
      ManagedLedgerPosition → Result DispatchError (Option ManagedLedgerPosition)

pub record ReadCandidate : Type 0 where
  pub message_id : MessageId
  pub metadata : List ℕ
  pub payload : List ℕ
  pub next_position : ManagedLedgerPosition

abbrev pub logical_next : MessageId → ManagedLedgerPosition
logical_next id = record {
  ledger_id = id.ledger;
  entry_id = id.entry + 1;
  partition = id.partition;
}

abbrev pub or_next : MessageId → Option ManagedLedgerPosition → ManagedLedgerPosition
or_next id none = logical_next id
or_next id (some next) = next

abbrev pub candidate_of : StoredMessage → ManagedLedgerPosition → ReadCandidate
candidate_of entry next = record {
  message_id = entry.message_id;
  metadata = entry.metadata;
  payload = entry.payload;
  next_position = next;
}

-- What is read at a position: the entry, the position after it, and whether it is acknowledged.
unfoldable pub look_at :
    Log
    → ManagedLedgerPosition
    → Result DispatchError (Option (StoredMessage × ManagedLedgerPosition × Bool))
look_at log pos = log.read_entry_from pos >>= λ found. elim found [
  | none ↦ ok none
  | some entry ↦ do
    next ← log.get_next_position (from_message_id entry.message_id)
    already_acked ← log.is_acknowledged entry.message_id
    ok (some (entry, or_next entry.message_id next, already_acked))
]

abbrev pub Read : Type 0
Read = Option ManagedLedgerPosition × Result DispatchError (Option ReadCandidate)

abbrev pub looked_at :
    ManagedLedgerPosition
    → (ManagedLedgerPosition → Read)
    → Result DispatchError (Option (StoredMessage × ManagedLedgerPosition × Bool))
    → Read
looked_at pos again (err e) = (some pos, err e)
looked_at pos again (ok none) = (some pos, ok none)
looked_at pos again (ok (some (entry, next, true))) = again next
looked_at pos again (ok (some (entry, next, false))) =
    (some pos, ok (some (candidate_of entry next)))

-- The loop from a read position on; beside the result stands the read position afterwards.
unfoldable pub candidate_loop : ℕ → Log → ManagedLedgerPosition → Read
candidate_loop zero log pos = (some pos, err out_of_fuel)
candidate_loop (suc fuel) log pos =
    looked_at pos (λ next. candidate_loop fuel log next) (look_at log pos)

abbrev pub start_at :
    (ManagedLedgerPosition → Read) → Result DispatchError (Option ManagedLedgerPosition) → Read
start_at from (err e) = (none, err e)
start_at from (ok none) = (none, ok none)
start_at from (ok (some pos)) = from pos

unfoldable pub next_unacked_candidate : ℕ → Log → Option ManagedLedgerPosition → Read
next_unacked_candidate fuel log (some pos) = candidate_loop fuel log pos
next_unacked_candidate fuel log none =
    start_at (λ pos. candidate_loop fuel log pos) log.first_unacked_position
