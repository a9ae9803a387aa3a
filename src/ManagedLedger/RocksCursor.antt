-- ===== src/ManagedLedger/RocksCursor.antt =====
-- rust/storage/managed-ledger-rocksdb/src/cursor.rs: the durable cursor of a subscription, and its
-- shared acknowledgement. The database is the state that was last put under the cursor's key, and
-- whether it takes a write; the encoding of the state is left out, and so is the key. Of the ledger
-- info the id and the number of entries of each ledger are read.
pub mod Regress
pub mod Durable
use pulsar_lite.Prelude.{
  ℕ, zero, suc, ◌+◌, Bool, true, false, ◌&&◌, ◌||◌, Option, none, some, List, [], ◌∷◌, length, ltb,
  ◌==◌, if◌then◌else◌,
}
use pulsar_lite.Prelude.Int.{ℤ, negsuc}
use pulsar_lite.ManagedLedger.RangeSet.{contains, insert, take_covering}
use pulsar_lite.ManagedLedger.Cursor.{plus_one}
use pulsar_lite.ManagedLedger.Position.{
  ManagedLedgerPosition, lt_position, le_position, eq_position, position_key,
}

pub record ManagedCursorState : Type 0 where
  pub mark_delete : Option ManagedLedgerPosition
  pub individually_deleted_entries : List (ManagedLedgerPosition × ManagedLedgerPosition)

pub record LedgerInfo : Type 0 where
  pub ledger_id : ℕ
  pub entries : ℕ

pub record RocksDbManagedCursor : Type 0 where
  pub state : ManagedCursorState
  pub stored : Option ManagedCursorState
  pub takes_writes : Bool

abbrev pub default_state : ManagedCursorState
default_state = record { mark_delete = none; individually_deleted_entries = [] }

abbrev or_default_state : Option ManagedCursorState → ManagedCursorState
or_default_state none = default_state
or_default_state (some state) = state

-- `open`: the state that is stored, or the default.
abbrev pub open_cursor : Option ManagedCursorState → Bool → RocksDbManagedCursor
open_cursor stored takes_writes = record {
  state = or_default_state stored;
  stored = stored;
  takes_writes = takes_writes;
}

-- The partition is left out of a cursor's positions.
abbrev pub cursor_position : ManagedLedgerPosition → ManagedLedgerPosition
cursor_position position = record position { partition = negsuc 0 }

-- The cursor, and whether the call is `Ok`.
abbrev pub persist_state : RocksDbManagedCursor → RocksDbManagedCursor × Bool
persist_state c = if c.takes_writes then (record c { stored = some c.state }, true) else (c, false)

unfoldable pub mark_delete_at :
    RocksDbManagedCursor → ManagedLedgerPosition → RocksDbManagedCursor × Bool
mark_delete_at c position =
    persist_state
      (record c { state = record c.state { mark_delete = some (cursor_position position) } })

abbrev with_entries :
    RocksDbManagedCursor
    → Option (List (ManagedLedgerPosition × ManagedLedgerPosition))
    → Option (RocksDbManagedCursor × Bool)
with_entries c none = none
with_entries c (some entries) =
    some (
      persist_state
        (record c { state = record c.state { individually_deleted_entries = entries } }))

-- `none` is the fuel of the range set.
unfoldable pub delete_individual :
    RocksDbManagedCursor → ManagedLedgerPosition → Option (RocksDbManagedCursor × Bool)
delete_individual c position =
    with_entries c (insert (cursor_position position) c.state.individually_deleted_entries)

abbrev position_or_none : Option ManagedLedgerPosition → Option ManagedLedgerPosition
position_or_none none = none
position_or_none (some position) = some (cursor_position position)

unfoldable pub reset_cursor :
    RocksDbManagedCursor → Option ManagedLedgerPosition → RocksDbManagedCursor × Bool
reset_cursor c position = persist_state (record c {
  state = record { mark_delete = position_or_none position; individually_deleted_entries = [] };
})

abbrev pub is_below_mark : Option ManagedLedgerPosition → ManagedLedgerPosition → Bool
is_below_mark none position = false
is_below_mark (some mark) position = le_position position mark

unfoldable pub is_managed_position_acknowledged : ManagedCursorState → ManagedLedgerPosition → Bool
is_managed_position_acknowledged cursor position =
    is_below_mark cursor.mark_delete (cursor_position position)
    || contains cursor.individually_deleted_entries (cursor_position position)

abbrev pub start_of : LedgerInfo → ℤ → ManagedLedgerPosition
start_of ledger partition = record {
  ledger_id = ledger.ledger_id;
  entry_id = 0;
  partition = partition;
}

unfoldable pub first_position : List LedgerInfo → ℤ → Option ManagedLedgerPosition
first_position [] partition = none
first_position (ledger ∷ rest) partition =
    if ltb 0 ledger.entries then some (start_of ledger partition) else first_position rest partition

unfoldable pub find_ledger : ℕ → List LedgerInfo → Option LedgerInfo
find_ledger id [] = none
find_ledger id (ledger ∷ rest) = if ledger.ledger_id == id then some ledger else find_ledger id rest

-- The first ledger with a greater id that has entries.
unfoldable pub next_ledger : ManagedLedgerPosition → List LedgerInfo → Option ManagedLedgerPosition
next_ledger position [] = none
next_ledger position (ledger ∷ rest) =
    if ltb position.ledger_id ledger.ledger_id && ltb 0 ledger.entries
    then some (start_of ledger position.partition)
    else next_ledger position rest

unfoldable pub next_position :
    ManagedLedgerPosition → List LedgerInfo → Option ManagedLedgerPosition
next_position position info = elim (find_ledger position.ledger_id info) [
  | none ↦ none
  | some current ↦
      if ltb (plus_one position.entry_id) current.entries
      then some (record position { entry_id = plus_one position.entry_id })
      else next_ledger position info
]

abbrev pub is_at : Option ManagedLedgerPosition → ManagedLedgerPosition → Bool
is_at none position = false
is_at (some p) position = eq_position position p

-- The `match` on the frontier.
unfoldable pub ack_managed_new :
    RocksDbManagedCursor
    → ManagedLedgerPosition
    → List LedgerInfo
    → Option ManagedLedgerPosition
    → Option (RocksDbManagedCursor × Bool)
ack_managed_new c position info none =
    if is_at (first_position info position.partition) position
    then some (mark_delete_at c position)
    else delete_individual c position
ack_managed_new c position info (some mark) =
    if is_at (next_position mark info) position
    then some (mark_delete_at c position)
    else if lt_position mark position
    then delete_individual c position
    else some (c, true)

-- The end that was taken out becomes the mark, and the loop goes on if that is stored.
abbrev pub resume_if_stored :
    (RocksDbManagedCursor → Option (RocksDbManagedCursor × Bool))
    → RocksDbManagedCursor × Bool
    → Option (RocksDbManagedCursor × Bool)
resume_if_stored again (c, true) = again c
resume_if_stored again (c, false) = some (c, false)

abbrev pub resume_taken :
    (RocksDbManagedCursor → Option (RocksDbManagedCursor × Bool))
    → RocksDbManagedCursor
    → Option ManagedLedgerPosition × List (ManagedLedgerPosition × ManagedLedgerPosition)
    → Option (RocksDbManagedCursor × Bool)
resume_taken again c (none, entries) =
    some (record c { state = record c.state { individually_deleted_entries = entries } }, true)
resume_taken again c (some end, entries) = resume_if_stored again (
    mark_delete_at (record c { state = record c.state { individually_deleted_entries = entries } })
      end)

abbrev pub advance_to :
    (RocksDbManagedCursor → Option (RocksDbManagedCursor × Bool))
    → RocksDbManagedCursor
    → Option ManagedLedgerPosition
    → Option (RocksDbManagedCursor × Bool)
advance_to again c none = some (c, true)
advance_to again c (some next) =
    resume_taken again c (take_covering next c.state.individually_deleted_entries)

abbrev pub advance_from :
    (RocksDbManagedCursor → Option (RocksDbManagedCursor × Bool))
    → RocksDbManagedCursor
    → List LedgerInfo
    → Option ManagedLedgerPosition
    → Option (RocksDbManagedCursor × Bool)
advance_from again c info none = some (c, true)
advance_from again c info (some mark) = advance_to again c (next_position mark info)

-- The loop; `none` means that the fuel ran out.
unfoldable pub advance_managed_loop :
    ℕ → RocksDbManagedCursor → List LedgerInfo → Option (RocksDbManagedCursor × Bool)
advance_managed_loop zero c info = none
advance_managed_loop (suc fuel) c info =
    advance_from (λ d. advance_managed_loop fuel d info) c info c.state.mark_delete

-- Each round but the last takes a range out.
abbrev pub advance_if_stored :
    List LedgerInfo → Option (RocksDbManagedCursor × Bool) → Option (RocksDbManagedCursor × Bool)
advance_if_stored info none = none
advance_if_stored info (some (c, false)) = some (c, false)
advance_if_stored info (some (c, true)) =
    advance_managed_loop (suc (length c.state.individually_deleted_entries)) c info

unfoldable pub ack_managed_cursor_shared :
    RocksDbManagedCursor
    → ManagedLedgerPosition
    → List LedgerInfo
    → Option (RocksDbManagedCursor × Bool)
ack_managed_cursor_shared c position info =
    if is_managed_position_acknowledged c.state (cursor_position position)
    then some (c, true)
    else advance_if_stored info
        (ack_managed_new c (cursor_position position) info c.state.mark_delete)
