-- ===== src/ManagedLedger/Memory/Cursors.antt =====
-- The cursor calls of memory.rs.
use pulsar_lite.Prelude.{
  ℕ, ◌+◌, ◌-◌, Bool, true, false, ◌||◌, Option, none, some, List, [], ◌∷◌, length, ltb, ◌==◌,
  if◌then◌else◌, map,
}
use pulsar_lite.Prelude.Maps.{bytes_key, get, insert_entry, remove_key}
use pulsar_lite.ManagedLedger.RangeSet.{u64_max}
use pulsar_lite.ManagedLedger.Cursor.{
  SubscriptionCursor, default_cursor, is_message_acknowledged, ack_shared, plus_one,
}
use pulsar_lite.ManagedLedger.Position.{
  ManagedLedgerPosition, MessageId, StoredMessage, from_message_id, lt_position, id_key,
}
use pulsar_lite.ManagedLedger.CursorRead.{
  Message, CursorInitOptions, CursorOpenResult, InitialPosition, latest, earliest,
  cursor_subscription_key, read_from_messages, last_position_from_messages,
  next_position_single_ledger,
}
use pulsar_lite.ManagedLedger.Memory.{
  Storage, messages, first_unacked_position, stored_message, or_empty,
}

abbrev is_some {ℓ} : {A : Type ℓ} → Option A → Bool
is_some none = false
is_some (some _) = true

abbrev pub cursor_exists : Storage → List ℕ → Bool
cursor_exists s key = is_some (get key s.cursors) || is_some (get key s.subscription_cursors)

abbrev pub ensure_exclusive_cursor : Storage → List ℕ → Storage
ensure_exclusive_cursor s key = elim (get key s.cursors) [
  | some _ ↦ s
  | none ↦ record s { cursors = insert_entry key u64_max s.cursors }
]

abbrev pub apply_latest_exclusive : Storage → List ℕ → List ℕ → Storage
apply_latest_exclusive s key topic = elim (last_position_from_messages (messages s topic)) [
  | some last ↦ record s { cursors = insert_entry key last.entry_id s.cursors }
  | none ↦ ensure_exclusive_cursor s key
]

abbrev pub apply_start_message_id_exclusive : Storage → List ℕ → MessageId → Storage
apply_start_message_id_exclusive s key start =
    if ltb 0 start.entry
    then record s { cursors = insert_entry key (start.entry - 1) s.cursors }
    else ensure_exclusive_cursor s key

-- The three ways that a cursor that does not exist is made.
abbrev pub open_new : Storage → List ℕ → List ℕ → InitialPosition → Option MessageId → Storage
open_new s key topic initial (some start) = apply_start_message_id_exclusive s key start
open_new s key topic latest none = apply_latest_exclusive s key topic
open_new s key topic earliest none = ensure_exclusive_cursor s key

unfoldable pub initialize_or_open_cursor :
    Storage → List ℕ → List ℕ → CursorInitOptions → Storage × CursorOpenResult
initialize_or_open_cursor s topic subscription options =
    let key = cursor_subscription_key topic subscription in
    let s' = open_new s key topic options.initial_position options.start_message_id in
    if cursor_exists s key
    then (
      s,
      record { created = false; first_unacked = first_unacked_position s topic subscription },
    )
    else (
      s',
      record { created = true; first_unacked = first_unacked_position s' topic subscription },
    )

unfoldable pub delete_cursor : Storage → List ℕ → List ℕ → Storage
delete_cursor s topic subscription =
    let key = cursor_subscription_key topic subscription in
    record s {
      cursors = remove_key key s.cursors;
      subscription_cursors = remove_key key s.subscription_cursors;
    }

-- The last of the messages that `take_while` keeps; `before` is the one that came last so far.
unfoldable pub last_before :
    ManagedLedgerPosition
    → Option ManagedLedgerPosition
    → List Message
    → Option ManagedLedgerPosition
last_before target before [] = before
last_before target before ((id, _) ∷ rest) =
    let later = last_before target (some (from_message_id id)) rest in
    if lt_position (from_message_id id) target then later else before

abbrev pub entry_of : Option ManagedLedgerPosition → Option ℕ
entry_of none = none
entry_of (some position) = some position.entry_id

abbrev pub mark_or_max : Option ManagedLedgerPosition → ℕ
mark_or_max none = u64_max
mark_or_max (some position) = position.entry_id

unfoldable pub seek_cursor : Storage → List ℕ → List ℕ → MessageId → Bool → Storage
seek_cursor s topic subscription id shared =
    let key = cursor_subscription_key topic subscription in
    let previous = last_before (from_message_id id) none (messages s topic) in
    if shared
    then record s {
      cursors = remove_key key s.cursors;
      subscription_cursors =
          insert_entry key (record { mark_delete = entry_of previous; acked_holes = [] })
            s.subscription_cursors;
    }
    else record s {
      subscription_cursors = remove_key key s.subscription_cursors;
      cursors = insert_entry key (mark_or_max previous) s.cursors;
    }

unfoldable pub ack_message : Storage → List ℕ → List ℕ → MessageId → Storage
ack_message s topic subscription id = record s {
  cursors = insert_entry (cursor_subscription_key topic subscription) id.entry s.cursors;
}

abbrev pub or_default_cursor : Option SubscriptionCursor → SubscriptionCursor
or_default_cursor none = default_cursor
or_default_cursor (some cursor) = cursor

unfoldable pub ack_message_shared : Storage → List ℕ → List ℕ → MessageId → Option Storage
ack_message_shared s topic subscription id =
    let key = cursor_subscription_key topic subscription in
    elim (ack_shared (or_default_cursor (get key s.subscription_cursors)) id.entry) [
      | none ↦ none
      | some done ↦
          some (record s { subscription_cursors = insert_entry key done.0 s.subscription_cursors })
    ]

abbrev pub is_acknowledged_shared : Storage → List ℕ → List ℕ → MessageId → Bool
is_acknowledged_shared s topic subscription id =
    is_message_acknowledged
      (get (cursor_subscription_key topic subscription) s.subscription_cursors) id.entry

abbrev pub get_mark_delete_position : Storage → List ℕ → List ℕ → Option ℕ
get_mark_delete_position s topic subscription =
    elim (get (cursor_subscription_key topic subscription) s.subscription_cursors) [
      | none ↦ none
      | some cursor ↦ cursor.mark_delete
    ]

abbrev pub acked_by : Option ℕ → ℕ
acked_by none = 0
acked_by (some mark) = plus_one mark

-- The second match of `backlog_entries`.
abbrev pub exclusive_backlog : ℕ → Option ℕ → ℕ
exclusive_backlog total none = total
exclusive_backlog total (some mark) = if mark == u64_max then total else total - (mark + 1)

unfoldable pub backlog_entries : Storage → List ℕ → List ℕ → Option ℕ
backlog_entries s topic subscription =
    let key = cursor_subscription_key topic subscription in
    let total = length (messages s topic) in
    elim (get key s.subscription_cursors) [
      | some cursor ↦ some (total - acked_by cursor.mark_delete)
      | none ↦ some (exclusive_backlog total (get key s.cursors))
    ]

unfoldable pub total_bytes : List (MessageId × List ℕ) → List Message → ℕ
total_bytes kept [] = 0
total_bytes kept ((id, payload) ∷ rest) =
    length (or_empty (get id kept)) + length payload + total_bytes kept rest

abbrev pub stored_bytes : Storage → List ℕ → ℕ
stored_bytes s topic = total_bytes s.entry_metadata (messages s topic)

abbrev pub read_from : Storage → List ℕ → ManagedLedgerPosition → ℕ → List Message
read_from s topic from limit = read_from_messages (messages s topic) from limit

abbrev pub read_entries_from : Storage → List ℕ → ManagedLedgerPosition → ℕ → List StoredMessage
read_entries_from s topic from limit = map (stored_message s) (read_from s topic from limit)

abbrev pub get_last_position : Storage → List ℕ → Option ManagedLedgerPosition
get_last_position s topic = last_position_from_messages (messages s topic)

abbrev pub get_next_position :
    Storage → List ℕ → ManagedLedgerPosition → Option ManagedLedgerPosition
get_next_position s topic current = next_position_single_ledger current
