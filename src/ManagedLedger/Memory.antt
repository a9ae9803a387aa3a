-- ===== src/ManagedLedger/Memory.antt =====
-- rust/storage/managed-ledger/src/memory.rs: the in-memory ledgers, and the storage over them with
-- its two kinds of cursors. Every call of the trait returns `Ok`, which is left out; `none` means
-- that a loop of cursor.rs ran out of fuel, which it does not on a compact cursor.
pub mod Ledgers
pub mod Lookup
pub mod Cursors
pub mod Acks
pub mod Seek
use pulsar_lite.Prelude.{
  ℕ, zero, suc, ◌+◌, ◌-◌, Bool, true, false, ◌&&◌, ◌||◌, not, Option, none, some, List, [], ◌∷◌,
  ◌++◌, map, length, get_elem?, ltb, leb, ◌==◌, if◌then◌else◌,
}
use pulsar_lite.Prelude.Int.{ℤ, negsuc}
use pulsar_lite.Prelude.Maps.{bytes_key, get, insert_entry, remove_key}
use pulsar_lite.ManagedLedger.RangeSet.{u64_max}
use pulsar_lite.ManagedLedger.Cursor.{
  SubscriptionCursor, default_cursor, is_message_acknowledged, ack_shared, plus_one,
}
use pulsar_lite.ManagedLedger.Position.{
  ManagedLedgerPosition, MessageId, StoredMessage, from_message_id, lt_position, eq_id, id_key,
}
use pulsar_lite.ManagedLedger.CursorRead.{
  Message, CursorInitOptions, CursorOpenResult, InitialPosition, latest, earliest,
  cursor_subscription_key, first_unacked_from_messages, read_from_messages,
  last_position_from_messages, next_position_single_ledger,
}

pub record InMemoryManagedLedger : Type 0 where
  pub name : List ℕ
  pub ledger_id : ℕ
  pub entries : List Message

pub record InMemoryManagedLedgerFactory : Type 0 where
  pub ledgers : List (List ℕ × InMemoryManagedLedger)
  pub next_ledger_id : ℕ

pub record Storage : Type 0 where
  pub factory : InMemoryManagedLedgerFactory
  pub cursors : List (List ℕ × ℕ)
  pub subscription_cursors : List (List ℕ × SubscriptionCursor)
  pub entry_metadata : List (MessageId × List ℕ)

abbrev pub new_storage : Storage
new_storage = record {
  factory = record { ledgers = []; next_ledger_id = 0 };
  cursors = [];
  subscription_cursors = [];
  entry_metadata = [];
}

abbrev pub add_entry_in_place :
    InMemoryManagedLedger → ℤ → List ℕ → InMemoryManagedLedger × MessageId
add_entry_in_place ledger partition payload =
    let message_id : MessageId = record {
      ledger = ledger.ledger_id;
      entry = length ledger.entries;
      partition = partition;
    } in
    (record ledger { entries = ledger.entries ++ (message_id, payload) ∷ [] }, message_id)

-- `entry(name).or_insert_with(...)`: the factory and the ledger, from what the map has.
abbrev pub or_new_ledger :
    InMemoryManagedLedgerFactory
    → List ℕ
    → Option InMemoryManagedLedger
    → InMemoryManagedLedgerFactory × InMemoryManagedLedger
or_new_ledger f name (some ledger) = (f, ledger)
or_new_ledger f name none =
    let ledger : InMemoryManagedLedger = record {
      name = name;
      ledger_id = f.next_ledger_id;
      entries = [];
    } in
    (
      record {
        ledgers = insert_entry name ledger f.ledgers;
        next_ledger_id = plus_one f.next_ledger_id;
      },
      ledger,
    )

unfoldable pub ensure_ledger :
    InMemoryManagedLedgerFactory → List ℕ → InMemoryManagedLedgerFactory × InMemoryManagedLedger
ensure_ledger f name = or_new_ledger f name (get name f.ledgers)

unfoldable pub append_entry :
    InMemoryManagedLedgerFactory → List ℕ → ℤ → List ℕ → InMemoryManagedLedgerFactory × MessageId
append_entry f topic partition bytes =
    let opened = ensure_ledger f topic in
    let added = add_entry_in_place opened.1 partition bytes in
    (record opened.0 { ledgers = insert_entry topic added.0 opened.0.ledgers }, added.1)

abbrev pub entries_of : Option InMemoryManagedLedger → List Message
entries_of none = []
entries_of (some ledger) = ledger.entries

-- `factory.messages(topic).cloned().unwrap_or_default()`.
abbrev pub messages : Storage → List ℕ → List Message
messages s topic = entries_of (get topic s.factory.ledgers)

unfoldable pub find_message : MessageId → List Message → Option Message
find_message id [] = none
find_message id ((stored, bytes) ∷ rest) =
    if eq_id stored id then some (stored, bytes) else find_message id rest

-- The lookup by index first; the scan is for an id that is not at its index.
abbrev pub at_index : MessageId → List Message → Option Message → Option Message
at_index id all none = find_message id all
at_index id all (some (stored, bytes)) =
    if eq_id stored id then some (stored, bytes) else find_message id all

unfoldable pub get_message_by_id : Storage → List ℕ → MessageId → Option Message
get_message_by_id s topic id = elim (get topic s.factory.ledgers) [
  | none ↦ none
  | some ledger ↦ at_index id ledger.entries (get_elem? ledger.entries id.entry)
]

abbrev pub or_empty : Option (List ℕ) → List ℕ
or_empty none = []
or_empty (some bytes) = bytes

abbrev pub stored_message : Storage → Message → StoredMessage
stored_message s (id, payload) = record {
  message_id = id;
  metadata = or_empty (get id s.entry_metadata);
  payload = payload;
}

abbrev pub get_message_entry_by_id : Storage → List ℕ → MessageId → Option StoredMessage
get_message_entry_by_id s topic id = elim (get_message_by_id s topic id) [
  | none ↦ none
  | some m ↦ some (stored_message s m)
]

abbrev pub get_message_entries : Storage → List ℕ → List StoredMessage
get_message_entries s topic = map (stored_message s) (messages s topic)

abbrev pub create_topic : Storage → List ℕ → Storage
create_topic s name = record s { factory = (ensure_ledger s.factory name).0 }

abbrev pub append_message : Storage → List ℕ → ℤ → List ℕ → Storage × MessageId
append_message s topic partition bytes =
    let appended = append_entry s.factory topic partition bytes in
    (record s { factory = appended.0 }, appended.1)

abbrev pub keep_metadata :
    MessageId → List ℕ → List (MessageId × List ℕ) → List (MessageId × List ℕ)
keep_metadata id [] kept = kept
keep_metadata id (b ∷ bs) kept = insert_entry id (b ∷ bs) kept

unfoldable pub append_message_with_metadata :
    Storage → List ℕ → ℤ → List ℕ → List ℕ → Storage × MessageId
append_message_with_metadata s topic partition metadata payload =
    let appended = append_entry s.factory topic partition payload in
    (
      record s {
        factory = appended.0;
        entry_metadata = keep_metadata appended.1 metadata s.entry_metadata;
      },
      appended.1,
    )

-- `u64::MAX` stands for a cursor that has acknowledged nothing.
abbrev pub within_mark : Option ℕ → ℕ → Bool
within_mark none entry = false
within_mark (some mark) entry = not (mark == u64_max) && leb entry mark

unfoldable pub is_acknowledged : Storage → List ℕ → List ℕ → MessageId → Bool
is_acknowledged s topic subscription id =
    let key = cursor_subscription_key topic subscription in
    elim (get key s.subscription_cursors) [
      | some shared ↦ is_message_acknowledged (some shared) id.entry
      | none ↦ within_mark (get key s.cursors) id.entry
    ]

unfoldable pub first_unacked_position : Storage → List ℕ → List ℕ → Option ManagedLedgerPosition
first_unacked_position s topic subscription =
    first_unacked_from_messages (is_acknowledged s topic subscription) (messages s topic)
