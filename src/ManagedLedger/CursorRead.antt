-- ===== src/ManagedLedger/CursorRead.antt =====
-- rust/storage/managed-ledger/src/cursor_read.rs and cursor_init.rs: reads over the messages of a
-- topic, and how a cursor is opened. A string is the list of its bytes.
use pulsar_lite.Prelude.{
  ℕ, suc, Bool, ◌||◌, ◌&&◌, not, Option, none, some, List, [], ◌∷◌, ◌++◌, ltb, leb, ◌==◌,
  if◌then◌else◌,
}
use pulsar_lite.ManagedLedger.Cursor.{plus_one}
use pulsar_lite.ManagedLedger.Position.{ManagedLedgerPosition, MessageId, from_message_id}

abbrev pub Message : Type 0
Message = MessageId × List ℕ

pub data InitialPosition : Type 0 where
  latest : InitialPosition
  earliest : InitialPosition

pub record CursorInitOptions : Type 0 where
  pub initial_position : InitialPosition
  pub start_message_id : Option MessageId

pub record CursorOpenResult : Type 0 where
  pub created : Bool
  pub first_unacked : Option ManagedLedgerPosition

-- `format!("{}:{}", topic, subscription)`.
abbrev pub cursor_subscription_key : List ℕ → List ℕ → List ℕ
cursor_subscription_key topic subscription = topic ++ 58 ∷ subscription

abbrev pub position_at_or_after : ManagedLedgerPosition → ManagedLedgerPosition → Bool
position_at_or_after candidate start =
    ltb start.ledger_id candidate.ledger_id
    || (start.ledger_id == candidate.ledger_id && leb start.entry_id candidate.entry_id)

unfoldable pub first_unacked_from_messages :
    (MessageId → Bool) → List Message → Option ManagedLedgerPosition
first_unacked_from_messages is_acknowledged [] = none
first_unacked_from_messages is_acknowledged ((id, _) ∷ rest) =
    if not (is_acknowledged id)
    then some (from_message_id id)
    else first_unacked_from_messages is_acknowledged rest

-- `count` is `out.len()` before the message.
unfoldable pub read_loop : ManagedLedgerPosition → ℕ → ℕ → List Message → List Message
read_loop from limit count [] = []
read_loop from limit count ((id, payload) ∷ rest) =
    let skipped = read_loop from limit count rest in
    let more = read_loop from limit (suc count) rest in
    if not (position_at_or_after (from_message_id id) from)
    then skipped
    else (id, payload) ∷ (if leb limit (suc count) then [] else more)

abbrev pub read_from_messages : List Message → ManagedLedgerPosition → ℕ → List Message
read_from_messages messages from limit = read_loop from limit 0 messages

unfoldable pub last_position_from_messages : List Message → Option ManagedLedgerPosition
last_position_from_messages [] = none
last_position_from_messages (m ∷ []) = some (from_message_id m.0)
last_position_from_messages (m ∷ n ∷ rest) = last_position_from_messages (n ∷ rest)

abbrev pub next_position_single_ledger : ManagedLedgerPosition → Option ManagedLedgerPosition
next_position_single_ledger current = some (record current { entry_id = plus_one current.entry_id })
