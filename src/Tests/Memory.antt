-- ===== src/Tests/Memory.antt =====
-- Runs and instances for the in-memory storage.
use pulsar_lite.Prelude.{ℕ, ◌||◌, true, some, List, [], ◌∷◌, ◌≡◌, refl, arith, ltb, leb, ◌==◌}
use pulsar_lite.Prelude.Int.{negsuc}
use pulsar_lite.Prelude.Maps.{get, bytes_key, insert_entry}
use pulsar_lite.ManagedLedger.Position.{MessageId, from_message_id}
use pulsar_lite.ManagedLedger.Cursor.{default_cursor}
use pulsar_lite.ManagedLedger.Memory.{
  Storage, new_storage, append_message, append_entry, ensure_ledger, get_message_by_id,
  find_message, messages, is_acknowledged, first_unacked_position,
}
use pulsar_lite.ManagedLedger.Memory.Cursors.{seek_cursor, ack_message, ack_message_shared}
use pulsar_lite.ManagedLedger.Memory.Ledgers.{IsStored, append_message-IsStored}
use pulsar_lite.ManagedLedger.Memory.Lookup.{get_message_by_id-find_message}
use pulsar_lite.ManagedLedger.Memory.Seek.{first_unacked_position-seek_cursor}
use pulsar_lite.ManagedLedger.Memory.Acks.{
  ack_message_shared_lem, ack_message_shared_forgets, is_acknowledged-ack_message,
}

-- The topic "t" with one message, the subscription "s", and its key "t:s".
abbrev topic : List ℕ
topic = 116 ∷ []

abbrev subscription : List ℕ
subscription = 115 ∷ []

abbrev one_message : Storage
one_message = (append_message new_storage topic (negsuc 0) (1 ∷ [])).0

abbrev first_id : MessageId
first_id = record { ledger = 0; entry = 0; partition = negsuc 0 }

new_storage-IsStored : IsStored new_storage
unfolding get
new_storage-IsStored topic ledger at = absurd (ground arith)

one_message-IsStored : IsStored one_message
one_message-IsStored =
    append_message-IsStored new_storage topic (negsuc 0) (1 ∷ []) new_storage-IsStored

append_message-IsStored_example : IsStored (append_message one_message topic (negsuc 0) (2 ∷ [])).0
append_message-IsStored_example =
    append_message-IsStored one_message topic (negsuc 0) (2 ∷ []) one_message-IsStored

get_message_by_id-find_message_example :
    get_message_by_id one_message topic first_id
    ≡ find_message first_id (messages one_message topic)
get_message_by_id-find_message_example =
    get_message_by_id-find_message one_message topic first_id one_message-IsStored

first_unacked_position-seek_cursor_example :
    ((id : MessageId)
      → is_acknowledged
          (seek_cursor one_message topic subscription first_id true)
          topic
          subscription
          id
        ≡ ltb id.entry 0)
    × (first_unacked_position
          (seek_cursor one_message topic subscription first_id true)
          topic
          subscription
        ≡ some (from_message_id first_id))
unfolding append_entry ensure_ledger get insert_entry
first_unacked_position-seek_cursor_example =
    first_unacked_position-seek_cursor one_message topic subscription (first_id, 1 ∷ []) true
      (refl, refl, tt) refl (omega arith)

abbrev with_shared : Storage
with_shared = record one_message {
  subscription_cursors = (116 ∷ 58 ∷ 115 ∷ [], default_cursor) ∷ [];
}

ack_message_shared_lem_example :
    (s' : Storage) × (ack_message_shared with_shared topic subscription first_id ≡ some s')
    × ((j : MessageId)
        → is_acknowledged s' topic subscription j
          ≡ ((j.entry == 0) || is_acknowledged with_shared topic subscription j))
unfolding get
ack_message_shared_lem_example =
    ack_message_shared_lem with_shared topic subscription first_id default_cursor refl
      (record { in_range = omega arith; beyond = tt }) (omega arith)

abbrev at_latest : Storage
at_latest = record one_message { cursors = (116 ∷ 58 ∷ 115 ∷ [], 5) ∷ [] }

abbrev sixth : MessageId
sixth = record { ledger = 0; entry = 6; partition = negsuc 0 }

ack_message_shared_forgets_example :
    ((j : MessageId) → is_acknowledged at_latest topic subscription j ≡ leb j.entry 5)
    × (s' : Storage) × (ack_message_shared at_latest topic subscription sixth ≡ some s')
    × ((j : MessageId) → is_acknowledged s' topic subscription j ≡ (j.entry == 6))
unfolding get
ack_message_shared_forgets_example =
    ack_message_shared_forgets at_latest topic subscription sixth 5 refl refl (omega arith)
      (omega arith)

is_acknowledged-ack_message_example :
    is_acknowledged (ack_message with_shared topic subscription sixth) topic subscription first_id
    ≡ is_acknowledged with_shared topic subscription first_id
unfolding get
is_acknowledged-ack_message_example =
    is_acknowledged-ack_message with_shared topic subscription sixth first_id default_cursor refl
