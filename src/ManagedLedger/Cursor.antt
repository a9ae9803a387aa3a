-- ===== src/ManagedLedger/Cursor.antt =====
-- rust/storage/managed-ledger/src/cursor.rs: the acknowledgement state of a shared subscription.
-- Entry ids are `u64`; `mark_delete + 1` is written with its wrap-around.
pub mod Frontier
pub mod Ack
pub mod History
use pulsar_lite.Prelude.{
  ℕ, zero, suc, ◌+◌, ◌%◌, Bool, false, ◌||◌, Option, none, some, List, length, leb, ltb, ◌==◌,
  if◌then◌else◌,
}
use pulsar_lite.ManagedLedger.RangeSet.{u64_max, u64_key, contains, insert, take_covering}

pub record SubscriptionCursor : Type 0 where
  pub mark_delete : Option ℕ
  pub acked_holes : List (ℕ × ℕ)

-- `#[derive(Default)]`.
abbrev pub default_cursor : SubscriptionCursor
default_cursor = record { mark_delete = none; acked_holes = List.[] }

abbrev pub plus_one : ℕ → ℕ
plus_one n = (n + 1) % (u64_max + 1)

abbrev pub is_within : Option ℕ → ℕ → Bool
is_within none entry = false
is_within (some mark_delete) entry = leb entry mark_delete

unfoldable pub is_message_acknowledged : Option SubscriptionCursor → ℕ → Bool
is_message_acknowledged none entry = false
is_message_acknowledged (some cursor) entry =
    is_within cursor.mark_delete entry || contains cursor.acked_holes entry

-- `cursor.mark_delete.map_or(0, |mark_delete| mark_delete + 1)`.
abbrev pub next_expected : Option ℕ → ℕ
next_expected none = 0
next_expected (some mark_delete) = plus_one mark_delete

-- The loop's body after `take_covering`, with the rest of the loop as a function.
abbrev resume :
    (SubscriptionCursor → Option SubscriptionCursor)
    → SubscriptionCursor
    → Option ℕ × List (ℕ × ℕ)
    → Option SubscriptionCursor
resume again cursor (none, holes) = some (record cursor { acked_holes = holes })
resume again cursor (some end, holes) =
    again (record cursor { mark_delete = some end; acked_holes = holes })

-- The loop of `advance_mark_delete`; `none` means that the fuel ran out.
unfoldable pub advance_loop : ℕ → SubscriptionCursor → Option SubscriptionCursor
advance_loop zero cursor = none
advance_loop (suc fuel) cursor =
    resume (advance_loop fuel) cursor
      (take_covering (next_expected cursor.mark_delete) cursor.acked_holes)

-- Each round takes a range out, so one more than their number is enough fuel.
unfoldable pub advance_mark_delete : SubscriptionCursor → Option SubscriptionCursor
advance_mark_delete cursor = advance_loop (suc (length cursor.acked_holes)) cursor

-- `cursor.acked_holes.insert(entry)`.
abbrev pub insert_hole : SubscriptionCursor → ℕ → Option SubscriptionCursor
insert_hole cursor entry = elim (insert entry cursor.acked_holes) [
  | none ↦ none
  | some holes ↦ some (record cursor { acked_holes = holes })
]

-- The `match` of `ack_shared`.
unfoldable pub ack_new : SubscriptionCursor → ℕ → Option ℕ → Option SubscriptionCursor
ack_new cursor entry none =
    if entry == 0
    then advance_mark_delete (record cursor { mark_delete = some 0 })
    else insert_hole cursor entry
ack_new cursor entry (some mark_delete) =
    if entry == plus_one mark_delete
    then advance_mark_delete (record cursor { mark_delete = some entry })
    else if ltb (plus_one mark_delete) entry
    then insert_hole cursor entry
    else some cursor

-- The second value reported is the number of stored ranges.
abbrev pub report : SubscriptionCursor → SubscriptionCursor × (Option ℕ × ℕ)
report cursor = (cursor, (cursor.mark_delete, length cursor.acked_holes))

unfoldable pub ack_shared : SubscriptionCursor → ℕ → Option (SubscriptionCursor × (Option ℕ × ℕ))
ack_shared cursor entry =
    if is_message_acknowledged (some cursor) entry
    then some (report cursor)
    else elim (ack_new cursor entry cursor.mark_delete) [
      | none ↦ none
      | some cursor' ↦ some (report cursor')
    ]
