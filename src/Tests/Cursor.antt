-- ===== src/Tests/Cursor.antt =====
-- Runs of cursor.rs, and instances of its theorems.
use pulsar_lite.Prelude.{◌≡◌, refl, some, [], ◌∷◌, arith}
use pulsar_lite.ManagedLedger.RangeSet.{
  contains, insert_range, insert, take_covering, last_le, first_ge, remove_pair, insert_pair,
  merge_right, merge_left,
}
use pulsar_lite.ManagedLedger.Cursor.{
  SubscriptionCursor, default_cursor, is_message_acknowledged, advance_loop, advance_mark_delete,
  ack_new, ack_shared, report,
}
use pulsar_lite.ManagedLedger.Cursor.Frontier.{IsCompact}
use pulsar_lite.ManagedLedger.Cursor.Ack.{Adds, ack_shared_lem, IsCompact-canonical}
use pulsar_lite.ManagedLedger.Cursor.History.{ack_all, ack_all-order}

program : Unit {0}
unfolding contains insert_range insert take_covering last_le first_ge remove_pair insert_pair
    merge_right merge_left is_message_acknowledged advance_loop advance_mark_delete ack_new
    ack_shared ack_all
program = tt

-- Entries 0 to 2 are acknowledged, and 5 and 6.
abbrev holed : SubscriptionCursor
holed = record { mark_delete = some 2; acked_holes = (5, 6) ∷ [] }

holed-IsCompact : IsCompact holed
holed-IsCompact = record { in_range = omega arith; beyond = omega arith }

-- The missing entries move the frontier over the range.
ack_fills : ack_all holed (4 ∷ 3 ∷ []) ≡ some (record { mark_delete = some 6; acked_holes = [] })
unfolding program
ack_fills = refl

ack_shared_lem_example :
    (c' : SubscriptionCursor) × (ack_shared holed 3 ≡ some (report c')) × Adds holed 3 c'
ack_shared_lem_example = ack_shared_lem holed 3 holed-IsCompact (omega arith)

ack_all-order_example :
    ack_all default_cursor (2 ∷ 0 ∷ 2 ∷ []) ≡ ack_all default_cursor (0 ∷ 2 ∷ [])
ack_all-order_example =
    ack_all-order default_cursor (2 ∷ 0 ∷ 2 ∷ []) (0 ∷ 2 ∷ [])
      (record { in_range = omega arith; beyond = tt }) (omega arith) (omega arith)
      (λ x. ground arith)

IsCompact-canonical_example : holed ≡ holed
IsCompact-canonical_example =
    IsCompact-canonical holed holed holed-IsCompact holed-IsCompact (λ x. refl)
