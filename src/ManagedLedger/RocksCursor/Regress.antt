-- ===== src/ManagedLedger/RocksCursor/Regress.antt =====
-- The frontier of the durable cursor after a cumulative acknowledgement.
use pulsar_lite.Prelude.{
  ℕ, suc, ◌+◌, ◌<◌, ◌≤◌, true, false, Option, none, some, List, [], ◌∷◌, ltb, ◌==◌, ◌≡◌, refl,
  arith,
}
use pulsar_lite.Prelude.Int.{negsuc}
use pulsar_lite.ManagedLedger.RangeSet.{
  contains, take_covering, last_le, first_ge, remove_pair, u64_max,
}
use pulsar_lite.ManagedLedger.Cursor.{plus_one}
use pulsar_lite.ManagedLedger.Position.{
  ManagedLedgerPosition, le_position, eq_position, position_key,
}
use pulsar_lite.ManagedLedger.RocksCursor.{
  ManagedCursorState, LedgerInfo, RocksDbManagedCursor, mark_delete_at,
  is_managed_position_acknowledged, find_ledger, next_position, ack_managed_new,
  advance_managed_loop, ack_managed_cursor_shared,
}

-- A position of the ledger, as cursors keep it.
abbrev pub at : ℕ → ℕ → ManagedLedgerPosition
at ledger entry = record { ledger_id = ledger; entry_id = entry; partition = negsuc 0 }

abbrev pub one_ledger : ℕ → ℕ → List LedgerInfo
one_ledger ledger entries = record { ledger_id = ledger; entries = entries } ∷ []

next_position-at :
    (l e n : ℕ)
    → suc e < n
    → n ≤ u64_max
    → next_position (at l e) (one_ledger l n) ≡ some (at l (e + 1))
unfolding next_position find_ledger
next_position-at l e n h k =
    let same : (l == l) ≡ true = ground arith in
    let step : plus_one e ≡ e + 1 = omega arith in
    let room : ltb (e + 1) n ≡ true = ground arith in rw (next_position, same, step, room) refl

hole-contains : (l h m : ℕ) → h < m → contains ((at l h, at l h) ∷ []) (at l m) ≡ false
unfolding contains last_le first_ge
hole-contains l h m k = ground arith

hole-last_le :
    (l h m : ℕ) → h < m → last_le (at l m, at l m) ((at l h, at l h) ∷ []) ≡ some (at l h, at l h)
unfolding last_le
hole-last_le l h m k = ground arith

hole-remove_pair : (l h : ℕ) → remove_pair (at l h, at l h) ((at l h, at l h) ∷ []) ≡ []
unfolding remove_pair
hole-remove_pair l h = ground arith

le_position-at : (l h m : ℕ) → h < m → le_position (at l h) (at l m) ≡ true
le_position-at l h m k = ground arith

eq_position-at : (l h : ℕ) → eq_position (at l h) (at l h) ≡ true
eq_position-at l h = ground arith

hole-take_covering :
    (l h m : ℕ) → h < m → take_covering (at l m) ((at l h, at l h) ∷ []) ≡ (some (at l h), [])
unfolding take_covering
hole-take_covering l h m k =
    let found = hole-last_le l h m k in
    let below = le_position-at l h m k in
    let out = hole-remove_pair l h in rw (take_covering, found, below, out) refl

none-take_covering : (p : ManagedLedgerPosition) → take_covering p [] ≡ (none, [])
unfolding take_covering last_le first_ge
none-take_covering p = refl

-- A cursor in which the entry is acknowledged past the frontier, before and after the database has
-- taken its state.
abbrev pub with_hole : ℕ → ℕ → Option ManagedCursorState → RocksDbManagedCursor
with_hole l h stored = record {
  state = record { mark_delete = none; individually_deleted_entries = (at l h, at l h) ∷ [] };
  stored = stored;
  takes_writes = true;
}

-- The state of the cursor with a mark and entries, and all of it stored.
abbrev pub stored_at :
    ManagedLedgerPosition
    → List (ManagedLedgerPosition × ManagedLedgerPosition)
    → RocksDbManagedCursor
stored_at mark entries = record {
  state = record { mark_delete = some mark; individually_deleted_entries = entries };
  stored = some (record { mark_delete = some mark; individually_deleted_entries = entries });
  takes_writes = true;
}

loop_stops :
    (fuel l h n : ℕ)
    → suc h < n
    → n ≤ u64_max
    → advance_managed_loop (suc fuel) (stored_at (at l h) []) (one_ledger l n)
      ≡ some (stored_at (at l h) [], true)
unfolding advance_managed_loop
loop_stops fuel l h n k small =
    let next = next_position-at l h n k small in
    let nothing_there = none-take_covering (at l (h + 1)) in rw (next, nothing_there) refl

loop_falls_back :
    (fuel l h m n : ℕ)
    → h < m
    → suc m < n
    → n ≤ u64_max
    → advance_managed_loop
        (suc (suc fuel))
        (stored_at (at l m) ((at l h, at l h) ∷ []))
        (one_ledger l n)
      ≡ some (stored_at (at l h) [], true)
unfolding advance_managed_loop mark_delete_at
loop_falls_back fuel l h m n below k small =
    let next = next_position-at l m n k small in
    let taken_out = hole-take_covering l h (m + 1) (omega arith) in
    let stops = loop_stops fuel l h n (omega arith) small in rw (next, taken_out) stops

past_mark : (l h m : ℕ) → h < m → le_position (at l m) (at l h) ≡ false
past_mark l h m k = ground arith

nothing_held : (p : ManagedLedgerPosition) → contains [] p ≡ false
unfolding contains last_le first_ge
nothing_held p = refl

-- In a ledger, a durable cursor without a frontier has one entry acknowledged, and mark_delete
-- sets the frontier to a later entry; then the acknowledgement of the entry after that, where two
-- more entries follow the frontier, returns with the frontier at the old entry, and the entry that
-- was the frontier is not acknowledged any more.
pub ack_managed_cursor_shared_regress :
    (l h m n : ℕ) (stored : Option ManagedCursorState)
    → h < m
    → suc (suc m) < n
    → n ≤ u64_max
    → (is_managed_position_acknowledged
          (mark_delete_at (with_hole l h stored) (at l m)).0.state
          (at l m)
        ≡ true)
      × (c : RocksDbManagedCursor) × (ack_managed_cursor_shared
            (mark_delete_at (with_hole l h stored) (at l m)).0
            (at l (m + 1))
            (one_ledger l n)
          ≡ some (c, true))
      × (c.state.mark_delete ≡ some (at l h))
      × (is_managed_position_acknowledged c.state (at l m) ≡ false)
unfolding mark_delete_at is_managed_position_acknowledged ack_managed_cursor_shared ack_managed_new
ack_managed_cursor_shared_regress l h m n stored below room small =
    let own = eq_position-at l m in
    let here : le_position (at l m) (at l m) ≡ true = ground arith in
    let past = past_mark l m (m + 1) (omega arith) in
    let apart = hole-contains l h (m + 1) (omega arith) in
    let next = next_position-at l m n (omega arith) small in
    let same = eq_position-at l (m + 1) in
    let back = loop_falls_back 0 l h (m + 1) n (omega arith) (omega arith) small in
    let gone = past_mark l h m below in
    let empty = nothing_held (at l m) in
    (
      rw here refl,
      stored_at (at l h) [],
      rw (past, apart, next, same) back,
      refl,
      rw (gone, empty) refl,
    )
