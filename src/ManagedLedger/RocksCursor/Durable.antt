-- ===== src/ManagedLedger/RocksCursor/Durable.antt =====
-- The loop of the durable cursor ends, and what it leaves is stored.
use pulsar_lite.Prelude.{
  ℕ, zero, suc, ◌<◌, ◌≤◌, Bool, true, false, Option, none, some, List, length, ◌≡◌, refl, sym, ap,
  ◌∙◌, arith, if◌then◌else◌, Bool-cases, inl, inr,
}
use pulsar_lite.ManagedLedger.RangeSet.{take_covering, last_le}
use pulsar_lite.ManagedLedger.Position.{ManagedLedgerPosition, lt_position, position_key}
use pulsar_lite.ManagedLedger.RangeSet.Sizes.{
  Ranges, IsTaken, take_covering-IsTaken, insert-returns,
}
use pulsar_lite.ManagedLedger.RocksCursor.{
  ManagedCursorState, LedgerInfo, RocksDbManagedCursor, mark_delete_at, next_position,
  advance_managed_loop, advance_if_stored, persist_state, cursor_position, delete_individual,
  ack_managed_new, is_at, first_position, ack_managed_cursor_shared,
  is_managed_position_acknowledged, advance_from, advance_to, resume_taken, resume_if_stored,
}

-- The database takes writes, and has the state of the cursor.
abbrev pub IsDurable : RocksDbManagedCursor → Type 0
IsDurable c = (c.takes_writes ≡ true) × (c.stored ≡ some c.state)

-- The call returns, it is `Ok`, and the state is stored.
abbrev pub Ends : Option (RocksDbManagedCursor × Bool) → Type 0
Ends r = (d : RocksDbManagedCursor) × (r ≡ some (d, true)) × IsDurable d

abbrev held : RocksDbManagedCursor → ℕ
held c = length c.state.individually_deleted_entries

module _ (again : RocksDbManagedCursor → Option (RocksDbManagedCursor × Bool)) (bound : ℕ)
    (on : (d : RocksDbManagedCursor) → held d < bound → IsDurable d → Ends (again d)) where
  stored_fields-Ends :
      (state : ManagedCursorState) (stored : Option ManagedCursorState) (writes : Bool)
      (end : ManagedLedgerPosition)
      → length state.individually_deleted_entries < bound
      → writes ≡ true
      → Ends (
          resume_if_stored again
            (mark_delete_at (record { state = state; stored = stored; takes_writes = writes }) end))
  unfolding mark_delete_at
  stored_fields-Ends state stored true end h w = on _ h (refl, refl)
  stored_fields-Ends state stored false end h w = absurd (ground arith)

  stored-Ends :
      (c : RocksDbManagedCursor) (end : ManagedLedgerPosition)
      → held c < bound
      → c.takes_writes ≡ true
      → Ends (resume_if_stored again (mark_delete_at c end))
  unfolding mark_delete_at
  stored-Ends c end h w = stored_fields-Ends c.state c.stored c.takes_writes end h w

  taken-Ends :
      (c : RocksDbManagedCursor) (r : Option ManagedLedgerPosition × Ranges)
      → held c ≤ bound
      → IsDurable c
      → IsTaken c.state.individually_deleted_entries r
      → Ends (resume_taken again c r)
  taken-Ends c (none, rest) h (w, s) t = (
    record c { state = record c.state { individually_deleted_entries = rest } },
    refl,
    (w, s ∙ ap (λ es. some (record c.state { individually_deleted_entries = es })) (sym t)),
  )
  taken-Ends c (some end, rest) h (w, s) t =
      stored-Ends (record c { state = record c.state { individually_deleted_entries = rest } }) end
        (omega arith) w

  next-Ends :
      (c : RocksDbManagedCursor) (o : Option ManagedLedgerPosition)
      → held c ≤ bound
      → IsDurable c
      → Ends (advance_to again c o)
  next-Ends c none h v = (c, refl, v)
  next-Ends c (some next) h v =
      taken-Ends c (take_covering next c.state.individually_deleted_entries) h v (
        take_covering-IsTaken next c.state.individually_deleted_entries
          (last_le (next, next) c.state.individually_deleted_entries) refl)

  from-Ends :
      (c : RocksDbManagedCursor) (info : List LedgerInfo) (o : Option ManagedLedgerPosition)
      → held c ≤ bound
      → IsDurable c
      → Ends (advance_from again c info o)
  from-Ends c info none h v = (c, refl, v)
  from-Ends c info (some mark) h v = next-Ends c (next_position mark info) h v

loop-Ends :
    (fuel : ℕ) (c : RocksDbManagedCursor) (info : List LedgerInfo)
    → held c < fuel
    → IsDurable c
    → Ends (advance_managed_loop fuel c info)
unfolding advance_managed_loop
loop-Ends zero c info h v = absurd (omega arith)
loop-Ends (suc fuel) c info h v =
    from-Ends (λ d. advance_managed_loop fuel d info) fuel (λ d k w. loop-Ends fuel d info k w) c
      info c.state.mark_delete (omega arith) v

-- The database takes the write, and the loop ends.
module _ (info : List LedgerInfo) where
  fields-Ends :
      (state : ManagedCursorState) (stored : Option ManagedCursorState) (writes : Bool)
      → writes ≡ true
      → Ends (
          advance_if_stored info (
            some
              (persist_state (record { state = state; stored = stored; takes_writes = writes }))))
  fields-Ends state stored true w = loop-Ends _ _ info (omega arith) (refl, refl)
  fields-Ends state stored false w = absurd (ground arith)

  marked-Ends :
      (c : RocksDbManagedCursor) (p : ManagedLedgerPosition)
      → c.takes_writes ≡ true
      → Ends (advance_if_stored info (some (mark_delete_at c p)))
  unfolding mark_delete_at
  marked-Ends c p w =
      fields-Ends (record c.state { mark_delete = some (cursor_position p) }) c.stored
        c.takes_writes w

  individual-Ends :
      (c : RocksDbManagedCursor) (p : ManagedLedgerPosition)
      → c.takes_writes ≡ true
      → Ends (advance_if_stored info (delete_individual c p))
  unfolding delete_individual
  individual-Ends c p w =
      let (out, done) = insert-returns (cursor_position p) c.state.individually_deleted_entries in
      rw (delete_individual, done)
        (fields-Ends (record c.state { individually_deleted_entries = out }) c.stored c.takes_writes
          w)

  new-Ends :
      (c : RocksDbManagedCursor) (p : ManagedLedgerPosition) (o : Option ManagedLedgerPosition)
      → IsDurable c
      → Ends (advance_if_stored info (ack_managed_new c p info o))
  unfolding ack_managed_new
  new-Ends c p none (w, s) = elim (Bool-cases (is_at (first_position info p.partition) p)) [
    | inl e ↦ rw (e, if◌then◌else◌) (marked-Ends c p w)
    | inr e ↦ rw (e, if◌then◌else◌) (individual-Ends c p w)
  ]
  new-Ends c p (some mark) (w, s) = elim (Bool-cases (is_at (next_position mark info) p)) [
    | inl e ↦ rw (e, if◌then◌else◌) (marked-Ends c p w)
    | inr e ↦ elim (Bool-cases (lt_position mark p)) [
      | inl y ↦ rw (e, y, if◌then◌else◌) (individual-Ends c p w)
      | inr n ↦ rw (e, n, if◌then◌else◌) (loop-Ends (suc (held c)) c info (omega arith) (w, s))
    ]
  ]

-- For a durable cursor whose database takes writes and has its state, ack_managed_cursor_shared
-- returns and is Ok for every position and every ledger info, and the database has the state that
-- it leaves.
pub ack_managed_cursor_shared_lem :
    (c : RocksDbManagedCursor) (p : ManagedLedgerPosition) (info : List LedgerInfo)
    → IsDurable c
    → Ends (ack_managed_cursor_shared c p info)
unfolding ack_managed_cursor_shared
ack_managed_cursor_shared_lem c p info v =
    elim (Bool-cases (is_managed_position_acknowledged c.state (cursor_position p))) [
      | inl e ↦ rw (e, if◌then◌else◌) ((c, refl, v))
      | inr e ↦ rw (e, if◌then◌else◌) (new-Ends info c (cursor_position p) c.state.mark_delete v)
    ]
