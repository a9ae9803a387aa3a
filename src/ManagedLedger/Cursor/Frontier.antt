-- ===== src/ManagedLedger/Cursor/Frontier.antt =====
-- The invariant of the shared cursor of cursor.rs, and its advance over the ranges.
use pulsar_lite.Prelude.{
  ℕ, suc, ◌+◌, ◌≤◌, ◌<◌, ◌||◌, Option, none, some, List, [], ◌∷◌, ◌≡◌, refl, arith, length, ltb,
  ℕ_discrete,
}
use pulsar_lite.ManagedLedger.RangeSet.{u64_max, u64_key, contains}
use pulsar_lite.ManagedLedger.RangeSet.Separated.{Above, covers, Above-mono, contains-covers}
use pulsar_lite.ManagedLedger.RangeSet.Covering.{take_covering_before, take_covering_first}
use pulsar_lite.ManagedLedger.Cursor.{
  SubscriptionCursor, is_message_acknowledged, advance_loop, advance_mark_delete, next_expected,
}

-- The first entry past the frontier.
abbrev pub frontier : Option ℕ → ℕ
frontier none = 0
frontier (some mark_delete) = mark_delete + 1

-- Every hole lies beyond the first entry past the frontier, so the frontier cannot advance.
pub record IsCompact (c : SubscriptionCursor) : Type 0 where
  pub in_range : frontier c.mark_delete ≤ u64_max + 1
  pub beyond : Above (frontier c.mark_delete + 1) c.acked_holes

-- Ranges that start at the frontier or later: the state before the frontier advances.
pub record IsPending (c : SubscriptionCursor) : Type 0 where
  pub in_range : frontier c.mark_delete ≤ u64_max + 1
  pub beyond : Above (frontier c.mark_delete) c.acked_holes

-- An entry is acknowledged below the frontier and in the holes.
pub acknowledged_lem :
    (m : Option ℕ) (holes : List (ℕ × ℕ)) (x : ℕ)
    → is_message_acknowledged (some (record { mark_delete = m; acked_holes = holes })) x
      ≡ (ltb x (frontier m) || contains holes x)
unfolding is_message_acknowledged
acknowledged_lem none holes x = ground arith
acknowledged_lem (some m) holes x = ground arith

next_expected-le : (m : Option ℕ) → next_expected m ≤ frontier m
next_expected-le none = omega arith
next_expected-le (some m) = omega arith

next_expected-eq : (m : Option ℕ) → frontier m ≤ u64_max → next_expected m ≡ frontier m
next_expected-eq none h = refl
next_expected-eq (some m) h = omega arith

-- With no range at the frontier the loop stops at once.
advance_stop :
    (fuel lo : ℕ) (m : Option ℕ) (holes : List (ℕ × ℕ))
    → Above lo holes
    → frontier m < lo
    → advance_loop (suc fuel) (record { mark_delete = m; acked_holes = holes })
      ≡ some (record { mark_delete = m; acked_holes = holes })
unfolding advance_loop
advance_stop fuel lo m holes w h =
    rw
      (
        take_covering_before lo (next_expected m) holes w (omega (arith, next_expected-le m)),
        advance_loop,
      )
      refl

-- A range at the frontier is taken whole, and the loop stops in the next round.
advance_once :
    (fuel : ℕ) (m : Option ℕ) (e : ℕ) (r : List (ℕ × ℕ))
    → Above (frontier m) ((frontier m, e) ∷ r)
    → advance_loop (suc (suc fuel)) (record { mark_delete = m; acked_holes = (frontier m, e) ∷ r })
      ≡ some (record { mark_delete = some e; acked_holes = r })
unfolding advance_loop
advance_once fuel m e r w =
    rw (next_expected-eq m (omega arith), take_covering_first (frontier m) e r w, advance_loop)
      (advance_stop fuel (e + 2) (some e) r w.3 (omega arith))

taken_acknowledged :
    (f e : ℕ) (r : List (ℕ × ℕ)) (x : ℕ)
    → Above f ((f, e) ∷ r)
    → (ltb x (e + 1) || contains r x) ≡ (ltb x f || contains ((f, e) ∷ r) x)
unfolding covers
taken_acknowledged f e r x w =
    rw (contains-covers f x ((f, e) ∷ r) w, contains-covers (e + 2) x r w.3) (ground arith)

-- Where the ranges are separated and start at the frontier or later, advance_mark_delete returns;
-- the cursor is compact afterwards, so no range is left at the frontier, and it acknowledges
-- exactly what it did before.
pub advance_holes :
    (m : Option ℕ) (holes : List (ℕ × ℕ))
    → frontier m ≤ u64_max + 1
    → Above (frontier m) holes
    → (c' : SubscriptionCursor) × (advance_mark_delete
          (record { mark_delete = m; acked_holes = holes })
        ≡ some c')
      × IsCompact c'
      × ((x : ℕ)
          → is_message_acknowledged (some c') x
            ≡ is_message_acknowledged (some (record { mark_delete = m; acked_holes = holes })) x)
unfolding advance_mark_delete
advance_holes m [] small w = (
  record { mark_delete = m; acked_holes = [] },
  advance_stop 0 (frontier m + 1) m [] tt (omega arith),
  record { in_range = small; beyond = tt },
  λ x. refl,
)
advance_holes m ((s, e) ∷ r) small w = elim (ℕ_discrete (frontier m) s) [
  | no gap ↦ (
    record { mark_delete = m; acked_holes = (s, e) ∷ r },
    advance_stop (suc (length r)) s m ((s, e) ∷ r) (omega arith, w.1, w.2, w.3) (omega arith),
    record { in_range = small; beyond = (omega arith, w.1, w.2, w.3) },
    λ x. refl,
  )
  | yes here ↦ (
    record { mark_delete = some e; acked_holes = r },
    rw (← here) (advance_once (length r) m e r (omega arith, omega arith, w.2, w.3)),
    record { in_range = omega arith; beyond = Above-mono (e + 2) (e + 1 + 1) r (omega arith) w.3 },
    λ x.
        rw (acknowledged_lem (some e) r x, acknowledged_lem m ((s, e) ∷ r) x, ← here)
          (taken_acknowledged (frontier m) e r x (omega arith, omega arith, w.2, w.3)),
  )
]
