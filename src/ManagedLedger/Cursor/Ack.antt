-- ===== src/ManagedLedger/Cursor/Ack.antt =====
-- `ack_shared` of cursor.rs as an operation on the set of acknowledged entries.
use pulsar_lite.Prelude.{
  ℕ, ◌+◌, ◌≤◌, ◌<◌, Bool, true, false, ◌||◌, Option, none, some, List, ◌≡◌, refl, sym, ap, subst,
  ◌∙◌, arith, ltb, ◌==◌, dec_lt, ℕ_discrete, Bool-cases, inl, inr, beq_ne, beq_eq, lt→ltb,
}
use pulsar_lite.ManagedLedger.RangeSet.{u64_max, u64_key, contains}
use pulsar_lite.ManagedLedger.RangeSet.Separated.{Above, covers_below, contains-covers}
use pulsar_lite.ManagedLedger.RangeSet.Laws.{insert_lem}
use pulsar_lite.ManagedLedger.RangeSet.Canonical.{Above-canonical}
use pulsar_lite.ManagedLedger.Cursor.{
  SubscriptionCursor, is_message_acknowledged, advance_mark_delete, plus_one, ack_new, ack_shared,
  report, insert_hole,
}
use pulsar_lite.ManagedLedger.Cursor.Frontier.{frontier, IsCompact, acknowledged_lem, advance_holes}

-- `Adds c entry r`: the result is a compact cursor that acknowledges `entry` beside what `c` did.
abbrev pub Adds : SubscriptionCursor → ℕ → SubscriptionCursor → Type 0
Adds c entry c' =
    IsCompact c'
    × ((x : ℕ)
        → is_message_acknowledged (some c') x
          ≡ ((x == entry) || is_message_acknowledged (some c) x))

extend_frontier : (f x : ℕ) (b : Bool) → (ltb x (f + 1) || b) ≡ ((x == f) || (ltb x f || b))
extend_frontier f x b = ground arith

or_swap : (p q r : Bool) → (p || (q || r)) ≡ (q || (p || r))
or_swap p q r = ground arith

-- The entry at the frontier moves the frontier.
ack_frontier :
    (m : Option ℕ) (holes : List (ℕ × ℕ))
    → Above (frontier m + 1) holes
    → frontier m ≤ u64_max
    → (c' : SubscriptionCursor) × (advance_mark_delete
          (record { mark_delete = some (frontier m); acked_holes = holes })
        ≡ some c')
      × Adds (record { mark_delete = m; acked_holes = holes }) (frontier m) c'
ack_frontier m holes w small =
    let (c', done, compact, same) = advance_holes (some (frontier m)) holes (omega arith) w in
    (
      c',
      done,
      (
        compact,
        λ x.
            same x
            ∙ acknowledged_lem (some (frontier m)) holes x
            ∙ extend_frontier (frontier m) x (contains holes x)
            ∙ ap (λ t. (x == frontier m) || t) (sym (acknowledged_lem m holes x)),
      ),
    )

-- An entry past the frontier is put among the holes.
ack_hole :
    (m : Option ℕ) (holes : List (ℕ × ℕ)) (entry : ℕ)
    → frontier m ≤ u64_max + 1
    → Above (frontier m + 1) holes
    → frontier m < entry
    → entry ≤ u64_max
    → (c' : SubscriptionCursor) × (insert_hole
          (record { mark_delete = m; acked_holes = holes })
          entry
        ≡ some c')
      × Adds (record { mark_delete = m; acked_holes = holes }) entry c'
ack_hole m holes entry top w past small =
    let (out, done, above, holds) = insert_lem (frontier m + 1) entry holes w (omega arith) small in
    (
      record { mark_delete = m; acked_holes = out },
      rw (done, insert_hole) refl,
      (
        record { in_range = top; beyond = above },
        λ x.
            acknowledged_lem m out x
            ∙ ap (λ t. ltb x (frontier m) || t) (holds x)
            ∙ or_swap (ltb x (frontier m)) (x == entry) (contains holes x)
            ∙ ap (λ t. (x == entry) || t) (sym (acknowledged_lem m holes x)),
      ),
    )

-- An entry that is not acknowledged yet lies at the frontier or past it.
new-frontier-le :
    (m : Option ℕ) (holes : List (ℕ × ℕ)) (entry : ℕ)
    → is_message_acknowledged (some (record { mark_delete = m; acked_holes = holes })) entry ≡ false
    → frontier m ≤ entry
new-frontier-le m holes entry h = let e = sym (acknowledged_lem m holes entry) ∙ h in ground arith

-- The `match` at the frontier, and past it.
ack_new_at :
    (c : SubscriptionCursor) (m : Option ℕ) (entry : ℕ)
    → entry ≤ u64_max
    → entry ≡ frontier m
    → ack_new c entry m ≡ advance_mark_delete (record c { mark_delete = some (frontier m) })
unfolding ack_new
ack_new_at c none entry small at = rw at refl
ack_new_at c (some m) entry small at =
    let e : plus_one m ≡ m + 1 = omega arith in rw (e, at, beq_eq (m + 1) (m + 1) refl) refl

ack_new_past :
    (c : SubscriptionCursor) (m : Option ℕ) (entry : ℕ)
    → entry ≤ u64_max
    → frontier m < entry
    → ack_new c entry m ≡ insert_hole c entry
unfolding ack_new
ack_new_past c none entry small past = rw (beq_ne entry 0 (omega arith)) refl
ack_new_past c (some m) entry small past =
    let e : plus_one m ≡ m + 1 = omega arith in
    rw (e, beq_ne entry (m + 1) (omega arith), lt→ltb (m + 1) entry past) refl

ack_new_lem :
    (m : Option ℕ) (holes : List (ℕ × ℕ)) (entry : ℕ)
    → frontier m ≤ u64_max + 1
    → Above (frontier m + 1) holes
    → frontier m ≤ entry
    → entry ≤ u64_max
    → (c' : SubscriptionCursor) × (ack_new (record { mark_delete = m; acked_holes = holes }) entry m
        ≡ some c')
      × Adds (record { mark_delete = m; acked_holes = holes }) entry c'
ack_new_lem m holes entry top w le small =
    let c : SubscriptionCursor = record { mark_delete = m; acked_holes = holes } in
    elim (ℕ_discrete entry (frontier m)) [
      | yes at ↦
          let (c', done, adds) = ack_frontier m holes w (omega arith) in
          (
            c',
            ack_new_at c m entry small at ∙ done,
            subst (λ t. Adds (record { mark_delete = m; acked_holes = holes }) t c') (sym at) adds,
          )
      | no past ↦
          let (c', done, adds) = ack_hole m holes entry top w (omega arith) small in
          (c', ack_new_past c m entry small (omega arith) ∙ done, adds)
    ]

present : (x entry : ℕ) (b : ℕ → Bool) → b entry ≡ true → b x ≡ ((x == entry) || b x)
present x entry b h = elim (ℕ_discrete x entry) [
  | yes e ↦ rw (e, h) (ground arith)
  | no n ↦ ground arith
]

-- On a compact cursor and for every entry up to 2^64 - 1, ack_shared returns; the cursor that it
-- leaves is compact, acknowledges the entry beside exactly the entries that were acknowledged
-- before, and its frontier and number of ranges are what the call reports.
pub ack_shared_lem :
    (c : SubscriptionCursor) (entry : ℕ)
    → IsCompact c
    → entry ≤ u64_max
    → (c' : SubscriptionCursor) × (ack_shared c entry ≡ some (report c')) × Adds c entry c'
ack_shared_lem c entry v small = elim (Bool-cases (is_message_acknowledged (some c) entry)) [
  | inl old ↦ (
    c,
    unfold ack_shared in (rw old refl),
    (v, λ x. present x entry (is_message_acknowledged (some c)) old),
  )
  | inr new ↦
      let (c', done, adds) =
        ack_new_lem c.mark_delete c.acked_holes entry v.in_range v.beyond
          (new-frontier-le c.mark_delete c.acked_holes entry new) small in
      (c', unfold ack_shared in (rw (new, done) refl), adds)
]

-- The acknowledged set determines a compact cursor.
frontier-le :
    (c d : SubscriptionCursor)
    → IsCompact c
    → IsCompact d
    → ((x : ℕ) → is_message_acknowledged (some c) x ≡ is_message_acknowledged (some d) x)
    → frontier d.mark_delete ≤ frontier c.mark_delete
frontier-le c d v w h =
    let f = frontier c.mark_delete in
    let outside =
      contains-covers (f + 1) f c.acked_holes v.beyond
      ∙ covers_below (f + 1) f c.acked_holes v.beyond (omega arith) in
    ground (
      arith,
      h f,
      acknowledged_lem c.mark_delete c.acked_holes f,
      acknowledged_lem d.mark_delete d.acked_holes f,
      outside,
    )

mark-eq : (m n : Option ℕ) → frontier m ≡ frontier n → m ≡ n
mark-eq none none h = refl
mark-eq none (some n) h = absurd (omega arith)
mark-eq (some m) none h = absurd (omega arith)
mark-eq (some m) (some n) h = ap some (omega arith)

holes-eq :
    (f : ℕ) (rs ts : List (ℕ × ℕ))
    → Above (f + 1) rs
    → Above (f + 1) ts
    → ((x : ℕ) → (ltb x f || contains rs x) ≡ (ltb x f || contains ts x))
    → rs ≡ ts
holes-eq f rs ts v w h = Above-canonical (f + 1) rs ts v w (λ x. elim (dec_lt x (f + 1)) [
  | yes low ↦
      contains-covers (f + 1) x rs v
      ∙ covers_below (f + 1) x rs v low
      ∙ sym (contains-covers (f + 1) x ts w ∙ covers_below (f + 1) x ts w low)
  | no high ↦ ground (arith, h x)
])

pub IsCompact-canonical :
    (c d : SubscriptionCursor)
    → IsCompact c
    → IsCompact d
    → ((x : ℕ) → is_message_acknowledged (some c) x ≡ is_message_acknowledged (some d) x)
    → c ≡ d
IsCompact-canonical c d v w h =
    let fe : frontier d.mark_delete ≡ frontier c.mark_delete =
      omega (arith, frontier-le c d v w h, frontier-le d c w v (λ x. sym (h x))) in
    let me = mark-eq d.mark_delete c.mark_delete fe in
    let he =
      holes-eq (frontier c.mark_delete) c.acked_holes d.acked_holes v.beyond
        (subst (λ t. Above (t + 1) d.acked_holes) fe w.beyond)
        (λ x.
          sym (acknowledged_lem c.mark_delete c.acked_holes x)
          ∙ h x
          ∙ acknowledged_lem d.mark_delete d.acked_holes x
          ∙ ap (λ t. ltb x t || contains d.acked_holes x) fe) in
    λ i. record { mark_delete = sym me i; acked_holes = he i }
