-- ===== src/ManagedLedger/RangeSet/Laws.antt =====
-- What `insert_range`, `insert` and `take_covering` of range_set.rs do to the set of positions.
use pulsar_lite.Prelude.{
  ℕ, ◌+◌, ◌≤◌, ◌<◌, Bool, true, false, ◌&&◌, ◌||◌, some, List, [], ◌∷◌, ◌≡◌, refl, leb, ◌==◌, arith,
  ◌⊎◌, inl, inr, ◌∙◌, sym, Bool-cases, dec_lt, ℕ_discrete,
}
use pulsar_lite.ManagedLedger.RangeSet.{u64_max, u64_key, insert_range, insert, contains}
use pulsar_lite.ManagedLedger.RangeSet.Separated.{Above, covers, contains-covers}
use pulsar_lite.ManagedLedger.RangeSet.Insert.{
  absorb_end, absorb_rest, add_range, absorb_rest-Above, covers-absorb,
}
use pulsar_lite.ManagedLedger.RangeSet.Place.{insert_range-add_range}

add_range_left :
    (a b s e : ℕ) (r : List (ℕ × ℕ))
    → e + 1 < a
    → add_range a b ((s, e) ∷ r) ≡ (s, e) ∷ add_range a b r
unfolding add_range
add_range_left a b s e r h = ground arith

add_range_near :
    (a b s e : ℕ) (r : List (ℕ × ℕ))
    → s < a
    → a ≤ e + 1
    → add_range a b ((s, e) ∷ r) ≡ (s, absorb_end b r) ∷ absorb_rest b r
unfolding add_range
add_range_near a b s e r h g = ground arith

add_range_right :
    (a b s e : ℕ) (r : List (ℕ × ℕ))
    → a ≤ s
    → s ≤ e
    → add_range a b ((s, e) ∷ r) ≡ (a, absorb_end b ((s, e) ∷ r)) ∷ absorb_rest b ((s, e) ∷ r)
unfolding add_range
add_range_right a b s e r h g = ground arith

uncovered :
    (a s e : ℕ) (r : List (ℕ × ℕ))
    → covers ((s, e) ∷ r) a ≡ false
    → ((e < a) ⊎ (a < s)) × (covers r a ≡ false)
unfolding covers
uncovered a s e r h = ground arith

pub add_range-Above :
    (lo a b : ℕ) (rs : List (ℕ × ℕ))
    → Above lo rs
    → covers rs a ≡ false
    → lo ≤ a
    → a ≤ b
    → b ≤ u64_max
    → Above lo (add_range a b rs)
add_range-Above lo a b [] w free h le small = unfold add_range in (h, le, small, tt)
add_range-Above lo a b ((s, e) ∷ r) w free h le small =
    let (out, later) = uncovered a s e r free in
    elim (dec_lt (e + 1) a) [
      | yes left ↦
          rw (add_range_left a b s e r left)
            (w.0, w.1, w.2, add_range-Above (e + 2) a b r w.3 later (omega arith) le small)
      | no near ↦ elim (dec_lt s a) [
        | yes before ↦
            let (above, grown, top) = absorb_rest-Above (e + 2) b r w.3 small in
            rw (add_range_near a b s e r before (omega arith)) (w.0, omega arith, top, above)
        | no after ↦
            let (above, grown, top) = absorb_rest-Above lo b ((s, e) ∷ r) w small in
            rw (add_range_right a b s e r (omega arith) w.1) (h, omega arith, top, above)
      ]
    ]

join_near :
    (a b x s e : ℕ) (c : Bool)
    → s ≤ e
    → a ≡ e + 1
    → a ≤ b
    → ((leb s x && leb x b) || c) ≡ ((leb a x && leb x b) || ((leb s x && leb x e) || c))
join_near a b x s e c h g k = ground arith

or_swap : (p q r : Bool) → (p || (q || r)) ≡ (q || (p || r))
or_swap p q r = ground arith

pub covers-add_range :
    (lo a b x : ℕ) (rs : List (ℕ × ℕ))
    → Above lo rs
    → covers rs a ≡ false
    → a ≤ b
    → covers (add_range a b rs) x ≡ ((leb a x && leb x b) || covers rs x)
unfolding covers
covers-add_range lo a b x [] w free le = unfold add_range in refl
covers-add_range lo a b x ((s, e) ∷ r) w free le =
    let (out, later) = uncovered a s e r free in
    elim (dec_lt (e + 1) a) [
      | yes left ↦ rw (add_range_left a b s e r left) (
          rw (covers-add_range (e + 2) a b x r w.3 later le)
            (or_swap (leb s x && leb x e) (leb a x && leb x b) (covers r x)))
      | no near ↦ elim (dec_lt s a) [
        | yes before ↦ rw (add_range_near a b s e r before (omega arith)) (
            covers-absorb (e + 2) s b x r w.3 (omega arith) (omega arith)
            ∙ join_near a b x s e (covers r x) w.1 (omega arith) le)
        | no after ↦
            rw (add_range_right a b s e r (omega arith) w.1)
              (covers-absorb s a b x ((s, e) ∷ r) (omega arith, w.1, w.2, w.3) (omega arith) le)
      ]
    ]

-- On separated ranges that do not hold the start, insert_range returns for every start and end in
-- order up to 2^64 - 1; the ranges are separated afterwards, and contains holds of a position
-- exactly when it did before or the position lies between the start and the end.
pub insert_range_lem :
    (lo a b : ℕ) (rs : List (ℕ × ℕ))
    → Above lo rs
    → contains rs a ≡ false
    → lo ≤ a
    → a ≤ b
    → b ≤ u64_max
    → (out : List (ℕ × ℕ)) × (insert_range a b rs ≡ some out)
      × Above lo out
      × ((x : ℕ) → contains out x ≡ ((leb a x && leb x b) || contains rs x))
insert_range_lem lo a b rs w absent h le small =
    let free = sym (contains-covers lo a rs w) ∙ absent in
    let above = add_range-Above lo a b rs w free h le small in
    (
      add_range a b rs,
      insert_range-add_range lo a b rs w free le small,
      above,
      λ x.
          rw (contains-covers lo x (add_range a b rs) above, contains-covers lo x rs w)
            (covers-add_range lo a b x rs w free le),
    )

one_point : (p x : ℕ) (c : Bool) → ((leb p x && leb x p) || c) ≡ ((x == p) || c)
one_point p x c = ground arith

present :
    (p x : ℕ) (rs : List (ℕ × ℕ))
    → contains rs p ≡ true
    → contains rs x ≡ ((x == p) || contains rs x)
present p x rs h = elim (ℕ_discrete x p) [ yes e ↦ rw (e, h) (ground arith) | no n ↦ ground arith ]

-- On separated ranges insert returns for every position up to 2^64 - 1; the ranges are separated
-- afterwards, and contains holds of a position exactly when it did before or it is the one
-- inserted.
pub insert_lem :
    (lo p : ℕ) (rs : List (ℕ × ℕ))
    → Above lo rs
    → lo ≤ p
    → p ≤ u64_max
    → (out : List (ℕ × ℕ)) × (insert p rs ≡ some out)
      × Above lo out
      × ((x : ℕ) → contains out x ≡ ((x == p) || contains rs x))
insert_lem lo p rs w h small = elim (Bool-cases (contains rs p)) [
  | inl old ↦ (rs, unfold insert in rw old refl, w, λ x. present p x rs old)
  | inr new ↦
      let (out, done, above, holds) = insert_range_lem lo p p rs w new h (omega arith) small in
      (out, unfold insert in (rw new done), above, λ x. holds x ∙ one_point p x (contains rs x))
]
