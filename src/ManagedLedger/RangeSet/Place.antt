-- ===== src/ManagedLedger/RangeSet/Place.antt =====
-- The end of `insert_range` of range_set.rs: the left neighbour, and the new range in its place.
use pulsar_lite.Prelude.{
  ℕ, suc, ◌+◌, ◌≤◌, ◌<◌, false, some, List, [], ◌∷◌, ◌≡◌, refl, ltb, arith, length, ◌∙◌,
  if◌then◌else◌, dec_lt, ℕ_discrete,
}
use pulsar_lite.ManagedLedger.RangeSet.{
  u64_max, u64_key, last_le, remove_pair, insert_pair, merge_left, insert_range,
}
use pulsar_lite.ManagedLedger.RangeSet.Separated.{
  Above, covers, Above-mono, last_le_before, last_le_cons, last_le_finds,
}
use pulsar_lite.ManagedLedger.RangeSet.Insert.{
  absorb_end, absorb_rest, end_of, rest_of, add_range, merge_right-rest_of, absorb_rest-Above,
  remove_pair_head, remove_pair_skip, ltb_ge,
}

insert_pair_front :
    (lo a b : ℕ) (r : List (ℕ × ℕ)) → Above lo r → a < lo → insert_pair (a, b) r ≡ (a, b) ∷ r
unfolding insert_pair
insert_pair_front lo a b [] w h = refl
insert_pair_front lo a b ((s, e) ∷ r) w h = ground arith

insert_pair_skip :
    (a b s e : ℕ) (r : List (ℕ × ℕ))
    → s < a
    → insert_pair (a, b) ((s, e) ∷ r) ≡ (s, e) ∷ insert_pair (a, b) r
unfolding insert_pair
insert_pair_skip a b s e r h = ground arith

last_le_bound :
    (lo a p q : ℕ) (r : List (ℕ × ℕ))
    → Above lo r
    → last_le (a, a) r ≡ some (p, q)
    → (lo ≤ p) × (p ≤ a)
unfolding last_le
last_le_bound lo a p q [] w h = absurd (cc)
last_le_bound lo a p q ((s, e) ∷ r) w h = ground (arith, last_le_bound (e + 2) a p q r w.3)

-- With no range before the start, the new one goes to the front.
merge_left_front :
    (lo a b : ℕ) (r : List (ℕ × ℕ)) → Above lo r → a < lo → merge_left a b r ≡ (a, b) ∷ r
unfolding merge_left
merge_left_front lo a b r w h =
    rw (last_le_before lo a r w h, merge_left) (insert_pair_front lo a b r w h)

-- The first range is the left neighbour, and ends next to the start or before that.
merge_left_near :
    (a b s e : ℕ) (r : List (ℕ × ℕ))
    → Above (a + 1) r
    → s ≤ e
    → e < u64_max
    → a ≡ e + 1
    → merge_left a b ((s, e) ∷ r) ≡ (s, b) ∷ r
unfolding merge_left
merge_left_near a b s e r w h m k =
    rw (last_le_cons a s e r (ground arith), last_le_before (a + 1) a r w (omega arith), merge_left)
      (ground (arith, remove_pair_head s e r, insert_pair_front (a + 1) s b r w))

merge_left_far :
    (a b s e : ℕ) (r : List (ℕ × ℕ))
    → Above (a + 1) r
    → s ≤ e
    → e + 1 < a
    → merge_left a b ((s, e) ∷ r) ≡ (s, e) ∷ (a, b) ∷ r
unfolding merge_left
merge_left_far a b s e r w h k =
    rw (last_le_cons a s e r (ground arith), last_le_before (a + 1) a r w (omega arith), merge_left)
      (ground (arith, insert_pair_skip a b s e r, insert_pair_front (a + 1) a b r w))

-- The first range is not the left neighbour.
merge_left_skip :
    (a b s e p q : ℕ) (r : List (ℕ × ℕ))
    → s ≤ e
    → s < p
    → p ≤ a
    → last_le (a, a) r ≡ some (p, q)
    → merge_left a b ((s, e) ∷ r) ≡ (s, e) ∷ merge_left a b r
unfolding merge_left
merge_left_skip a b s e p q r h k l g =
    rw (last_le_cons a s e r (ground arith), merge_left, g)
      (ground (
        arith,
        insert_pair_skip a b s e r,
        remove_pair_skip p q s e r,
        insert_pair_skip p b s e (remove_pair (p, q) r),
      ))

-- Where every range starts at `a` or later there is nothing to keep on the left.
end_of_after : (a b : ℕ) (r : List (ℕ × ℕ)) → Above a r → end_of a b r ≡ absorb_end b r
end_of_after a b [] w = unfold end_of absorb_end in refl
end_of_after a b ((s, e) ∷ r) w = unfold end_of in ground arith

rest_of_after : (a b : ℕ) (r : List (ℕ × ℕ)) → Above a r → rest_of a b r ≡ absorb_rest b r
rest_of_after a b [] w = unfold rest_of absorb_rest in refl
rest_of_after a b ((s, e) ∷ r) w = unfold rest_of in ground arith

add_range_after :
    (a b : ℕ) (r : List (ℕ × ℕ))
    → Above a r
    → add_range a b r ≡ (a, absorb_end b r) ∷ absorb_rest b r
add_range_after a b [] w = unfold add_range absorb_rest absorb_end in refl
add_range_after a b ((s, e) ∷ r) w = unfold add_range in ground arith

absorb_rest-Above_lo : (lo b : ℕ) (r : List (ℕ × ℕ)) → Above lo r → Above lo (absorb_rest b r)
unfolding absorb_rest
absorb_rest-Above_lo lo b [] w = tt
absorb_rest-Above_lo lo b ((s, e) ∷ r) w =
    let rest = absorb_rest (if ltb b e then e else b) r in
    ground (
      arith,
      absorb_rest-Above_lo (e + 2) (if ltb b e then e else b) r w.3,
      Above-mono (e + 2) lo rest,
    )

rest_of-Above_lo : (lo a b : ℕ) (r : List (ℕ × ℕ)) → Above lo r → Above lo (rest_of a b r)
unfolding rest_of
rest_of-Above_lo lo a b [] w = tt
rest_of-Above_lo lo a b ((s, e) ∷ r) w =
    ground (arith, rest_of-Above_lo (e + 2) a b r w.3, absorb_rest-Above_lo lo b ((s, e) ∷ r) w)

module _ (a b : ℕ) (le : a ≤ b) (small : b ≤ u64_max) where
  -- The first range is the last that starts before `a`.
  merge_left_last :
      (lo s e : ℕ) (r : List (ℕ × ℕ))
      → Above lo ((s, e) ∷ r)
      → Above a r
      → e < a
      → merge_left a (absorb_end b r) ((s, e) ∷ absorb_rest b r) ≡ add_range a b ((s, e) ∷ r)
  merge_left_last lo s e r w after h =
      let (above, grown, top) = absorb_rest-Above a b r after small in
      let rest : Above (a + 1) (absorb_rest b r) =
        Above-mono (absorb_end b r + 2) (a + 1) (absorb_rest b r) (omega arith) above in
      elim (ℕ_discrete a (e + 1)) [
        | yes near ↦
            merge_left_near a (absorb_end b r) s e (absorb_rest b r) rest w.1 (omega arith) near
            ∙ unfold add_range in ground arith
        | no far ↦
            merge_left_far a (absorb_end b r) s e (absorb_rest b r) rest w.1 (omega arith)
            ∙ unfold add_range in ground (arith, add_range_after a b r after)
      ]

  merge_left_after :
      (s e : ℕ) (r : List (ℕ × ℕ))
      → Above (a + 1) ((s, e) ∷ r)
      → merge_left a (end_of a b ((s, e) ∷ r)) (rest_of a b ((s, e) ∷ r))
        ≡ add_range a b ((s, e) ∷ r)
  merge_left_after s e r w =
      let l = (s, e) ∷ r in
      let w' : Above a l = (omega arith, w.1, w.2, w.3) in
      let (above, grown, top) = absorb_rest-Above a b l w' small in
      rw (end_of_after a b l w', rest_of_after a b l w', add_range_after a b l w')
        (merge_left_front (absorb_end b l + 2) a (absorb_end b l) (absorb_rest b l) above
          (omega arith))

  end_of_before : (s e : ℕ) (r : List (ℕ × ℕ)) → s < a → end_of a b ((s, e) ∷ r) ≡ end_of a b r
  unfolding end_of
  end_of_before s e r h = ground arith

  rest_of_before :
      (s e : ℕ) (r : List (ℕ × ℕ)) → s < a → rest_of a b ((s, e) ∷ r) ≡ (s, e) ∷ rest_of a b r
  unfolding rest_of
  rest_of_before s e r h = ground arith

  not_at :
      (s e : ℕ) (r : List (ℕ × ℕ)) → s ≤ e → ¬ s < a → covers ((s, e) ∷ r) a ≡ false → a + 1 ≤ s
  unfolding covers
  not_at s e r h g f = ground arith

  free_before : (s e : ℕ) (r : List (ℕ × ℕ)) → s < a → covers ((s, e) ∷ r) a ≡ false → e < a
  unfolding covers
  free_before s e r h f = ground arith

  free_later :
      (s e : ℕ) (r : List (ℕ × ℕ)) → s < a → covers ((s, e) ∷ r) a ≡ false → covers r a ≡ false
  unfolding covers
  free_later s e r h f = ground arith

  -- The loop's outcome with the left neighbour merged is the one pass over the ranges.
  merge_left-add_range :
      (lo : ℕ) (rs : List (ℕ × ℕ))
      → Above lo rs
      → covers rs a ≡ false
      → merge_left a (end_of a b rs) (rest_of a b rs) ≡ add_range a b rs
  merge_left-add_range lo [] w free =
      unfold end_of rest_of add_range in merge_left_front (a + 1) a b [] tt (omega arith)
  merge_left-add_range lo ((s, e) ∷ []) w free = elim (dec_lt s a) [
    | no after ↦ merge_left_after s e [] (not_at s e [] w.1 after free, w.1, w.2, w.3)
    | yes before ↦
        rw
          (
            end_of_before s e [] before,
            rest_of_before s e [] before,
            end_of_after a b [] tt,
            rest_of_after a b [] tt,
          )
          (merge_left_last lo s e [] w tt (free_before s e [] before free))
  ]
  merge_left-add_range lo ((s, e) ∷ (s', e') ∷ r) w free = elim (dec_lt s a) [
    | no after ↦
        merge_left_after s e ((s', e') ∷ r)
          (not_at s e ((s', e') ∷ r) w.1 after free, w.1, w.2, w.3)
    | yes before ↦
        let tail = (s', e') ∷ r in
        let ends = free_before s e tail before free in
        rw (end_of_before s e tail before, rest_of_before s e tail before)
          (elim (dec_lt s' a) [
            | no last ↦
                let w' : Above a tail = (omega arith, w.3.1, w.3.2, w.3.3) in
                rw (end_of_after a b tail w', rest_of_after a b tail w')
                  (merge_left_last lo s e tail w w' ends)
            | yes more ↦
                let (y, found) = last_le_finds a s' e' (rest_of a b r) more in
                let found' : last_le (a, a) (rest_of a b tail) ≡ some y =
                  rw (rest_of_before s' e' r more) found in
                let (low, high) =
                  last_le_bound (e + 2) a y.0 y.1 (rest_of a b tail)
                    (rest_of-Above_lo (e + 2) a b tail w.3) found' in
                merge_left_skip a (end_of a b tail) s e y.0 y.1 (rest_of a b tail) w.1 (omega arith)
                  high found'
                ∙ rw
                    (merge_left-add_range (e + 2) ((s', e') ∷ r) w.3
                      (free_later s e tail before free))
                    (unfold add_range in ground arith)
          ])
  ]

-- On separated ranges that do not hold the start, insert_range with its two loops over the tree is
-- one pass over the ranges in order that puts the new range in its place and joins it with the
-- ranges that it meets.
pub insert_range-add_range :
    (lo a b : ℕ) (rs : List (ℕ × ℕ))
    → Above lo rs
    → covers rs a ≡ false
    → a ≤ b
    → b ≤ u64_max
    → insert_range a b rs ≡ some (add_range a b rs)
unfolding insert_range
insert_range-add_range lo a b rs w free le small =
    rw
      (
        ltb_ge b a le,
        merge_right-rest_of (suc (length rs)) lo a b rs w small (omega arith),
        merge_left-add_range a b le small lo rs w free,
      )
      refl
