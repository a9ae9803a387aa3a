-- ===== src/ManagedLedger/RangeSet/Insert.antt =====
-- `insert_range` of range_set.rs against one pass over the ranges in order.
use pulsar_lite.Prelude.{
  ℕ, zero, suc, ◌+◌, ◌≤◌, ◌<◌, true, false, ◌&&◌, ◌||◌, Option, none, some, List, [], ◌∷◌, ◌≡◌,
  refl, leb, ltb, arith, length, All, inl, inr, ◌∙◌, sym, ap, Option-cases, if◌then◌else◌, dec_lt,
  dec_le,
}
use pulsar_lite.ManagedLedger.RangeSet.{
  u64_max, succ_u64, u64_key, or_self, first_ge, remove_pair, merge_right,
}
use pulsar_lite.ManagedLedger.RangeSet.Separated.{Above, covers, first_ge_skip, first_ge_head}

-- Ranges that the growing range reaches are absorbed.
unfoldable pub absorb_end : ℕ → List (ℕ × ℕ) → ℕ
absorb_end b [] = b
absorb_end b ((s, e) ∷ r) =
    let rest = absorb_end (if ltb b e then e else b) r in if leb s (b + 1) then rest else b

unfoldable pub absorb_rest : ℕ → List (ℕ × ℕ) → List (ℕ × ℕ)
absorb_rest b [] = []
absorb_rest b ((s, e) ∷ r) =
    let rest = absorb_rest (if ltb b e then e else b) r in
    if leb s (b + 1) then rest else (s, e) ∷ r

-- The ranges that start before `a` stay; the others may be absorbed.
unfoldable pub end_of : ℕ → ℕ → List (ℕ × ℕ) → ℕ
end_of a b [] = b
end_of a b ((s, e) ∷ r) =
    let rest = end_of a b r in if ltb s a then rest else absorb_end b ((s, e) ∷ r)

unfoldable pub rest_of : ℕ → ℕ → List (ℕ × ℕ) → List (ℕ × ℕ)
rest_of a b [] = []
rest_of a b ((s, e) ∷ r) =
    let rest = rest_of a b r in if ltb s a then (s, e) ∷ rest else absorb_rest b ((s, e) ∷ r)

-- One pass: `[a, b]` is put in its place and joined with what it meets.
unfoldable pub add_range : ℕ → ℕ → List (ℕ × ℕ) → List (ℕ × ℕ)
add_range a b [] = (a, b) ∷ []
add_range a b ((s, e) ∷ r) =
    let later = add_range a b r in
    if ltb (e + 1) a
    then (s, e) ∷ later
    else if ltb s a
    then (s, absorb_end b r) ∷ absorb_rest b r
    else (a, absorb_end b ((s, e) ∷ r)) ∷ absorb_rest b ((s, e) ∷ r)

first_ge_bound : (a p q : ℕ) (r : List (ℕ × ℕ)) → first_ge (a, a) r ≡ some (p, q) → a ≤ p
unfolding first_ge
first_ge_bound a p q [] h = absurd (cc)
first_ge_bound a p q ((s, e) ∷ r) h = ground (arith, first_ge_bound a p q r)

grow : ℕ → ℕ → ℕ
grow b e = if ltb b e then e else b

merge_stop :
    (fuel a b : ℕ) (rs : List (ℕ × ℕ))
    → first_ge (a, a) rs ≡ none
    → merge_right (suc fuel) a b rs ≡ some (a, b, rs)
unfolding merge_right
merge_stop fuel a b rs h = rw (h, merge_right) refl

merge_far :
    (fuel a b s e : ℕ) (rs : List (ℕ × ℕ))
    → first_ge (a, a) rs ≡ some (s, e)
    → b + 1 < s
    → merge_right (suc fuel) a b rs ≡ some (a, b, rs)
unfolding merge_right
merge_far fuel a b s e rs h g = rw (h, merge_right) (ground arith)

limit_near : (b s : ℕ) → s ≤ b + 1 → s ≤ u64_max → leb s (or_self b (succ_u64 b)) ≡ true
limit_near b s h g = ground arith

pub ltb_ge : (s a : ℕ) → a ≤ s → ltb s a ≡ false
ltb_ge s a h = ground arith

merge_near :
    (fuel a b s e : ℕ) (rs : List (ℕ × ℕ))
    → first_ge (a, a) rs ≡ some (s, e)
    → a ≤ s
    → s ≤ b + 1
    → s ≤ u64_max
    → merge_right (suc fuel) a b rs ≡ merge_right fuel a (grow b e) (remove_pair (s, e) rs)
unfolding merge_right grow
merge_near fuel a b s e rs h g k m = rw (h, merge_right, limit_near b s k m, ltb_ge s a g) refl

pub remove_pair_head : (s e : ℕ) (r : List (ℕ × ℕ)) → remove_pair (s, e) ((s, e) ∷ r) ≡ r
unfolding remove_pair
remove_pair_head s e r = ground arith

-- The loop on ranges that start at `a` or later.
merge_right-absorb :
    (fuel lo a b : ℕ) (r : List (ℕ × ℕ))
    → Above lo r
    → a ≤ lo
    → b ≤ u64_max
    → length r < fuel
    → merge_right fuel a b r ≡ some (a, absorb_end b r, absorb_rest b r)
merge_right-absorb zero lo a b r w h g f = absurd (omega arith)
merge_right-absorb (suc fuel) lo a b [] w h g f =
    unfold merge_right first_ge absorb_end absorb_rest in refl
merge_right-absorb (suc fuel) lo a b ((s, e) ∷ r) w h g f = elim (dec_le s (b + 1)) [
  | yes near ↦
      merge_near fuel a b s e ((s, e) ∷ r) (first_ge_head a s e r (omega arith) w.1) (omega arith)
        near (omega arith)
      ∙ rw remove_pair_head (
          merge_right-absorb fuel (e + 2) a (grow b e) r w.3 (omega arith)
            (unfold grow in ground arith) (omega arith)
          ∙ unfold absorb_end absorb_rest grow in ground arith)
  | no far ↦
      merge_far fuel a b s e ((s, e) ∷ r) (first_ge_head a s e r (omega arith) w.1) (omega arith)
      ∙ unfold absorb_end absorb_rest in ground arith
]

-- The outcome of the loop with one more range in front.
abbrev in_front : ℕ × ℕ → Option (ℕ × ℕ × List (ℕ × ℕ)) → Option (ℕ × ℕ × List (ℕ × ℕ))
in_front p none = none
in_front p (some (a, b, rs)) = some (a, b, p ∷ rs)

pub remove_pair_skip :
    (p q s e : ℕ) (r : List (ℕ × ℕ))
    → s < p
    → remove_pair (p, q) ((s, e) ∷ r) ≡ (s, e) ∷ remove_pair (p, q) r
unfolding remove_pair
remove_pair_skip p q s e r h = ground arith

abbrev Small : List (ℕ × ℕ) → Type 0
Small = All (λ p. p.0 ≤ u64_max)

Above-Small : (lo : ℕ) (r : List (ℕ × ℕ)) → Above lo r → Small r
Above-Small lo [] w = tt
Above-Small lo ((s, e) ∷ r) w = (omega arith, Above-Small (e + 2) r w.3)

first_ge-Small :
    (a p q : ℕ) (r : List (ℕ × ℕ)) → Small r → first_ge (a, a) r ≡ some (p, q) → p ≤ u64_max
unfolding first_ge
first_ge-Small a p q [] m h = absurd (cc)
first_ge-Small a p q ((s, e) ∷ r) m h = ground (arith, first_ge-Small a p q r m.1)

remove_pair-Small : (p q : ℕ) (r : List (ℕ × ℕ)) → Small r → Small (remove_pair (p, q) r)
unfolding remove_pair
remove_pair-Small p q [] m = tt
remove_pair-Small p q ((s, e) ∷ r) m = ground (arith, remove_pair-Small p q r m.1)

-- A range that starts before `a` takes no part in the loop.
merge_right_skip :
    (fuel a b s e : ℕ) (r : List (ℕ × ℕ))
    → s < a
    → Small r
    → merge_right fuel a b ((s, e) ∷ r) ≡ in_front (s, e) (merge_right fuel a b r)
merge_right_skip zero a b s e r h m = unfold merge_right in refl
merge_right_skip (suc fuel) a b s e r h m = elim (Option-cases (first_ge (a, a) r)) [
  | inl g ↦
      merge_stop fuel a b ((s, e) ∷ r) (first_ge_skip a s e r h ∙ g)
      ∙ rw (merge_stop fuel a b r g) refl
  | inr ((p, q), g) ↦
      let bound = first_ge_bound a p q r g in
      elim (dec_le p (b + 1)) [
        | yes near ↦
            let small = first_ge-Small a p q r m g in
            merge_near fuel a b p q ((s, e) ∷ r) (first_ge_skip a s e r h ∙ g) bound near small
            ∙ rw (remove_pair_skip p q s e r (omega arith)) (
                merge_right_skip fuel a (grow b q) s e (remove_pair (p, q) r) h
                  (remove_pair-Small p q r m)
                ∙ ap (in_front (s, e)) (sym (merge_near fuel a b p q r g bound near small)))
        | no far ↦
            merge_far fuel a b p q ((s, e) ∷ r) (first_ge_skip a s e r h ∙ g) (omega arith)
            ∙ rw (merge_far fuel a b p q r g (omega arith)) refl
      ]
]

-- The loop absorbs what the range reaches, and leaves the ranges that start before it.
pub merge_right-rest_of :
    (fuel lo a b : ℕ) (rs : List (ℕ × ℕ))
    → Above lo rs
    → b ≤ u64_max
    → length rs < fuel
    → merge_right fuel a b rs ≡ some (a, end_of a b rs, rest_of a b rs)
merge_right-rest_of fuel lo a b [] w g f =
    merge_right-absorb fuel a a b [] tt (omega arith) g f
    ∙ unfold end_of rest_of absorb_end absorb_rest in refl
merge_right-rest_of fuel lo a b ((s, e) ∷ r) w g f = elim (dec_lt s a) [
  | yes before ↦
      merge_right_skip fuel a b s e r before (Above-Small (e + 2) r w.3)
      ∙ rw (merge_right-rest_of fuel (e + 2) a b r w.3 g (omega arith))
          (unfold end_of rest_of in ground arith)
  | no after ↦
      merge_right-absorb fuel a a b ((s, e) ∷ r) (omega arith, w.1, w.2, w.3) (omega arith) g f
      ∙ unfold end_of rest_of in ground arith
]

pub absorb_rest-Above :
    (lo b : ℕ) (r : List (ℕ × ℕ))
    → Above lo r
    → b ≤ u64_max
    → Above (absorb_end b r + 2) (absorb_rest b r)
      × (b ≤ absorb_end b r)
      × (absorb_end b r ≤ u64_max)
unfolding absorb_rest absorb_end
absorb_rest-Above lo b [] w g = (tt, omega arith, g)
absorb_rest-Above lo b ((s, e) ∷ r) w g =
    ground (arith, absorb_rest-Above (e + 2) (if ltb b e then e else b) r w.3)

-- Positions covered by the grown range and what it left.
pub covers-absorb :
    (lo a b x : ℕ) (r : List (ℕ × ℕ))
    → Above lo r
    → a ≤ lo
    → a ≤ b
    → ((leb a x && leb x (absorb_end b r)) || covers (absorb_rest b r) x)
      ≡ ((leb a x && leb x b) || covers r x)
unfolding absorb_rest absorb_end covers
covers-absorb lo a b x [] w h g = refl
covers-absorb lo a b x ((s, e) ∷ r) w h g =
    ground (arith, covers-absorb (e + 2) a (if ltb b e then e else b) x r w.3)
