-- ===== src/ManagedLedger/RangeSet/Separated.antt =====
-- The canonical form of a `RangeSet<u64>` of range_set.rs: disjoint ranges in order, no two of
-- them adjacent, and what the two lookups of `contains` find in it.
use pulsar_lite.Prelude.{
  ℕ, ◌+◌, ◌≤◌, ◌<◌, Bool, true, false, ◌&&◌, ◌||◌, none, some, List, [], ◌∷◌, ◌≡◌, refl, leb, ◌==◌,
  arith, inl, inr, ◌∙◌, sym, Option-cases, dec_lt, ℕ_discrete,
}
use pulsar_lite.ManagedLedger.RangeSet.{u64_max, u64_key, pair_le, last_le, first_ge, contains}

-- Every range starts at `lo` or later, and more than one past the end of the range before it.
abbrev pub Above : ℕ → List (ℕ × ℕ) → Type 0
Above lo [] = Unit {0}
Above lo ((s, e) ∷ r) = (lo ≤ s) × (s ≤ e) × (e ≤ u64_max) × Above (e + 2) r

-- Some range holds the position.
unfoldable pub covers : List (ℕ × ℕ) → ℕ → Bool
covers [] x = false
covers ((s, e) ∷ r) x = (leb s x && leb x e) || covers r x

pub Above-mono : (lo lo' : ℕ) (rs : List (ℕ × ℕ)) → lo' ≤ lo → Above lo rs → Above lo' rs
Above-mono lo lo' [] h a = tt
Above-mono lo lo' ((s, e) ∷ r) h a = (omega arith, a.1, a.2, a.3)

-- Nothing below the first start is covered.
pub covers_below : (lo x : ℕ) (rs : List (ℕ × ℕ)) → Above lo rs → x < lo → covers rs x ≡ false
unfolding covers
covers_below lo x [] a h = refl
covers_below lo x ((s, e) ∷ r) a h = ground (arith, covers_below (e + 2) x r a.3)

pub last_le_before :
    (lo x : ℕ) (rs : List (ℕ × ℕ)) → Above lo rs → x < lo → last_le (x, x) rs ≡ none
unfolding last_le
last_le_before lo x [] a h = refl
last_le_before lo x ((s, e) ∷ r) a h = ground (arith, last_le_before (e + 2) x r a.3)

-- A range that starts before the position, or a one-point range at it, is among the pairs that
-- the first lookup compares.
pub last_le_cons :
    (x s e : ℕ) (r : List (ℕ × ℕ))
    → pair_le (s, e) (x, x) ≡ true
    → last_le (x, x) ((s, e) ∷ r) ≡ elim (last_le (x, x) r) [ none ↦ some (s, e) | some y ↦ some y ]
unfolding last_le
last_le_cons x s e r h = ground arith

pub first_ge_skip :
    (x s e : ℕ) (r : List (ℕ × ℕ)) → s < x → first_ge (x, x) ((s, e) ∷ r) ≡ first_ge (x, x) r
unfolding first_ge
first_ge_skip x s e r h = ground arith

pub first_ge_head :
    (x s e : ℕ) (r : List (ℕ × ℕ)) → x ≤ s → s ≤ e → first_ge (x, x) ((s, e) ∷ r) ≡ some (s, e)
unfolding first_ge
first_ge_head x s e r h g = ground arith

-- A range that starts before the position is passed over when a later pair is found.
contains_skip :
    (x s e : ℕ) (r : List (ℕ × ℕ)) (y : ℕ × ℕ)
    → s < x
    → last_le (x, x) r ≡ some y
    → contains ((s, e) ∷ r) x ≡ contains r x
unfolding contains
contains_skip x s e r y h g =
    rw (last_le_cons x s e r (ground arith), first_ge_skip x s e r h, g) refl

pub last_le_finds :
    (x s e : ℕ) (r : List (ℕ × ℕ)) → s < x → (y : ℕ × ℕ) × (last_le (x, x) ((s, e) ∷ r) ≡ some y)
last_le_finds x s e r h = elim (Option-cases (last_le (x, x) r)) [
  | inl g ↦ ((s, e), last_le_cons x s e r (ground arith) ∙ rw g)
  | inr (y, g) ↦ (y, last_le_cons x s e r (ground arith) ∙ rw g)
]

-- At the first range, or before it.
contains_head :
    (x s e : ℕ) (r : List (ℕ × ℕ))
    → Above s ((s, e) ∷ r)
    → x ≤ s
    → contains ((s, e) ∷ r) x ≡ (x == s)
unfolding contains last_le
contains_head x s e r a h =
    rw (first_ge_head x s e r h a.1, last_le_before (e + 2) x r a.3 (omega arith)) (ground arith)

-- Inside the first range, or in the gap after it.
contains_gap :
    (x s e s' e' : ℕ) (r : List (ℕ × ℕ))
    → Above s ((s, e) ∷ (s', e') ∷ r)
    → s < x
    → x < s'
    → contains ((s, e) ∷ (s', e') ∷ r) x ≡ leb x e
unfolding contains
contains_gap x s e s' e' r a h g =
    rw
      (
        last_le_cons x s e ((s', e') ∷ r) (ground arith),
        last_le_before s' x ((s', e') ∷ r) (omega arith, a.3.1, a.3.2, a.3.3) g,
        first_ge_skip x s e ((s', e') ∷ r) h,
        first_ge_head x s' e' r (omega arith) a.3.1,
      )
      (ground arith)

-- At the start of the second range, which one of the two lookups finds.
contains_at :
    (s e s' e' : ℕ) (r : List (ℕ × ℕ))
    → Above s ((s, e) ∷ (s', e') ∷ r)
    → contains ((s, e) ∷ (s', e') ∷ r) s' ≡ true
unfolding contains last_le
contains_at s e s' e' r a =
    rw
      (
        first_ge_skip s' s e ((s', e') ∷ r) (omega arith),
        first_ge_head s' s' e' r (omega arith) a.3.1,
        last_le_before (e' + 2) s' r a.3.3 (omega arith),
      )
      (ground arith)

covers_skip : (x s e : ℕ) (r : List (ℕ × ℕ)) → e < x → covers ((s, e) ∷ r) x ≡ covers r x
unfolding covers
covers_skip x s e r h = ground arith

covers_head :
    (x s e : ℕ) (r : List (ℕ × ℕ))
    → Above s ((s, e) ∷ r)
    → x ≤ e + 1
    → covers ((s, e) ∷ r) x ≡ leb s x && leb x e
unfolding covers
covers_head x s e r a h = ground (arith, covers_below (e + 2) x r a.3)

covers_at :
    {lo : ℕ} (s e s' e' : ℕ) (r : List (ℕ × ℕ))
    → Above lo ((s, e) ∷ (s', e') ∷ r)
    → covers ((s, e) ∷ (s', e') ∷ r) s' ≡ true
unfolding covers
covers_at s e s' e' r a = ground arith

-- On separated ranges the two lookups of contains give true exactly when some stored range holds
-- the position.
pub contains-covers : (lo x : ℕ) (rs : List (ℕ × ℕ)) → Above lo rs → contains rs x ≡ covers rs x
contains-covers lo x [] a = unfold contains covers last_le first_ge in refl
contains-covers lo x ((s, e) ∷ []) a = unfold contains covers last_le first_ge in ground arith
contains-covers lo x ((s, e) ∷ (s', e') ∷ r) a = elim (dec_lt s' x) [
  | yes past ↦
      let (y, found) = last_le_finds x s' e' r past in
      contains_skip x s e ((s', e') ∷ r) y (omega arith) found
      ∙ contains-covers (e + 2) x ((s', e') ∷ r) a.3
      ∙ sym (covers_skip x s e ((s', e') ∷ r) (omega arith))
  | no before ↦ elim (dec_lt s x) [
    | no first ↦
        contains_head x s e ((s', e') ∷ r) (omega arith, a.1, a.2, a.3) (omega arith)
        ∙ sym (
            covers_head x s e ((s', e') ∷ r) (omega arith, a.1, a.2, a.3) (omega arith)
            ∙ ground arith)
    | yes inside ↦ elim (ℕ_discrete x s') [
      | yes here ↦
          rw here
            (contains_at s e s' e' r (omega arith, a.1, a.2, a.3) ∙ sym (covers_at s e s' e' r a))
      | no gap ↦
          contains_gap x s e s' e' r (omega arith, a.1, a.2, a.3) inside (omega arith)
          ∙ unfold covers in ground (arith, covers_below (e' + 2) x r a.3.3)
    ]
  ]
]
