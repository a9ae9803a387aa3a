-- ===== src/Broker/Shared/Scans.antt =====
-- The scans of the consumers, part by part of the order.
use pulsar_lite.Prelude.{
  ℕ, zero, suc, ◌+◌, ◌<◌, ◌≤◌, true, false, Option, none, some, List, [], ◌∷◌, ◌++◌, length,
  get_elem?, All, ◌==◌, if◌then◌else◌, ◌≡◌, refl, ap, ◌∙◌, subst, arith, Bool-cases, inl, inr,
}
use pulsar_lite.Prelude.Int.{ℤ, lt_int, le_int, eq_int}
use pulsar_lite.Broker.ConsumerDispatch.{has_permits}
use pulsar_lite.Broker.Shared.{
  Consumer, find_higher, index_of_priority, find_skipping, Scan, found, ended, scan_loop,
}

-- The first consumer of a part of the order that has permits, by its index in the order.
abbrev pub first_ready : ℕ → List Consumer → Option ℕ
first_ready index [] = none
first_ready index (c ∷ rest) =
    if has_permits c.state then some index else first_ready (index + 1) rest

abbrev pub IsHigher : ℤ → Consumer → Type 0
IsHigher t c = lt_int c.priority_level t ≡ true

abbrev pub IsSame : ℤ → Consumer → Type 0
IsSame t c = eq_int c.priority_level t ≡ true

abbrev pub IsLower : ℤ → Consumer → Type 0
IsLower t c = lt_int t c.priority_level ≡ true

-- The consumers of a part stand at the indices from one on.
abbrev pub At : List Consumer → ℕ → List Consumer → Type 0
At l i [] = Unit {0}
At l i (c ∷ part) = (get_elem? l i ≡ some c) × At l (i + 1) part

At-suc :
    (a : Consumer) (l : List Consumer) (i : ℕ) (part : List Consumer)
    → At l i part
    → At (a ∷ l) (suc i) part
At-suc a l i [] v = tt
At-suc a l i (c ∷ part) (h, v) =
    (h, subst (λ n. At (a ∷ l) n part) (omega arith) (At-suc a l (i + 1) part v))

At-here : (part rest : List Consumer) → At (part ++ rest) 0 part
At-here [] rest = tt
At-here (c ∷ part) rest = (refl, At-suc c (part ++ rest) 0 part (At-here part rest))

pub At-part :
    (before part rest : List Consumer) → At (before ++ (part ++ rest)) (length before) part
At-part [] part rest = At-here part rest
At-part (b ∷ before) part rest =
    At-suc b (before ++ (part ++ rest)) (length before) part (At-part before part rest)

pub find_higher_lem :
    (t : ℤ) (i n : ℕ) (higher before : List Consumer) (rest : List Consumer)
    → All (IsHigher t) higher
    → All (IsSame t) before
    → n ≡ length higher + length before
    → find_higher i n t (higher ++ (before ++ rest)) ≡ first_ready i higher
unfolding find_higher
find_higher_lem t i zero [] [] rest v w h = refl
find_higher_lem t i (suc n) [] [] rest v w h = absurd (omega arith)
find_higher_lem t i zero [] (b ∷ before) rest v w h = absurd (omega arith)
find_higher_lem t i (suc n) [] (b ∷ before) rest v (same, w) h =
    let past : le_int t b.priority_level ≡ true = ground arith in rw (past, if◌then◌else◌) refl
find_higher_lem t i zero (c ∷ higher) before rest v w h = absurd (omega arith)
find_higher_lem t i (suc n) (c ∷ higher) before rest (k, v) w h =
    let near : le_int t c.priority_level ≡ false = ground arith in
    rw (near, if◌then◌else◌, find_higher_lem t (i + 1) n higher before rest v w (omega arith)) refl

pub index_of_priority_lem :
    (t : ℤ) (i : ℕ) (higher : List Consumer) (c : Consumer) (rest : List Consumer)
    → All (IsHigher t) higher
    → IsSame t c
    → index_of_priority i t (higher ++ c ∷ rest) ≡ some (i + length higher)
unfolding index_of_priority
index_of_priority_lem t i [] c rest v h = rw (h, if◌then◌else◌) (ap some (omega arith))
index_of_priority_lem t i (b ∷ higher) c rest (k, v) h =
    let other : eq_int b.priority_level t ≡ false = ground arith in
    rw (other, if◌then◌else◌)
      (index_of_priority_lem t (i + 1) higher c rest v h ∙ ap some (omega arith))

find_skipping-all : (i : ℕ) (l : List Consumer) → find_skipping i 0 l ≡ first_ready i l
unfolding find_skipping
find_skipping-all i [] = refl
find_skipping-all i (c ∷ l) = rw (find_skipping-all (i + 1) l) refl

pub find_skipping_lem :
    (i : ℕ) (before l : List Consumer)
    → find_skipping i (length before) (before ++ l) ≡ first_ready (i + length before) l
unfolding find_skipping
find_skipping_lem i [] l = find_skipping-all i l ∙ ap (λ n. first_ready n l) (omega arith)
find_skipping_lem i (b ∷ before) l =
    find_skipping_lem (i + 1) before l ∙ ap (λ n. first_ready n l) (omega arith)

abbrev pub found_or : Scan → Option ℕ → Scan
found_or s none = s
found_or s (some i) = found i

module _ (l : List Consumer) (t : ℤ) (current : ℕ) where
  -- Over a part with the priority, behind the current index.
  pub scan_behind :
      (fuel fuel' i e : ℕ) (part : List Consumer)
      → At l i part
      → All (IsSame t) part
      → current < i
      → fuel ≡ length part + fuel'
      → scan_loop fuel l t current i e
        ≡ found_or (scan_loop fuel' l t current (i + length part) e) (first_ready i part)
  unfolding scan_loop
  scan_behind fuel fuel' i e [] v w h k =
      let same_fuel : fuel ≡ fuel' = omega arith in
      let same_index : i ≡ i + 0 = omega arith in
      ap (λ n. scan_loop n l t current i e) same_fuel
      ∙ ap (λ n. scan_loop fuel' l t current n e) same_index
  scan_behind zero fuel' i e (c ∷ part) v w h k = absurd (omega arith)
  scan_behind (suc fuel) fuel' i e (c ∷ part) (at, v) (same, w) h k =
      elim (Bool-cases (has_permits c.state)) [
        | inl y ↦ rw (at, same, y, if◌then◌else◌) refl
        | inr n ↦
            let on : (i + 1 == current) ≡ false = ground arith in
            rw (at, same, n, if◌then◌else◌, on)
              (scan_behind fuel fuel' (i + 1) e part v w (omega arith) (omega arith)
                ∙ ap (λ n. found_or (scan_loop fuel' l t current n e) (first_ready (i + 1) part))
                    (omega arith))
      ]

  -- Over a part with the priority, up to the current index.
  pub scan_before :
      (fuel i e : ℕ) (c : Consumer) (part : List Consumer)
      → At l i (c ∷ part)
      → All (IsSame t) (c ∷ part)
      → i + length (c ∷ part) ≡ current
      → length (c ∷ part) ≤ fuel
      → scan_loop fuel l t current i e ≡ found_or (ended e) (first_ready i (c ∷ part))
  unfolding scan_loop
  scan_before zero i e c part v w h k = absurd (omega arith)
  scan_before (suc fuel) i e c [] (at, v) (same, w) h k =
      let on : (i + 1 == current) ≡ true = ground arith in
      elim (Bool-cases (has_permits c.state)) [
        | inl y ↦ rw (at, same, y, if◌then◌else◌) refl
        | inr n ↦ rw (at, same, n, if◌then◌else◌, on) refl
      ]
  scan_before (suc fuel) i e c (b ∷ part) (at, v) (same, w) h k =
      let on : (i + 1 == current) ≡ false = ground arith in
      elim (Bool-cases (has_permits c.state)) [
        | inl y ↦ rw (at, same, y, if◌then◌else◌) refl
        | inr n ↦
            rw (at, same, n, if◌then◌else◌, on)
              (scan_before fuel (i + 1) e b part v w (omega arith) (omega arith))
      ]

abbrev pub head_or_none : List Consumer → Option Consumer
head_or_none [] = none
head_or_none (c ∷ rest) = some c

pub get_elem?-past :
    (before rest : List Consumer) → get_elem? (before ++ rest) (length before) ≡ head_or_none rest
get_elem?-past [] [] = refl
get_elem?-past [] (c ∷ rest) = refl
get_elem?-past (b ∷ before) rest = get_elem?-past before rest
