-- ===== src/ManagedLedger/RangeSet.antt =====
-- rust/storage/managed-ledger/src/range_set.rs: `RangeSet<K>` over the keys `K: Ord + Succ`.
-- A `BTreeSet<(K, K)>` is the list of its pairs in their lexicographic order.
pub mod Separated
pub mod Insert
pub mod Place
pub mod Laws
pub mod Canonical
pub mod Covering
pub mod Sizes
use pulsar_lite.Prelude.{
  ℕ, zero, suc, ◌+◌, Bool, false, ◌&&◌, ◌||◌, Option, none, some, List, [], ◌∷◌, length, ltb, leb,
  ◌==◌, if◌then◌else◌,
}

-- `Ord` and `Succ`: the comparisons of the key, and the successor that checks for overflow.
pub record Key (K : Type 0) : Type 0 where
  pub lt : K → K → Bool
  pub le : K → K → Bool
  pub eq : K → K → Bool
  pub succ : K → Option K

abbrev pub u64_max : ℕ
u64_max = 18446744073709551615

-- `impl Succ for u64`.
abbrev pub succ_u64 : ℕ → Option ℕ
succ_u64 n = if leb u64_max n then none else some (n + 1)

instance abbrev pub u64_key : Key ℕ
u64_key = record { lt = ltb; le = leb; eq = ◌==◌; succ = succ_u64 }

module _ {K : Type 0} ⦃o : Key K⦄ where
  -- The order of the pairs in the tree.
  abbrev pub pair_le : K × K → K × K → Bool
  pair_le (a, b) (c, d) = o.lt a c || (o.eq a c && o.le b d)

  abbrev pub pair_eq : K × K → K × K → Bool
  pair_eq (a, b) (c, d) = o.eq a c && o.eq b d

  -- `range(..=p).next_back()`: the greatest pair that is at most `p`.
  unfoldable pub last_le : K × K → List (K × K) → Option (K × K)
  last_le p [] = none
  last_le p (x ∷ xs) =
      let rest = last_le p xs in
      if pair_le x p then elim rest [ none ↦ some x | some y ↦ some y ] else none

  -- `range(p..).next()`: the least pair that is at least `p`.
  unfoldable pub first_ge : K × K → List (K × K) → Option (K × K)
  first_ge p [] = none
  first_ge p (x ∷ xs) = if pair_le p x then some x else first_ge p xs

  -- `BTreeSet::remove` and `BTreeSet::insert`.
  unfoldable pub remove_pair : K × K → List (K × K) → List (K × K)
  remove_pair p [] = []
  remove_pair p (x ∷ xs) = if pair_eq x p then xs else x ∷ remove_pair p xs

  unfoldable pub insert_pair : K × K → List (K × K) → List (K × K)
  insert_pair p [] = p ∷ []
  insert_pair p (x ∷ xs) =
      if pair_eq x p then x ∷ xs else if pair_le p x then p ∷ x ∷ xs else x ∷ insert_pair p xs

  -- The second lookup of `contains`: a range that starts exactly at `pos`.
  abbrev starts_at : K → Option (K × K) → Bool
  starts_at pos none = false
  starts_at pos (some (start, _)) = o.eq start pos

  -- The first lookup, and the second where it fails.
  abbrev falls_inside : K → Option (K × K) → Bool → Bool
  falls_inside pos none second = second
  falls_inside pos (some (start, end)) second = (o.le start pos && o.le pos end) || second

  unfoldable pub contains : List (K × K) → K → Bool
  contains rs pos =
      falls_inside pos (last_le (pos, pos) rs) (starts_at pos (first_ge (pos, pos) rs))

  -- `end.succ().unwrap_or_else(|| end.clone())`.
  abbrev pub or_self : K → Option K → K
  or_self k none = k
  or_self k (some s) = s

  -- `.filter(|(s, _)| *s <= limit)`.
  abbrev pub keep_within : K → Option (K × K) → Option (K × K)
  keep_within limit none = none
  keep_within limit (some (s, e)) = if o.le s limit then some (s, e) else none

  -- The loop of `insert_range`: the start, the end and the ranges when it breaks. `none` means
  -- that the fuel ran out.
  unfoldable pub merge_right : ℕ → K → K → List (K × K) → Option (K × K × List (K × K))
  merge_right zero start end rs = none
  merge_right (suc fuel) start end rs =
      elim (keep_within (or_self end (o.succ end)) (first_ge (start, start) rs)) [
        | none ↦ some (start, end, rs)
        | some (s, e) ↦
            merge_right fuel (if o.lt s start then s else start) (if o.lt end e then e else end)
              (remove_pair (s, e) rs)
      ]

  -- `e.succ() == Some(start)`.
  abbrev is_adjacent : Option K → K → Bool
  is_adjacent none start = false
  is_adjacent (some k) start = o.eq k start

  -- The left neighbour is merged when it is adjacent, and the range is stored.
  unfoldable pub merge_left : K → K → List (K × K) → List (K × K)
  merge_left start end rs = elim (last_le (start, start) rs) [
    | none ↦ insert_pair (start, end) rs
    | some (s, e) ↦
        if is_adjacent (o.succ e) start
        then insert_pair (s, end) (remove_pair (s, e) rs)
        else insert_pair (start, end) rs
  ]

  -- Each round of the loop takes a range out, so one more than their number is enough fuel.
  unfoldable pub insert_range : K → K → List (K × K) → Option (List (K × K))
  insert_range start end rs =
      if o.lt end start then some rs else elim (merge_right (suc (length rs)) start end rs) [
        | none ↦ none
        | some (start', end', rest) ↦ some (merge_left start' end' rest)
      ]

  unfoldable pub insert : K → List (K × K) → Option (List (K × K))
  insert pos rs = if contains rs pos then some rs else insert_range pos pos rs

  -- A range that starts exactly at `pos` is taken out.
  abbrev pub take_starting : K → Option (K × K) → List (K × K) → Option K × List (K × K)
  take_starting pos none rs = (none, rs)
  take_starting pos (some (start, end)) rs =
      if o.eq start pos then (some end, remove_pair (start, end) rs) else (none, rs)

  -- `take_covering`: the end of the range taken out, and the ranges that stay.
  unfoldable pub take_covering : K → List (K × K) → Option K × List (K × K)
  take_covering pos rs = elim (last_le (pos, pos) rs) [
    | none ↦ take_starting pos (first_ge (pos, pos) rs) rs
    | some (start, end) ↦
        if o.le start pos
        then (some end, remove_pair (start, end) rs)
        else take_starting pos (first_ge (pos, pos) rs) rs
  ]
