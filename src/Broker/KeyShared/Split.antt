-- ===== src/Broker/KeyShared/Split.antt =====
-- The automatic split of the hashes between the consumers of key_shared.rs.
use pulsar_lite.Prelude.{
  ℕ, suc, ◌+◌, ◌*◌, ◌/◌, ◌<◌, ◌≤◌, Bool, true, false, ◌&&◌, none, some, List, [], ◌∷◌, map, length,
  ◌≡◌, refl, sym, ap, ◌∙◌, subst, ltb, leb, inl, inr, ◌%◌, if◌then◌else◌, arith, Bool-cases,
}
use native.Mathlib.Nat.{mul-div_cancel_left, le-div_iff_mul-le, div-mul-le_self, div-le_of_le-mul}
use pulsar_lite.Prelude.Int.{ℤ, pos, to_i32, div_int, pred_int}
use pulsar_lite.Prelude.Maps.{weight}
use pulsar_lite.Broker.KeyShared.{
  KeySharedHashRange, Consumer, Readiness, Assignments, consumers_of, by_id, sort_by, insert_sorted,
  rebuild_auto_split_assignments, boundary, split_range, assign_ranges, holds_hash, first_ready,
  is_ready, rebuild_assignments, rebuild_sticky_assignments, select_consumer_for_hash, auto_split,
}

-- How many of the assignments hold the hash.
unfoldable pub holders : ℤ → List (KeySharedHashRange × Consumer) → ℕ
holders hash [] = 0
holders hash ((range, c) ∷ rest) = weight (holds_hash range hash) + holders hash rest

-- The boundary before the consumer at the index.
abbrev pub floor : ℕ → ℕ → ℕ
floor index total = (index * 65536) / total

small-to_i32 : (n : ℕ) → n < 2147483648 → to_i32 n ≡ pos n
small-to_i32 n h = let low : n % 4294967296 ≡ n = omega arith in rw low (ground arith)

small_product : (i t : ℕ) → i ≤ t → t ≤ 32767 → i * 65536 < 2147483648
small_product i t h k = omega arith

boundary-floor : (i t : ℕ) → i ≤ t → t ≤ 32767 → boundary i t ≡ pos (floor i t)
boundary-floor i t h k = rw (small-to_i32 (i * 65536) (small_product i t h k), div_int) refl

div_le : (a b t : ℕ) → a ≤ b → 0 < t → a / t ≤ b / t
div_le a b t h z =
    (le-div_iff_mul-le {k = t} {x = a / t} {y = b} z).1
      (let below = div-mul-le_self a t in omega arith)

pub floor_mono : (i t : ℕ) → 0 < t → floor i t ≤ floor (i + 1) t
floor_mono i t h = div_le ((i * 65536)) ((i + 1) * 65536) t (omega arith) h

floor_top : (t : ℕ) → 0 < t → floor t t ≡ 65536
floor_top t h = mul-div_cancel_left 65536 h

holds_between :
    (lo mid h : ℕ)
    → holds_hash (record { start = pos lo; end = pred_int (pos mid) }) (pos h)
      ≡ (leb lo h && ltb h mid)
holds_between lo mid h = ground arith

holds_here :
    (h i t : ℕ)
    → i + 1 ≤ t
    → t ≤ 32767
    → holds_hash (split_range i t) (pos h) ≡ (leb (floor i t) h && ltb h (floor (i + 1) t))
holds_here h i t e k =
    let lo = boundary-floor i t (omega arith) k in
    let up = boundary-floor (i + 1) t e k in
    ap (λ b. holds_hash (record { start = b; end = pred_int (boundary (i + 1) t) }) (pos h)) lo
    ∙ ap (λ b. holds_hash (record { start = pos (floor i t); end = pred_int b }) (pos h)) up
    ∙ holds_between (floor i t) (floor (i + 1) t) h

join_weights :
    (lo mid h : ℕ) (b : Bool) (n : ℕ)
    → lo ≤ mid
    → b ≡ (leb lo h && ltb h mid)
    → n ≡ weight (leb mid h)
    → weight b + n ≡ weight (leb lo h)
join_weights lo mid h b n m e f = ground arith

holders-assign_ranges :
    (h i t : ℕ) (cs : List Consumer)
    → h < 65536
    → i + length cs ≡ t
    → t ≤ 32767
    → 0 < t
    → holders (pos h) (assign_ranges i t cs) ≡ weight (leb (floor i t) h)
unfolding holders assign_ranges
holders-assign_ranges h i t [] hh e k z =
    let same : i ≡ t = omega arith in
    subst (λ j. 0 ≡ weight (leb (floor j t) h)) (sym same) (rw (floor_top t z) (ground arith))
holders-assign_ranges h i t (c ∷ cs) hh e k z =
    join_weights (floor i t) (floor (i + 1) t) h (holds_hash (split_range i t) (pos h))
      (holders (pos h) (assign_ranges (i + 1) t cs)) (floor_mono i t z)
      (holds_here h i t (omega arith) k) (holders-assign_ranges h (i + 1) t cs hh (omega arith) k z)

length-insert_sorted {ℓ} :
    {A : Type ℓ} (lt : A → A → Bool) (a : A) (l : List A)
    → length (insert_sorted lt a l) ≡ suc (length l)
unfolding insert_sorted
length-insert_sorted lt a [] = refl
length-insert_sorted lt a (b ∷ bs) = let rest = length-insert_sorted lt a bs in ground arith

length-sort_by {ℓ} :
    {A : Type ℓ} (lt : A → A → Bool) (l : List A) → length (sort_by lt l) ≡ length l
unfolding sort_by
length-sort_by lt [] = refl
length-sort_by lt (a ∷ rest) =
    length-insert_sorted lt a (sort_by lt rest) ∙ ap suc (length-sort_by lt rest)

length-map {ℓ κ} : {A : Type ℓ} {B : Type κ} (f : A → B) (l : List A) → length (map f l) ≡ length l
length-map f [] = refl
length-map f (a ∷ l) = ap suc (length-map f l)

all_below :
    (h : ℕ) (cs : List Consumer)
    → h < 65536
    → 0 < length cs
    → length cs ≤ 32767
    → holders (pos h) (assign_ranges 0 (length cs) cs) ≡ 1
all_below h cs hh z k =
    let low : floor 0 (length cs) ≤ 0 = div-le_of_le-mul (length cs) (omega arith) in
    let all = holders-assign_ranges h 0 (length cs) cs hh (omega arith) k z in
    let first : leb (floor 0 (length cs)) h ≡ true = ground arith in all ∙ ap weight first

-- With 1 to 32767 consumers every hash below 65536 lies in exactly one of the ranges that
-- rebuild_auto_split_assignments deals out, i32 arithmetic included.
pub rebuild_auto_split_once :
    (a : Assignments) (h : ℕ)
    → h < 65536
    → 0 < length a.consumers_by_id
    → length a.consumers_by_id ≤ 32767
    → holders (pos h) (rebuild_auto_split_assignments a).auto_split_assignments ≡ 1
unfolding rebuild_auto_split_assignments
rebuild_auto_split_once a h hh z k =
    let size =
      length-sort_by by_id (consumers_of a)
      ∙ length-map {B = Consumer} (λ e. e.1) a.consumers_by_id in
    all_below h (sort_by by_id (consumers_of a)) hh (subst (λ n. 0 < n) (sym size) z)
      (subst (λ n. n ≤ 32767) (sym size) k)

no_holder :
    (now : Readiness) (hash : ℤ) (l : List (KeySharedHashRange × Consumer))
    → holders hash l ≡ 0
    → first_ready now hash l ≡ none
unfolding holders first_ready
no_holder now hash [] e = refl
no_holder now hash ((range, c) ∷ rest) e = let later = no_holder now hash rest in ground arith

first_ready-skip :
    (now : Readiness) (hash : ℤ) (range : KeySharedHashRange) (c : Consumer)
    (rest : List (KeySharedHashRange × Consumer))
    → holds_hash range hash ≡ false
    → first_ready now hash ((range, c) ∷ rest) ≡ first_ready now hash rest
unfolding first_ready
first_ready-skip now hash range c rest e = rw e refl

-- The single holder.
pub first_ready-owner :
    (hash : ℤ) (l : List (KeySharedHashRange × Consumer))
    → holders hash l ≡ 1
    → (c : Consumer) × ((now : Readiness)
        → first_ready now hash l ≡ (if is_ready now c then some c else none))
unfolding holders first_ready
first_ready-owner hash [] e = absurd (omega arith)
first_ready-owner hash ((range, c) ∷ rest) e = elim (Bool-cases (holds_hash range hash)) [
  | inl here ↦
      (c, λ now. let later = no_holder now hash rest (ground arith) in rw (here, later) refl)
  | inr away ↦
      let (owner, later) = first_ready-owner hash rest (ground arith) in
      (owner, λ now. first_ready-skip now hash range c rest away ∙ later now)
]

select-auto :
    (now : Readiness) (a : Assignments) (hash : ℤ)
    → a.key_shared_policy.mode ≡ auto_split
    → select_consumer_for_hash now (rebuild_assignments a) hash
      ≡ first_ready now hash (rebuild_auto_split_assignments a).auto_split_assignments
unfolding rebuild_assignments rebuild_sticky_assignments rebuild_auto_split_assignments
    select_consumer_for_hash
select-auto now a hash m = rw m refl

-- With automatic split and 1 to 32767 consumers every hash below 65536 has one owner until the
-- consumers change: whatever the permits and the writability are, select_consumer_for_hash gives
-- the owner when it is ready, and no consumer otherwise.
pub select_consumer_for_hash-owner :
    (a : Assignments) (h : ℕ)
    → a.key_shared_policy.mode ≡ auto_split
    → h < 65536
    → 0 < length a.consumers_by_id
    → length a.consumers_by_id ≤ 32767
    → (owner : Consumer) × ((now : Readiness)
        → select_consumer_for_hash now (rebuild_assignments a) (pos h)
          ≡ (if is_ready now owner then some owner else none))
unfolding rebuild_assignments rebuild_sticky_assignments rebuild_auto_split_assignments
    select_consumer_for_hash
select_consumer_for_hash-owner a h m hh z k =
    let once = rebuild_auto_split_once a h hh z k in
    let (owner, alone) =
      first_ready-owner (pos h) (rebuild_auto_split_assignments a).auto_split_assignments once in
    (owner, λ now. select-auto now a (pos h) m ∙ alone now)
