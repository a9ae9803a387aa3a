-- ===== src/Prelude/Maps.antt =====
-- `BTreeMap` and `HashMap` as association lists over keys with an order and an equality.
mod Keys
use Prim.Native.Nat.{ℕ, ◌+◌}
use mathlib.Core.Path.{◌≡◌, refl, subst, ◌∙◌}
use mathlib.Core.Bool.{Bool, true, false}
use mathlib.Core.Logic.{◌⊎◌, inl, inr}
use mathlib.Core.Option.{Option, none, some}
use mathlib.Core.List.{List, [], ◌∷◌}
use native.Mathlib.Omega.{arith}
use pulsar_lite.Prelude.Tests.{if◌then◌else◌, Bool-cases}
pub use pulsar_lite.Prelude.Maps.Keys.{
  MapKey, nat_key, int_key, bytes_key, eq_nat_sound, eq_nat_refl, eq_bytes, lt_bytes,
  eq_bytes_sound, eq_bytes_refl, apart, eq_sym,
}

abbrev pub weight : Bool → ℕ
weight true = 1
weight false = 0

module _ {K : Type 0} {V : Type 0} ⦃o : MapKey K⦄ where
  unfoldable pub get : K → List (K × V) → Option V
  get k [] = none
  get k ((j, v) ∷ m) = if o.eq j k then some v else get k m

  -- `insert` of a `BTreeMap`: in key order, in place of an entry with the key.
  unfoldable pub insert_ordered : K → V → List (K × V) → List (K × V)
  insert_ordered k v [] = (k, v) ∷ []
  insert_ordered k v ((j, w) ∷ m) =
      if o.eq j k
      then (k, v) ∷ m
      else if o.lt k j
      then (k, v) ∷ (j, w) ∷ m
      else (j, w) ∷ insert_ordered k v m

  -- `insert` of a `HashMap`.
  unfoldable pub insert_entry : K → V → List (K × V) → List (K × V)
  insert_entry k v [] = (k, v) ∷ []
  insert_entry k v ((j, w) ∷ m) = if o.eq j k then (k, v) ∷ m else (j, w) ∷ insert_entry k v m

  unfoldable pub remove_key : K → List (K × V) → List (K × V)
  remove_key k [] = []
  remove_key k ((j, v) ∷ m) = if o.eq j k then remove_key k m else (j, v) ∷ remove_key k m

  pub get-insert_ordered :
      (k j : K) (v : V) (m : List (K × V))
      → get j (insert_ordered k v m) ≡ (if o.eq k j then some v else get j m)
  unfolding get insert_ordered
  get-insert_ordered k j v [] = refl
  get-insert_ordered k j v ((i, w) ∷ m) = elim (Bool-cases (o.eq i k)) [
    | inl same ↦ rw (same, o.eq_sound i k same) (ground arith)
    | inr other ↦ ground (arith, apart i j k other, get-insert_ordered k j v m)
  ]

  pub get-insert_entry :
      (k j : K) (v : V) (m : List (K × V))
      → get j (insert_entry k v m) ≡ (if o.eq k j then some v else get j m)
  unfolding get insert_entry
  get-insert_entry k j v [] = refl
  get-insert_entry k j v ((i, w) ∷ m) = elim (Bool-cases (o.eq i k)) [
    | inl same ↦ rw (same, o.eq_sound i k same) (ground arith)
    | inr other ↦ ground (arith, apart i j k other, get-insert_entry k j v m)
  ]

  pub get-remove_key :
      (k j : K) (m : List (K × V)) → get j (remove_key k m) ≡ (if o.eq k j then none else get j m)
  unfolding get remove_key
  get-remove_key k j [] = ground arith
  get-remove_key k j ((i, w) ∷ m) = elim (Bool-cases (o.eq i k)) [
    | inl same ↦ rw (same, o.eq_sound i k same) (ground (arith, get-remove_key k j m))
    | inr other ↦ ground (arith, apart i j k other, get-remove_key k j m)
  ]

  -- No key stands twice.
  abbrev pub Distinct : List (K × V) → Type 0
  Distinct [] = Unit
  Distinct ((k, v) ∷ m) = (get k m ≡ none) × Distinct m

  pub remove_key-Distinct : (k : K) (m : List (K × V)) → Distinct m → Distinct (remove_key k m)
  unfolding remove_key
  remove_key-Distinct k [] d = tt
  remove_key-Distinct k ((i, w) ∷ m) d =
      ground (arith, remove_key-Distinct k m d.1, get-remove_key k i m)

  -- A key that was absent is put between the others.
  pub insert_ordered-Distinct :
      (k : K) (v : V) (m : List (K × V))
      → Distinct m
      → get k m ≡ none
      → Distinct (insert_ordered k v m)
  unfolding insert_ordered get
  insert_ordered-Distinct k v [] d h = (refl, tt)
  insert_ordered-Distinct k v ((i, w) ∷ m) d h =
      ground (arith, insert_ordered-Distinct k v m d.1, get-insert_ordered k i v m, eq_sym i k)

  pub insert_entry-Distinct :
      (k : K) (v : V) (m : List (K × V)) → Distinct m → Distinct (insert_entry k v m)
  unfolding insert_entry get
  insert_entry-Distinct k v [] d = (refl, tt)
  insert_entry-Distinct k v ((i, w) ∷ m) d = elim (Bool-cases (o.eq i k)) [
    | inl same ↦ rw (same) (rw (← o.eq_sound i k same) d)
    | inr other ↦
        rw other
          (get-insert_entry k i v m ∙ rw (eq_sym k i, other) d.0, insert_entry-Distinct k v m d.1)
  ]

  -- How many values a test holds of.
  unfoldable pub count_values : (V → Bool) → List (K × V) → ℕ
  count_values p [] = 0
  count_values p ((k, v) ∷ m) = weight (p v) + count_values p m

  pub remove_absent : (k : K) (m : List (K × V)) → get k m ≡ none → remove_key k m ≡ m
  unfolding get remove_key
  remove_absent k [] h = refl
  remove_absent k ((i, w) ∷ m) h = ground (arith, remove_absent k m)

  pub remove-insert_ordered :
      (k : K) (v : V) (m : List (K × V)) → get k m ≡ none → remove_key k (insert_ordered k v m) ≡ m
  unfolding get remove_key insert_ordered
  remove-insert_ordered k v [] h = let same = o.eq_refl k in ground arith
  remove-insert_ordered k v ((i, w) ∷ m) h =
      let same = o.eq_refl k in
      let gone = remove_absent k m in let rest = remove-insert_ordered k v m in ground arith

  pub count-remove_key :
      (p : V → Bool) (k : K) (v : V) (m : List (K × V))
      → Distinct m
      → get k m ≡ some v
      → count_values p m ≡ weight (p v) + count_values p (remove_key k m)
  unfolding get remove_key count_values
  count-remove_key p k v [] d h = absurd (cc)
  count-remove_key p k v ((i, w) ∷ m) d h = elim (Bool-cases (o.eq i k)) [
    | inl same ↦
        let gone = remove_absent k m (subst (λ t. get t m ≡ none) (o.eq_sound i k same) d.0) in
        ground (arith, gone)
    | inr other ↦ ground (arith, count-remove_key p k v m d.1)
  ]

  pub count-insert_ordered :
      (p : V → Bool) (k : K) (v : V) (m : List (K × V))
      → get k m ≡ none
      → count_values p (insert_ordered k v m) ≡ weight (p v) + count_values p m
  unfolding get insert_ordered count_values
  count-insert_ordered p k v [] h = refl
  count-insert_ordered p k v ((i, w) ∷ m) h = ground (arith, count-insert_ordered p k v m)

  pub count-insert_entry :
      (p : V → Bool) (k : K) (v : V) (m : List (K × V))
      → get k m ≡ none
      → count_values p (insert_entry k v m) ≡ weight (p v) + count_values p m
  unfolding get insert_entry count_values
  count-insert_entry p k v [] h = refl
  count-insert_entry p k v ((i, w) ∷ m) h = ground (arith, count-insert_entry p k v m)

  pub count-insert_entry_present :
      (p : V → Bool) (k : K) (v u : V) (m : List (K × V))
      → get k m ≡ some u
      → weight (p u) + count_values p (insert_entry k v m) ≡ weight (p v) + count_values p m
  unfolding get insert_entry count_values
  count-insert_entry_present p k v u [] h = absurd (cc)
  count-insert_entry_present p k v u ((i, w) ∷ m) h =
      ground (arith, count-insert_entry_present p k v u m)

  -- What a successful lookup says of the map before the update.
  abbrev pub Was : (k j : K) (v f : V) → List (K × V) → Type 0
  Was k j v f m = ((k ≡ j) × (v ≡ f)) ⊎ ((o.eq k j ≡ false) × (get j m ≡ some f))

  pub insert_ordered-Was :
      (k j : K) (v f : V) (m : List (K × V)) → get j (insert_ordered k v m) ≡ some f → Was k j v f m
  insert_ordered-Was k j v f m h = elim (Bool-cases (o.eq k j)) [
    | inl same ↦ inl (o.eq_sound k j same, ground (arith, get-insert_ordered k j v m))
    | inr other ↦ inr (other, ground (arith, get-insert_ordered k j v m))
  ]

  pub insert_entry-Was :
      (k j : K) (v f : V) (m : List (K × V)) → get j (insert_entry k v m) ≡ some f → Was k j v f m
  insert_entry-Was k j v f m h = elim (Bool-cases (o.eq k j)) [
    | inl same ↦ inl (o.eq_sound k j same, ground (arith, get-insert_entry k j v m))
    | inr other ↦ inr (other, ground (arith, get-insert_entry k j v m))
  ]

  pub remove_key-Was :
      (k j : K) (f : V) (m : List (K × V))
      → get j (remove_key k m) ≡ some f
      → (o.eq k j ≡ false) × (get j m ≡ some f)
  remove_key-Was k j f m h = elim (Bool-cases (o.eq k j)) [
    | inl same ↦ absurd (ground (arith, get-remove_key k j m))
    | inr other ↦ (other, ground (arith, get-remove_key k j m))
  ]

  pub get_tail :
      (k j : K) (e f : V) (rest : List (K × V))
      → Distinct ((k, e) ∷ rest)
      → get j rest ≡ some f
      → get j ((k, e) ∷ rest) ≡ some f
  unfolding get
  get_tail k j e f rest d h = elim (Bool-cases (o.eq k j)) [
    | inl same ↦ absurd (cc (subst (λ t. get t rest ≡ none) (o.eq_sound k j same) d.0))
    | inr other ↦ rw other h
  ]

  pub get-remove_self : (k : K) (m : List (K × V)) → get k (remove_key k m) ≡ none
  get-remove_self k m = get-remove_key k k m ∙ rw (o.eq_refl k) refl
