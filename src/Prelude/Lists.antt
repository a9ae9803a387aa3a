-- ===== src/Prelude/Lists.antt =====
-- Lists measured and indexed by native numbers, under the library's names.
use Prim.Native.Nat.{ℕ, zero, suc, ◌+◌}
use mathlib.Core.Path.{◌≡◌, refl, ap}
use mathlib.Core.List.{List, [], ◌∷◌, ◌++◌}
use mathlib.Core.Option.{Option, none, some}
use native.Mathlib.Omega.{arith}

module _ {ℓ} {A : Type ℓ} where
  abbrev pub length : List A → ℕ
  length [] = 0
  length (x ∷ xs) = suc (length xs)

  abbrev pub get_elem? : List A → ℕ → Option A
  get_elem? [] i = none
  get_elem? (x ∷ xs) zero = some x
  get_elem? (x ∷ xs) (suc i) = get_elem? xs i

  pub length-append : (xs ys : List A) → length (xs ++ ys) ≡ length xs + length ys
  length-append [] ys = omega arith
  length-append (x ∷ xs) ys = omega (arith, length-append xs ys)

  -- A predicate at every element.
  abbrev pub All {κ} : (A → Type κ) → List A → Type κ
  All P [] = Unit
  All P (x ∷ xs) = P x × All P xs

  pub get_elem?-append_last : (xs : List A) (a : A) → get_elem? (xs ++ a ∷ []) (length xs) ≡ some a
  get_elem?-append_last [] a = refl
  get_elem?-append_last (x ∷ xs) a = get_elem?-append_last xs a

  pub get_elem?-head : (x : A) (xs : List A) (n : ℕ) → n ≡ 0 → get_elem? (x ∷ xs) n ≡ some x
  get_elem?-head x xs n e = ap (get_elem? (x ∷ xs)) e

  pub get_elem?-tail :
      (x : A) (xs : List A) (n k : ℕ) → n ≡ suc k → get_elem? (x ∷ xs) n ≡ get_elem? xs k
  get_elem?-tail x xs n k e = ap (get_elem? (x ∷ xs)) e

  abbrev or_else : A → Option A → A
  or_else a none = a
  or_else a (some b) = b

  pub some_injective : (a b : A) → some a ≡ some b → a ≡ b
  some_injective a b e = ap (or_else a) e
