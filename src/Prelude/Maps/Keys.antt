-- ===== src/Prelude/Maps/Keys.antt =====
-- Keys of a map: an order and an equality.
use Prim.Native.Nat.{ℕ}
use mathlib.Core.Path.{◌≡◌, refl, ap, sym, ◌∙◌}
use mathlib.Core.Bool.{Bool, true, false, ◌&&◌, ◌||◌}
use mathlib.Core.Logic.{inl, inr}
use mathlib.Core.List.{List, [], ◌∷◌}
use native.Mathlib.Omega.{arith}
use pulsar_lite.Prelude.Tests.{◌==◌, ltb, Bool-cases}
use pulsar_lite.Prelude.Int.{ℤ, lt_int, eq_int, eq_int_sound, eq_int_refl}

-- `Ord` and `Eq` of a key.
pub record MapKey (K : Type 0) : Type 0 where
  pub lt : K → K → Bool
  pub eq : K → K → Bool
  pub eq_sound : (a b : K) → eq a b ≡ true → a ≡ b
  pub eq_refl : (a : K) → eq a a ≡ true

pub eq_nat_sound : (a b : ℕ) → (a == b) ≡ true → a ≡ b
eq_nat_sound a b h = ground arith

pub eq_nat_refl : (a : ℕ) → (a == a) ≡ true
eq_nat_refl a = ground arith

instance abbrev pub nat_key : MapKey ℕ
nat_key = record { lt = ltb; eq = ◌==◌; eq_sound = eq_nat_sound; eq_refl = eq_nat_refl }

instance abbrev pub int_key : MapKey ℤ
int_key = record { lt = lt_int; eq = eq_int; eq_sound = eq_int_sound; eq_refl = eq_int_refl }

-- Byte strings as keys.
abbrev pub eq_bytes : List ℕ → List ℕ → Bool
eq_bytes [] [] = true
eq_bytes [] (b ∷ bs) = false
eq_bytes (a ∷ rest) [] = false
eq_bytes (a ∷ rest) (b ∷ bs) = a == b && eq_bytes rest bs

abbrev pub lt_bytes : List ℕ → List ℕ → Bool
lt_bytes rest [] = false
lt_bytes [] (b ∷ bs) = true
lt_bytes (a ∷ rest) (b ∷ bs) = ltb a b || (a == b && lt_bytes rest bs)

pub eq_bytes_sound : (x y : List ℕ) → eq_bytes x y ≡ true → x ≡ y
eq_bytes_sound [] [] h = refl
eq_bytes_sound [] (b ∷ bs) h = absurd (ground arith)
eq_bytes_sound (a ∷ rest) [] h = absurd (ground arith)
eq_bytes_sound (a ∷ rest) (b ∷ bs) h =
    let later = eq_bytes_sound rest bs (ground arith) in
    let same : a ≡ b = ground arith in λ i. same i ∷ later i

pub eq_bytes_refl : (x : List ℕ) → eq_bytes x x ≡ true
eq_bytes_refl [] = refl
eq_bytes_refl (a ∷ rest) = let later = eq_bytes_refl rest in ground arith

instance abbrev pub bytes_key : MapKey (List ℕ)
bytes_key = record {
  lt = lt_bytes;
  eq = eq_bytes;
  eq_sound = eq_bytes_sound;
  eq_refl = eq_bytes_refl;
}

module _ {K : Type 0} ⦃o : MapKey K⦄ where
  -- A key equal to one of two different keys differs from the other.
  pub apart : (i j k : K) → o.eq i k ≡ false → o.eq i j ≡ true → o.eq k j ≡ false
  apart i j k n h = elim (Bool-cases (o.eq k j)) [
    | inl e ↦
        let i=k : i ≡ k = o.eq_sound i j h ∙ sym (o.eq_sound k j e) in
        absurd (cc (ap (o.eq i) i=k, o.eq_refl i))
    | inr e ↦ e
  ]

  -- Either way the test is made, it says the same.
  pub eq_sym : (i j : K) → o.eq i j ≡ o.eq j i
  eq_sym i j = elim (Bool-cases (o.eq i j)) [
    | inl e ↦ rw (o.eq_sound i j e) refl
    | inr n ↦ elim (Bool-cases (o.eq j i)) [
      | inl e ↦ rw (o.eq_sound j i e) refl
      | inr m ↦ n ∙ sym m
    ]
  ]
