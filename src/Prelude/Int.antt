-- ===== src/Prelude/Int.antt =====
-- Signed integers over the native numbers, for the `i32` fields: `negsuc n` is -(n + 1).
use Prim.Native.Nat.{ℕ, suc, ◌+◌, ◌-◌, ◌/◌, ◌%◌}
use mathlib.Core.Path.{◌≡◌, ap}
use mathlib.Core.Bool.{Bool, true}
use native.Mathlib.Omega.{arith}
use pulsar_lite.Prelude.Tests.{ltb, leb, ◌==◌, if◌then◌else◌}

pub data ℤ : Type 0 where
  pos : ℕ → ℤ
  negsuc : ℕ → ℤ

-- The parts above and below zero.
abbrev pub pos_part : ℤ → ℕ
pos_part (pos n) = n
pos_part (negsuc n) = 0

abbrev pub neg_part : ℤ → ℕ
neg_part (pos n) = 0
neg_part (negsuc n) = suc n

abbrev pub lt_int : ℤ → ℤ → Bool
lt_int a b = ltb (pos_part a + neg_part b) (pos_part b + neg_part a)

abbrev pub eq_int : ℤ → ℤ → Bool
eq_int a b = (pos_part a + neg_part b) == (pos_part b + neg_part a)

pub eq_int_sound : (a b : ℤ) → eq_int a b ≡ true → a ≡ b
eq_int_sound (pos m) (pos n) h = ap pos (ground arith)
eq_int_sound (pos m) (negsuc n) h = absurd (ground arith)
eq_int_sound (negsuc m) (pos n) h = absurd (ground arith)
eq_int_sound (negsuc m) (negsuc n) h = ap negsuc (ground arith)

pub eq_int_refl : (a : ℤ) → eq_int a a ≡ true
eq_int_refl a = ground arith

abbrev pub le_int : ℤ → ℤ → Bool
le_int a b = leb (pos_part a + neg_part b) (pos_part b + neg_part a)

-- `a - b` of two numbers.
abbrev pub minus : ℕ → ℕ → ℤ
minus a b = if leb b a then pos (a - b) else negsuc (b - a - 1)

-- The value that `i32` keeps of a number: the low 32 bits in two's complement.
abbrev pub to_i32 : ℕ → ℤ
to_i32 n = let low = n % 4294967296 in if ltb low 2147483648 then pos low else minus low 4294967296

-- Division truncates toward zero.
abbrev pub div_int : ℤ → ℕ → ℤ
div_int (pos n) d = pos (n / d)
div_int (negsuc n) d = minus 0 (suc n / d)

abbrev pub pred_int : ℤ → ℤ
pred_int a = minus (pos_part a) (neg_part a + 1)

abbrev pub plus_int : ℤ → ℤ → ℤ
plus_int a b = minus (pos_part a + pos_part b) (neg_part a + neg_part b)

abbrev pub minus_int : ℤ → ℤ → ℤ
minus_int a b = minus (pos_part a + neg_part b) (neg_part a + pos_part b)

-- An `i32` result that wraps.
abbrev pub wrap_i32 : ℤ → ℤ
wrap_i32 (pos n) = to_i32 n
wrap_i32 (negsuc n) = to_i32 (4294967295 - n % 4294967296)
