-- ===== src/Prelude/Bytes.antt =====
-- Byte slices as lists of numbers: cutting, and little-endian integers.
use Prim.Native.Nat.{ℕ, zero, suc, ◌+◌, ◌-◌, ◌*◌, ◌/◌, ◌%◌, ◌<◌, ◌≤◌}
use mathlib.Core.Path.{◌≡◌, refl, ap, ◌∙◌}
use mathlib.Core.List.{List, [], ◌∷◌, ◌++◌}
use mathlib.Core.Option.{Option, none, some}
use native.Mathlib.Omega.{arith}
use mathlib.Core.Logic.{inl, inr}
use pulsar_lite.Prelude.Lists.{length}
use pulsar_lite.Prelude.Tests.{Option-cases}

abbrev pub take : ℕ → List ℕ → List ℕ
take zero bytes = []
take (suc n) [] = []
take (suc n) (b ∷ bytes) = b ∷ take n bytes

abbrev pub drop : ℕ → List ℕ → List ℕ
drop zero bytes = bytes
drop (suc n) [] = []
drop (suc n) (b ∷ bytes) = drop n bytes

-- `bytes[from..to]`.
abbrev pub slice : ℕ → ℕ → List ℕ → List ℕ
slice from to bytes = take (to - from) (drop from bytes)

abbrev pub with_first : ℕ → Option (List ℕ × List ℕ) → Option (List ℕ × List ℕ)
with_first b none = none
with_first b (some (first, rest)) = some (b ∷ first, rest)

-- `read_exact` of so many bytes, and `split_to`: none when there are fewer.
abbrev pub read_exact : ℕ → List ℕ → Option (List ℕ × List ℕ)
read_exact zero bytes = some ([], bytes)
read_exact (suc n) [] = none
read_exact (suc n) (b ∷ bytes) = with_first b (read_exact n bytes)

-- `to_le_bytes` of an unsigned integer of so many bytes, and `from_le_bytes`.
abbrev pub to_le_bytes : ℕ → ℕ → List ℕ
to_le_bytes zero n = []
to_le_bytes (suc width) n = (n % 256) ∷ to_le_bytes width (n / 256)

abbrev pub from_le_bytes : List ℕ → ℕ
from_le_bytes [] = 0
from_le_bytes (b ∷ bytes) = b + 256 * from_le_bytes bytes

-- `put_u32` of the low 32 bits, and `get_u16` and `get_u32`, which are big-endian.
abbrev pub put_u32 : ℕ → List ℕ
put_u32 n = (n / 16777216 % 256) ∷ (n / 65536 % 256) ∷ (n / 256 % 256) ∷ (n % 256) ∷ []

abbrev from_be_bytes : ℕ → List ℕ → ℕ
from_be_bytes acc [] = acc
from_be_bytes acc (b ∷ bytes) = from_be_bytes (acc * 256 + b) bytes

abbrev pub get_uint : List ℕ → ℕ
get_uint bytes = from_be_bytes 0 bytes

-- The number has so many bytes.
abbrev pub Fits : ℕ → ℕ → Type 0
Fits zero n = n ≡ 0
Fits (suc width) n = Fits width (n / 256)

pub from_le_bytes-to_le_bytes :
    (width n : ℕ) → Fits width n → from_le_bytes (to_le_bytes width n) ≡ n
from_le_bytes-to_le_bytes zero n h = omega arith
from_le_bytes-to_le_bytes (suc width) n h =
    omega (arith, from_le_bytes-to_le_bytes width (n / 256) h)

pub read_exact-append : (a b : List ℕ) → read_exact (length a) (a ++ b) ≡ some (a, b)
read_exact-append [] b = refl
read_exact-append (x ∷ a) b = ap (with_first x) (read_exact-append a b)

pub drop-append : (a b : List ℕ) → drop (length a) (a ++ b) ≡ b
drop-append [] b = refl
drop-append (x ∷ a) b = drop-append a b

abbrev with_more : List ℕ → Option (List ℕ × List ℕ) → Option (List ℕ × List ℕ)
with_more more none = none
with_more more (some (first, rest)) = some (first, rest ++ more)

pub get_uint-put_u32 : (n : ℕ) → n < 4294967296 → get_uint (put_u32 n) ≡ n
get_uint-put_u32 n h = omega arith

pub take-append : (a b : List ℕ) → take (length a) (a ++ b) ≡ a
take-append [] b = refl
take-append (x ∷ a) b = ap (λ l. x ∷ l) (take-append a b)

pub take_all : (a : List ℕ) (n : ℕ) → length a ≤ n → take n a ≡ a
take_all [] zero h = refl
take_all [] (suc n) h = refl
take_all (x ∷ a) zero h = absurd (omega arith)
take_all (x ∷ a) (suc n) h = ap (λ l. x ∷ l) (take_all a n (omega arith))

-- Cuts of what is long enough do not see what follows.
pub take-more : (n : ℕ) (a b : List ℕ) → n ≤ length a → take n (a ++ b) ≡ take n a
take-more zero a b h = refl
take-more (suc n) [] b h = absurd (omega arith)
take-more (suc n) (x ∷ a) b h = ap (λ l. x ∷ l) (take-more n a b (omega arith))

pub drop-more : (n : ℕ) (a b : List ℕ) → n ≤ length a → drop n (a ++ b) ≡ drop n a ++ b
drop-more zero a b h = refl
drop-more (suc n) [] b h = absurd (omega arith)
drop-more (suc n) (x ∷ a) b h = drop-more n a b (omega arith)

pub length-drop : (n : ℕ) (a : List ℕ) → length (drop n a) ≡ length a - n
length-drop zero a = omega arith
length-drop (suc n) [] = omega arith
length-drop (suc n) (x ∷ a) = omega (arith, length-drop n a)

-- What was read is read again when more bytes follow.
pub read_exact-more :
    (n : ℕ) (bytes first rest more : List ℕ)
    → read_exact n bytes ≡ some (first, rest)
    → read_exact n (bytes ++ more) ≡ some (first, rest ++ more)
read_exact-more zero bytes first rest more h = ap (with_more more) h
read_exact-more (suc n) [] first rest more h = absurd (cc)
read_exact-more (suc n) (b ∷ bytes) first rest more h = elim (Option-cases (read_exact n bytes)) [
  | inl e ↦ absurd (let gone = rw e at h in cc)
  | inr ((f, r), e) ↦
      ap (with_first b) (read_exact-more n bytes f r more e) ∙ ap (with_more more) (rw e at h)
]
