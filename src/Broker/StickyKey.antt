-- ===== src/Broker/StickyKey.antt =====
-- rust/src/broker/dispatcher/sticky_key.rs: the sticky key of a message and its hash. `u32`
-- arithmetic has its wrap-around written out. The decoder of the metadata is generated code, and a
-- parameter; a string is the list of its bytes.
pub mod Bounds
use pulsar_lite.Prelude.{
  ℕ, zero, suc, ◌+◌, ◌*◌, ◌/◌, ◌%◌, Bool, true, false, Option, none, some, List, [], ◌∷◌, ◌++◌,
  length, ltb, if◌then◌else◌,
}
use Prim.Native.Nat.{bit_xor}
use pulsar_lite.Prelude.Int.{ℤ, to_i32}

-- The fields of `MessageMetadata` that the key comes from.
pub record MessageMetadata : Type 0 where
  pub ordering_key : Option (List ℕ)
  pub partition_key : Option (List ℕ)
  pub producer_name : List ℕ
  pub sequence_id : ℕ

-- `{}` of a number: its decimal digits, least significant last. A `u64` has at most 20.
unfoldable pub decimal : ℕ → ℕ → List ℕ → List ℕ
decimal zero n digits = digits
decimal (suc fuel) n digits =
    let digits' = (48 + n % 10) ∷ digits in
    let rest = decimal fuel (n / 10) digits' in if ltb n 10 then digits' else rest

abbrev pub or_producer : MessageMetadata → List ℕ → List ℕ
or_producer metadata [] = []
or_producer metadata (b ∷ bs) = (b ∷ bs) ++ 45 ∷ decimal 20 metadata.sequence_id []

abbrev pub or_partition_key : MessageMetadata → Option (List ℕ) → List ℕ
or_partition_key metadata (some key) = key
or_partition_key metadata none = or_producer metadata metadata.producer_name

abbrev pub key_of : MessageMetadata → Option (List ℕ) → List ℕ
key_of metadata (some key) = key
key_of metadata none = or_partition_key metadata metadata.partition_key

abbrev pub u32 : ℕ
u32 = 4294967296

abbrev pub wrapping_mul : ℕ → ℕ → ℕ
wrapping_mul a b = (a * b) % u32

abbrev pub wrapping_add : ℕ → ℕ → ℕ
wrapping_add a b = (a + b) % u32

-- `rotate_left` by 15 and by 13: the high bits come in below.
abbrev pub rotate_15 : ℕ → ℕ
rotate_15 x = (x * 32768) % u32 + x / 131072

abbrev pub rotate_13 : ℕ → ℕ
rotate_13 x = (x * 8192) % u32 + x / 524288

abbrev pub mix_k : ℕ → ℕ
mix_k k = wrapping_mul (rotate_15 (wrapping_mul k 3432918353)) 461845907

abbrev pub mix_hash : ℕ → ℕ → ℕ
mix_hash hash k = wrapping_add (wrapping_mul (rotate_13 (bit_xor hash (mix_k k))) 5) 3864292196

-- `u32::from_le_bytes`.
abbrev pub from_le_bytes : ℕ → ℕ → ℕ → ℕ → ℕ
from_le_bytes a b c d = a + b * 256 + c * 65536 + d * 16777216

-- The value of the tail, whose three parts do not overlap.
abbrev pub tail_value : List ℕ → ℕ
tail_value [] = 0
tail_value (a ∷ []) = bit_xor 0 a
tail_value (a ∷ b ∷ []) = bit_xor (bit_xor 0 (b * 256)) a
tail_value (a ∷ b ∷ c ∷ rest) = bit_xor (bit_xor (bit_xor 0 (c * 65536)) (b * 256)) a

abbrev pub mix_tail : ℕ → List ℕ → ℕ
mix_tail hash [] = hash
mix_tail hash (a ∷ rest) = bit_xor hash (mix_k (tail_value (a ∷ rest)))

-- The loop over the chunks of four bytes, and then the tail.
unfoldable pub mix_bytes : ℕ → List ℕ → ℕ
mix_bytes hash (a ∷ b ∷ c ∷ d ∷ rest) = mix_bytes (mix_hash hash (from_le_bytes a b c d)) rest
mix_bytes hash [] = hash
mix_bytes hash (a ∷ []) = mix_tail hash (a ∷ [])
mix_bytes hash (a ∷ b ∷ []) = mix_tail hash (a ∷ b ∷ [])
mix_bytes hash (a ∷ b ∷ c ∷ []) = mix_tail hash (a ∷ b ∷ c ∷ [])

abbrev pub shift_xor : ℕ → ℕ → ℕ
shift_xor hash divisor = bit_xor hash (hash / divisor)

abbrev pub avalanche : ℕ → ℕ
avalanche hash =
    shift_xor
      (wrapping_mul (shift_xor (wrapping_mul (shift_xor hash 65536) 2246822507) 8192) 3266489909)
      65536

unfoldable pub murmur3_32 : List ℕ → ℕ → ℕ
murmur3_32 bytes seed = avalanche (bit_xor (mix_bytes seed bytes) (length bytes % u32))

unfoldable pub sticky_key_hash : List ℕ → ℤ
sticky_key_hash sticky_key = to_i32 (murmur3_32 sticky_key 0 % 65536)

module _ (decode : List ℕ → Option MessageMetadata) where
  abbrev pub resolve_sticky_key : List ℕ → List ℕ
  resolve_sticky_key metadata = elim (decode metadata) [
    | none ↦ []
    | some m ↦ key_of m m.ordering_key
  ]

  abbrev pub sticky_key_hash_from_metadata : List ℕ → ℤ
  sticky_key_hash_from_metadata metadata = sticky_key_hash (resolve_sticky_key metadata)
