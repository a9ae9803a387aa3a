-- ===== src/ManagedLedger/EntryLog/Format.antt =====
-- The bytes of an entry are read back as the entry.
use pulsar_lite.Prelude.{ℕ, ◌%◌, ◌^◌, ◌<◌, List, ◌++◌, length, beq_eq, ◌≡◌, refl, ap, ◌∙◌, arith}
use mathlib.Core.List.{append_assoc}
use pulsar_lite.Prelude.Int.{ℤ, pos, negsuc, to_i32}
use pulsar_lite.Prelude.Results.{ok}
use pulsar_lite.Prelude.Bytes.{Fits, from_le_bytes-to_le_bytes, read_exact-append}
use pulsar_lite.ManagedLedger.EntryLog.{
  EntryToAppend, entry_header, entry_bytes, entry_len, index_of, checksum, i32_bits, Header,
  Lengths, header_fields, read_header, rest_of_header, check_header, lengths_of, read_body, read_at,
  entry_magic, entry_version, entry_header_len,
}

-- The value is an `i32`.
abbrev pub IsI32 : ℤ → Type 0
IsI32 (pos n) = n < 2147483648
IsI32 (negsuc n) = n < 2147483648

-- The fields have the values of their types, and the lengths are those of a `u32`.
pub record IsWritable (e : EntryToAppend) : Type 0 where
  pub ledger_id : e.ledger_id < 2 ^ 64
  pub entry_id : e.entry_id < 2 ^ 64
  pub partition : IsI32 e.partition
  pub metadata : length e.metadata < 2 ^ 32
  pub payload : length e.payload < 2 ^ 32

pub i32_bits-lt : (p : ℤ) → IsI32 p → i32_bits p < 2 ^ 32
i32_bits-lt (pos n) h = omega arith
i32_bits-lt (negsuc n) h = omega arith

to_i32-i32_bits : (p : ℤ) → IsI32 p → to_i32 (i32_bits p) ≡ p
to_i32-i32_bits (pos n) h = ground arith
to_i32-i32_bits (negsuc n) h = ground arith

mod_small : (n : ℕ) → n < 2 ^ 32 → n % 2 ^ 32 ≡ n
mod_small n h = omega arith

Fits-4 : (n : ℕ) → n < 2 ^ 32 → Fits 4 n
Fits-4 n h = omega arith

pub Fits-8 : (n : ℕ) → n < 2 ^ 64 → Fits 8 n
Fits-8 n h = omega arith

abbrev header_of : EntryToAppend → Header
header_of e = record {
  magic = entry_magic;
  version = entry_version;
  header_len = entry_header_len;
  ledger_id = e.ledger_id;
  entry_id = e.entry_id;
  partition = e.partition;
  bytes = entry_header e;
}

header_fields-entry_header :
    (e : EntryToAppend) → IsWritable e → header_fields (entry_header e) ≡ header_of e
unfolding header_fields entry_header
header_fields-entry_header e v =
    let l = from_le_bytes-to_le_bytes 8 e.ledger_id (Fits-8 _ v.ledger_id) in
    let n = from_le_bytes-to_le_bytes 8 e.entry_id (Fits-8 _ v.entry_id) in
    let p =
      ap to_i32 (
        from_le_bytes-to_le_bytes 4 (i32_bits e.partition)
          (Fits-4 _ (i32_bits-lt e.partition v.partition)))
      ∙ to_i32-i32_bits e.partition v.partition in
    λ i. record {
      magic = entry_magic;
      version = entry_version;
      header_len = entry_header_len;
      ledger_id = l i;
      entry_id = n i;
      partition = p i;
      bytes = entry_header e;
    }

read_header-entry_header :
    (e : EntryToAppend) (rest : List ℕ)
    → read_header (entry_header e ++ rest) ≡ ok (header_fields (entry_header e), rest)
unfolding read_header rest_of_header entry_header
read_header-entry_header e rest = refl

check_header-header_of :
    (file_id cursor : ℕ) (e : EntryToAppend)
    → check_header (index_of file_id cursor e) (header_of e) ≡ ok tt
unfolding check_header index_of
check_header-header_of file_id cursor e =
    rw (beq_eq e.ledger_id e.ledger_id refl, beq_eq e.entry_id e.entry_id refl) refl

abbrev lengths_in : EntryToAppend → Lengths
lengths_in e = record {
  metadata_len = length e.metadata;
  payload_len = length e.payload;
  expected_checksum = checksum e.metadata e.payload;
}

lengths_of-header_of : (e : EntryToAppend) → IsWritable e → lengths_of (header_of e) ≡ lengths_in e
unfolding lengths_of entry_header checksum
lengths_of-header_of e v =
    let m : length e.metadata % 2 ^ 32 ≡ length e.metadata = mod_small _ v.metadata in
    let p : length e.payload % 2 ^ 32 ≡ length e.payload = mod_small _ v.payload in
    let fm =
      from_le_bytes-to_le_bytes 4 (length e.metadata % 2 ^ 32) (Fits-4 _ (omega arith)) ∙ m in
    let fp = from_le_bytes-to_le_bytes 4 (length e.payload % 2 ^ 32) (Fits-4 _ (omega arith)) ∙ p in
    let fc = from_le_bytes-to_le_bytes 8 (checksum e.metadata e.payload) (Fits-8 _ (omega arith)) in
    λ i. record { metadata_len = fm i; payload_len = fp i; expected_checksum = fc i }

read_body-entry :
    (file_id cursor : ℕ) (e : EntryToAppend) (rest : List ℕ)
    → read_body
        (index_of file_id cursor e)
        (header_of e)
        (lengths_in e)
        (e.metadata ++ (e.payload ++ rest))
      ≡ ok (record { partition = e.partition; metadata = e.metadata; payload = e.payload })
unfolding read_body index_of
read_body-entry file_id cursor e rest =
    rw
      (
        beq_eq (entry_len e) (entry_len e) refl,
        read_exact-append e.metadata (e.payload ++ rest),
        read_exact-append e.payload rest,
        beq_eq (checksum e.metadata e.payload) (checksum e.metadata e.payload) refl,
      )
      refl

-- The bytes of an entry, whatever follows them, are read as the entry.
pub read_at-entry_bytes :
    (file_id cursor : ℕ) (e : EntryToAppend) (rest : List ℕ)
    → IsWritable e
    → read_at (index_of file_id cursor e) (entry_bytes e ++ rest)
      ≡ ok (record { partition = e.partition; metadata = e.metadata; payload = e.payload })
unfolding read_at entry_bytes
read_at-entry_bytes file_id cursor e rest v =
    let index = index_of file_id cursor e in
    let body = e.metadata ++ (e.payload ++ rest) in
    let joined : entry_bytes e ++ rest ≡ entry_header e ++ body =
      append_assoc (entry_header e) (e.metadata ++ e.payload) rest
      ∙ ap (λ b. entry_header e ++ b) (append_assoc e.metadata e.payload rest) in
    rw
      (
        joined,
        read_header-entry_header e body,
        header_fields-entry_header e v,
        check_header-header_of file_id cursor e,
        lengths_of-header_of e v,
      )
      (read_body-entry file_id cursor e rest)
