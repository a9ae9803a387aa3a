-- ===== src/ManagedLedger/EntryLog/Faults.antt =====
-- After a write or an open that fails, the offset or the file id is not that of the open file.
use mathlib.Core.List.{append_assoc}
use pulsar_lite.Prelude.{
  ℕ, zero, suc, ◌+◌, ◌%◌, ◌^◌, ◌≤◌, Bool, true, false, not, ◌||◌, none, some, List, [], ◌∷◌, ◌++◌,
  length, length-append, beq_ne, if◌then◌else◌, ◌≡◌, refl, ap, subst, ◌∙◌, arith, ◌==◌, Option,
}
use pulsar_lite.Prelude.Int.{to_i32}
use pulsar_lite.Prelude.Maps.{get, nat_key}
use pulsar_lite.Prelude.Results.{ok, err, fail_if}
use pulsar_lite.Prelude.Bytes.{
  take, read_exact, with_first, to_le_bytes, from_le_bytes, from_le_bytes-to_le_bytes,
}
use pulsar_lite.ManagedLedger.EntryLog.{
  Files, EntryToAppend, EntryIndex, WriteState, Write, written, failed, entry_bytes, entry_header,
  checksum, batch_bytes, all_failed, append_to, write_batch, write_out, roll_over, is_full,
  index_of, read, read_at, read_header, rest_of_header, check_header, header_fields, Header,
  no_file, position_mismatch, batch_len, pending_of, entry_magic, entry_version, entry_header_len,
  i32_bits, ReadError,
}
use pulsar_lite.ManagedLedger.EntryLog.Format.{IsWritable, Fits-8}
use pulsar_lite.ManagedLedger.EntryLog.Reads.{
  IsOpen, read-index_of, batch_bytes-length, append_to-get_self, append_to-get_other,
}

-- The next batch, which is written.
abbrev pub next_batch :
    Bool
    → WriteState × Files × List (Option EntryIndex)
    → List EntryToAppend
    → WriteState × Files × List (Option EntryIndex)
next_batch opens done batch = write_batch opens written done.0 done.1 batch

-- An entry that write_batch has given an index for is not there.
abbrev pub IsLost : ReadError → WriteState × Files × List (Option EntryIndex) → Type 0
IsLost e done = (index : EntryIndex) × (done.2 ≡ some index ∷ []) × (read done.1 index ≡ err e)

unopened_state : WriteState → WriteState
unopened_state s = record s { active_file_id = s.active_file_id + 1; active_offset = 0 }

read_missing :
    (files : Files) (index : EntryIndex)
    → get index.file_id files ≡ none
    → read files index ≡ err no_file
unfolding read
read_missing files index h = rw h refl

missing_file :
    (s : WriteState) (files : Files) (bytes : List ℕ) (e : EntryToAppend)
    → IsOpen s files
    → read (append_to s.file bytes files) (index_of (s.active_file_id + 1) 0 e) ≡ err no_file
unfolding index_of
missing_file s files bytes e v =
    let active = v.is_active in
    read_missing (append_to s.file bytes files) (index_of (s.active_file_id + 1) 0 e) (
      append_to-get_other s.file (s.active_file_id + 1) bytes files (omega arith)
      ∙ v.is_last (s.active_file_id + 1) (omega arith))

next_batch_unopened :
    (opens : Bool) (s : WriteState) (files : Files) (results : List (Option EntryIndex))
    (e : EntryToAppend)
    → IsOpen s files
    → IsLost no_file (next_batch opens (unopened_state s, files, results) (e ∷ []))
unfolding write_batch write_out pending_of unopened_state
next_batch_unopened opens s files results e v =
    (index_of (s.active_file_id + 1) 0 e, refl, missing_file s files (batch_bytes (e ∷ [])) e v)

-- Where the open file is the active one and has no later one, a batch does not fit and the next
-- file cannot be opened: then the entry that is written after that gets an index for which read
-- finds no file.
pub write_batch_unopened :
    (write : Write) (opens : Bool) (s : WriteState) (files : Files) (first e : EntryToAppend)
    (others : List EntryToAppend)
    → IsOpen s files
    → is_full s (first ∷ others) ≡ true
    → IsLost no_file (next_batch opens (write_batch false write s files (first ∷ others)) (e ∷ []))
unfolding write_batch roll_over unopened_state
write_batch_unopened write opens s files first e others v full =
    rw (full, if◌then◌else◌) (next_batch_unopened opens s files (all_failed (first ∷ others)) e v)

-- The part of the header that says which entry it is, and the lengths and the sum behind it.
abbrev header_start : EntryToAppend → List ℕ
header_start e =
    to_le_bytes 4 entry_magic
    ++ (to_le_bytes 2 entry_version
        ++ (to_le_bytes 2 entry_header_len
            ++ (to_le_bytes 8 e.ledger_id
                ++ (to_le_bytes 8 e.entry_id ++ to_le_bytes 4 (i32_bits e.partition)))))

abbrev header_end : EntryToAppend → List ℕ
header_end e =
    to_le_bytes 4 (length e.metadata % 2 ^ 32)
    ++ (to_le_bytes 4 (length e.payload % 2 ^ 32) ++ to_le_bytes 8 (checksum e.metadata e.payload))

entry_header-parts : (e : EntryToAppend) → entry_header e ≡ header_start e ++ header_end e
unfolding entry_header
entry_header-parts e = refl

entry_bytes-parts :
    (e : EntryToAppend) (rest : List ℕ)
    → entry_bytes e ++ rest
      ≡ header_start e ++ (header_end e ++ ((e.metadata ++ e.payload) ++ rest))
unfolding entry_bytes entry_header
entry_bytes-parts e rest = refl

take_past : (a b : List ℕ) (n : ℕ) → length a ≤ n → (k : ℕ) × (take n (a ++ b) ≡ a ++ take k b)
take_past [] b n h = (n, refl)
take_past (x ∷ a) b zero h = absurd (omega arith)
take_past (x ∷ a) b (suc n) h = let (k, e) = take_past a b n (omega arith) in (k, ap (λ l. x ∷ l) e)

read_exact-enough :
    (n : ℕ) (bytes : List ℕ)
    → n ≤ length bytes
    → (first : List ℕ) × (rest : List ℕ) × (read_exact n bytes ≡ some (first, rest))
read_exact-enough zero bytes h = ([], bytes, refl)
read_exact-enough (suc n) [] h = absurd (omega arith)
read_exact-enough (suc n) (b ∷ bytes) h =
    let (first, rest, e) = read_exact-enough n bytes (omega arith) in
    (b ∷ first, rest, ap (with_first b) e)

abbrev started_header : EntryToAppend → List ℕ → Header
started_header e more = record {
  magic = entry_magic;
  version = entry_version;
  header_len = entry_header_len;
  ledger_id = from_le_bytes (to_le_bytes 8 e.ledger_id);
  entry_id = from_le_bytes (to_le_bytes 8 e.entry_id);
  partition = to_i32 (from_le_bytes (to_le_bytes 4 (i32_bits e.partition)));
  bytes = header_start e ++ more;
}

read_header-started :
    (e : EntryToAppend) (tail more rest : List ℕ)
    → read_exact 16 tail ≡ some (more, rest)
    → read_header (header_start e ++ tail) ≡ ok (started_header e more, rest)
unfolding read_header rest_of_header header_fields
read_header-started e tail more rest h = rw h refl

fails : (b : Bool) (e : ReadError) → fail_if (b || true) e ≡ err e
fails true e = refl
fails false e = refl

check_header-other :
    (file_id cursor : ℕ) (f e : EntryToAppend) (more : List ℕ)
    → IsWritable f
    → ¬ (f.entry_id ≡ e.entry_id)
    → check_header (index_of file_id cursor e) (started_header f more) ≡ err position_mismatch
unfolding check_header index_of
check_header-other file_id cursor f e more v h =
    let back = from_le_bytes-to_le_bytes 8 f.entry_id (Fits-8 _ v.entry_id) in
    let other : (from_le_bytes (to_le_bytes 8 f.entry_id) == e.entry_id) ≡ false =
      rw back (beq_ne f.entry_id e.entry_id h) in
    rw other
      (fails (not (from_le_bytes (to_le_bytes 8 f.ledger_id) == e.ledger_id)) position_mismatch)

read_at-started :
    (file_id cursor : ℕ) (f e : EntryToAppend) (tail : List ℕ)
    → IsWritable f
    → ¬ (f.entry_id ≡ e.entry_id)
    → 16 ≤ length tail
    → read_at (index_of file_id cursor e) (header_start f ++ tail) ≡ err position_mismatch
unfolding read_at
read_at-started file_id cursor f e tail v h long =
    let (more, rest, cut) = read_exact-enough 16 tail long in
    rw (read_header-started f tail more rest cut, check_header-other file_id cursor f e more v h)
      refl

batch_len_one : (e : EntryToAppend) → 16 ≤ batch_len (e ∷ [])
unfolding batch_len
batch_len_one e = omega arith

-- What stands at the offset after the part of a batch and the entry.
read_at-part :
    (file_id cursor n : ℕ) (f e : EntryToAppend) (others : List EntryToAppend)
    → IsWritable f
    → ¬ (f.entry_id ≡ e.entry_id)
    → 28 ≤ n
    → read_at
        (index_of file_id cursor e)
        (take n (batch_bytes (f ∷ others)) ++ batch_bytes (e ∷ []))
      ≡ err position_mismatch
unfolding batch_bytes
read_at-part file_id cursor n f e others v h long =
    let behind = header_end f ++ ((f.metadata ++ f.payload) ++ batch_bytes others) in
    let (k, cut) = take_past (header_start f) behind n long in
    let whole = ap (take n) (entry_bytes-parts f (batch_bytes others)) ∙ cut in
    let joined =
      ap (λ part. part ++ batch_bytes (e ∷ [])) whole
      ∙ append_assoc (header_start f) (take k behind) (batch_bytes (e ∷ [])) in
    ap (read_at (index_of file_id cursor e)) joined
    ∙ read_at-started file_id cursor f e (take k behind ++ batch_bytes (e ∷ [])) v h (
        omega (
          arith,
          length-append {0} (take k behind) (batch_bytes (e ∷ [])),
          batch_bytes-length (e ∷ []),
          batch_len_one e,
        ))

-- Where the open file is the active one and ends at the offset, a write fails with 28 bytes of the
-- batch or more in the file, and neither that batch nor the next entry needs a new file: then the
-- next entry, with an entry id other than that of the first of the failed batch, gets an index for
-- which read finds another position.
pub write_batch_partial :
    (opens opens' : Bool) (n : ℕ) (s : WriteState) (files : Files) (first e : EntryToAppend)
    (others : List EntryToAppend)
    → IsOpen s files
    → IsWritable first
    → ¬ (first.entry_id ≡ e.entry_id)
    → 28 ≤ n
    → is_full s (first ∷ others) ≡ false
    → is_full s (e ∷ []) ≡ false
    → IsLost position_mismatch
        (next_batch opens' (write_batch opens (failed n) s files (first ∷ others)) (e ∷ []))
unfolding write_batch write_out pending_of
write_batch_partial opens opens' n s files first e others v w other long room room' =
    let (bytes, at, offset) = v.has_offset in
    let part = take n (batch_bytes (first ∷ others)) in
    let after = append_to s.file (batch_bytes (e ∷ [])) (append_to s.file part files) in
    let added =
      append_to-get_self s.file (bytes ++ part) (batch_bytes (e ∷ [])) (append_to s.file part files)
        (append_to-get_self s.file bytes part files at) in
    rw (room, room', if◌then◌else◌)
      (
        index_of s.active_file_id s.active_offset e,
        refl,
        subst (λ id. read after (index_of id s.active_offset e) ≡ err position_mismatch) v.is_active
            (subst (λ k. read after (index_of s.file k e) ≡ err position_mismatch) offset
              (read-index_of after s.file bytes (part ++ batch_bytes (e ∷ [])) e
                  (added ∙ ap some (append_assoc bytes part (batch_bytes (e ∷ []))))
                ∙ read_at-part s.file (length bytes) n first e others w other long)),
      )
