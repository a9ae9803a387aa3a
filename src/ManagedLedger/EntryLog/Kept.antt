-- ===== src/ManagedLedger/EntryLog/Kept.antt =====
-- An entry that can be read can still be read after any later batch, whatever the file system does.
use pulsar_lite.Prelude.{
  ℕ, suc, zero, ◌+◌, not, ◌-◌, Bool, true, false, none, some, List, [], ◌∷◌, ◌++◌, ◌==◌, ltb,
  Option, if◌then◌else◌, ◌≡◌, ◌⊎◌, inl, inr, refl, sym, ap, ◌∙◌, arith, Bool-cases,
}
use pulsar_lite.Prelude.Maps.{get, nat_key}
use pulsar_lite.Prelude.Results.{Result, ok, err, >>=-eq-ok, fail_if, ok_or}
use pulsar_lite.Prelude.Bytes.{take, drop, read_exact, read_exact-more, slice, from_le_bytes}
use pulsar_lite.ManagedLedger.EntryLog.{
  Files, EntryToAppend, EntryIndex, EntryRecord, WriteState, Write, written, failed, batch_bytes,
  append_to, read, read_at, write_batch, write_out, roll_over, is_full, ReadError, Header, Lengths,
  read_header, rest_of_header, length_mismatch, read_body, check_header, lengths_of, no_file,
  short_read, panics,
}
use pulsar_lite.ManagedLedger.EntryLog.Reads.{append_to-get_same, append_to-get_other}

ok_or-eq-ok : {A : Type 0} (e : ReadError) (o : Option A) (a : A) → ok_or e o ≡ ok a → o ≡ some a
ok_or-eq-ok e none a h = absurd (cc)
ok_or-eq-ok e (some b) a h = cc

abbrev with_rest :
    {A : Type 0} → List ℕ → Result ReadError (A × List ℕ) → Result ReadError (A × List ℕ)
with_rest more (ok (a, rest)) = ok (a, rest ++ more)
with_rest more (err e) = err e

rest_of_header-more :
    (prefix file rest more : List ℕ) (h : Header)
    → rest_of_header prefix file ≡ ok (h, rest)
    → rest_of_header prefix (file ++ more) ≡ ok (h, rest ++ more)
unfolding rest_of_header
rest_of_header-more prefix file rest more h e =
    let len = from_le_bytes (slice 6 8 prefix) in
    let (u, long, e1) = >>=-eq-ok (fail_if (ltb len 8) panics) _ e in
    let ((body, r), cut, e2) = >>=-eq-ok (ok_or short_read (read_exact (len - 8) file)) _ e1 in
    let (w, whole, e3) = >>=-eq-ok (fail_if (ltb len 28) panics) _ e2 in
    let cut_more =
      read_exact-more (len - 8) file body r more (ok_or-eq-ok short_read _ (body, r) cut) in
    rw (long, cut_more, whole) (ap (with_rest more) e3)

read_header-more :
    (file rest more : List ℕ) (h : Header)
    → read_header file ≡ ok (h, rest)
    → read_header (file ++ more) ≡ ok (h, rest ++ more)
unfolding read_header
read_header-more file rest more h e =
    let ((prefix, r), cut, e1) = >>=-eq-ok (ok_or short_read (read_exact 8 file)) _ e in
    let cut_more =
      read_exact-more 8 file prefix r more (ok_or-eq-ok short_read _ (prefix, r) cut) in
    rw cut_more (rest_of_header-more prefix r rest more h e1)

read_body-more :
    (index : EntryIndex) (h : Header) (l : Lengths) (file more : List ℕ) (r : EntryRecord)
    → read_body index h l file ≡ ok r
    → read_body index h l (file ++ more) ≡ ok r
unfolding read_body
read_body-more index h l file more r e =
    let (u, fits, e1) =
      >>=-eq-ok
        (fail_if (not ((h.header_len + l.metadata_len + l.payload_len) == index.len))
          length_mismatch)
        _ e in
    let ((metadata, rest), cut, e2) =
      >>=-eq-ok (ok_or short_read (read_exact l.metadata_len file)) _ e1 in
    let ((payload, rest'), cut', e3) =
      >>=-eq-ok (ok_or short_read (read_exact l.payload_len rest)) _ e2 in
    let first =
      read_exact-more l.metadata_len file metadata rest more
        (ok_or-eq-ok short_read _ (metadata, rest) cut) in
    let second =
      read_exact-more l.payload_len rest payload rest' more
        (ok_or-eq-ok short_read _ (payload, rest') cut') in
    rw (fits, first, second) e3

read_at-more :
    (index : EntryIndex) (file more : List ℕ) (r : EntryRecord)
    → read_at index file ≡ ok r
    → read_at index (file ++ more) ≡ ok r
unfolding read_at
read_at-more index file more r e =
    let ((h, rest), header, e1) = >>=-eq-ok (read_header file) _ e in
    let (u, checked, e2) = >>=-eq-ok (check_header index h) _ e1 in
    rw (read_header-more file rest more h header, checked)
      (read_body-more index h (lengths_of h) rest more r e2)

drop-more : (n : ℕ) (a b : List ℕ) → (drop n (a ++ b) ≡ drop n a ++ b) ⊎ (drop n a ≡ [])
drop-more zero a b = inl refl
drop-more (suc n) [] b = inr refl
drop-more (suc n) (x ∷ a) b = drop-more n a b

read_at_dropped :
    (index : EntryIndex) (n : ℕ) (file more : List ℕ) (r : EntryRecord)
    → read_at index (drop n file) ≡ ok r
    → read_at index (drop n (file ++ more)) ≡ ok r
unfolding read_at read_header
read_at_dropped index n file more r e = elim (drop-more n file more) [
  | inl within ↦ ap (read_at index) within ∙ read_at-more index (drop n file) more r e
  | inr past ↦ absurd (let gone : read_at index [] ≡ ok r = sym (ap (read_at index) past) ∙ e in cc)
]

-- An index that a file gives is still good when bytes are put at the end of some file.
read-append_to :
    (id : ℕ) (bytes : List ℕ) (files : Files) (index : EntryIndex) (r : EntryRecord)
    → read files index ≡ ok r
    → read (append_to id bytes files) index ≡ ok r
unfolding read
read-append_to id bytes files index r e =
    let (file, at, e1) = >>=-eq-ok (ok_or no_file (get index.file_id files)) _ e in
    let found = ok_or-eq-ok no_file (get index.file_id files) file at in
    elim (Bool-cases (id == index.file_id)) [
      | inl same ↦
          rw (append_to-get_same id index.file_id file bytes files same found)
            (read_at_dropped index index.offset file bytes r e1)
      | inr other ↦ rw (append_to-get_other id index.file_id bytes files (ground arith), found) e1
    ]

write_out-kept :
    (write : Write) (s : WriteState) (files : Files) (batch : List EntryToAppend)
    (index : EntryIndex) (r : EntryRecord)
    → read files index ≡ ok r
    → read (write_out write s files batch).1 index ≡ ok r
unfolding write_out
write_out-kept written s files batch index r h =
    read-append_to s.file (batch_bytes batch) files index r h
write_out-kept (failed n) s files batch index r h =
    read-append_to s.file (take n (batch_bytes batch)) files index r h

roll_over-kept :
    (opens : Bool) (s : WriteState) (files : Files) (index : EntryIndex) (r : EntryRecord)
    → read files index ≡ ok r
    → read (roll_over opens s files).1 index ≡ ok r
unfolding roll_over
roll_over-kept true s files index r h = read-append_to (s.active_file_id + 1) [] files index r h
roll_over-kept false s files index r h = h

-- What read gives for an index it still gives after any later write_batch, whether the next file
-- is opened or not, and whether the batch is written or fails with any part of it in the file.
pub read-write_batch :
    (opens : Bool) (write : Write) (s : WriteState) (files : Files) (batch : List EntryToAppend)
    (index : EntryIndex) (r : EntryRecord)
    → read files index ≡ ok r
    → read (write_batch opens write s files batch).1 index ≡ ok r
unfolding write_batch
read-write_batch opens write s files [] index r h = h
read-write_batch opens write s files (e ∷ rest) index r h =
    elim (Bool-cases (is_full s (e ∷ rest))) [
      | inr room ↦ rw (room, if◌then◌else◌) (write_out-kept write s files (e ∷ rest) index r h)
      | inl full ↦ elim (Bool-cases opens) [
        | inl y ↦
            rw (full, y, if◌then◌else◌)
              (write_out-kept write (roll_over true s files).0 (roll_over true s files).1 (e ∷ rest)
                index r (roll_over-kept true s files index r h))
        | inr n ↦ rw (full, n, if◌then◌else◌) (roll_over-kept false s files index r h)
      ]
    ]
