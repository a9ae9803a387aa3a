-- ===== src/ManagedLedger/EntryLog/Reads.antt =====
-- What was written is read back, and stays so.
use mathlib.Core.List.{append_assoc}
use pulsar_lite.Prelude.{
  ℕ, ◌+◌, ◌<◌, true, Option, none, some, List, [], ◌∷◌, ◌++◌, map, length, All, ◌==◌, beq_eq,
  if◌then◌else◌, ◌≡◌, inl, inr, refl, sym, ap, ◌∙◌, subst, arith, Bool-cases, length-append, beq_ne,
}
use pulsar_lite.Prelude.Maps.{get, get-insert_entry, nat_key}
use pulsar_lite.Prelude.Results.{ok}
use pulsar_lite.Prelude.Bytes.{drop, drop-append}
use pulsar_lite.ManagedLedger.EntryLog.{
  Files, EntryToAppend, EntryIndex, EntryRecord, WriteState, written, entry_bytes, entry_header,
  entry_len, batch_bytes, pending_of, batch_len, append_to, content, index_of, read, read_at,
  write_batch, write_out, roll_over, is_full,
}
use pulsar_lite.ManagedLedger.EntryLog.Format.{IsWritable, read_at-entry_bytes}

abbrev pub record_of : EntryToAppend → EntryRecord
record_of e = record { partition = e.partition; metadata = e.metadata; payload = e.payload }

-- Every entry of a batch has an index, and is read by it.
abbrev pub AllRead : Files → List (Option EntryIndex) → List EntryToAppend → Type 0
AllRead files [] [] = Unit
AllRead files (some index ∷ results) (e ∷ batch) =
    (read files index ≡ ok (record_of e)) × AllRead files results batch
AllRead files _ _ = ⊥

entry_bytes-length : (e : EntryToAppend) → length (entry_bytes e) ≡ entry_len e
unfolding entry_bytes entry_header
entry_bytes-length e = omega (
  arith,
  length-append {0} (entry_header e) (e.metadata ++ e.payload),
  length-append {0} e.metadata e.payload,
)

pub read-file :
    (files : Files) (index : EntryIndex) (file : List ℕ)
    → get index.file_id files ≡ some file
    → read files index ≡ read_at index (drop index.offset file)
unfolding read
read-file files index file h = rw h refl

-- `read` looks at what stands behind the bytes before the offset.
pub read-index_of :
    (files : Files) (file_id : ℕ) (before rest : List ℕ) (e : EntryToAppend)
    → get file_id files ≡ some (before ++ rest)
    → read files (index_of file_id (length before) e)
      ≡ read_at (index_of file_id (length before) e) rest
unfolding index_of
read-index_of files file_id before rest e h =
    let index = index_of file_id (length before) e in
    read-file files index (before ++ rest) h ∙ ap (read_at index) (drop-append before rest)

pending_of-AllRead :
    (files : Files) (file_id : ℕ) (before : List ℕ) (batch : List EntryToAppend)
    → get file_id files ≡ some (before ++ batch_bytes batch)
    → All IsWritable batch
    → AllRead files (map some (pending_of file_id (length before) batch)) batch
unfolding pending_of batch_bytes
pending_of-AllRead files file_id before [] h v = tt
pending_of-AllRead files file_id before (e ∷ batch) h (v, vs) =
    let there : length before + entry_len e ≡ length (before ++ entry_bytes e) =
      omega (arith, length-append {0} before (entry_bytes e), entry_bytes-length e) in
    (
      read-index_of files file_id before (entry_bytes e ++ batch_bytes batch) e h
          ∙ read_at-entry_bytes file_id (length before) e (batch_bytes batch) v,
      subst (λ n. AllRead files (map some (pending_of file_id n batch)) batch) (sym there)
          (pending_of-AllRead files file_id (before ++ entry_bytes e) batch
            (h ∙ ap some (sym (append_assoc before (entry_bytes e) (batch_bytes batch)))) vs),
    )

pub append_to-get :
    (id j : ℕ) (bytes : List ℕ) (files : Files)
    → get j (append_to id bytes files)
      ≡ (if id == j then some (content (get id files) ++ bytes) else get j files)
append_to-get id j bytes files = get-insert_entry id j _ files

pub append_to-get_self :
    (id : ℕ) (old bytes : List ℕ) (files : Files)
    → get id files ≡ some old
    → get id (append_to id bytes files) ≡ some (old ++ bytes)
append_to-get_self id old bytes files h =
    append_to-get id id bytes files ∙ rw (beq_eq id id refl, h) refl

pub append_to-get_same :
    (id j : ℕ) (old bytes : List ℕ) (files : Files)
    → (id == j) ≡ true
    → get j files ≡ some old
    → get j (append_to id bytes files) ≡ some (old ++ bytes)
append_to-get_same id j old bytes files e h =
    let same : id ≡ j = ground arith in
    subst (λ k. get j (append_to k bytes files) ≡ some (old ++ bytes)) (sym same)
      (append_to-get_self j old bytes files h)

pub append_to-get_other :
    (id j : ℕ) (bytes : List ℕ) (files : Files)
    → ¬ (id ≡ j)
    → get j (append_to id bytes files) ≡ get j files
append_to-get_other id j bytes files h = append_to-get id j bytes files ∙ rw (beq_ne id j h) refl

pub batch_bytes-length : (batch : List EntryToAppend) → length (batch_bytes batch) ≡ batch_len batch
unfolding batch_bytes batch_len
batch_bytes-length [] = refl
batch_bytes-length (e ∷ batch) = omega (
  arith,
  length-append {0} (entry_bytes e) (batch_bytes batch),
  entry_bytes-length e,
  batch_bytes-length batch,
)

-- The open file is the active one, it ends at the offset, and no later file is there.
pub record IsOpen (s : WriteState) (files : Files) : Type 0 where
  pub is_active : s.file ≡ s.active_file_id
  pub has_offset :
      (bytes : List ℕ) × (get s.file files ≡ some bytes) × (length bytes ≡ s.active_offset)
  pub is_last : (j : ℕ) → s.active_file_id < j → get j files ≡ none

write_out-AllRead :
    (s : WriteState) (files : Files) (batch : List EntryToAppend)
    → IsOpen s files
    → All IsWritable batch
    → IsOpen (write_out written s files batch).0 (write_out written s files batch).1
      × AllRead (write_out written s files batch).1 (write_out written s files batch).2 batch
unfolding write_out
write_out-AllRead s files batch v w =
    let (bytes, at, n) = v.has_offset in
    let full = append_to-get_self s.file bytes (batch_bytes batch) files at in
    let active = v.is_active in
    let after : Files = append_to s.file (batch_bytes batch) files in
    (
      record {
        is_active = v.is_active;
        has_offset = (
          bytes ++ batch_bytes batch,
          full,
          omega (arith, length-append {0} bytes (batch_bytes batch), batch_bytes-length batch),
        );
        is_last = λ j h.
            append_to-get_other s.file j (batch_bytes batch) files (omega arith) ∙ v.is_last j h;
      },
      subst (λ id. AllRead after (map some (pending_of id s.active_offset batch)) batch) active
          (subst (λ k. AllRead after (map some (pending_of s.file k batch)) batch) n
            (pending_of-AllRead after s.file bytes batch full w)),
    )

roll_over-IsOpen :
    (s : WriteState) (files : Files)
    → IsOpen s files
    → IsOpen (roll_over true s files).0 (roll_over true s files).1
unfolding roll_over
roll_over-IsOpen s files v = record {
  is_active = refl;
  has_offset = (
    [],
    append_to-get (s.active_file_id + 1) (s.active_file_id + 1) [] files
        ∙ rw
            (
              beq_eq (s.active_file_id + 1) (s.active_file_id + 1) refl,
              v.is_last (s.active_file_id + 1) (omega arith),
            )
            refl,
    refl,
  );
  is_last = λ j h.
      append_to-get_other (s.active_file_id + 1) j [] files (omega arith)
      ∙ v.is_last j (omega arith);
}

-- Where the open file is the active one, ends at the offset and has no later one, the entries have
-- the values of their types and lengths of a u32, and the file system does what it is asked:
-- write_batch gives an index for every entry of the batch by which read gives the entry back, and
-- the state is of that kind again, also when a new file was opened.
pub write_batch-AllRead :
    (s : WriteState) (files : Files) (batch : List EntryToAppend)
    → IsOpen s files
    → All IsWritable batch
    → IsOpen (write_batch true written s files batch).0 (write_batch true written s files batch).1
      × AllRead
          (write_batch true written s files batch).1
          (write_batch true written s files batch).2
          batch
unfolding write_batch
write_batch-AllRead s files [] v w = (v, tt)
write_batch-AllRead s files (e ∷ rest) v w = elim (Bool-cases (is_full s (e ∷ rest))) [
  | inl full ↦
      rw (full, if◌then◌else◌)
        (write_out-AllRead (roll_over true s files).0 (roll_over true s files).1 (e ∷ rest)
          (roll_over-IsOpen s files v) w)
  | inr room ↦ rw (room, if◌then◌else◌) (write_out-AllRead s files (e ∷ rest) v w)
]
