-- ===== src/ManagedLedger/EntryLog.antt =====
-- The entry log, rust/storage/managed-ledger-rocksdb/src/entrylog.rs: batches of entries are
-- appended to log files, and an index of an entry is read back.
pub mod Format
pub mod Reads
pub mod Opening
pub mod Kept
pub mod Faults
use pulsar_lite.Prelude.{
  ℕ, ◌+◌, ◌-◌, ◌*◌, ◌%◌, ◌^◌, Bool, true, false, ◌&&◌, ◌||◌, not, Option, none, some, List, [], ◌∷◌,
  ◌++◌, map, length, ltb, ◌==◌, if◌then◌else◌, max,
}
use pulsar_lite.Prelude.Int.{ℤ, pos, negsuc, to_i32}
use pulsar_lite.Prelude.Maps.{nat_key, get, insert_entry}
use pulsar_lite.Prelude.Results.{Result, ok, err, ◌>>=◌, ◌>>◌, fail_if, ok_or}
use pulsar_lite.Prelude.Bytes.{take, drop, slice, read_exact, to_le_bytes, from_le_bytes}

abbrev pub entry_magic : ℕ
entry_magic = 0x504C4547

abbrev pub entry_version_legacy : ℕ
entry_version_legacy = 1

abbrev pub entry_version : ℕ
entry_version = 2

abbrev pub entry_header_len_legacy : ℕ
entry_header_len_legacy = 40

abbrev pub entry_header_len : ℕ
entry_header_len = 44

pub record EntryToAppend : Type 0 where
  pub ledger_id : ℕ
  pub entry_id : ℕ
  pub partition : ℤ
  pub metadata : List ℕ
  pub payload : List ℕ

pub record EntryIndex : Type 0 where
  pub ledger_id : ℕ
  pub entry_id : ℕ
  pub file_id : ℕ
  pub offset : ℕ
  pub len : ℕ
  pub checksum : ℕ
  pub partition : ℤ

pub record EntryRecord : Type 0 where
  pub partition : ℤ
  pub metadata : List ℕ
  pub payload : List ℕ

-- The files of the log directory, by the id in their name.
abbrev pub Files : Type 0
Files = List (ℕ × List ℕ)

-- `file` is the id of the file that is open; it is not always `active_file_id`.
pub record WriteState : Type 0 where
  pub log_size_limit : ℕ
  pub active_file_id : ℕ
  pub active_offset : ℕ
  pub file : ℕ

abbrev pub sum_bytes : List ℕ → ℕ
sum_bytes [] = 0
sum_bytes (b ∷ bytes) = b + sum_bytes bytes

-- The wrapping sum of the bytes of the parts.
unfoldable pub checksum : List ℕ → List ℕ → ℕ
checksum metadata payload = (sum_bytes metadata + sum_bytes payload) % 2 ^ 64

abbrev pub entry_len : EntryToAppend → ℕ
entry_len e = entry_header_len + length e.metadata + length e.payload

-- The bit pattern of an `i32`.
abbrev pub i32_bits : ℤ → ℕ
i32_bits (pos n) = n
i32_bits (negsuc n) = 4294967295 - n

-- The header that `write_batch` puts before an entry.
unfoldable pub entry_header : EntryToAppend → List ℕ
entry_header e =
    to_le_bytes 4 entry_magic
    ++ (to_le_bytes 2 entry_version
        ++ (to_le_bytes 2 entry_header_len
            ++ (to_le_bytes 8 e.ledger_id
                ++ (to_le_bytes 8 e.entry_id
                    ++ (to_le_bytes 4 (i32_bits e.partition)
                        ++ (to_le_bytes 4 (length e.metadata % 2 ^ 32)
                            ++ (to_le_bytes 4 (length e.payload % 2 ^ 32)
                                ++ to_le_bytes 8 (checksum e.metadata e.payload))))))))

unfoldable pub entry_bytes : EntryToAppend → List ℕ
entry_bytes e = entry_header e ++ (e.metadata ++ e.payload)

unfoldable pub index_of : ℕ → ℕ → EntryToAppend → EntryIndex
index_of file_id cursor e = record {
  ledger_id = e.ledger_id;
  entry_id = e.entry_id;
  file_id = file_id;
  offset = cursor;
  len = entry_len e;
  checksum = checksum e.metadata e.payload;
  partition = e.partition;
}

-- `buf`, `pending` and the last `cursor` of the loop over the batch.
unfoldable pub batch_bytes : List EntryToAppend → List ℕ
batch_bytes [] = []
batch_bytes (e ∷ batch) = entry_bytes e ++ batch_bytes batch

unfoldable pub pending_of : ℕ → ℕ → List EntryToAppend → List EntryIndex
pending_of file_id cursor [] = []
pending_of file_id cursor (e ∷ batch) =
    index_of file_id cursor e ∷ pending_of file_id (cursor + entry_len e) batch

unfoldable pub batch_len : List EntryToAppend → ℕ
batch_len [] = 0
batch_len (e ∷ batch) = entry_len e + batch_len batch

-- What the file system does: whether a file is opened, and how a write ends. A write that fails
-- may have put some of the bytes into the file.
pub data Write : Type 0 where
  written : Write
  failed : ℕ → Write

-- The bytes of a file, or none of them where there is no file.
abbrev pub content : Option (List ℕ) → List ℕ
content none = []
content (some bytes) = bytes

abbrev pub append_to : ℕ → List ℕ → Files → Files
append_to id bytes files = insert_entry id (content (get id files) ++ bytes) files

-- `create(true).append(true)`: the content of a file that is there stays.
abbrev pub create_file : ℕ → Files → Files
create_file id files = append_to id [] files

abbrev pub all_failed : List EntryToAppend → List (Option EntryIndex)
all_failed batch = map (λ e. none) batch

-- "entrylog file id overflow".
pub data OpenError : Type 0 where
  file_id_overflow : OpenError

-- `checked_add(1)` of a `u64`.
abbrev pub checked_next : ℕ → Result OpenError ℕ
checked_next highest = if ltb (highest + 1) (2 ^ 64) then ok (highest + 1) else err file_id_overflow

unfoldable pub next_entry_log_file_id : Files → Option ℕ → Result OpenError ℕ
next_entry_log_file_id [] none = ok 0
next_entry_log_file_id [] (some highest) = checked_next highest
next_entry_log_file_id ((id, bytes) ∷ files) none = next_entry_log_file_id files (some id)
next_entry_log_file_id ((id, bytes) ∷ files) (some highest) =
    next_entry_log_file_id files (some (max highest id))

-- `WriteState::open` where the file is opened.
unfoldable pub open_state : Files → ℕ → Result OpenError (WriteState × Files)
open_state files limit = next_entry_log_file_id files none >>= λ id. ok (
  record { log_size_limit = limit; active_file_id = id; active_offset = 0; file = id },
  create_file id files,
)

abbrev pub is_full : WriteState → List EntryToAppend → Bool
is_full s batch = ltb 0 s.active_offset && ltb s.log_size_limit (s.active_offset + batch_len batch)

-- The write and its result, when the file is chosen.
unfoldable pub write_out :
    Write → WriteState → Files → List EntryToAppend → WriteState × Files × List (Option EntryIndex)
write_out written s files batch = (
  record s { active_offset = s.active_offset + batch_len batch },
  append_to s.file (batch_bytes batch) files,
  map some (pending_of s.active_file_id s.active_offset batch),
)
write_out (failed n) s files batch =
    (s, append_to s.file (take n (batch_bytes batch)) files, all_failed batch)

-- The ids are moved on before the next file is opened, and stay so when it is not.
unfoldable pub roll_over : Bool → WriteState → Files → WriteState × Files
roll_over opens s files =
    let next = s.active_file_id + 1 in
    (
      record s { active_file_id = next; active_offset = 0; file = if opens then next else s.file },
      if opens then create_file next files else files,
    )

unfoldable pub write_batch :
    Bool
    → Write
    → WriteState
    → Files
    → List EntryToAppend
    → WriteState × Files × List (Option EntryIndex)
write_batch opens write s files [] = (s, files, [])
write_batch opens write s files (e ∷ rest) =
    if is_full s (e ∷ rest)
    then (let (s', files') = roll_over opens s files in
        if opens then write_out write s' files' (e ∷ rest) else (s', files', all_failed (e ∷ rest)))
    else write_out write s files (e ∷ rest)

-- How `read` fails; `panics` is a slice out of bounds.
pub data ReadError : Type 0 where
  no_file short_read panics bad_magic bad_version bad_header_length : ReadError
  position_mismatch length_mismatch checksum_mismatch : ReadError

pub record Header : Type 0 where
  pub magic : ℕ
  pub version : ℕ
  pub header_len : ℕ
  pub ledger_id : ℕ
  pub entry_id : ℕ
  pub partition : ℤ
  pub bytes : List ℕ

unfoldable pub header_fields : List ℕ → Header
header_fields h = record {
  magic = from_le_bytes (slice 0 4 h);
  version = from_le_bytes (slice 4 6 h);
  header_len = from_le_bytes (slice 6 8 h);
  ledger_id = from_le_bytes (slice 8 16 h);
  entry_id = from_le_bytes (slice 16 24 h);
  partition = to_i32 (from_le_bytes (slice 24 28 h));
  bytes = h;
}

-- After the first eight bytes, which say how long the header is.
unfoldable pub rest_of_header : List ℕ → List ℕ → Result ReadError (Header × List ℕ)
rest_of_header prefix rest = do
  let header_len = from_le_bytes (slice 6 8 prefix)
  fail_if (ltb header_len 8) panics
  (more, rest') ← ok_or short_read (read_exact (header_len - 8) rest)
  fail_if (ltb header_len 28) panics
  ok (header_fields (prefix ++ more), rest')

unfoldable pub read_header : List ℕ → Result ReadError (Header × List ℕ)
read_header file = do
  (prefix, rest) ← ok_or short_read (read_exact 8 file)
  rest_of_header prefix rest

unfoldable pub check_header : EntryIndex → Header → Result ReadError (Unit {0})
check_header index h = do
  fail_if (not (h.magic == entry_magic)) bad_magic
  fail_if (not (h.version == entry_version) && not (h.version == entry_version_legacy)) bad_version
  fail_if (h.version == entry_version_legacy && not (h.header_len == entry_header_len_legacy))
      bad_header_length
  fail_if (h.version == entry_version && not (h.header_len == entry_header_len)) bad_header_length
  fail_if (not (h.ledger_id == index.ledger_id) || not (h.entry_id == index.entry_id))
      position_mismatch

pub record Lengths : Type 0 where
  pub metadata_len : ℕ
  pub payload_len : ℕ
  pub expected_checksum : ℕ

unfoldable pub lengths_of : Header → Lengths
lengths_of h =
    if h.version == entry_version_legacy
    then record {
      metadata_len = 0;
      payload_len = from_le_bytes (slice 28 32 h.bytes);
      expected_checksum = from_le_bytes (slice 32 40 h.bytes);
    }
    else record {
      metadata_len = from_le_bytes (slice 28 32 h.bytes);
      payload_len = from_le_bytes (slice 32 36 h.bytes);
      expected_checksum = from_le_bytes (slice 36 44 h.bytes);
    }

unfoldable pub read_body : EntryIndex → Header → Lengths → List ℕ → Result ReadError EntryRecord
read_body index h l file = do
  fail_if (not ((h.header_len + l.metadata_len + l.payload_len) == index.len)) length_mismatch
  (metadata, rest) ← ok_or short_read (read_exact l.metadata_len file)
  (payload, rest') ← ok_or short_read (read_exact l.payload_len rest)
  fail_if
      (not (checksum metadata payload == l.expected_checksum)
        || not (l.expected_checksum == index.checksum))
      checksum_mismatch
  ok (record { partition = h.partition; metadata = metadata; payload = payload })

-- `read` from the offset on.
unfoldable pub read_at : EntryIndex → List ℕ → Result ReadError EntryRecord
read_at index file = do
  (h, rest) ← read_header file
  check_header index h
  read_body index h (lengths_of h) rest

unfoldable pub read : Files → EntryIndex → Result ReadError EntryRecord
read files index = do
  file ← ok_or no_file (get index.file_id files)
  read_at index (drop index.offset file)
