-- ===== src/Tests/EntryLog.antt =====
-- Instances and runs for the entry log.
use pulsar_lite.Prelude.{ℕ, ◌^◌, ◌<◌, Option, true, false, List, [], ◌∷◌, ◌≡◌, refl, arith}
use pulsar_lite.Prelude.Int.{negsuc}
use pulsar_lite.Prelude.Maps.{get, nat_key}
use pulsar_lite.Prelude.Results.{ok, err}
use pulsar_lite.ManagedLedger.EntryLog.{
  Files, EntryToAppend, EntryIndex, WriteState, written, failed, write_batch, write_out, open_state,
  file_id_overflow, next_entry_log_file_id, batch_len, pending_of, index_of, read, no_file,
  position_mismatch,
}
use pulsar_lite.ManagedLedger.EntryLog.Format.{IsWritable}
use pulsar_lite.ManagedLedger.EntryLog.Reads.{IsOpen, AllRead, record_of, write_batch-AllRead}
use pulsar_lite.ManagedLedger.EntryLog.Opening.{IsOpened, open_state_lem}
use pulsar_lite.ManagedLedger.EntryLog.Kept.{read-write_batch}
use pulsar_lite.ManagedLedger.EntryLog.Faults.{
  IsLost, next_batch, write_batch_unopened, write_batch_partial,
}

abbrev entry : ℕ → EntryToAppend
entry id = record {
  ledger_id = 7;
  entry_id = id;
  partition = negsuc 0;
  metadata = 1 ∷ 2 ∷ [];
  payload = 3 ∷ [];
}

-- A limit below the size of two entries.
abbrev fresh : WriteState
fresh = record { log_size_limit = 60; active_file_id = 0; active_offset = 0; file = 0 }

abbrev empty_file : Files
empty_file = (0, []) ∷ []

fresh-IsOpen : IsOpen fresh empty_file
unfolding get
fresh-IsOpen = record {
  is_active = refl;
  has_offset = ([], refl, refl);
  is_last = λ j h. ground arith;
}

entry-IsWritable : (id : ℕ) → id < 2 ^ 64 → IsWritable (entry id)
entry-IsWritable id h = record {
  ledger_id = omega arith;
  entry_id = h;
  partition = omega arith;
  metadata = omega arith;
  payload = omega arith;
}

write_batch-AllRead_example :
    IsOpen
      (write_batch true written fresh empty_file (entry 0 ∷ entry 1 ∷ [])).0
      (write_batch true written fresh empty_file (entry 0 ∷ entry 1 ∷ [])).1
    × AllRead
        (write_batch true written fresh empty_file (entry 0 ∷ entry 1 ∷ [])).1
        (write_batch true written fresh empty_file (entry 0 ∷ entry 1 ∷ [])).2
        (entry 0 ∷ entry 1 ∷ [])
write_batch-AllRead_example =
    write_batch-AllRead fresh empty_file (entry 0 ∷ entry 1 ∷ []) fresh-IsOpen
      (entry-IsWritable 0 (omega arith), (entry-IsWritable 1 (omega arith), tt))

abbrev one_written : WriteState × Files × List (Option EntryIndex)
one_written = write_batch true written fresh empty_file (entry 0 ∷ [])

one_written-IsOpen : IsOpen one_written.0 one_written.1
one_written-IsOpen =
    (write_batch-AllRead fresh empty_file (entry 0 ∷ []) fresh-IsOpen
      (entry-IsWritable 0 (omega arith), tt)).0

abbrev two_files : Files
two_files = (3, 7 ∷ []) ∷ (0, []) ∷ []

open_state_lem_example : IsOpened two_files 60 (open_state two_files 60)
unfolding get
open_state_lem_example = open_state_lem two_files 60 (λ j h. ground arith)

-- No number is left.
open_state_full : open_state ((18446744073709551615, []) ∷ two_files) 60 ≡ err file_id_overflow
unfolding open_state next_entry_log_file_id
open_state_full = refl

read-write_batch_example :
    read
      (write_batch true (failed 50) one_written.0 one_written.1 (entry 1 ∷ [])).1
      (index_of 0 0 (entry 0))
    ≡ ok (record_of (entry 0))
unfolding write_batch write_out pending_of
read-write_batch_example =
    read-write_batch true (failed 50) one_written.0 one_written.1 (entry 1 ∷ [])
      (index_of 0 0 (entry 0)) (record_of (entry 0))
      (write_batch-AllRead fresh empty_file (entry 0 ∷ []) fresh-IsOpen
        (entry-IsWritable 0 (omega arith), tt)).1.0

write_batch_unopened_example : IsLost no_file (
    next_batch true
      (write_batch false written one_written.0 one_written.1 (entry 1 ∷ []))
      (entry 2 ∷ []))
unfolding batch_len write_batch write_out
write_batch_unopened_example =
    write_batch_unopened written true one_written.0 one_written.1 (entry 1) (entry 2) []
      one_written-IsOpen refl

write_batch_partial_example :
    IsLost position_mismatch (
      next_batch true (write_batch true (failed 30) fresh empty_file (entry 0 ∷ [])) (entry 1 ∷ []))
unfolding batch_len
write_batch_partial_example =
    write_batch_partial true true 30 fresh empty_file (entry 0) (entry 1) [] fresh-IsOpen
      (entry-IsWritable 0 (omega arith)) (omega arith) (omega arith) refl refl
