-- ===== src/ManagedLedger.antt =====
-- The managed-ledger crate, rust/storage/managed-ledger/src.
pub mod RangeSet
pub mod Cursor
pub mod Position
pub mod CursorRead
pub mod Memory
pub mod RocksCursor
pub mod EntryLog
