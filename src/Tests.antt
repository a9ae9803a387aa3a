-- ===== src/Tests.antt =====
-- Runs of the definitions, and instances of the theorems that have hypotheses.
mod RangeSet
mod Cursor
mod Broker
mod KeyShared
mod Memory
mod Redelivery
mod Dispatch
mod EntryLog
mod Protocol
mod Dispatchers
mod Shared
mod Rounds
mod NonPersistent
