-- ===== src/Broker.antt =====
-- The broker crate, rust/src/broker.
pub mod ReadPosition
pub mod SingleActive
pub mod Exclusive
pub mod Failover
pub mod Redelivery
pub mod ConnectionLimiter
pub mod KeyShared
pub mod ConnectionWriteState
pub mod PendingAcks
pub mod StickyKey
pub mod ConsumerDispatch
pub mod Shared
pub mod NonPersistent
