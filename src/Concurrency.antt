-- ===== src/Concurrency.antt =====
-- src/concurrency_control: the concurrency control manager and its two protocols.
pub mod RowHash
pub mod Access
pub mod Timestamp
pub mod TwoPhase
pub mod Control
mod Tests
