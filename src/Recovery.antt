-- ===== src/Recovery.antt =====
-- The failure recovery manager: include/failure_recovery.h and src/failure_recovery.
pub mod Entry
pub mod Codec
pub mod LogFile
pub mod CheckpointList
pub mod Storage
pub mod Manager
pub mod Crash
mod Tests
