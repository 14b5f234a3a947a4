-- ===== src/Storage.antt =====
-- The storage manager: include/storage_manager.h and src/storage_manager.
pub mod Page
pub mod Pool
pub mod Buffer
mod Tests
