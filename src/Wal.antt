-- ===== src/Wal.antt =====
-- crates/hamane-storage/src/wal.rs: the write-ahead log.
pub mod Record
pub mod File
pub mod Commit
