-- ===== src/Format.antt =====
-- crates/hamane-storage/src/format.rs: the encoding primitives of the files on disk.
pub mod Utf8
pub mod Reader
pub mod Frame
pub mod Meta
