-- ===== src/Tests.antt =====
-- The theorems at concrete inputs: a small log, a manifest, and a store with one collection.
pub mod Bytes
pub mod Codec
pub mod Stores
pub mod Opening
pub mod Commit
pub mod Scanning
pub mod Searching
pub mod Updating
