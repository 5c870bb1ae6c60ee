-- ===== src/Store.antt =====
-- crates/hamane-storage/src/store.rs: the persistent store.
pub mod State
pub mod Apply
pub mod Maintain
pub mod Compact
pub mod Api
pub mod Follow
pub mod Open
