-- ===== src/Core.antt =====
-- crates/hamane-core: records, metadata and filters.
pub mod Record
pub mod Filter
pub mod Metric
