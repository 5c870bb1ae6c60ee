-- ===== src/Index.antt =====
-- crates/hamane-index: the search in a collection of vectors. The graph index is not modelled.
pub mod Flat
