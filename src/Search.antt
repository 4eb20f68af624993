-- ===== src/Search.antt =====
-- internal/search: the keyword index and the index that joins it with the vectors.
pub mod Bm25
pub mod Counted
pub mod Hybrid
