-- ===== src/Indexer.antt =====
-- internal/indexer: the vectors of the chunks and the search index in step with the corpus.
pub mod Backfill
mod Backlog
pub mod Drained
pub mod Endless
pub mod Floats
pub mod Snapshots
pub mod Reconcile
