-- ===== src/Pipeline.antt =====
-- internal/pipeline/pipeline.go: from an accepted file to the chunks of the corpus.
pub mod Run
pub mod Sources
mod Stored
pub mod Again
pub mod Ends
