-- ===== src/Ingest.antt =====
-- internal/ingest/transcript.go: from the text of a transcript to the chunks of the corpus.
pub mod Sentences
pub mod Chunker
pub mod Whole
pub mod Sizes
