-- ===== src/Corpus.antt =====
-- internal/corpus: the chunks of the transcripts, the uploads they come from, their timed segments
-- and a table of settings, over one SQLite connection.
pub mod Db
pub mod Chunks
pub mod Embeddings
pub mod Uploads
pub mod Calls
pub mod Valid
pub mod Kept
pub mod Reads
pub mod Pages
pub mod Settings
