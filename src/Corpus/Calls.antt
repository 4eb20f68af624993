-- ===== src/Corpus/Calls.antt =====
-- The methods of the Store interface (internal/corpus/corpus.go) that write, as the steps of a
-- history.
use flying_shuttle.Prelude.{ℕ, String, Option, List, [], ◌∷◌}
use flying_shuttle.Model.{Chunk, Upload, UploadStatus, TranscriptSegment}
use flying_shuttle.Corpus.Db.{CorpusDb}
use flying_shuttle.Corpus.Chunks
use flying_shuttle.Corpus.Embeddings
use flying_shuttle.Corpus.Uploads

pub data CorpusCall : Type 0 where
  create_chunk : ℕ → Chunk → CorpusCall
  create_chunks : ℕ → List Chunk → CorpusCall
  soft_delete : ℕ → String → CorpusCall
  set_chunk_embedding : String → Option (List ℕ) → CorpusCall
  clear_all_embeddings : CorpusCall
  set_meta : String → String → CorpusCall
  create_upload : ℕ → Upload → CorpusCall
  update_upload_status : ℕ → String → UploadStatus → String → CorpusCall
  create_transcript_segment : ℕ → TranscriptSegment → CorpusCall

-- The database after a call, whether it succeeds or fails.
unfoldable pub corpus_step : CorpusCall → CorpusDb → CorpusDb
corpus_step (create_chunk now c) db = (Chunks.create_chunk now c db).1
corpus_step (create_chunks now cs) db = (Chunks.create_chunks now cs db).1
corpus_step (soft_delete now source_file) db =
    (Chunks.soft_delete_chunks_by_source_file now source_file db).1
corpus_step (set_chunk_embedding id vec) db = (Embeddings.set_chunk_embedding id vec db).1
corpus_step clear_all_embeddings db = (Embeddings.clear_all_embeddings db).1
corpus_step (set_meta key value) db = (Embeddings.set_meta key value db).1
corpus_step (create_upload now u) db = (Uploads.create_upload now u db).1
corpus_step (update_upload_status now id status message) db =
    (Uploads.update_upload_status now id status message db).1
corpus_step (create_transcript_segment now s) db = (Uploads.create_transcript_segment now s db).1

unfoldable pub corpus_history : List CorpusCall → CorpusDb → CorpusDb
unfolding corpus_step
corpus_history [] db = db
corpus_history (c ∷ cs) db = corpus_history cs (corpus_step c db)
