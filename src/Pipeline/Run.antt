-- ===== src/Pipeline/Run.antt =====
-- The ingestion of one upload (internal/pipeline/pipeline.go). The file's content, or the message of the
-- error in reading it, is an argument; so are the ids that uuid.NewString draws, the text of an error,
-- and the search index with IndexChunk. The calls of the store whose errors run ignores can fail for any
-- reason, as an argument says; the others fail where the database refuses a row. One reading of the clock stands for those of a run. The
-- callback AfterIngest, which nudges the backfill, and the log lines change no state and are left out.
use Prim.Native.String.{◌++◌ as ◌++ˢ◌}
use flying_shuttle.Prelude.{
  ℕ, ◌+◌, String, Bool, true, false, List, [], ◌∷◌, map, select, ◌⊎◌, inl, inr, if◌then◌else◌,
}
use flying_shuttle.Prelude.Int.{pos}
use flying_shuttle.Prelude.Result.{Result, ok, err, no_segments, unavailable, Err}
use flying_shuttle.Model.{
  Chunk, Upload, UploadStatus, pending, transcribing, done, failed, TranscriptSegment,
}
use flying_shuttle.Corpus.Db.{CorpusDb}
use flying_shuttle.Corpus.Chunks.{create_chunk, soft_delete_chunks_by_source_file}
use flying_shuttle.Corpus.Uploads.{
  get_upload, list_uploads, update_upload_status, create_transcript_segment,
  list_transcript_segments,
}
use flying_shuttle.Ingest.Sentences.{parse_transcript}
use flying_shuttle.Ingest.Chunker.{chunk_transcript}

-- Which of the calls whose errors run ignores fail: UpdateUploadStatus at the beginning and at the end,
-- and SoftDeleteChunksBySourceFile.
pub record Faults : Type 0 where
  pub beginning : Bool
  pub superseding : Bool
  pub ending : Bool

-- What became of the file.
abbrev pub File : Type 0
File = String ⊎ String

abbrev pub stamped : ℕ → Chunk → Chunk
stamped now c = record c { created_at = now }

-- The segments of the texts, as the loop of run fills them in.
unfoldable pub segments_of : (ℕ → String) → String → ℕ → List String → List TranscriptSegment
segments_of uuid upload_id i [] = []
segments_of uuid upload_id i (text ∷ texts) =
    record {
      id = uuid i;
      upload_id = upload_id;
      speaker = "";
      text = text;
      start_ms = pos 0;
      end_ms = pos 0;
      created_at = 0;
    }
    ∷ segments_of uuid upload_id (i + 1) texts

unfoldable pub store_segments : ℕ → List TranscriptSegment → CorpusDb → Result (Unit {0}) × CorpusDb
store_segments now [] db = (ok tt, db)
store_segments now (s ∷ segs) db =
    let (stored, db') = create_transcript_segment now s db in
    elim stored [ ok _ ↦ store_segments now segs db' | err e ↦ (err e, db') ]

abbrev pub is_pending : UploadStatus → Bool
is_pending pending = true
is_pending transcribing = false
is_pending done = false
is_pending failed = false

-- The ids that StartPending looks at, when it is called with none.
unfoldable pub pending_ids : CorpusDb → List String
pending_ids db = map (λ u. u.id) (select (λ u. is_pending u.status) (list_uploads db))

-- The uploads that it starts.
unfoldable pub started : List String → CorpusDb → List Upload
started [] db = []
started (id ∷ ids) db =
    let rest = started ids db in
    elim (get_upload id db) [
      | err e ↦ rest
      | ok u ↦ elim (is_pending u.status) [ true ↦ u ∷ rest | false ↦ rest ]
    ]

unfoldable pub start_pending : List String → CorpusDb → List Upload
unfolding started pending_ids
start_pending [] db = started (pending_ids db) db
start_pending (id ∷ ids) db = started (id ∷ ids) db

module _ {Index : Type 0} (index_chunk : Chunk → Index → Index) (error_text : Err → String) where
  abbrev pub World : Type 0
  World = CorpusDb × Index

  -- A chunk is indexed with the time that the store has given it.
  unfoldable pub store_and_index : ℕ → List Chunk → World → Result (Unit {0}) × World
  store_and_index now [] (db, index) = (ok tt, (db, index))
  store_and_index now (c ∷ cs) (db, index) =
      let (stored, db') = create_chunk now c db in
      elim stored [
        | ok _ ↦ store_and_index now cs (db', index_chunk (record c { created_at = now }) index)
        | err e ↦ (err e, (db', index))
      ]

  -- A call of UpdateUploadStatus whose error is ignored, and whether it fails.
  abbrev pub finish : Bool → ℕ → String → UploadStatus → String → World → World
  finish fails now id status message w =
      if fails then w else ((update_upload_status now id status message w.0).1, w.1)

  -- The same of SoftDeleteChunksBySourceFile.
  abbrev pub superseded : Bool → ℕ → String → CorpusDb → CorpusDb
  superseded fails now source_name db =
      if fails then db else (soft_delete_chunks_by_source_file now source_name db).1

  unfoldable pub run_chunks :
      Faults → (ℕ → String) → ℕ → String → String → List TranscriptSegment → World → World
  unfolding store_and_index
  run_chunks faults chunk_ids now upload_id source_name segs (db, index) =
      let chunks = chunk_transcript chunk_ids source_name segs in
      let (stored, w) =
        store_and_index now chunks (superseded faults.superseding now source_name db, index) in
      elim stored [
        | err e ↦ finish faults.ending now upload_id failed ("store chunk: " ++ˢ error_text e) w
        | ok _ ↦ finish faults.ending now upload_id done "" w
      ]

  unfoldable pub run_texts :
      Faults → (ℕ → String) → (ℕ → String) → ℕ → String → String → List String → World → World
  unfolding segments_of store_segments run_chunks
  run_texts faults segment_ids chunk_ids now upload_id source_name [] w =
      finish faults.ending now upload_id failed "transcript is empty" w
  run_texts faults segment_ids chunk_ids now upload_id source_name (text ∷ texts) (db, index) =
      let segs = segments_of segment_ids upload_id 0 (text ∷ texts) in
      let (stored, db') = store_segments now segs db in
      elim stored [
        | err e ↦
            finish faults.ending now upload_id failed ("store segment: " ++ˢ error_text e)
              (db', index)
        | ok _ ↦ run_chunks faults chunk_ids now upload_id source_name segs (db', index)
      ]

  unfoldable pub run :
      Faults → (ℕ → String) → (ℕ → String) → ℕ → String → File → String → World → World
  unfolding run_texts
  run faults segment_ids chunk_ids now upload_id file source_name w =
      let w' = finish faults.beginning now upload_id transcribing "" w in
      elim file [
        | inl message ↦
            finish faults.ending now upload_id failed ("read transcript: " ++ˢ message) w'
        | inr raw ↦
            run_texts faults segment_ids chunk_ids now upload_id source_name (parse_transcript raw)
              w'
      ]

  -- Rechunk, from the stored segments; `fails` says whether SoftDeleteChunksBySourceFile fails. CreateChunk
  -- sets the time of the chunks that are returned.
  unfoldable pub rechunk : Bool → (ℕ → String) → ℕ → String → World → Result (List Chunk) × World
  unfolding store_and_index
  rechunk fails chunk_ids now upload_id (db, index) = elim (get_upload upload_id db) [
    | err e ↦ (err e, (db, index))
    | ok u ↦ elim (list_transcript_segments upload_id db) [
      | [] ↦ (err no_segments, (db, index))
      | s ∷ segs ↦
          let chunks = chunk_transcript chunk_ids u.filename (s ∷ segs) in
          let (stored, w) =
            store_and_index now chunks (superseded false now u.filename db, index) in
          if fails
          then (err unavailable, (db, index))
          else elim stored [ err e ↦ (err e, w) | ok _ ↦ (ok (map (stamped now) chunks), w) ]
    ]
  ]
