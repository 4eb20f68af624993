-- ===== src/Pipeline/Ends.antt =====
-- How an ingestion (internal/pipeline/pipeline.go) ends.
use Prim.Native.String.{◌++◌ as ◌++ˢ◌}
use mathlib.Core.Path.{sym, ap₂, subst}
use flying_shuttle.Prelude.{
  ℕ, ◌≡◌, refl, ◌∙◌, ◌⊎◌, inl, inr, true, false, Bool, Bool-cases, some, String, List, [], ◌∷◌,
  All-find, All-any, any-find, find-map, map, ◌==◌, arith,
}
use flying_shuttle.Prelude.Distinct.{any-map}
use flying_shuttle.Prelude.Result.{Result, ok, err, Err}
use flying_shuttle.Model.{
  Chunk, Upload, UploadStatus, transcribing, done, failed, TranscriptSegment,
}
use flying_shuttle.Doc.Db.{update_where}
use flying_shuttle.Doc.Valid.Update.{set_where}
use flying_shuttle.Corpus.Db.{ChunkRow, CorpusDb, has_upload}
use flying_shuttle.Corpus.Chunks.{of_source, soft_deleted, soft_delete_chunks_by_source_file}
use flying_shuttle.Corpus.Uploads.{get_upload, update_upload_status}
use flying_shuttle.Ingest.Sentences.{parse_transcript}
use flying_shuttle.Ingest.Chunker.{chunk_transcript}
use flying_shuttle.Pipeline.Run.{
  Faults, File, segments_of, store_segments, store_and_index, finish, superseded, run_chunks,
  run_texts, run, stamped,
}
use flying_shuttle.Pipeline.Stored.{store_segments-uploads, IsStored, store_and_index-IsStored}
use flying_shuttle.Pipeline.Sources.{renewed, source_chunks}

-- Only the first update of the status may fail.
abbrev only : Bool → Faults
only b = record { beginning = b; superseding = false; ending = false }

abbrev Present : String → CorpusDb → Type 0
Present id db = has_upload db.uploads id ≡ true

module _ {Index : Type 0} (index_chunk : Chunk → Index → Index) (error_text : Err → String) where
  -- An ingestion that ends, at a time, for the segments.
  abbrev pub HasEnded :
      (ℕ → String) → ℕ → String → String → List TranscriptSegment → CorpusDb → Type 0
  HasEnded chunk_ids now id source segs db =
      (u : Upload) × (get_upload id db ≡ ok u)
      × ((u.status ≡ failed)
          ⊎ ((u.status ≡ done)
              × (source_chunks source db
                  ≡ map (stamped now) (chunk_transcript chunk_ids source segs))))

  finish-status :
      (now : ℕ) (id message : String) (status : UploadStatus) (w : CorpusDb × Index)
      → Present id w.0
      → (u : Upload) × (get_upload id
            (finish index_chunk error_text false now id status message w).0
          ≡ ok u)
        × (u.status ≡ status)
  unfolding get_upload update_upload_status
  finish-status now id message status w h =
      let (u, found) = any-find (λ (v : Upload). v.id == id) w.0.uploads h in
      let f : Upload → Upload =
        λ v. record v { status = status; error = message; updated_at = now } in
      let p : Upload → Bool = λ v. v.id == id in
      let hit : p u ≡ true =
        (All-find (λ _. Unit {0}) p w.0.uploads u (All-any w.0.uploads) found).1 in
      let kept = find-map p (set_where p f) (λ v. ground arith) w.0.uploads u found in
      (f u, rw (update_upload_status, h, get_upload, kept, hit) refl, refl)

  finish-chunks :
      (now : ℕ) (id message : String) (status : UploadStatus) (w : CorpusDb × Index)
      → (finish index_chunk error_text false now id status message w).0.chunks ≡ w.0.chunks
  unfolding update_upload_status
  finish-chunks now id message status w = elim (Bool-cases (has_upload w.0.uploads id)) [
    | inl e ↦ rw (update_upload_status, e) refl
    | inr e ↦ rw (update_upload_status, e) refl
  ]

  finish-Present :
      (now : ℕ) (id message : String) (status : UploadStatus) (w : CorpusDb × Index)
      → Present id w.0
      → Present id (finish index_chunk error_text false now id status message w).0
  unfolding update_upload_status
  finish-Present now id message status w h =
      let f : Upload → Upload =
        λ v. record v { status = status; error = message; updated_at = now } in
      let p : Upload → Bool = λ v. v.id == id in
      rw (update_upload_status, h) (any-map (set_where p f) p p (λ v. ground arith) w.0.uploads ∙ h)

  begun-Present :
      (b : Bool) (now : ℕ) (id : String) (w : CorpusDb × Index)
      → Present id w.0
      → Present id (finish index_chunk error_text b now id transcribing "" w).0
  begun-Present true now id w h = h
  begun-Present false now id w h = finish-Present now id "" transcribing w h

  run_chunks-HasEnded :
      (b : Bool) (chunk_ids : ℕ → String) (now : ℕ) (id source : String)
      (segs : List TranscriptSegment) (w : CorpusDb × Index)
      → Present id w.0
      → HasEnded chunk_ids now id source segs
          (run_chunks index_chunk error_text (only b) chunk_ids now id source segs w).0
  unfolding run_chunks soft_delete_chunks_by_source_file soft_deleted
  run_chunks-HasEnded b chunk_ids now id source segs (db, index) h =
      let chunks = chunk_transcript chunk_ids source segs in
      let db' = superseded index_chunk error_text false now source db in
      let out = store_and_index index_chunk error_text now chunks (db', index) in
      go out.0 out.1 (store_and_index-IsStored index_chunk error_text now chunks (db', index))
    where
      old : List ChunkRow
      old = update_where (of_source source) (λ r. record r { deleted_at = some now }) db.chunks

      go :
          (r : Result (Unit {0})) (w : CorpusDb × Index)
          → IsStored index_chunk error_text now
              (chunk_transcript chunk_ids source segs)
              (record db { chunks = old })
              (r, w)
          → HasEnded chunk_ids now id source segs
              (let out : CorpusDb × Index = elim r [
                | err e ↦
                    finish index_chunk error_text false now id failed
                      ("store chunk: " ++ˢ error_text e)
                      w
                | ok _ ↦ finish index_chunk error_text false now id done "" w
              ] in
                out).0
      go (err e) w stored =
          let (u, got, status) = finish-status now id _ failed w (rw stored.0 h) in
          (u, got, inl status)
      go (ok _) w stored =
          let (u, got, status) = finish-status now id "" done w (rw stored.0 h) in
          (
            u,
            got,
            inr (
              status,
              renewed chunk_ids now source segs db.chunks _
                  (finish-chunks now id "" done w ∙ stored.1 refl),
            ),
          )

  run_texts-HasEnded :
      (b : Bool) (segment_ids chunk_ids : ℕ → String) (now : ℕ) (id source : String)
      (texts : List String) (w : CorpusDb × Index)
      → Present id w.0
      → HasEnded chunk_ids now id source
          (segments_of segment_ids id 0 texts)
          (run_texts index_chunk error_text (only b) segment_ids chunk_ids now id source texts w).0
  unfolding run_texts
  run_texts-HasEnded b segment_ids chunk_ids now id source [] w h =
      let (u, got, status) = finish-status now id "transcript is empty" failed w h in
      (u, got, inl status)
  run_texts-HasEnded b segment_ids chunk_ids now id source (text ∷ texts) (db, index) h =
      let segs = segments_of segment_ids id 0 (text ∷ texts) in
      let out = store_segments now segs db in
      let there : Present id out.1 = rw (store_segments-uploads now segs db) h in
      go segs out.0 out.1 there
        (run_chunks-HasEnded b chunk_ids now id source segs (out.1, index) there)
    where
      go :
          (segs : List TranscriptSegment) (r : Result (Unit {0})) (db' : CorpusDb)
          → Present id db'
          → HasEnded chunk_ids now id source segs
              (run_chunks index_chunk error_text
                (only b)
                chunk_ids
                now
                id
                source
                segs
                (db', index)).0
          → HasEnded chunk_ids now id source segs
              (let out : CorpusDb × Index = elim r [
                | err e ↦
                    finish index_chunk error_text false now id failed
                      ("store segment: " ++ˢ error_text e)
                      (db', index)
                | ok _ ↦
                    run_chunks index_chunk error_text
                      (only b)
                      chunk_ids
                      now
                      id
                      source
                      segs
                      (db', index)
              ] in
                out).0
      go segs (ok _) db' there all = all
      go segs (err e) db' there all =
          let (u, got, status) = finish-status now id _ failed (db', index) there in
          (u, got, inl status)

  -- The segments that the file's text gives.
  abbrev pub file_segments : (ℕ → String) → String → File → List TranscriptSegment
  file_segments segment_ids id (inl message) = []
  file_segments segment_ids id (inr raw) = segments_of segment_ids id 0 (parse_transcript raw)

  run-HasEnded-only :
      (b : Bool) (segment_ids chunk_ids : ℕ → String) (now : ℕ) (id : String) (file : File)
      (source : String) (w : CorpusDb × Index)
      → Present id w.0
      → HasEnded chunk_ids now id source
          (file_segments segment_ids id file)
          (run index_chunk error_text (only b) segment_ids chunk_ids now id file source w).0
  unfolding run
  run-HasEnded-only b segment_ids chunk_ids now id (inl message) source w h =
      let begun = begun-Present b now id w h in
      let (u, got, status) =
        finish-status now id ("read transcript: " ++ˢ message) failed
          (finish index_chunk error_text b now id transcribing "" w) begun in
      (u, got, inl status)
  run-HasEnded-only b segment_ids chunk_ids now id (inr raw) source w h =
      run_texts-HasEnded b segment_ids chunk_ids now id source (parse_transcript raw)
        (finish index_chunk error_text b now id transcribing "" w) (begun-Present b now id w h)

  -- Whatever the file holds and whichever segment or chunk the database refuses, if the superseding of
  -- the old chunks and the last update of the status do not fail, the ingestion of an upload that the
  -- corpus has ends with it failed or done; and if it is done, the live chunks of its source are exactly
  -- those that ChunkTranscript makes of the file's segments, in that order.
  pub run-HasEnded :
      (faults : Faults) (segment_ids chunk_ids : ℕ → String) (now : ℕ) (id : String) (file : File)
      (source : String) (w : CorpusDb × Index)
      → faults.superseding ≡ false
      → faults.ending ≡ false
      → has_upload w.0.uploads id ≡ true
      → HasEnded chunk_ids now id source
          (file_segments segment_ids id file)
          (run index_chunk error_text faults segment_ids chunk_ids now id file source w).0
  run-HasEnded faults segment_ids chunk_ids now id file source w hs he h =
      subst
        (λ f.
          HasEnded chunk_ids now id source (file_segments segment_ids id file)
            (run index_chunk error_text f segment_ids chunk_ids now id file source w).0)
        (ap₂ (λ s e. record { beginning = faults.beginning; superseding = s; ending = e }) (sym hs)
          (sym he))
        (run-HasEnded-only faults.beginning segment_ids chunk_ids now id file source w h)
