-- ===== src/Pipeline/Again.antt =====
-- Chunking a transcript again (internal/pipeline/pipeline.go).
use flying_shuttle.Prelude.{
  ℕ, Bool, true, false, if◌then◌else◌, ◌≡◌, refl, ◌∙◌, some, String, List, [], ◌∷◌, map,
}
use flying_shuttle.Prelude.Result.{Result, ok, err, Err, no_segments, unavailable}
use flying_shuttle.Model.{Chunk, Upload, TranscriptSegment}
use flying_shuttle.Doc.Db.{update_where}
use flying_shuttle.Corpus.Db.{CorpusDb}
use flying_shuttle.Corpus.Chunks.{of_source, soft_deleted, soft_delete_chunks_by_source_file}
use flying_shuttle.Corpus.Uploads.{list_transcript_segments, get_upload}
use flying_shuttle.Ingest.Chunker.{chunk_transcript}
use flying_shuttle.Pipeline.Run.{rechunk, stamped, store_and_index, superseded}
use flying_shuttle.Pipeline.Sources.{renewed, source_chunks}
use flying_shuttle.Pipeline.Stored.{IsStored, store_and_index-IsStored}

module _ {Index : Type 0} (index_chunk : Chunk → Index → Index) (error_text : Err → String) where
  -- After a Rechunk that returns chunks, the live chunks of the upload's source are exactly those, in
  -- that order.
  pub rechunk-source_chunks :
      (fails : Bool) (chunk_ids : ℕ → String) (now : ℕ) (id : String) (u : Upload) (cs : List Chunk)
      (db : CorpusDb) (index : Index)
      → get_upload id db ≡ ok u
      → (rechunk index_chunk error_text fails chunk_ids now id (db, index)).0 ≡ ok cs
      → source_chunks u.filename
          (rechunk index_chunk error_text fails chunk_ids now id (db, index)).1.0
        ≡ cs
  unfolding rechunk soft_delete_chunks_by_source_file soft_deleted
  rechunk-source_chunks fails chunk_ids now id u cs db index e h =
      rw (rechunk, e) (listed (list_transcript_segments id db) (rw (rechunk, e) at h))
    where
      ok-injective : (a b : List Chunk) → ok a ≡ ok b → a ≡ b
      ok-injective a b k = cc k

      stored :
          (segs : List TranscriptSegment) (r : Result (Unit {0})) (w : CorpusDb × Index)
          → IsStored index_chunk error_text now
              (chunk_transcript chunk_ids u.filename segs)
              (record db {
                chunks =
                    update_where
                      (of_source u.filename)
                      (λ r. record r { deleted_at = some now })
                      db.chunks;
              })
              (r, w)
          → (let out : Result (List Chunk) × (CorpusDb × Index) = elim r [
            | err e ↦ (err e, w)
            | ok _ ↦ (ok (map (stamped now) (chunk_transcript chunk_ids u.filename segs)), w)
          ] in
              out).0
            ≡ ok cs
          → source_chunks u.filename
              (let out : Result (List Chunk) × (CorpusDb × Index) = elim r [
                | err e ↦ (err e, w)
                | ok _ ↦ (ok (map (stamped now) (chunk_transcript chunk_ids u.filename segs)), w)
              ] in
                out).1.0
            ≡ cs
      stored segs (err e) w s k = absurd (cc k)
      stored segs (ok _) w s k =
          renewed chunk_ids now u.filename segs db.chunks w.0.chunks (s.1 refl)
          ∙ ok-injective _ cs k

      guarded :
          (b : Bool) (out : Result (List Chunk) × (CorpusDb × Index))
          → (out.0 ≡ ok cs → source_chunks u.filename out.1.0 ≡ cs)
          → (if b then (err unavailable, (db, index)) else out).0 ≡ ok cs
          → source_chunks u.filename (if b then (err unavailable, (db, index)) else out).1.0 ≡ cs
      guarded true out h k = absurd (cc k)
      guarded false out h k = h k

      after : List TranscriptSegment → Result (List Chunk) × (CorpusDb × Index)
      after segs = elim segs [
        | [] ↦ (err no_segments, (db, index))
        | g ∷ gs ↦
            let chunks = chunk_transcript chunk_ids u.filename (g ∷ gs) in
            let (r, w) =
              store_and_index index_chunk error_text now chunks
                (superseded index_chunk error_text false now u.filename db, index) in
            if fails
            then (err unavailable, (db, index))
            else elim r [ err e ↦ (err e, w) | ok _ ↦ (ok (map (stamped now) chunks), w) ]
      ]

      listed :
          (segs : List TranscriptSegment)
          → (after segs).0 ≡ ok cs
          → source_chunks u.filename (after segs).1.0 ≡ cs
      listed [] k = absurd (cc k)
      listed (g ∷ gs) k =
          let chunks = chunk_transcript chunk_ids u.filename (g ∷ gs) in
          let out =
            store_and_index index_chunk error_text now chunks
              (superseded index_chunk error_text false now u.filename db, index) in
          guarded fails _
            (stored (g ∷ gs) out.0 out.1 (
              store_and_index-IsStored index_chunk error_text now chunks
                (superseded index_chunk error_text false now u.filename db, index)))
            k
