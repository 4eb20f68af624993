-- ===== src/Pipeline/Stored.antt =====
-- What storing segments and chunks (internal/pipeline/pipeline.go) leaves of the corpus.
use mathlib.Core.List.{append_assoc, append-nil}
use flying_shuttle.Prelude.{
  ℕ, ◌≡◌, refl, sym, ap, ◌∙◌, inl, inr, Bool-cases, String, List, [], ◌∷◌, ◌++◌, any, map,
}
use flying_shuttle.Prelude.Result.{Result, ok, err, Err}
use flying_shuttle.Model.{Chunk, TranscriptSegment}
use flying_shuttle.Corpus.Db.{
  CorpusDb, chunk_clash, segment_clash, has_upload, insert_chunk, insert_segment,
}
use flying_shuttle.Corpus.Chunks.{create_chunk, created_chunk}
use flying_shuttle.Corpus.Uploads.{create_transcript_segment}
use flying_shuttle.Pipeline.Run.{store_segments, store_and_index}

pub create_chunk-uploads :
    (now : ℕ) (c : Chunk) (db : CorpusDb) → (create_chunk now c db).1.uploads ≡ db.uploads
unfolding create_chunk insert_chunk
create_chunk-uploads now c db =
    elim (Bool-cases (any (chunk_clash (created_chunk now c)) db.chunks)) [
      | inl e ↦ rw (create_chunk, insert_chunk, e) refl
      | inr e ↦ rw (create_chunk, insert_chunk, e) refl
    ]

create_transcript_segment-kept :
    (now : ℕ) (s : TranscriptSegment) (db : CorpusDb)
    → (create_transcript_segment now s db).1.uploads ≡ db.uploads
unfolding create_transcript_segment insert_segment
create_transcript_segment-kept now s db = elim (Bool-cases (has_upload db.uploads s.upload_id)) [
  | inr e ↦ rw (create_transcript_segment, insert_segment, e) refl
  | inl e ↦ elim (Bool-cases (any (segment_clash (record s { created_at = now })) db.segments)) [
    | inl t ↦ rw (create_transcript_segment, insert_segment, e, t) refl
    | inr t ↦ rw (create_transcript_segment, insert_segment, e, t) refl
  ]
]

pub store_segments-uploads :
    (now : ℕ) (segs : List TranscriptSegment) (db : CorpusDb)
    → (store_segments now segs db).1.uploads ≡ db.uploads
unfolding store_segments
store_segments-uploads now [] db = refl
store_segments-uploads now (s ∷ segs) db =
    let db' = (create_transcript_segment now s db).1 in
    let first = create_transcript_segment-kept now s db in
    go (create_transcript_segment now s db).0 db' first
      (store_segments-uploads now segs db' ∙ first)
  where
    go :
        (r : Result (Unit {0})) (db' : CorpusDb)
        → db'.uploads ≡ db.uploads
        → (store_segments now segs db').1.uploads ≡ db.uploads
        → (let out : Result (Unit {0}) × CorpusDb = elim r [
          | ok _ ↦ store_segments now segs db'
          | err e ↦ (err e, db')
        ] in
            out).1.uploads
          ≡ db.uploads
    go (ok _) db' first all = all
    go (err e) db' first all = first

-- A chunk that is stored goes to the end of the table.
create_chunk-chunks :
    (now : ℕ) (c : Chunk) (db : CorpusDb)
    → (create_chunk now c db).0 ≡ ok tt
    → (create_chunk now c db).1.chunks ≡ db.chunks ++ created_chunk now c ∷ []
unfolding create_chunk insert_chunk
create_chunk-chunks now c db h =
    elim (Bool-cases (any (chunk_clash (created_chunk now c)) db.chunks)) [
      | inl e ↦ absurd (cc (rw (create_chunk, insert_chunk, e) at h))
      | inr e ↦ rw (create_chunk, insert_chunk, e) refl
    ]

module _ {Index : Type 0} (index_chunk : Chunk → Index → Index) (error_text : Err → String) where
  -- What storing the chunks leaves of the database.
  abbrev pub IsStored : ℕ → List Chunk → CorpusDb → Result (Unit {0}) × (CorpusDb × Index) → Type 0
  IsStored now cs db out =
      (out.1.0.uploads ≡ db.uploads)
      × (out.0 ≡ ok tt → out.1.0.chunks ≡ db.chunks ++ map (created_chunk now) cs)

  pub store_and_index-IsStored :
      (now : ℕ) (cs : List Chunk) (w : CorpusDb × Index)
      → IsStored now cs w.0 (store_and_index index_chunk error_text now cs w)
  unfolding store_and_index
  store_and_index-IsStored now [] (db, index) = (refl, λ _. sym (append-nil db.chunks))
  store_and_index-IsStored now (c ∷ cs) (db, index) =
      let db' = (create_chunk now c db).1 in
      let index' = index_chunk (record c { created_at = now }) index in
      go (create_chunk now c db).0 db' index' (create_chunk-uploads now c db)
        (create_chunk-chunks now c db) (store_and_index-IsStored now cs (db', index'))
    where
      go :
          (r : Result (Unit {0})) (db' : CorpusDb) (index' : Index)
          → db'.uploads ≡ db.uploads
          → (r ≡ ok tt → db'.chunks ≡ db.chunks ++ created_chunk now c ∷ [])
          → IsStored now cs db' (store_and_index index_chunk error_text now cs (db', index'))
          → IsStored now (c ∷ cs) db (elim r [
            | ok _ ↦ store_and_index index_chunk error_text now cs (db', index')
            | err e ↦ (err e, (db', index))
          ])
      go (ok _) db' index' same first all = (
        all.0 ∙ same,
        λ h.
            all.1 h
            ∙ ap (λ rows. rows ++ map (created_chunk now) cs) (first refl)
            ∙ append_assoc db.chunks (created_chunk now c ∷ []) (map (created_chunk now) cs),
      )
      go (err e) db' index' same first all = (same, λ h. absurd (cc h))
