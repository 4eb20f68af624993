-- ===== src/Corpus/Kept.antt =====
-- What a citation relies on: a chunk of internal/corpus/sqlite.go is superseded, never removed or
-- rewritten.
use flying_shuttle.Prelude.{
  ◌≡◌, refl, ◌∙◌, true, inl, inr, Bool, Bool-cases, some, List, [], ◌∷◌, find, find-append,
  find-map, any, map, ◌==◌,
}
use flying_shuttle.Prelude.Result.{Result, ok, err, each, ◌>>=◌}
use flying_shuttle.Model.{Chunk, Upload}
use flying_shuttle.Doc.Db.{update_where}
use flying_shuttle.Doc.Valid.Update.{set_where}
use flying_shuttle.Corpus.Db.{
  ChunkRow, CorpusDb, committed, is_live, has_id, chunk_clash, upload_clash, segment_clash,
  has_upload, insert_chunk, insert_upload, insert_segment,
}
use flying_shuttle.Corpus.Chunks.{
  create_chunk, create_chunks, created_chunk, soft_deleted, soft_delete_chunks_by_source_file,
  of_source,
}
use flying_shuttle.Corpus.Embeddings.{
  set_chunk_embedding, clear_all_embeddings, set_meta, with_embedding,
}
use flying_shuttle.Corpus.Uploads.{
  create_upload, created_upload, update_upload_status, create_transcript_segment,
}
use flying_shuttle.Corpus.Calls.{CorpusCall, corpus_step, corpus_history}

-- The same passage: all but the embedding vector.
abbrev pub SamePassage : Chunk → Chunk → Type 0
SamePassage c d =
    (c.id ≡ d.id)
    × (c.source_file ≡ d.source_file)
    × (c.content ≡ d.content)
    × (c.start_offset ≡ d.start_offset)
    × (c.end_offset ≡ d.end_offset)
    × (c.speaker ≡ d.speaker)
    × (c.created_at ≡ d.created_at)

-- The row is one of the corpus, the same passage, and is live only if it was before.
abbrev pub IsKept : ChunkRow → CorpusDb → Type 0
IsKept r db =
    (s : ChunkRow) × (find (has_id r.chunk.id) db.chunks ≡ some s)
    × SamePassage r.chunk s.chunk
    × (is_live s ≡ true → is_live r ≡ true)

abbrev Present : ChunkRow → CorpusDb → Type 0
Present r db = find (has_id r.chunk.id) db.chunks ≡ some r

same : (r : ChunkRow) (db : CorpusDb) → Present r db → IsKept r db
same r db h = (r, h, (refl, refl, refl, refl, refl, refl, refl), λ l. l)

abbrev KeptIn : ChunkRow → Result CorpusDb → Type 0
KeptIn r (ok db) = Present r db
KeptIn r (err e) = Unit

insert_chunk-KeptIn : (r x : ChunkRow) (db : CorpusDb) → Present r db → KeptIn r (insert_chunk x db)
unfolding insert_chunk
insert_chunk-KeptIn r x db h = elim (Bool-cases (any (chunk_clash x) db.chunks)) [
  | inl e ↦ rw (e, insert_chunk) tt
  | inr e ↦ rw (e, insert_chunk) (find-append (has_id r.chunk.id) db.chunks (x ∷ []) r h)
]

each-KeptIn :
    (r : ChunkRow) (xs : List ChunkRow) (db : CorpusDb)
    → Present r db
    → KeptIn r (each insert_chunk xs db)
unfolding each
each-KeptIn r [] db h = h
each-KeptIn r (x ∷ xs) db h =
    go (insert_chunk x db) (insert_chunk-KeptIn r x db h) (λ db'. each-KeptIn r xs db')
  where
    go :
        (o : Result CorpusDb)
        → KeptIn r o
        → ((db' : CorpusDb) → Present r db' → KeptIn r (each insert_chunk xs db'))
        → KeptIn r (o >>= each insert_chunk xs)
    go (ok db') k rest = rest db' k
    go (err e) k rest = tt

insert_upload-KeptIn :
    (r : ChunkRow) (u : Upload) (db : CorpusDb) → Present r db → KeptIn r (insert_upload u db)
unfolding insert_upload
insert_upload-KeptIn r u db h = elim (Bool-cases (any (upload_clash u) db.uploads)) [
  | inl e ↦ rw e tt
  | inr e ↦ rw e h
]

committed-IsKept :
    (r : ChunkRow) (o : Result CorpusDb) (db : CorpusDb)
    → Present r db
    → KeptIn r o
    → IsKept r (committed o db).1
committed-IsKept r (ok db') db h k = same r db' k
committed-IsKept r (err e) db h k = same r db h

-- An UPDATE that keeps the passage and revives nothing.
update_chunks-IsKept :
    (p : ChunkRow → Bool) (f : ChunkRow → ChunkRow)
    → ((r : ChunkRow) → SamePassage r.chunk (f r).chunk × (is_live (f r) ≡ true → is_live r ≡ true))
    → (r : ChunkRow) (db : CorpusDb) → Present r db
    → IsKept r (record db { chunks = update_where p f db.chunks })
update_chunks-IsKept p f keeps r db h =
    let k = set_keeps r in
    (set_where p f r, find-map (has_id r.chunk.id) (set_where p f) same_id db.chunks r h, k.0, k.1)
  where
    set_keeps :
        (x : ChunkRow)
        → SamePassage x.chunk (set_where p f x).chunk
          × (is_live (set_where p f x) ≡ true → is_live x ≡ true)
    set_keeps x = elim (Bool-cases (p x)) [
      | inl e ↦ rw e (keeps x)
      | inr e ↦ rw e ((refl, refl, refl, refl, refl, refl, refl), λ l. l)
    ]

    same_id : (x : ChunkRow) → has_id r.chunk.id (set_where p f x) ≡ has_id r.chunk.id x
    same_id x = rw (← (set_keeps x).0.0) refl

corpus_step-IsKept :
    (c : CorpusCall) (r : ChunkRow) (db : CorpusDb) → Present r db → IsKept r (corpus_step c db)
unfolding corpus_step create_chunk create_chunks soft_delete_chunks_by_source_file soft_deleted
    set_chunk_embedding clear_all_embeddings set_meta create_upload update_upload_status
    create_transcript_segment insert_segment
corpus_step-IsKept (CorpusCall.create_chunk now c) r db h =
    committed-IsKept r (insert_chunk (created_chunk now c) db) db h
      (insert_chunk-KeptIn r (created_chunk now c) db h)
corpus_step-IsKept (CorpusCall.create_chunks now cs) r db h =
    committed-IsKept r (each insert_chunk (map (created_chunk now) cs) db) db h
      (each-KeptIn r (map (created_chunk now) cs) db h)
corpus_step-IsKept (CorpusCall.soft_delete now source_file) r db h =
    update_chunks-IsKept (of_source source_file) _
      (λ x. ((refl, refl, refl, refl, refl, refl, refl), λ l. absurd (cc l))) r db h
corpus_step-IsKept (CorpusCall.set_chunk_embedding id vec) r db h =
    elim (Bool-cases (any (has_id id) db.chunks)) [
      | inl e ↦
          rw (e, corpus_step, set_chunk_embedding)
            (update_chunks-IsKept (has_id id) (with_embedding vec)
              (λ x. ((refl, refl, refl, refl, refl, refl, refl), λ l. l)) r db h)
      | inr e ↦ rw (e, corpus_step, set_chunk_embedding) (same r db h)
    ]
corpus_step-IsKept CorpusCall.clear_all_embeddings r db h =
    update_chunks-IsKept _ _ (λ x. ((refl, refl, refl, refl, refl, refl, refl), λ l. l)) r db h
corpus_step-IsKept (CorpusCall.set_meta key value) r db h = same r db h
corpus_step-IsKept (CorpusCall.create_upload now u) r db h =
    committed-IsKept r (insert_upload (created_upload now u) db) db h
      (insert_upload-KeptIn r (created_upload now u) db h)
corpus_step-IsKept (CorpusCall.update_upload_status now id status message) r db h =
    elim (Bool-cases (any (λ (u : Upload). u.id == id) db.uploads)) [
      | inl e ↦ rw (e, corpus_step, update_upload_status) (same r db h)
      | inr e ↦ rw (e, corpus_step, update_upload_status) (same r db h)
    ]
corpus_step-IsKept (CorpusCall.create_transcript_segment now s) r db h =
    elim (Bool-cases (has_upload db.uploads s.upload_id)) [
      | inr e ↦ rw (e, corpus_step, create_transcript_segment, insert_segment) (same r db h)
      | inl e ↦
          rw (e, corpus_step, create_transcript_segment, insert_segment)
            (elim (Bool-cases (any (segment_clash (record s { created_at = now })) db.segments)) [
              | inl t ↦ rw t (same r db h)
              | inr t ↦ rw t (same r db h)
            ])
    ]

trans_passage : (c d e : Chunk) → SamePassage c d → SamePassage d e → SamePassage c e
trans_passage c d e h k =
    (h.0 ∙ k.0, h.1 ∙ k.1, h.2 ∙ k.2, h.3 ∙ k.3, h.4 ∙ k.4, h.5 ∙ k.5, h.6 ∙ k.6)

-- In every history of calls that write to the corpus, a chunk that it holds is found by its id ever
-- after, with the same source, content, offsets, speaker and time, and it is live only if it was before:
-- a citation of it keeps resolving to the text cited.
pub corpus_history-IsKept :
    (cs : List CorpusCall) (r : ChunkRow) (db : CorpusDb)
    → find (has_id r.chunk.id) db.chunks ≡ some r
    → IsKept r (corpus_history cs db)
unfolding corpus_history
corpus_history-IsKept [] r db h = same r db h
corpus_history-IsKept (c ∷ cs) r db h =
    let (s, found, passage, live) = corpus_step-IsKept c r db h in
    let found' : find (has_id s.chunk.id) (corpus_step c db).chunks ≡ some s =
      rw (← passage.0) found in
    let (t, found₂, passage₂, live₂) = corpus_history-IsKept cs s (corpus_step c db) found' in
    (
      t,
      rw passage.0 found₂,
      trans_passage r.chunk s.chunk t.chunk passage passage₂,
      λ l. live (live₂ l),
    )
