-- ===== src/Corpus/Valid.antt =====
-- The schema's constraints (internal/corpus/migrations) as an invariant of the corpus.
use flying_shuttle.Prelude.{
  ◌≡◌, refl, true, false, inl, inr, Bool, Bool-cases, String, List, [], ◌∷◌, ◌++◌, All, All-imp,
  All-append, any, any-append, map, ◌==◌, eq_iff, arith,
}
use flying_shuttle.Prelude.Texts.{eq_symm}
use flying_shuttle.Prelude.Distinct.{Distinct, Distinct-snoc, Distinct-same, any-map}
use flying_shuttle.Prelude.Result.{Result, ok, err, each, ◌>>=◌}
use flying_shuttle.Model.{Upload, TranscriptSegment}
use flying_shuttle.Doc.Db.{update_where}
use flying_shuttle.Doc.Valid.Update.{set_where}
use flying_shuttle.Corpus.Db.{
  ChunkRow, CorpusDb, empty_corpus, committed, has_id, chunk_clash, upload_clash, segment_clash,
  meta_clash, has_upload, insert_chunk, insert_upload, insert_segment,
}
use flying_shuttle.Corpus.Chunks.{
  create_chunk, create_chunks, created_chunk, soft_deleted, soft_delete_chunks_by_source_file,
  of_source,
}
use flying_shuttle.Corpus.Embeddings.{
  set_chunk_embedding, clear_all_embeddings, set_meta, upsert, with_embedding,
}
use flying_shuttle.Corpus.Uploads.{
  create_upload, created_upload, update_upload_status, create_transcript_segment,
}
use flying_shuttle.Corpus.Calls.{CorpusCall, corpus_step, corpus_history}

abbrev pub SegmentRefers : List Upload → TranscriptSegment → Type 0
SegmentRefers uploads s = has_upload uploads s.upload_id ≡ true

pub record IsCorpus (db : CorpusDb) : Type 0 where
  pub chunks_distinct : Distinct chunk_clash db.chunks
  pub uploads_distinct : Distinct upload_clash db.uploads
  pub segments_distinct : Distinct segment_clash db.segments
  pub segments_refer : All (SegmentRefers db.uploads) db.segments
  pub meta_distinct : Distinct meta_clash db.meta

pub IsCorpus-empty : IsCorpus empty_corpus
IsCorpus-empty = record {
  chunks_distinct = tt;
  uploads_distinct = tt;
  segments_distinct = tt;
  segments_refer = tt;
  meta_distinct = tt;
}

-- The database that a transaction gives, if it gives one.
abbrev pub Yields : Result CorpusDb → Type 0
Yields (ok db) = IsCorpus db
Yields (err e) = Unit

pub insert_chunk-IsCorpus :
    (r : ChunkRow) (db : CorpusDb) → IsCorpus db → Yields (insert_chunk r db)
unfolding insert_chunk
insert_chunk-IsCorpus r db v = elim (Bool-cases (any (chunk_clash r) db.chunks)) [
  | inl e ↦ rw e tt
  | inr e ↦ rw e (
      assumption (
        Distinct-snoc chunk_clash (λ a b. eq_symm b.chunk.id a.chunk.id) r db.chunks
          v.chunks_distinct e))
]

pub each-IsCorpus :
    (rs : List ChunkRow) (db : CorpusDb) → IsCorpus db → Yields (each insert_chunk rs db)
unfolding each
each-IsCorpus [] db v = v
each-IsCorpus (r ∷ rs) db v =
    go (insert_chunk r db) (insert_chunk-IsCorpus r db v) (λ db'. each-IsCorpus rs db')
  where
    go :
        (o : Result CorpusDb)
        → Yields o
        → ((db' : CorpusDb) → IsCorpus db' → Yields (each insert_chunk rs db'))
        → Yields (o >>= each insert_chunk rs)
    go (ok db') w rest = rest db' w
    go (err e) w rest = tt

insert_upload-IsCorpus : (u : Upload) (db : CorpusDb) → IsCorpus db → Yields (insert_upload u db)
unfolding insert_upload
insert_upload-IsCorpus u db v = elim (Bool-cases (any (upload_clash u) db.uploads)) [
  | inl e ↦ rw e tt
  | inr e ↦ rw e (
      assumption (
        Distinct-snoc upload_clash (λ a b. eq_symm b.id a.id) u db.uploads v.uploads_distinct e,
        All-imp refers db.segments v.segments_refer,
      ))
]
  where
    refers :
        (s : TranscriptSegment)
        → SegmentRefers db.uploads s
        → SegmentRefers (db.uploads ++ u ∷ []) s
    refers s h = ground (arith, any-append (λ w. w.id == s.upload_id) db.uploads (u ∷ []))

insert_segment-IsCorpus :
    (s : TranscriptSegment) (db : CorpusDb) → IsCorpus db → Yields (insert_segment s db)
unfolding insert_segment
insert_segment-IsCorpus s db v = elim (Bool-cases (has_upload db.uploads s.upload_id)) [
  | inr e ↦ rw e tt
  | inl t ↦ rw t (elim (Bool-cases (any (segment_clash s) db.segments)) [
    | inl e ↦ rw e tt
    | inr e ↦ rw e (
        assumption (
          Distinct-snoc segment_clash (λ a b. eq_symm b.id a.id) s db.segments v.segments_distinct
              e,
          All-append (SegmentRefers db.uploads) db.segments (s ∷ []) v.segments_refer (t, tt),
        ))
  ])
]

-- An UPDATE of chunks that keeps their ids.
update_chunks-IsCorpus :
    (p : ChunkRow → Bool) (f : ChunkRow → ChunkRow)
    → ((r : ChunkRow) → (f r).chunk.id ≡ r.chunk.id)
    → (db : CorpusDb) → IsCorpus db
    → IsCorpus (record db { chunks = update_where p f db.chunks })
update_chunks-IsCorpus p f keeps db v = assumption (
    Distinct-same chunk_clash (set_where p f) (λ x y. rw (same x, same y)) db.chunks
      v.chunks_distinct)
  where
    same : (r : ChunkRow) → (set_where p f r).chunk.id ≡ r.chunk.id
    same r = ground (arith, keeps r)

update_uploads-IsCorpus :
    (p : Upload → Bool) (f : Upload → Upload)
    → ((u : Upload) → (f u).id ≡ u.id)
    → (db : CorpusDb) → IsCorpus db
    → IsCorpus (record db { uploads = update_where p f db.uploads })
update_uploads-IsCorpus p f keeps db v = assumption (
  Distinct-same upload_clash (set_where p f) (λ x y. rw (same x, same y)) db.uploads
      v.uploads_distinct,
  All-imp refers db.segments v.segments_refer,
)
  where
    same : (u : Upload) → (set_where p f u).id ≡ u.id
    same u = ground (arith, keeps u)

    refers :
        (s : TranscriptSegment)
        → SegmentRefers db.uploads s
        → SegmentRefers (update_where p f db.uploads) s
    refers s h =
        rw
          (any-map (set_where p f) (λ u. u.id == s.upload_id) (λ u. u.id == s.upload_id)
            (λ u. rw (same u)) db.uploads)
          h

upsert-Distinct :
    (key value : String) (kvs : List (String × String))
    → Distinct meta_clash kvs
    → Distinct meta_clash (upsert key value kvs)
unfolding upsert
upsert-Distinct key value [] d = (tt, tt)
upsert-Distinct key value (kv ∷ kvs) d = elim (Bool-cases (kv.0 == key)) [
  | inl e ↦ rw e (subst_key ((eq_iff kv.0 key).0 e) d.0, d.1)
  | inr e ↦ rw e (fresh kvs d.0 e, upsert-Distinct key value kvs d.1)
]
  where
    subst_key :
        (same : kv.0 ≡ key)
        → All (λ y. meta_clash kv y ≡ false) kvs
        → All (λ y. meta_clash (key, value) y ≡ false) kvs
    subst_key same = All-imp (λ y h. rw (← same) h) kvs

    fresh :
        (rest : List (String × String))
        → All (λ y. meta_clash kv y ≡ false) rest
        → (kv.0 == key) ≡ false
        → All (λ y. meta_clash kv y ≡ false) (upsert key value rest)
    fresh [] h e = (rw (eq_symm key kv.0) e, tt)
    fresh (y ∷ ys) h e = elim (Bool-cases (y.0 == key)) [
      | inl t ↦ rw t (rw (eq_symm key kv.0) e, h.1)
      | inr t ↦ rw t (h.0, fresh ys h.1 e)
    ]

committed-IsCorpus :
    (o : Result CorpusDb) (db : CorpusDb) → IsCorpus db → Yields o → IsCorpus (committed o db).1
committed-IsCorpus (ok db') db v w = w
committed-IsCorpus (err e) db v w = v

pub corpus_step-IsCorpus :
    (c : CorpusCall) (db : CorpusDb) → IsCorpus db → IsCorpus (corpus_step c db)
unfolding corpus_step create_chunk create_chunks soft_delete_chunks_by_source_file soft_deleted
    set_chunk_embedding clear_all_embeddings set_meta create_upload update_upload_status
    create_transcript_segment
corpus_step-IsCorpus (CorpusCall.create_chunk now c) db v =
    committed-IsCorpus (insert_chunk (created_chunk now c) db) db v
      (insert_chunk-IsCorpus (created_chunk now c) db v)
corpus_step-IsCorpus (CorpusCall.create_chunks now cs) db v =
    committed-IsCorpus (each insert_chunk (map (created_chunk now) cs) db) db v
      (each-IsCorpus (map (created_chunk now) cs) db v)
corpus_step-IsCorpus (CorpusCall.soft_delete now source_file) db v =
    update_chunks-IsCorpus (of_source source_file) _ (λ r. refl) db v
corpus_step-IsCorpus (CorpusCall.set_chunk_embedding id vec) db v =
    elim (Bool-cases (any (has_id id) db.chunks)) [
      | inl e ↦
          rw (e, corpus_step, set_chunk_embedding)
            (update_chunks-IsCorpus (has_id id) (with_embedding vec) (λ r. refl) db v)
      | inr e ↦ rw (e, corpus_step, set_chunk_embedding) v
    ]
corpus_step-IsCorpus CorpusCall.clear_all_embeddings db v =
    update_chunks-IsCorpus _ _ (λ r. refl) db v
corpus_step-IsCorpus (CorpusCall.set_meta key value) db v =
    assumption (upsert-Distinct key value db.meta v.meta_distinct)
corpus_step-IsCorpus (CorpusCall.create_upload now u) db v =
    committed-IsCorpus (insert_upload (created_upload now u) db) db v
      (insert_upload-IsCorpus (created_upload now u) db v)
corpus_step-IsCorpus (CorpusCall.update_upload_status now id status message) db v =
    elim (Bool-cases (any (λ (u : Upload). u.id == id) db.uploads)) [
      | inl e ↦
          rw (e, corpus_step, update_upload_status)
            (update_uploads-IsCorpus (λ u. u.id == id) _ (λ u. refl) db v)
      | inr e ↦ rw (e, corpus_step, update_upload_status) v
    ]
corpus_step-IsCorpus (CorpusCall.create_transcript_segment now s) db v =
    committed-IsCorpus (insert_segment (record s { created_at = now }) db) db v
      (insert_segment-IsCorpus (record s { created_at = now }) db v)

-- In every history of calls that write to the corpus, whether they succeed or fail, a corpus whose keys
-- are unique and whose segments have their uploads stays one.
pub corpus_history-IsCorpus :
    (cs : List CorpusCall) (db : CorpusDb) → IsCorpus db → IsCorpus (corpus_history cs db)
unfolding corpus_history
corpus_history-IsCorpus [] db v = v
corpus_history-IsCorpus (c ∷ cs) db v =
    corpus_history-IsCorpus cs (corpus_step c db) (corpus_step-IsCorpus c db v)
