-- ===== src/Pipeline/Sources.antt =====
-- The live chunks of one source, over the calls of an ingestion (internal/pipeline/pipeline.go).
use flying_shuttle.Prelude.{
  ℕ, ◌≡◌, refl, ap, ◌∙◌, inl, inr, Bool-cases, some, String, List, [], ◌∷◌, ◌++◌, All, All-append,
  map, select, select-append, ◌==◌, eq_iff, leb,
}
use flying_shuttle.Model.{Chunk, TranscriptSegment}
use flying_shuttle.Doc.Db.{update_where}
use flying_shuttle.Corpus.Db.{ChunkRow, CorpusDb, is_live}
use flying_shuttle.Corpus.Chunks.{created_chunk, of_source}
use flying_shuttle.Pipeline.Run.{stamped}
use flying_shuttle.Ingest.Chunker.{
  Chunker, start, target_chunk_words, next_chunk, flushed, flush, with_text, add_segment,
  add_segments, chunk_transcript,
}

-- The chunks of a transcript name their source.
module _ (uuid : ℕ → String) (source : String) where
  abbrev IsOf : Chunker → Type 0
  IsOf s = All (λ c. c.source_file ≡ source) s.chunks

  flush-IsOf : (s : Chunker) → IsOf s → IsOf (flush uuid source s)
  unfolding flush
  flush-IsOf s h = go s.buf
    where
      go :
          (buf : List String)
          → IsOf (let out : Chunker = elim buf [ [] ↦ s | t ∷ ts ↦ flushed uuid source s ] in out)
      go [] = h
      go (t ∷ ts) =
          All-append (λ c. c.source_file ≡ source) s.chunks (next_chunk uuid source s ∷ []) h
            (refl, tt)

  add_segments-IsOf :
      (segs : List TranscriptSegment) (s : Chunker)
      → IsOf s
      → IsOf (add_segments uuid source segs s)
  unfolding add_segments add_segment
  add_segments-IsOf [] s h = h
  add_segments-IsOf (seg ∷ segs) s h =
      add_segments-IsOf segs (add_segment uuid source seg s)
        (elim (Bool-cases (leb target_chunk_words (with_text uuid source seg.text s).words)) [
          | inl e ↦ rw (add_segment, e) (flush-IsOf (with_text uuid source seg.text s) h)
          | inr e ↦ rw (add_segment, e) h
        ])

  pub chunk_transcript-IsOf :
      (segs : List TranscriptSegment)
      → All (λ c. c.source_file ≡ source) (chunk_transcript uuid source segs)
  unfolding chunk_transcript
  chunk_transcript-IsOf segs =
      flush-IsOf (add_segments uuid source segs start) (add_segments-IsOf segs start tt)

-- The live chunks of a source, in the order of the table.
abbrev pub source_chunks : String → CorpusDb → List Chunk
source_chunks source db =
    select (λ c. c.source_file == source) (map (λ r. r.chunk) (select is_live db.chunks))

abbrev pub rows_of : String → List ChunkRow → List Chunk
rows_of source rows =
    select (λ c. c.source_file == source) (map (λ r. r.chunk) (select is_live rows))

pub rows_of-append :
    (source : String) (xs ys : List ChunkRow)
    → rows_of source (xs ++ ys) ≡ rows_of source xs ++ rows_of source ys
rows_of-append source xs ys =
    ap (λ rows. select (λ c. c.source_file == source) (map (λ r. r.chunk) rows))
      (select-append is_live xs ys)
    ∙ ap (select (λ c. c.source_file == source))
        (map-append (select is_live xs) (select is_live ys))
    ∙ select-append (λ c. c.source_file == source) (map (λ r. r.chunk) (select is_live xs)) _
  where
    map-append :
        (us vs : List ChunkRow)
        → map (λ r. r.chunk) (us ++ vs) ≡ map (λ r. r.chunk) us ++ map (λ r. r.chunk) vs
    map-append [] vs = refl
    map-append (u ∷ us) vs = ap (λ cs. u.chunk ∷ cs) (map-append us vs)

pub superseded-none :
    (now : ℕ) (source : String) (rows : List ChunkRow)
    → rows_of source
        (update_where (of_source source) (λ r. record r { deleted_at = some now }) rows)
      ≡ []
superseded-none now source [] = refl
superseded-none now source (r ∷ rows) = elim (Bool-cases (r.chunk.source_file == source)) [
  | inl f ↦ elim (Bool-cases (is_live r)) [
    | inl l ↦ rw (f, l) (superseded-none now source rows)
    | inr l ↦ rw (f, l, l) (superseded-none now source rows)
  ]
  | inr f ↦ elim (Bool-cases (is_live r)) [
    | inl l ↦ rw (f, l, f) (superseded-none now source rows)
    | inr l ↦ rw (f, l) (superseded-none now source rows)
  ]
]

-- Rows as the store has just created them.
pub rows_of-created :
    (now : ℕ) (source : String) (cs : List Chunk)
    → All (λ c. c.source_file ≡ source) cs
    → rows_of source (map (created_chunk now) cs) ≡ map (stamped now) cs
rows_of-created now source [] h = refl
rows_of-created now source (c ∷ cs) h =
    rw ((eq_iff c.source_file source).1 h.0)
      (ap (λ ds. stamped now c ∷ ds) (rows_of-created now source cs h.1))

-- Superseded rows and behind them the chunks of a transcript, as the store has just created them.
pub renewed :
    (uuid : ℕ → String) (now : ℕ) (source : String) (segs : List TranscriptSegment)
    (rows rows' : List ChunkRow)
    → rows'
      ≡ update_where (of_source source) (λ r. record r { deleted_at = some now }) rows
        ++ map (created_chunk now) (chunk_transcript uuid source segs)
    → rows_of source rows' ≡ map (stamped now) (chunk_transcript uuid source segs)
renewed uuid now source segs rows rows' e =
    let chunks = chunk_transcript uuid source segs in
    let old = update_where (of_source source) (λ r. record r { deleted_at = some now }) rows in
    ap (rows_of source) e
    ∙ rows_of-append source old (map (created_chunk now) chunks)
    ∙ ap (λ cs. cs ++ rows_of source (map (created_chunk now) chunks))
        (superseded-none now source rows)
    ∙ rows_of-created now source chunks (chunk_transcript-IsOf uuid source segs)
