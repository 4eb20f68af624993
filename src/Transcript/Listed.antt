-- ===== src/Transcript/Listed.antt =====
-- GetChunk and ListChunksBySourceFile (internal/corpus/sqlite.go) over the same chunk.
use flying_shuttle.Prelude.{
  ◌≡◌, refl, ap, subst, ◌∙◌, true, inl, inr, Bool-cases, ◌&&◌, String, Option, none, some, List, [],
  ◌∷◌, any, find, map, select, ◌==◌, eq_iff, arith,
}
use flying_shuttle.Prelude.Sort.{any-sort_by}
use flying_shuttle.Prelude.Result.{Result, ok, err, not_found}
use flying_shuttle.Model.{Chunk}
use flying_shuttle.Corpus.Db.{ChunkRow, CorpusDb, is_live}
use flying_shuttle.Corpus.Chunks.{get_chunk, list_chunks_by_source_file, live_chunks, offset_leb}

-- A chunk found by its id is among the live chunks of its source.
found-listed :
    (id : String) (rows : List ChunkRow) (r : ChunkRow)
    → find (λ s. s.chunk.id == id && is_live s) rows ≡ some r
    → any
        (λ c. c.id == id)
        (select
          (λ (c : Chunk). c.source_file == r.chunk.source_file)
          (map (λ s. s.chunk) (select is_live rows)))
      ≡ true
found-listed id [] r h = absurd (cc h)
found-listed id (x ∷ rows) r h = elim (Bool-cases (x.chunk.id == id && is_live x)) [
  | inl e ↦
      let same : x ≡ r = some-injective x r (rw e at h) in
      let live : is_live x ≡ true = ground arith in
      let here : (x.chunk.id == id) ≡ true = ground arith in
      let file : (x.chunk.source_file == r.chunk.source_file) ≡ true =
        (eq_iff x.chunk.source_file r.chunk.source_file).1
          (ap (λ (s : ChunkRow). s.chunk.source_file) same) in
      rw live (rw file (rw here refl))
  | inr e ↦
      let rest = found-listed id rows r (rw e at h) in
      elim (Bool-cases (is_live x)) [
        | inr k ↦ rw k rest
        | inl k ↦ rw k (elim (Bool-cases (x.chunk.source_file == r.chunk.source_file)) [
          | inr f ↦ rw f rest
          | inl f ↦ rw f (ground (arith, rest))
        ])
      ]
]
  where
    some-injective : (a b : ChunkRow) → some a ≡ some b → a ≡ b
    some-injective a b e = cc e

pub listed :
    (id : String) (c : Chunk) (db : CorpusDb)
    → get_chunk id db ≡ ok c
    → any (λ d. d.id == id) (list_chunks_by_source_file c.source_file db) ≡ true
unfolding get_chunk list_chunks_by_source_file live_chunks
listed id c db h =
    any-sort_by offset_leb (λ d. d.id == id) _
    ∙ go (find (λ s. s.chunk.id == id && is_live s) db.chunks) refl h
  where
    ok-injective : (a b : Chunk) → ok a ≡ ok b → a ≡ b
    ok-injective a b e = cc e

    go :
        (o : Option ChunkRow)
        → find (λ s. s.chunk.id == id && is_live s) db.chunks ≡ o
        → (let out : Result Chunk = elim o [ none ↦ err not_found | some r ↦ ok r.chunk ] in
            out ≡ ok c)
        → any
            (λ d. d.id == id)
            (select
              (λ d. d.source_file == c.source_file)
              (map (λ s. s.chunk) (select is_live db.chunks)))
          ≡ true
    go none e k = absurd (cc k)
    go (some r) e k =
        subst
          (λ (d : Chunk).
            any (λ x. x.id == id)
              (select (λ x. x.source_file == d.source_file)
                (map (λ s. s.chunk) (select is_live db.chunks)))
            ≡ true)
          (ok-injective r.chunk c k) (found-listed id db.chunks r e)
