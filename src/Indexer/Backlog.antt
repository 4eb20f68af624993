-- ===== src/Indexer/Backlog.antt =====
-- The chunks that the backfill (internal/indexer/backfill.go) has yet to embed.
use flying_shuttle.Prelude.{
  ℕ, zero, suc, ◌+◌, ◌≤◌, ◌≡◌, refl, sym, ◌∙◌, true, false, not, inl, inr, Bool, Bool-cases, some,
  String, List, [], ◌∷◌, any, map, select, length, take, ◌==◌, if◌then◌else◌, arith,
}
use flying_shuttle.Prelude.Int.{ℤ, pos, ltb_ℤ, pos_part}
use flying_shuttle.Prelude.Sort.{sort_by, any-sort_by, length-sort_by}
use flying_shuttle.Model.{Chunk}
use flying_shuttle.Doc.Db.{update_where}
use flying_shuttle.Corpus.Db.{ChunkRow, CorpusDb, is_live, has_id}
use flying_shuttle.Corpus.Chunks.{live_chunks, created_leb}
use flying_shuttle.Corpus.Embeddings.{
  has_embedding, missing_embedding, list_chunks_missing_embedding, count_chunks_missing_embedding,
  set_chunk_embedding, with_embedding,
}
use flying_shuttle.Indexer.Backfill.{Floats, float32s_to_bytes}

abbrev pub missing_of : List ChunkRow → List Chunk
missing_of rows = select (λ c. not (has_embedding c)) (map (λ r. r.chunk) (select is_live rows))

abbrev pub hit : String → List Chunk → ℕ
hit id cs = if any (λ c. c.id == id) cs then 1 else 0

-- A vector for an id takes its chunk off the backlog.
less-missing :
    (id : String) (b : ℕ) (bs : List ℕ) (rows : List ChunkRow)
    → length (missing_of (update_where (has_id id) (with_embedding (some (b ∷ bs))) rows))
        + hit id (missing_of rows)
      ≤ length (missing_of rows)
less-missing id b bs [] = omega arith
less-missing id b bs (r ∷ rows) =
    let rest = less-missing id b bs rows in
    elim (Bool-cases (has_id id r)) [
      | inr e ↦ elim (Bool-cases (is_live r)) [
        | inr l ↦ rw (e, l) rest
        | inl l ↦ elim (Bool-cases (has_embedding r.chunk)) [
          | inl h ↦ rw (e, l, h) rest
          | inr h ↦ rw (e, l, h, e) (omega (arith, rest))
        ]
      ]
      | inl e ↦ elim (Bool-cases (is_live r)) [
        | inr l ↦ rw (e, l) rest
        | inl l ↦ elim (Bool-cases (has_embedding r.chunk)) [
          | inl h ↦ rw (e, l, h) rest
          | inr h ↦ rw (e, l, h, e) (ground (arith, rest))
        ]
      ]
    ]

hit-none :
    (id : String) (rows : List ChunkRow)
    → any (has_id id) rows ≡ false
    → any (λ c. c.id == id) (missing_of rows) ≡ false
hit-none id [] h = refl
hit-none id (r ∷ rows) h =
    let e : has_id id r ≡ false = ground arith in
    let rest = hit-none id rows (ground arith) in
    elim (Bool-cases (is_live r)) [
      | inr l ↦ rw l rest
      | inl l ↦ elim (Bool-cases (has_embedding r.chunk)) [
        | inl k ↦ rw (l, k) rest
        | inr k ↦ rw (l, k, e) rest
      ]
    ]

pub set-backlog :
    (id : String) (f : ℕ) (fs : Floats) (db : CorpusDb)
    → count_chunks_missing_embedding
          (set_chunk_embedding id (some (float32s_to_bytes (f ∷ fs))) db).1
        + hit id (missing_embedding db)
      ≤ count_chunks_missing_embedding db
unfolding set_chunk_embedding count_chunks_missing_embedding missing_embedding live_chunks
    float32s_to_bytes
set-backlog id f fs db = elim (Bool-cases (any (has_id id) db.chunks)) [
  | inl e ↦
      rw (count_chunks_missing_embedding, missing_embedding, live_chunks, set_chunk_embedding, e)
        (less-missing id _ _ db.chunks)
  | inr e ↦
      let zero_hit = hit-none id db.chunks e in
      rw
        (
          count_chunks_missing_embedding, missing_embedding, live_chunks, set_chunk_embedding, e,
          zero_hit,
        )
        (omega arith)
]

-- What stands first in a batch is on the backlog.
pub listed-missing :
    (limit : ℤ) (p : Chunk → Bool) (db : CorpusDb)
    → any p (list_chunks_missing_embedding limit db) ≡ true
    → any p (missing_embedding db) ≡ true
unfolding list_chunks_missing_embedding
listed-missing limit p db h =
    sym (any-sort_by created_leb p (missing_embedding db))
    ∙ go (sort_by created_leb (missing_embedding db)) h
  where
    front : (n : ℕ) (cs : List Chunk) → any p (take n cs) ≡ true → any p cs ≡ true
    front zero cs k = absurd (cc k)
    front (suc n) [] k = absurd (cc k)
    front (suc n) (c ∷ cs) k = ground (arith, k, front n cs)

    go :
        (cs : List Chunk)
        → any p (if ltb_ℤ (pos 0) limit then take (pos_part limit) cs else cs) ≡ true
        → any p cs ≡ true
    go cs k = elim (Bool-cases (ltb_ℤ (pos 0) limit)) [
      | inl e ↦ front (pos_part limit) cs (rw e at k)
      | inr e ↦ (rw e at k)
    ]

-- An empty batch means an empty backlog.
pub listed-none :
    (b : ℕ) (db : CorpusDb)
    → list_chunks_missing_embedding (pos (suc b)) db ≡ []
    → count_chunks_missing_embedding db ≡ 0
unfolding list_chunks_missing_embedding count_chunks_missing_embedding
listed-none b db h =
    sym (length-sort_by created_leb (missing_embedding db))
    ∙ go (sort_by created_leb (missing_embedding db)) h
  where
    go :
        (cs : List Chunk)
        → (if ltb_ℤ (pos 0) (pos (suc b)) then take (suc b) cs else cs) ≡ []
        → length cs ≡ 0
    go [] k = refl
    go (c ∷ cs) k =
        let positive : ltb_ℤ (pos 0) (pos (suc b)) ≡ true = ground arith in
        absurd (cc (rw positive at k))
