-- ===== src/Indexer/Backfill.antt =====
-- The backfill of embeddings (internal/indexer/backfill.go, internal/ingest/embed.go). The embedder, the
-- context and the vector index are arguments: `embed i` is the answer to the i-th batch, `cancelled i`
-- what the context says before it. A float32 is its bits. The ticker and the trigger only say when to
-- drain, and are left out.
use flying_shuttle.Prelude.{
  ℕ, zero, suc, ◌+◌, ◌/◌, ◌%◌, ◌*◌, ◌^◌, String, Bool, Option, none, some, List, [], ◌∷◌, map,
  length, nat_eq, if◌then◌else◌,
}
use flying_shuttle.Prelude.Int.{ℤ, pos, pos_part, leb_ℤ}
use flying_shuttle.Prelude.Result.{Result, ok, err, Err, wrong_count}
use flying_shuttle.Model.{Chunk}
use flying_shuttle.Corpus.Db.{CorpusDb}
use flying_shuttle.Corpus.Embeddings.{list_chunks_missing_embedding, set_chunk_embedding}

abbrev pub Floats : Type 0
Floats = List ℕ

-- Four bytes for each, the lowest first.
unfoldable pub float32s_to_bytes : Floats → List ℕ
float32s_to_bytes [] = []
float32s_to_bytes (f ∷ fs) =
    (f % 256) ∷ (f / 256 % 256) ∷ (f / 256 ^ 2 % 256) ∷ (f / 256 ^ 3 % 256) ∷ float32s_to_bytes fs

-- Bytes that do not make up a float are dropped.
unfoldable pub bytes_to_float32s : List ℕ → Floats
bytes_to_float32s [] = []
bytes_to_float32s (a ∷ []) = []
bytes_to_float32s (a ∷ (b ∷ [])) = []
bytes_to_float32s (a ∷ (b ∷ (c ∷ []))) = []
bytes_to_float32s (a ∷ (b ∷ (c ∷ (d ∷ bs)))) =
    (a + 256 * b + 256 ^ 2 * c + 256 ^ 3 * d) ∷ bytes_to_float32s bs

-- NewBackfiller's default.
abbrev pub batch_size : ℤ → ℕ
batch_size batch = if leb_ℤ batch (pos 0) then 16 else pos_part batch

-- How a drain_backlog ends.
pub data Drain (World : Type 0) : Type 0 where
  stopped : World → Drain World
  broken : Err → World → Drain World
  emptied : World → Drain World

module _ {Index : Type 0} (set_chunk_vector : String → Floats → Index → Index)
    (embed : ℕ → List String → Result (List Floats)) (cancelled : ℕ → Bool) (batch : ℕ) where
  -- The loop of pass over the chunks; a chunk without a vector is passed over.
  unfoldable pub store_vectors :
      List Chunk → List Floats → CorpusDb × Index → Result (Unit {0}) × (CorpusDb × Index)
  unfolding float32s_to_bytes
  store_vectors [] vecs w = (ok tt, w)
  store_vectors (c ∷ cs) [] w = (ok tt, w)
  store_vectors (c ∷ cs) ([] ∷ vecs) w = store_vectors cs vecs w
  store_vectors (c ∷ cs) ((f ∷ fs) ∷ vecs) (db, index) =
      let (stored, db') = set_chunk_embedding c.id (some (float32s_to_bytes (f ∷ fs))) db in
      elim stored [
        | ok _ ↦ store_vectors cs vecs (db', set_chunk_vector c.id (f ∷ fs) index)
        | err e ↦ (err e, (db', index))
      ]

  unfoldable pub pass_chunks : ℕ → List Chunk → CorpusDb × Index → Result ℕ × (CorpusDb × Index)
  unfolding store_vectors
  pass_chunks i [] w = (ok 0, w)
  pass_chunks i (c ∷ cs) w = elim (embed i (map (λ d. d.content) (c ∷ cs))) [
    | err e ↦ (err e, w)
    | ok vecs ↦
        if nat_eq (length vecs) (length (c ∷ cs))
        then (let (stored, w') = store_vectors (c ∷ cs) vecs w in
            elim stored [ ok _ ↦ (ok (length (c ∷ cs)), w') | err e ↦ (err e, w') ])
        else (err wrong_count, w)
  ]

  unfoldable pub pass : ℕ → CorpusDb × Index → Result ℕ × (CorpusDb × Index)
  unfolding pass_chunks
  pass i w = pass_chunks i (list_chunks_missing_embedding (pos batch) w.0) w

  -- `none` where the fuel does not reach.
  unfoldable pub drain_backlog : ℕ → ℕ → CorpusDb × Index → Option (Drain (CorpusDb × Index))
  unfolding pass
  drain_backlog zero i w = none
  drain_backlog (suc fuel) i w =
      let (done, w') = pass i w in
      let rest = drain_backlog fuel (i + 1) w' in
      if cancelled i then some (stopped w) else elim done [
        | err e ↦ some (broken e w')
        | ok n ↦ if nat_eq n 0 then some (emptied w') else rest
      ]
