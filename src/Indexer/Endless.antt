-- ===== src/Indexer/Endless.antt =====
-- The backfill (internal/indexer/backfill.go) with an embedder that has no vectors.
use flying_shuttle.Prelude.{
  ℕ, zero, suc, ◌+◌, ◌<◌, ◌≡◌, refl, ap, true, false, Bool, none, String, List, [], ◌∷◌, map,
  length, nat_eq, arith,
}
use flying_shuttle.Prelude.Int.{pos}
use flying_shuttle.Prelude.Result.{Result, ok}
use flying_shuttle.Model.{Chunk}
use flying_shuttle.Corpus.Db.{CorpusDb}
use flying_shuttle.Corpus.Embeddings.{list_chunks_missing_embedding, count_chunks_missing_embedding}
use flying_shuttle.Indexer.Backfill.{Floats, store_vectors, pass_chunks, pass, drain_backlog}
use flying_shuttle.Indexer.Backlog.{listed-none}

-- An answer of the right length, each vector of which is empty.
abbrev pub no_vectors : ℕ → List String → Result (List Floats)
no_vectors i texts = ok (map (λ t. []) texts)

abbrev pub never : ℕ → Bool
never i = false

module _ {Index : Type 0} (set_chunk_vector : String → Floats → Index → Index) (b : ℕ) where
  store_vectors-none :
      (cs : List Chunk) (w : CorpusDb × Index)
      → store_vectors set_chunk_vector no_vectors never
          (suc b)
          cs
          (map (λ t. []) (map (λ (d : Chunk). d.content) cs))
          w
        ≡ (ok tt, w)
  unfolding store_vectors
  store_vectors-none [] w = refl
  store_vectors-none (c ∷ cs) w = store_vectors-none cs w

  same_length :
      (cs : List Chunk)
      → nat_eq (length (map {B = Floats} (λ t. []) (map (λ (d : Chunk). d.content) cs))) (length cs)
        ≡ true
  same_length [] = refl
  same_length (c ∷ cs) = ground (arith, same_length cs)

  pass-same :
      (i : ℕ) (w : CorpusDb × Index)
      → 0 < count_chunks_missing_embedding w.0
      → (n : ℕ) × (pass set_chunk_vector no_vectors never (suc b) i w ≡ (ok (suc n), w))
  unfolding pass pass_chunks
  pass-same i w h = go (list_chunks_missing_embedding (pos (suc b)) w.0) refl
    where
      go :
          (cs : List Chunk)
          → list_chunks_missing_embedding (pos (suc b)) w.0 ≡ cs
          → (n : ℕ) × (pass_chunks set_chunk_vector no_vectors never (suc b) i cs w
              ≡ (ok (suc n), w))
      go [] e = absurd (omega (arith, listed-none b w.0 e, h))
      go (c ∷ cs) e =
          let stored = store_vectors-none (c ∷ cs) w in
          (
            length cs,
            rw (pass_chunks, same_length (c ∷ cs), ap (λ p. p.0) stored, ap (λ p. p.1) stored) refl,
          )

  -- While the embedder answers every batch with empty vectors and the context is not cancelled, a drain
  -- of a backlog that is not empty does not end: no number of passes is enough.
  pub drain_backlog-endless :
      (fuel i : ℕ) (w : CorpusDb × Index)
      → 0 < count_chunks_missing_embedding w.0
      → drain_backlog set_chunk_vector no_vectors never (suc b) fuel i w ≡ none
  unfolding drain_backlog
  drain_backlog-endless zero i w h = refl
  drain_backlog-endless (suc fuel) i w h =
      let (n, same) = pass-same i w h in
      let more : nat_eq (suc n) 0 ≡ false = ground arith in
      rw (drain_backlog, ap (λ p. p.0) same, ap (λ p. p.1) same, more)
        (drain_backlog-endless fuel (i + 1) w h)
