-- ===== src/Indexer/Drained.antt =====
-- The backfill (internal/indexer/backfill.go) comes to an end.
use flying_shuttle.Prelude.{
  ℕ, zero, suc, ◌+◌, ◌≤◌, ◌<◌, ◌≡◌, refl, true, false, inl, inr, Bool, Bool-cases, Option, some,
  String, List, [], ◌∷◌, All, any, map, length, nat_eq, ◌==◌, eq_refl, if◌then◌else◌, arith,
}
use flying_shuttle.Prelude.Int.{pos}
use flying_shuttle.Prelude.Result.{Result, ok, err, wrong_count}
use flying_shuttle.Text.Runes.Join.{IsCons}
use flying_shuttle.Model.{Chunk}
use flying_shuttle.Corpus.Db.{CorpusDb}
use flying_shuttle.Corpus.Embeddings.{
  missing_embedding, list_chunks_missing_embedding, count_chunks_missing_embedding,
  set_chunk_embedding,
}
use flying_shuttle.Indexer.Backfill.{
  Floats, Drain, stopped, broken, emptied, float32s_to_bytes, store_vectors, pass_chunks, pass,
  drain_backlog,
}
use flying_shuttle.Indexer.Backlog.{hit, set-backlog, listed-missing, listed-none}

module _ {Index : Type 0} (set_chunk_vector : String → Floats → Index → Index)
    (embed : ℕ → List String → Result (List Floats)) (cancelled : ℕ → Bool) (b : ℕ) where
  store_vectors-backlog :
      (cs : List Chunk) (vecs : List Floats) (w : CorpusDb × Index)
      → count_chunks_missing_embedding
          (store_vectors set_chunk_vector embed cancelled (suc b) cs vecs w).1.0
        ≤ count_chunks_missing_embedding w.0
  unfolding store_vectors
  store_vectors-backlog [] vecs w = omega arith
  store_vectors-backlog (c ∷ cs) [] w = omega arith
  store_vectors-backlog (c ∷ cs) ([] ∷ vecs) w = store_vectors-backlog cs vecs w
  store_vectors-backlog (c ∷ cs) ((f ∷ fs) ∷ vecs) (db, index) =
      let out = set_chunk_embedding c.id (some (float32s_to_bytes (f ∷ fs))) db in
      let index' = set_chunk_vector c.id (f ∷ fs) index in
      go out.0 out.1 index' (omega (arith, set-backlog c.id f fs db))
        (store_vectors-backlog cs vecs (out.1, index'))
    where
      go :
          (r : Result (Unit {0})) (db' : CorpusDb) (index' : Index)
          → count_chunks_missing_embedding db' ≤ count_chunks_missing_embedding db
          → count_chunks_missing_embedding
              (store_vectors set_chunk_vector embed cancelled (suc b) cs vecs (db', index')).1.0
            ≤ count_chunks_missing_embedding db'
          → count_chunks_missing_embedding
              (let out : Result (Unit {0}) × (CorpusDb × Index) = elim r [
                | ok _ ↦
                    store_vectors set_chunk_vector embed cancelled (suc b) cs vecs (db', index')
                | err e ↦ (err e, (db', index))
              ] in
                out).1.0
            ≤ count_chunks_missing_embedding db
      go (ok _) db' index' first rest = omega (arith, first, rest)
      go (err e) db' index' first rest = first

  -- A chunk of the backlog that is given a vector makes it shorter.
  store_vectors-shorter :
      (c : Chunk) (cs : List Chunk) (f : ℕ) (fs : Floats) (vecs : List Floats)
      (w : CorpusDb × Index)
      → hit c.id (missing_embedding w.0) ≡ 1
      → count_chunks_missing_embedding
          (store_vectors set_chunk_vector embed cancelled (suc b) (c ∷ cs) ((f ∷ fs) ∷ vecs) w).1.0
        < count_chunks_missing_embedding w.0
  unfolding store_vectors
  store_vectors-shorter c cs f fs vecs (db, index) h =
      let out = set_chunk_embedding c.id (some (float32s_to_bytes (f ∷ fs))) db in
      let index' = set_chunk_vector c.id (f ∷ fs) index in
      go out.0 out.1 index' (omega (arith, set-backlog c.id f fs db, h))
        (store_vectors-backlog cs vecs (out.1, index'))
    where
      go :
          (r : Result (Unit {0})) (db' : CorpusDb) (index' : Index)
          → count_chunks_missing_embedding db' < count_chunks_missing_embedding db
          → count_chunks_missing_embedding
              (store_vectors set_chunk_vector embed cancelled (suc b) cs vecs (db', index')).1.0
            ≤ count_chunks_missing_embedding db'
          → count_chunks_missing_embedding
              (let out : Result (Unit {0}) × (CorpusDb × Index) = elim r [
                | ok _ ↦
                    store_vectors set_chunk_vector embed cancelled (suc b) cs vecs (db', index')
                | err e ↦ (err e, (db', index))
              ] in
                out).1.0
            < count_chunks_missing_embedding db
      go (ok _) db' index' first rest = omega (arith, first, rest)
      go (err e) db' index' first rest = first

  -- A pass fails, or finds the backlog empty, or makes it shorter.
  abbrev Passed : CorpusDb × Index → Result ℕ × (CorpusDb × Index) → Type 0
  Passed w (err e, w') = Unit
  Passed w (ok zero, w') = count_chunks_missing_embedding w'.0 ≡ 0
  Passed w (ok (suc n), w') =
      count_chunks_missing_embedding w'.0 < count_chunks_missing_embedding w.0

  abbrev Full : Type 0
  Full =
      (i : ℕ) (texts : List String) (vecs : List Floats) → embed i texts ≡ ok vecs → All IsCons vecs

  pass_chunks-Passed :
      Full
      → (i : ℕ) (c : Chunk) (cs : List Chunk) (w : CorpusDb × Index)
      → hit c.id (missing_embedding w.0) ≡ 1
      → Passed w (pass_chunks set_chunk_vector embed cancelled (suc b) i (c ∷ cs) w)
  unfolding pass_chunks
  pass_chunks-Passed full i c cs w first = answered (embed i (map (λ d. d.content) (c ∷ cs))) refl
    where
      stored :
          (vecs : List Floats)
          → All IsCons vecs
          → nat_eq (length vecs) (length (c ∷ cs)) ≡ true
          → count_chunks_missing_embedding
              (store_vectors set_chunk_vector embed cancelled (suc b) (c ∷ cs) vecs w).1.0
            < count_chunks_missing_embedding w.0
      stored [] k e = absurd (ground arith)
      stored ([] ∷ vecs) k e = absurd k.0
      stored ((f ∷ fs) ∷ vecs) k e = store_vectors-shorter c cs f fs vecs w first

      ended :
          (r : Result (Unit {0})) (w' : CorpusDb × Index)
          → count_chunks_missing_embedding w'.0 < count_chunks_missing_embedding w.0
          → Passed w (
              let out : Result ℕ × (CorpusDb × Index) = elim r [
                | ok _ ↦ (ok (length (c ∷ cs)), w')
                | err e ↦ (err e, w')
              ] in
              out)
      ended (ok _) w' h = h
      ended (err e) w' h = tt

      answered :
          (r : Result (List Floats))
          → embed i (map (λ d. d.content) (c ∷ cs)) ≡ r
          → Passed w (
              let out : Result ℕ × (CorpusDb × Index) = elim r [
                | err e ↦ (err e, w)
                | ok vecs ↦
                    if nat_eq (length vecs) (length (c ∷ cs))
                    then (let (stored, w') =
                          store_vectors set_chunk_vector embed cancelled (suc b) (c ∷ cs) vecs w in
                        elim stored [ ok _ ↦ (ok (length (c ∷ cs)), w') | err e ↦ (err e, w') ])
                    else (err wrong_count, w)
              ] in
              out)
      answered (err e) k = tt
      answered (ok vecs) k = elim (Bool-cases (nat_eq (length vecs) (length (c ∷ cs)))) [
        | inr e ↦ rw e tt
        | inl e ↦ rw e (ended _ _ (stored vecs (full i _ vecs k) e))
      ]

  pass-Passed :
      Full
      → (i : ℕ) (w : CorpusDb × Index)
      → Passed w (pass set_chunk_vector embed cancelled (suc b) i w)
  unfolding pass pass_chunks
  pass-Passed full i w = go (list_chunks_missing_embedding (pos (suc b)) w.0) refl
    where
      go :
          (cs : List Chunk)
          → list_chunks_missing_embedding (pos (suc b)) w.0 ≡ cs
          → Passed w (pass_chunks set_chunk_vector embed cancelled (suc b) i cs w)
      go [] e = listed-none b w.0 e
      go (c ∷ cs) e =
          let here : any (λ d. d.id == c.id) (list_chunks_missing_embedding (pos (suc b)) w.0)
              ≡ true =
            rw (e, eq_refl c.id) refl in
          let first : hit c.id (missing_embedding w.0) ≡ 1 =
            rw (listed-missing (pos (suc b)) (λ d. d.id == c.id) w.0 here) refl in
          pass_chunks-Passed full i c cs w first

  -- A drain that says that the backlog is empty leaves none.
  abbrev pub IsDrained : Drain (CorpusDb × Index) → Type 0
  IsDrained (stopped w) = Unit
  IsDrained (broken e w) = Unit
  IsDrained (emptied w) = count_chunks_missing_embedding w.0 ≡ 0

  -- With an embedder that never returns an empty vector, and a positive batch, a drain comes to an end
  -- after at most one pass more than there are chunks without a vector, whatever else the embedder
  -- does; and where it ends because there is nothing more to do, no chunk is without a vector.
  pub drain_backlog-IsDrained :
      ((i : ℕ) (texts : List String) (vecs : List Floats)
        → embed i texts ≡ ok vecs
        → All IsCons vecs)
      → (fuel i : ℕ) (w : CorpusDb × Index) → count_chunks_missing_embedding w.0 < fuel
      → (out : Drain (CorpusDb × Index)) × (drain_backlog set_chunk_vector embed cancelled
            (suc b)
            fuel
            i
            w
          ≡ some out)
        × IsDrained out
  unfolding drain_backlog
  drain_backlog-IsDrained full zero i w h = absurd (ground arith)
  drain_backlog-IsDrained full (suc fuel) i w h = elim (Bool-cases (cancelled i)) [
    | inl e ↦ (stopped w, rw (drain_backlog, e) refl, tt)
    | inr e ↦
        let out = pass set_chunk_vector embed cancelled (suc b) i w in
        rw (drain_backlog, e)
          (go out.0 out.1 (pass-Passed full i w)
            (λ less. drain_backlog-IsDrained full fuel (i + 1) out.1 (omega (arith, less, h))))
  ]
    where
      go :
          (done : Result ℕ) (w' : CorpusDb × Index)
          → Passed w (done, w')
          → (count_chunks_missing_embedding w'.0 < count_chunks_missing_embedding w.0
              → (out : Drain (CorpusDb × Index)) × (drain_backlog set_chunk_vector embed cancelled
                    (suc b)
                    fuel
                    (i + 1)
                    w'
                  ≡ some out)
                × IsDrained out)
          → (out : Drain (CorpusDb × Index)) × ((let result : Option (Drain (CorpusDb × Index)) =
                  elim done [
                    | err e ↦ some (broken e w')
                    | ok n ↦
                        if nat_eq n 0
                        then some (emptied w')
                        else drain_backlog set_chunk_vector embed cancelled (suc b) fuel (i + 1) w'
                  ] in
                result)
              ≡ some out)
            × IsDrained out
      go (err e) w' p rest = (broken e w', refl, tt)
      go (ok zero) w' p rest = (emptied w', refl, p)
      go (ok (suc n)) w' p rest =
          let more : nat_eq (suc n) 0 ≡ false = ground arith in rw more (rest p)
