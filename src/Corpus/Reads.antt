-- ===== src/Corpus/Reads.antt =====
-- What the queries of internal/corpus/sqlite.go return.
use flying_shuttle.Prelude.{
  ℕ, zero, suc, ◌≤◌, ◌≡◌, refl, sym, ap, ◌∙◌, true, false, inl, inr, Bool, ◌&&◌, ◌||◌, Bool-cases,
  some, String, List, [], ◌∷◌, All, All-append, All-map, All-kept, All-imp, any, any-append, find,
  select, length, take, drop, ◌==◌, eq_iff, eq_refl, arith,
}
use flying_shuttle.Prelude.Slices.{length-drop}
use flying_shuttle.Prelude.Distinct.{Distinct}
use flying_shuttle.Prelude.Result.{ok}
use flying_shuttle.Model.{Chunk}
use flying_shuttle.Corpus.Db.{ChunkRow, CorpusDb, is_live, chunk_clash}
use flying_shuttle.Corpus.Chunks.{get_chunk, get_chunks_by_ids, batches, batch, wanted, live_chunks}
use flying_shuttle.Corpus.Valid.{IsCorpus}

-- A chunk of the list has the id.
abbrev pub holds : String → List Chunk → Bool
holds id = any (λ c. c.id == id)

abbrev pub asked : String → List String → Bool
asked id = any (λ j. j == id)

module _ {ℓ} {A : Type ℓ} (p : A → Bool) where
  any-take-drop : (n : ℕ) (xs : List A) → any p xs ≡ (any p (take n xs) || any p (drop n xs))
  any-take-drop zero xs = refl
  any-take-drop (suc n) [] = refl
  any-take-drop (suc n) (x ∷ xs) = ground (arith, any-take-drop n xs)

holds-select :
    (id : String) (ids : List String) (cs : List Chunk)
    → holds id (select (wanted ids) cs) ≡ (asked id ids && holds id cs)
holds-select id ids [] = ground arith
holds-select id ids (c ∷ cs) = elim (Bool-cases (c.id == id)) [
  | inl e ↦
      let same : wanted ids c ≡ asked id ids = wanted-asked ids ((eq_iff c.id id).0 e) in
      ground (arith, holds-select id ids cs)
  | inr e ↦ ground (arith, holds-select id ids cs)
]
  where
    wanted-asked : (js : List String) → c.id ≡ id → wanted js c ≡ asked id js
    wanted-asked [] e = refl
    wanted-asked (j ∷ js) e = ground (arith, wanted-asked js e, e, eq_iff c.id j, eq_iff j id)

holds-batches :
    (id : String) (fuel : ℕ) (ids : List String) (db : CorpusDb)
    → length ids ≤ fuel
    → holds id (batches fuel ids db) ≡ (asked id ids && holds id (live_chunks db))
unfolding batches
holds-batches id zero [] db h = refl
holds-batches id zero (j ∷ ids) db h = absurd (ground arith)
holds-batches id (suc fuel) [] db h = refl
holds-batches id (suc fuel) (j ∷ ids) db h =
    let live = live_chunks db in
    let first = take batch (j ∷ ids) in
    let rest = drop batch (j ∷ ids) in
    let short : length rest ≤ fuel = ground (arith, length-drop batch (j ∷ ids)) in
    let has : Chunk → Bool = λ c. c.id == id in
    any-append has (select (wanted first) live) (batches fuel rest db)
    ∙ rw (holds-select id first live, holds-batches id fuel rest db short)
        (both (asked id first) (asked id rest) (holds id live))
    ∙ ap (λ b. b && holds id live) (sym (any-take-drop (λ k. k == id) batch (j ∷ ids)))
  where
    both : (a b c : Bool) → ((a && c) || (b && c)) ≡ ((a || b) && c)
    both a b c = ground arith

-- In a table of distinct ids, the row looked up by the id of a live row is that row.
lookup-live :
    (rows : List ChunkRow)
    → Distinct chunk_clash rows
    → All
        (λ r. is_live r ≡ true → find (λ s. s.chunk.id == r.chunk.id && is_live s) rows ≡ some r)
        rows
lookup-live [] d = tt
lookup-live (x ∷ xs) d = ((λ l. rw (eq_refl x.chunk.id, l) refl), later xs d.0 (lookup-live xs d.1))
  where
    later :
        (ys : List ChunkRow)
        → All (λ y. chunk_clash x y ≡ false) ys
        → All
            (λ r. is_live r ≡ true → find (λ s. s.chunk.id == r.chunk.id && is_live s) xs ≡ some r)
            ys
        → All
            (λ r.
              is_live r ≡ true
              → find (λ s. s.chunk.id == r.chunk.id && is_live s) (x ∷ xs) ≡ some r)
            ys
    later [] c h = tt
    later (y ∷ ys) c h = (
      (λ l. ground (arith, h.0 l, c.0, eq_iff x.chunk.id y.chunk.id, eq_iff y.chunk.id x.chunk.id)),
      later ys c.1 h.1,
    )

-- A result of the query for a batch, or of all of them, is what GetChunk returns for its id.
abbrev IsLookup : CorpusDb → Chunk → Type 0
IsLookup db c = get_chunk c.id db ≡ ok c

live_chunks-IsLookup : (db : CorpusDb) → IsCorpus db → All (IsLookup db) (live_chunks db)
unfolding live_chunks get_chunk
live_chunks-IsLookup db v =
    All-map (IsLookup db) (λ r. r.chunk) (select is_live db.chunks)
      (All-kept is_live (λ r h l. rw (get_chunk, h l) refl) db.chunks
        (lookup-live db.chunks v.chunks_distinct))

batches-IsLookup :
    (fuel : ℕ) (ids : List String) (db : CorpusDb)
    → IsCorpus db
    → All (λ c. IsLookup db c × (wanted ids c ≡ true)) (batches fuel ids db)
unfolding batches
batches-IsLookup zero ids db v = tt
batches-IsLookup (suc fuel) [] db v = tt
batches-IsLookup (suc fuel) (j ∷ ids) db v =
    All-append (λ c. IsLookup db c × (wanted (j ∷ ids) c ≡ true))
      (select (wanted (take batch (j ∷ ids))) (live_chunks db))
      (batches fuel (drop batch (j ∷ ids)) db)
      (All-kept (wanted (take batch (j ∷ ids))) (λ c h t. (h, wider c t)) (live_chunks db)
        (live_chunks-IsLookup db v))
      (All-imp (λ c h. (h.0, widen c h.1)) (batches fuel (drop batch (j ∷ ids)) db)
        (batches-IsLookup fuel (drop batch (j ∷ ids)) db v))
  where
    or_true : (b : Bool) → (b || true) ≡ true
    or_true b = ground arith

    wider : (c : Chunk) → wanted (take batch (j ∷ ids)) c ≡ true → wanted (j ∷ ids) c ≡ true
    wider c t = any-take-drop (λ k. c.id == k) batch (j ∷ ids) ∙ rw t refl

    widen : (c : Chunk) → wanted (drop batch (j ∷ ids)) c ≡ true → wanted (j ∷ ids) c ≡ true
    widen c t =
        any-take-drop (λ k. c.id == k) batch (j ∷ ids)
        ∙ rw t (or_true (wanted (take batch (j ∷ ids)) c))

-- GetChunksByIDs, whatever number of batches it takes: every chunk that it returns is the one that
-- GetChunk returns for its id, and its id was asked for; and an id is that of a returned chunk if and
-- only if it was asked for and is that of a live chunk.
pub get_chunks_by_ids_lem :
    (ids : List String) (db : CorpusDb)
    → IsCorpus db
    → All
        (λ c. (get_chunk c.id db ≡ ok c) × (any (λ id. c.id == id) ids ≡ true))
        (get_chunks_by_ids ids db)
      × ((id : String)
          → holds id (get_chunks_by_ids ids db) ≡ (asked id ids && holds id (live_chunks db)))
unfolding get_chunks_by_ids
get_chunks_by_ids_lem ids db v = (
  batches-IsLookup (length ids) ids db v,
  λ id. holds-batches id (length ids) ids db (omega arith),
)
