-- ===== src/Indexer/Reconcile.antt =====
-- LoadAndReconcile (internal/indexer/reconcile.go): the search index at startup. The
-- files of the snapshots are the argument `load`, the index that they leave.
use flying_shuttle.Prelude.{
  ◌≡◌, refl, sym, ap, ◌∙◌, true, false, not, inl, inr, Bool, Bool-cases, ◌&&◌, ◌||◌, String, List,
  [], ◌∷◌, map, select, ◌==◌, eq_iff, if◌then◌else◌, arith,
}
use flying_shuttle.Prelude.Distinct.{any-map}
use flying_shuttle.Model.{Chunk}
use flying_shuttle.Corpus.Db.{CorpusDb}
use flying_shuttle.Corpus.Chunks.{list_chunk_ids, get_chunks_by_ids, live_chunks}
use flying_shuttle.Corpus.Embeddings.{list_chunk_ids_with_embedding, has_embedding}
use flying_shuttle.Corpus.Valid.{IsCorpus}
use flying_shuttle.Corpus.Reads.{holds, asked, get_chunks_by_ids_lem}
use flying_shuttle.Search.Bm25.{has}
use flying_shuttle.Search.Counted.{has-add}
use flying_shuttle.Search.Hybrid.{
  Externals, HybridIndex, tokenize, index_chunk, index_passages, stored_vector, set_chunk_vector,
  rebuild_passages,
}

module _ {Graph : Type 0} (x : Externals Graph) where
  abbrev pub indexed : String → HybridIndex Graph → Bool
  indexed id index = has id index.bm25

  unfoldable pub index_all : List Chunk → HybridIndex Graph → HybridIndex Graph
  index_all [] index = index
  index_all (c ∷ cs) index = index_all cs (index_chunk x c index)

  -- A chunk that the keyword index has not.
  unfoldable pub reconcile_chunks : CorpusDb → HybridIndex Graph → HybridIndex Graph
  unfolding index_all
  reconcile_chunks db index =
      index_all (get_chunks_by_ids (select (λ id. not (indexed id index)) (list_chunk_ids db)) db)
        index

  unfoldable pub restore_vectors : List Chunk → HybridIndex Graph → HybridIndex Graph
  restore_vectors [] index = index
  restore_vectors (c ∷ cs) index =
      restore_vectors cs
        (if has_embedding c then set_chunk_vector x c.id (stored_vector x c) index else index)

  unfoldable pub reconcile_vectors : CorpusDb → HybridIndex Graph → HybridIndex Graph
  unfolding restore_vectors
  reconcile_vectors db index =
      restore_vectors
        (get_chunks_by_ids
          (select (λ id. not (x.graph_has id index.vector)) (list_chunk_ids_with_embedding db)) db)
        index

  -- The passages are built anew, unless there are no chunks.
  unfoldable pub reconcile_passages : CorpusDb → HybridIndex Graph → HybridIndex Graph
  reconcile_passages db index = elim (list_chunk_ids db) [
    | [] ↦ index
    | id ∷ ids ↦ rebuild_passages x (get_chunks_by_ids (id ∷ ids) db) index
  ]

  unfoldable pub load_and_reconcile :
      ((HybridIndex Graph) → (HybridIndex Graph)) → CorpusDb → HybridIndex Graph → HybridIndex Graph
  unfolding reconcile_chunks reconcile_vectors reconcile_passages
  load_and_reconcile load db index =
      reconcile_passages db (reconcile_vectors db (reconcile_chunks db (load index)))

  has-index_chunk :
      (id : String) (c : Chunk) (index : HybridIndex Graph)
      → indexed id (index_chunk x c index) ≡ ((c.id == id) || indexed id index)
  unfolding index_chunk
  has-index_chunk id c index = has-add (tokenize x) id c.id c.content index.bm25

  has-rebuild_passages :
      (id : String) (cs : List Chunk) (index : HybridIndex Graph)
      → indexed id (rebuild_passages x cs index) ≡ indexed id index
  unfolding rebuild_passages
  has-rebuild_passages id [] index = refl
  has-rebuild_passages id (c ∷ cs) index =
      has-rebuild_passages id cs (index_passages x c.id c.content index)

  has-index_all :
      (id : String) (cs : List Chunk) (index : HybridIndex Graph)
      → indexed id (index_all cs index) ≡ (holds id cs || indexed id index)
  unfolding index_all
  has-index_all id [] index = refl
  has-index_all id (c ∷ cs) index =
      has-index_all id cs (index_chunk x c index)
      ∙ ap (λ b. holds id cs || b) (has-index_chunk id c index)
      ∙ swap (holds id cs) (c.id == id) (indexed id index)
    where
      swap : (a b c : Bool) → (a || (b || c)) ≡ ((b || a) || c)
      swap a b c = ground arith

  has-restore_vectors :
      (id : String) (cs : List Chunk) (index : HybridIndex Graph)
      → indexed id (restore_vectors cs index) ≡ indexed id index
  unfolding restore_vectors
  has-restore_vectors id [] index = refl
  has-restore_vectors id (c ∷ cs) index =
      has-restore_vectors id cs _
      ∙ elim (Bool-cases (has_embedding c)) [ inl e ↦ rw e refl | inr e ↦ rw e refl ]

  has-reconcile_vectors :
      (id : String) (db : CorpusDb) (index : HybridIndex Graph)
      → indexed id (reconcile_vectors db index) ≡ indexed id index
  unfolding reconcile_vectors
  has-reconcile_vectors id db index =
      has-restore_vectors id
        (get_chunks_by_ids
          (select (λ j. not (x.graph_has j index.vector)) (list_chunk_ids_with_embedding db)) db)
        index

  has-reconcile_passages :
      (id : String) (db : CorpusDb) (index : HybridIndex Graph)
      → indexed id (reconcile_passages db index) ≡ indexed id index
  unfolding reconcile_passages
  has-reconcile_passages id db index = go (list_chunk_ids db)
    where
      go :
          (ids : List String)
          → indexed id (
              let out : HybridIndex Graph = elim ids [
                | [] ↦ index
                | j ∷ js ↦ rebuild_passages x (get_chunks_by_ids (j ∷ js) db) index
              ] in
              out)
            ≡ indexed id index
      go [] = refl
      go (j ∷ js) = has-rebuild_passages id (get_chunks_by_ids (j ∷ js) db) index

  asked-missing :
      (id : String) (index : HybridIndex Graph) (ids : List String)
      → asked id (select (λ j. not (indexed j index)) ids)
        ≡ (asked id ids && not (indexed id index))
  asked-missing id index [] = refl
  asked-missing id index (j ∷ ids) = elim (Bool-cases (j == id)) [
    | inl e ↦
        let same : indexed j index ≡ indexed id index =
          ap (λ k. indexed k index) ((eq_iff j id).0 e) in
        elim (Bool-cases (indexed j index)) [
          | inl h ↦
              let h' : indexed id index ≡ true = sym same ∙ h in
              rw (h, e, h', asked-missing id index ids, h') (ground arith)
          | inr h ↦ let h' : indexed id index ≡ false = sym same ∙ h in rw (h, e, h') refl
        ]
    | inr e ↦ elim (Bool-cases (indexed j index)) [
      | inl h ↦ rw (h, e) (asked-missing id index ids)
      | inr h ↦ rw (h, e) (asked-missing id index ids)
    ]
  ]

  asked-ids : (id : String) (cs : List Chunk) → asked id (map (λ c. c.id) cs) ≡ holds id cs
  asked-ids id cs = any-map (λ (c : Chunk). c.id) (λ j. j == id) (λ c. c.id == id) (λ c. refl) cs

  -- After the reconciliation of a valid corpus, the keyword index has a chunk if and only if the
  -- index loaded from the snapshot had it or it is a live chunk of the corpus.
  pub has-load_and_reconcile :
      (load : (HybridIndex Graph) → (HybridIndex Graph)) (db : CorpusDb) (index : HybridIndex Graph)
      → IsCorpus db
      → (id : String)
      → indexed id (load_and_reconcile load db index)
        ≡ (indexed id (load index) || holds id (live_chunks db))
  unfolding load_and_reconcile reconcile_chunks reconcile_vectors list_chunk_ids
  has-load_and_reconcile load db index v id =
      has-reconcile_passages id db (reconcile_vectors db (reconcile_chunks db (load index)))
      ∙ has-reconcile_vectors id db (reconcile_chunks db (load index))
      ∙ has-index_all id (get_chunks_by_ids missing db) (load index)
      ∙ ap (λ b. b || indexed id (load index))
          ((get_chunks_by_ids_lem missing db v).1 id
            ∙ ap (λ b. b && holds id (live_chunks db))
                (asked-missing id (load index) (list_chunk_ids db)
                  ∙ ap (λ b. b && not (indexed id (load index))) (asked-ids id (live_chunks db))))
      ∙ either (holds id (live_chunks db)) (indexed id (load index))
    where
      missing : List String
      missing = select (λ j. not (indexed j (load index))) (list_chunk_ids db)

      either : (a b : Bool) → (((a && not b) && a) || b) ≡ (b || a)
      either a b = ground arith
