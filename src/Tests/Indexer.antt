-- ===== src/Tests/Indexer.antt =====
-- The theorems of the indexer at concrete inputs.
use flying_shuttle.Prelude.{
  not, nat_eq, any, ◌==◌, ◌||◌, ℕ, ◌≡◌, refl, true, false, none, some, List, [], ◌∷◌, String, map,
  arith,
}
use flying_shuttle.Prelude.Result.{Result, ok}
use flying_shuttle.Text.Runes.Join.{IsCons}
use flying_shuttle.Prelude.{All}
use flying_shuttle.Corpus.Db.{CorpusDb}
use flying_shuttle.Corpus.Embeddings.{count_chunks_missing_embedding}
use flying_shuttle.Indexer.Backfill.{
  Floats, Drain, float32s_to_bytes, bytes_to_float32s, drain_backlog,
}
use flying_shuttle.Indexer.Drained.{IsDrained, drain_backlog-IsDrained}
use flying_shuttle.Indexer.Endless.{no_vectors, never, drain_backlog-endless}
use flying_shuttle.Indexer.Floats.{float32s_to_bytes-bytes_to_float32s}
use Prim.Native.Char.{code}
use flying_shuttle.Search.Bm25.{add, new_bm25_index}
use flying_shuttle.Search.Counted.{IsCounted, add-IsCounted}
use flying_shuttle.Search.Hybrid.{Externals, HybridIndex, tokenize, chunk_passages}
use flying_shuttle.Indexer.Reconcile.{indexed, load_and_reconcile, has-load_and_reconcile}
use flying_shuttle.Corpus.Reads.{holds}
use flying_shuttle.Corpus.Chunks.{live_chunks}
use flying_shuttle.Tests.Corpus.{stocked, stocked-IsCorpus}
use flying_shuttle.Text.Runes.{runes, of_runes, slice}
use flying_shuttle.Indexer.Snapshots.{
  Flusher, idle, saving_bm25, saving_vector, FlushStep, FlushSteps, Saved, steps-Saved,
}

-- The ids of the chunks that have a vector, and an embedder with one float for each text.
abbrev note : String → Floats → List String → List String
note id v ids = id ∷ ids

abbrev one_float : ℕ → List String → Result (List Floats)
one_float i texts = ok (map (λ t. 7 ∷ []) texts)

one_float-IsCons :
    (i : ℕ) (texts : List String) (vecs : List Floats)
    → one_float i texts ≡ ok vecs
    → All IsCons vecs
one_float-IsCons i texts vecs h = given texts vecs (unwrapped h)
  where
    unwrapped : {a b : List Floats} → ok a ≡ ok b → a ≡ b
    unwrapped e = cc e

    given : (ts : List String) (vs : List Floats) → map (λ t. 7 ∷ []) ts ≡ vs → All IsCons vs
    given [] [] e = tt
    given [] (v ∷ vs) e = absurd (cc e)
    given (t ∷ ts) [] e = absurd (cc e)
    given (t ∷ ts) ([] ∷ vs) e = absurd (cc e)
    given (t ∷ ts) ((f ∷ fs) ∷ vs) e = (tt, given ts vs (cc e))

drain_backlog-IsDrained_example :
    (out : Drain (CorpusDb × List String)) × (drain_backlog note one_float never 16 3 0
        (stocked, [])
      ≡ some out)
    × IsDrained note one_float never 15 out
unfolding count_chunks_missing_embedding
drain_backlog-IsDrained_example =
    drain_backlog-IsDrained note one_float never 15 one_float-IsCons 3 0 (stocked, []) (omega arith)

drain_backlog-endless_example : drain_backlog note no_vectors never 16 9 0 (stocked, []) ≡ none
unfolding count_chunks_missing_embedding
drain_backlog-endless_example = drain_backlog-endless note 15 9 0 (stocked, []) (omega arith)

float32s_to_bytes-bytes_to_float32s_example :
    bytes_to_float32s (float32s_to_bytes (1065353216 ∷ [])) ≡ 1065353216 ∷ []
float32s_to_bytes-bytes_to_float32s_example =
    float32s_to_bytes-bytes_to_float32s (1065353216 ∷ []) (omega arith, tt)

abbrev clean : Flusher
clean = record {
  bm25 = 1;
  vector = 1;
  dirty = false;
  unmarked = 0;
  phase = idle;
  bm25_file = 1;
  vector_file = 1;
}

-- A change is marked, and a flush writes both files.
abbrev changed : Flusher
changed = record clean { bm25 = 2; vector = 3; unmarked = 1 }

abbrev marked : Flusher
marked = record changed { dirty = true; unmarked = 0 }

abbrev begun : Flusher
begun = record marked { dirty = false; phase = saving_bm25 }

abbrev halfway : Flusher
halfway = record begun { bm25_file = 2; phase = saving_vector }

abbrev flushed : Flusher
flushed = record halfway { vector_file = 3; phase = idle }

abbrev flush_steps : FlushSteps true clean flushed
flush_steps = FlushSteps.there clean changed flushed (FlushStep.change clean 2 3) (
    FlushSteps.there changed marked flushed (FlushStep.mark changed 0 refl) (
      FlushSteps.there marked begun flushed (FlushStep.begin marked refl refl) (
        FlushSteps.there begun halfway flushed (FlushStep.bm25_saved begun refl) (
          FlushSteps.there halfway flushed flushed (FlushStep.vector_saved halfway refl)
            (FlushSteps.here flushed)))))

steps-Saved_example : Saved true flushed
steps-Saved_example =
    steps-Saved true clean flushed (refl, λ p. refl) refl flush_steps refl refl refl

-- A graph that is the list of the ids in it, and runes of which all but the blank are letters.
abbrev listed : Externals (List String)
listed = record {
  is_word = λ c. not (nat_eq (code c) 32);
  lower_rune = λ c. c;
  to_lower = λ s. s;
  graph_add = λ id v ids. id ∷ ids;
  graph_has = λ id ids. any (λ j. j == id) ids;
}

abbrev blank_index : HybridIndex (List String)
blank_index = record {
  bm25 = new_bm25_index;
  vector = [];
  passages = new_bm25_index;
  dirty = false;
}

-- The snapshot holds a chunk that is not in the corpus.
abbrev loaded : HybridIndex (List String) → HybridIndex (List String)
loaded h = record h { bm25 = add (tokenize listed) "z" "old text" h.bm25 }

has-load_and_reconcile_example :
    indexed listed "q" (load_and_reconcile listed loaded stocked blank_index)
    ≡ (indexed listed "q" (loaded blank_index) || holds "q" (live_chunks stocked))
has-load_and_reconcile_example =
    has-load_and_reconcile listed loaded stocked blank_index stocked-IsCorpus "q"

add-IsCounted_example :
    IsCounted
      (add (tokenize listed) "z" "new text" (add (tokenize listed) "z" "old" new_bm25_index))
add-IsCounted_example =
    add-IsCounted (tokenize listed) "z" "new text" (add (tokenize listed) "z" "old" new_bm25_index)
      (add-IsCounted (tokenize listed) "z" "old" new_bm25_index (tt, refl, refl))

add_run :
    (add (tokenize listed) "z" "a b a" new_bm25_index).postings
    ≡ ("b", ("z", 1) ∷ []) ∷ ("a", ("z", 2) ∷ []) ∷ []
unfolding add tokenize
add_run = refl

-- A passage of three words.
chunk_passages_run :
    chunk_passages listed "one two three"
    ≡ record { start = 0; finish = 13; text = "one two three" } ∷ []
unfolding chunk_passages runes of_runes slice
chunk_passages_run = refl
