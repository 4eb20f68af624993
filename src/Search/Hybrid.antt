-- ===== src/Search/Hybrid.antt =====
-- The parts of internal/search that add to the index: tokenize (bm25.go), tokenizeWithPositions
-- (locate.go), passage.go, and the methods of HybridIndex (hybrid.go). The classes of runes and the
-- lower case (unicode, strings) and the graph of the vectors (hnsw) are arguments.
use Prim.Native.Char.{Char}
use Prim.Native.String.{◌++◌ as ◌++ˢ◌}
use flying_shuttle.Prelude.{
  ℕ, zero, suc, ◌+◌, take, drop, String, Bool, true, Option, none, some, List, [], ◌∷◌, ◌++◌,
  length, leb, if◌then◌else◌,
}
use flying_shuttle.Text.{is_empty, show_ℕ}
use flying_shuttle.Text.Runes.{runes, of_runes, slice}
use flying_shuttle.Model.{Chunk}
use flying_shuttle.Corpus.Embeddings.{has_embedding}
use flying_shuttle.Indexer.Backfill.{Floats, bytes_to_float32s}
use flying_shuttle.Search.Bm25.{Bm25Index, add}

-- What the index calls: unicode.IsLetter or IsDigit, unicode.ToLower, strings.ToLower, and Add and Lookup of
-- the graph.
pub record Externals (Graph : Type 0) : Type 0 where
  pub is_word : Char → Bool
  pub lower_rune : Char → Char
  pub to_lower : String → String
  pub graph_add : String → Floats → Graph → Graph
  pub graph_has : String → Graph → Bool

pub record HybridIndex (Graph : Type 0) : Type 0 where
  pub bm25 : Bm25Index
  pub vector : Graph
  pub passages : Bm25Index
  pub dirty : Bool

pub record Token : Type 0 where
  pub term : String
  pub start : ℕ
  pub finish : ℕ

pub record Passage : Type 0 where
  pub start : ℕ
  pub finish : ℕ
  pub text : String

-- The token that is open at the rune i, if there is one.
abbrev pub flushed_token : Option ℕ → String → ℕ → List Token
flushed_token none b i = []
flushed_token (some start) b i = record { term = b; start = start; finish = i } ∷ []

abbrev pub opened : Option ℕ → ℕ → Option ℕ
opened none i = some i
opened (some start) i = some start

abbrev pub passage_words : ℕ
passage_words = 55

abbrev pub passage_stride_words : ℕ
passage_stride_words = 40

-- The end of the last token.
unfoldable pub last_end : ℕ → List Token → ℕ
last_end e [] = e
last_end e (t ∷ ts) = last_end t.finish ts

-- The windows over the tokens that are left. Each takes a token at least, so their count is fuel enough.
unfoldable pub passages_from : ℕ → List Char → List Token → List Passage
unfolding last_end slice
passages_from zero content toks = []
passages_from (suc fuel) content [] = []
passages_from (suc fuel) content (t ∷ ts) =
    let e = last_end t.finish (take passage_words (t ∷ ts)) in
    let p : Passage = record {
      start = t.start;
      finish = e;
      text = of_runes (slice t.start e content);
    } in
    let rest = passages_from fuel content (drop passage_stride_words (t ∷ ts)) in
    p ∷ (if leb (length (t ∷ ts)) passage_words then [] else rest)

abbrev pub passage_id : String → Passage → String
passage_id chunk_id p = chunk_id ++ˢ ("\0" ++ˢ (show_ℕ p.start ++ˢ ("\0" ++ˢ show_ℕ p.finish)))

module _ {Graph : Type 0} (x : Externals Graph) where
  -- The word that the text begins with, and those behind it.
  unfoldable pub words_of : String → String × List String
  words_of String.[] = ("", [])
  words_of (String.◌∷◌ c s) =
      let (w, ws) = words_of s in
      if x.is_word c then (String.◌∷◌ c w, ws) else ("", if is_empty w then ws else w ∷ ws)

  unfoldable pub tokenize : String → List String
  unfolding words_of
  tokenize text = let (w, ws) = words_of (x.to_lower text) in if is_empty w then ws else w ∷ ws

  unfoldable pub tokens_from : Option ℕ → String → ℕ → List Char → List Token
  tokens_from start b i [] = flushed_token start b i
  tokens_from start b i (c ∷ cs) =
      let rest =
        tokens_from (if x.is_word c then opened start i else none)
          (if x.is_word c then b ++ˢ String.◌∷◌ (x.lower_rune c) String.[] else "") (i + 1) cs in
      if x.is_word c then rest else flushed_token start b i ++ rest

  unfoldable pub chunk_passages : String → List Passage
  unfolding tokens_from passages_from
  chunk_passages content =
      let toks = tokens_from none "" 0 (runes content) in
      passages_from (length toks) (runes content) toks

  unfoldable pub add_passages : String → List Passage → Bm25Index → Bm25Index
  unfolding add tokenize
  add_passages chunk_id [] idx = idx
  add_passages chunk_id (p ∷ ps) idx =
      add_passages chunk_id ps (add tokenize (passage_id chunk_id p) p.text idx)

  abbrev pub index_passages : String → String → HybridIndex Graph → HybridIndex Graph
  index_passages chunk_id content h = record h {
    passages = add_passages chunk_id (chunk_passages content) h.passages;
  }

  abbrev pub stored_vector : Chunk → Floats
  stored_vector c = bytes_to_float32s (elim c.embedding_vec [ none ↦ [] | some bytes ↦ bytes ])

  unfoldable pub index_chunk : Chunk → HybridIndex Graph → HybridIndex Graph
  unfolding add tokenize add_passages chunk_passages
  index_chunk c h = record h {
    bm25 = add tokenize c.id c.content h.bm25;
    passages = add_passages c.id (chunk_passages c.content) h.passages;
    vector = if has_embedding c then x.graph_add c.id (stored_vector c) h.vector else h.vector;
    dirty = true;
  }

  abbrev pub set_chunk_vector : String → Floats → HybridIndex Graph → HybridIndex Graph
  set_chunk_vector id vec h = record h { vector = x.graph_add id vec h.vector; dirty = true }

  unfoldable pub rebuild_passages : List Chunk → HybridIndex Graph → HybridIndex Graph
  unfolding add_passages chunk_passages
  rebuild_passages [] h = h
  rebuild_passages (c ∷ cs) h = rebuild_passages cs (index_passages c.id c.content h)
