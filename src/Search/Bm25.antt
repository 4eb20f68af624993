-- ===== src/Search/Bm25.antt =====
-- internal/search/bm25.go: the inverted index of the keywords. A map is a list of keys and values in which
-- a key stands once; the order means nothing. The average length is total over num_docs and is left to the
-- ranking, which is not modelled.
use flying_shuttle.Prelude.{
  ℕ, ◌+◌, ◌-◌, String, Bool, not, List, [], ◌∷◌, any, select, length, ◌==◌, if◌then◌else◌,
}

-- A map, keys tested by ==.
module _ {A : Type 0} where
  abbrev pub has_key : String → List (String × A) → Bool
  has_key k m = any (λ kv. kv.0 == k) m

  unfoldable pub value_of : String → A → List (String × A) → A
  value_of k default [] = default
  value_of k default (kv ∷ m) = let rest = value_of k default m in if kv.0 == k then kv.1 else rest

  abbrev pub delete_key : String → List (String × A) → List (String × A)
  delete_key k m = select (λ kv. not (kv.0 == k)) m

  abbrev pub put : String → A → List (String × A) → List (String × A)
  put k v m = (k, v) ∷ delete_key k m

pub record Bm25Index : Type 0 where
  pub total : ℕ
  pub doc_len : List (String × ℕ)
  pub postings : List (String × List (String × ℕ))
  pub num_docs : ℕ

abbrev pub new_bm25_index : Bm25Index
new_bm25_index = record { total = 0; doc_len = []; postings = []; num_docs = 0 }

-- freq
unfoldable pub frequencies : List String → List (String × ℕ) → List (String × ℕ)
unfolding value_of
frequencies [] freq = freq
frequencies (t ∷ ts) freq = frequencies ts (put t (value_of t 0 freq + 1) freq)

unfoldable pub post :
    String
    → List (String × ℕ)
    → List (String × List (String × ℕ))
    → List (String × List (String × ℕ))
unfolding value_of
post id [] postings = postings
post id (tc ∷ freq) postings =
    post id freq (put tc.0 (put id tc.1 (value_of tc.0 [] postings)) postings)

-- The postings without a document, and without the terms that were in it alone.
unfoldable pub unpost :
    String → List (String × List (String × ℕ)) → List (String × List (String × ℕ))
unpost id [] = []
unpost id (td ∷ postings) =
    let rest = unpost id postings in
    let docs = delete_key id td.1 in
    if has_key id td.1 then elim docs [ [] ↦ rest | d ∷ ds ↦ (td.0, d ∷ ds) ∷ rest ] else td ∷ rest

unfoldable pub remove : String → Bm25Index → Bm25Index
unfolding value_of unpost
remove id idx =
    if has_key id idx.doc_len
    then record {
      total = idx.total - value_of id 0 idx.doc_len;
      doc_len = delete_key id idx.doc_len;
      postings = unpost id idx.postings;
      num_docs = idx.num_docs - 1;
    }
    else idx

abbrev pub has : String → Bm25Index → Bool
has id idx = has_key id idx.doc_len

abbrev pub added : String → List String → Bm25Index → Bm25Index
added id tokens idx = record {
  total = idx.total + length tokens;
  doc_len = put id (length tokens) idx.doc_len;
  postings = post id (frequencies tokens []) idx.postings;
  num_docs = idx.num_docs + 1;
}

unfoldable pub add : (String → List String) → String → String → Bm25Index → Bm25Index
unfolding remove frequencies post
add tokenize id text idx = added id (tokenize text) (if has id idx then remove id idx else idx)
