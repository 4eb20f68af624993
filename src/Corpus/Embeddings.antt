-- ===== src/Corpus/Embeddings.antt =====
-- The embedding vectors of the chunks, and the settings (internal/corpus/sqlite.go).
use flying_shuttle.Prelude.{
  ℕ, ◌/◌, String, Bool, true, false, not, Option, none, some, List, [], ◌∷◌, map, any, find, select,
  length, take, ◌==◌, if◌then◌else◌,
}
use flying_shuttle.Prelude.Int.{ℤ, pos, ltb_ℤ, pos_part}
use flying_shuttle.Prelude.Sort.{sort_by}
use flying_shuttle.Prelude.Result.{ok, err, not_found}
use flying_shuttle.Model.{Chunk}
use flying_shuttle.Doc.Db.{update_where}
use flying_shuttle.Corpus.Db.{ChunkRow, CorpusDb, Method, has_id}
use flying_shuttle.Corpus.Chunks.{created_leb, live_chunks}

-- embedding_vec IS NOT NULL AND length(embedding_vec) > 0
abbrev pub has_embedding : Chunk → Bool
has_embedding c = elim c.embedding_vec [
  | none ↦ false
  | some v ↦ elim v [ [] ↦ false | b ∷ bs ↦ true ]
]

abbrev pub not_null : Option (List ℕ) → Bool
not_null none = false
not_null (some v) = true

unfoldable pub list_chunk_ids_with_embedding : CorpusDb → List String
unfolding live_chunks
list_chunk_ids_with_embedding db = map (λ c. c.id) (select has_embedding (live_chunks db))

unfoldable pub missing_embedding : CorpusDb → List Chunk
unfolding live_chunks
missing_embedding db = select (λ c. not (has_embedding c)) (live_chunks db)

unfoldable pub list_chunks_missing_embedding : ℤ → CorpusDb → List Chunk
unfolding missing_embedding
list_chunks_missing_embedding limit db =
    let all = sort_by created_leb (missing_embedding db) in
    if ltb_ℤ (pos 0) limit then take (pos_part limit) all else all

unfoldable pub count_chunks_missing_embedding : CorpusDb → ℕ
unfolding missing_embedding
count_chunks_missing_embedding db = length (missing_embedding db)

abbrev pub with_embedding : Option (List ℕ) → ChunkRow → ChunkRow
with_embedding vec r = record r { chunk = record r.chunk { embedding_vec = vec } }

unfoldable pub set_chunk_embedding : String → Option (List ℕ) → Method (Unit {0})
set_chunk_embedding id vec db =
    if any (has_id id) db.chunks
    then (ok tt, record db { chunks = update_where (has_id id) (with_embedding vec) db.chunks })
    else (err not_found, db)

unfoldable pub clear_all_embeddings : Method ℕ
clear_all_embeddings db = (
  ok (length (select (λ r. not_null r.chunk.embedding_vec) db.chunks)),
  record db {
    chunks = update_where (λ r. not_null r.chunk.embedding_vec) (with_embedding none) db.chunks;
  },
)

-- Four bytes make a float32.
unfoldable pub sample_embedding_dim : CorpusDb → ℕ
unfolding live_chunks
sample_embedding_dim db = elim (find (λ c. not_null c.embedding_vec) (live_chunks db)) [
  | none ↦ 0
  | some c ↦ elim c.embedding_vec [ none ↦ 0 | some v ↦ length v / 4 ]
]

unfoldable pub get_meta : String → CorpusDb → String
get_meta key db = elim (find (λ kv. kv.0 == key) db.meta) [ none ↦ "" | some kv ↦ kv.1 ]

-- INSERT … ON CONFLICT(key) DO UPDATE
unfoldable pub upsert : String → String → List (String × String) → List (String × String)
upsert key value [] = (key, value) ∷ []
upsert key value (kv ∷ rest) =
    let later = upsert key value rest in if kv.0 == key then (key, value) ∷ rest else kv ∷ later

unfoldable pub set_meta : String → String → Method (Unit {0})
unfolding upsert
set_meta key value db = (ok tt, record db { meta = upsert key value db.meta })
