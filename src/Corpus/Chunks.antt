-- ===== src/Corpus/Chunks.antt =====
-- The chunk methods of internal/corpus/sqlite.go.
use flying_shuttle.Prelude.{
  ℕ, zero, suc, String, Bool, true, false, ◌&&◌, none, some, List, [], ◌∷◌, ◌++◌, map, any, find,
  select, length, take, drop, ◌==◌, if◌then◌else◌,
}
use flying_shuttle.Prelude.Int.{ℤ, eq_ℤ, leb_ℤ}
use flying_shuttle.Prelude.Sort.{sort_by}
use flying_shuttle.Prelude.Result.{Result, ok, err, not_found, each}
use flying_shuttle.Model.{Chunk}
use flying_shuttle.Doc.Db.{update_where}
use flying_shuttle.Doc.Stamp.{stamp_leb}
use flying_shuttle.Corpus.Db.{
  ChunkRow, CorpusDb, Method, committed, is_live, has_id, insert_chunk, page,
}

abbrev pub created_chunk : ℕ → Chunk → ChunkRow
created_chunk now c = record { chunk = record c { created_at = now }; deleted_at = none }

unfoldable pub create_chunk : ℕ → Chunk → Method (Unit {0})
unfolding insert_chunk
create_chunk now c db = committed (insert_chunk (created_chunk now c) db) db

-- One transaction.
unfoldable pub create_chunks : ℕ → List Chunk → Method (Unit {0})
unfolding insert_chunk
create_chunks now cs db = committed (each insert_chunk (map (created_chunk now) cs) db) db

abbrev pub of_source : String → ChunkRow → Bool
of_source source_file r = r.chunk.source_file == source_file && is_live r

unfoldable pub soft_deleted : ℕ → String → CorpusDb → CorpusDb
soft_deleted now source_file db = record db {
  chunks = update_where (of_source source_file) (λ r. record r { deleted_at = some now }) db.chunks;
}

unfoldable pub soft_delete_chunks_by_source_file : ℕ → String → Method ℕ
unfolding soft_deleted
soft_delete_chunks_by_source_file now source_file db =
    (ok (length (select (of_source source_file) db.chunks)), soft_deleted now source_file db)

-- (found, deleted)
unfoldable pub resolve_chunk : String → CorpusDb → Bool × Bool
resolve_chunk id db = elim (find (has_id id) db.chunks) [
  | none ↦ (false, false)
  | some r ↦ (true, elim r.deleted_at [ none ↦ false | some t ↦ true ])
]

-- (content, deleted, found)
unfoldable pub chunk_content_any_state : String → CorpusDb → String × Bool × Bool
chunk_content_any_state id db = elim (find (has_id id) db.chunks) [
  | none ↦ ("", false, false)
  | some r ↦ (r.chunk.content, elim r.deleted_at [ none ↦ false | some t ↦ true ], true)
]

unfoldable pub get_chunk : String → CorpusDb → Result Chunk
get_chunk id db = elim (find (λ r. r.chunk.id == id && is_live r) db.chunks) [
  | none ↦ err not_found
  | some r ↦ ok r.chunk
]

-- The chunks of the live rows.
unfoldable pub live_chunks : CorpusDb → List Chunk
live_chunks db = map (λ r. r.chunk) (select is_live db.chunks)

abbrev pub created_leb : Chunk → Chunk → Bool
created_leb a b = stamp_leb a.created_at b.created_at

unfoldable pub list_chunks : CorpusDb → List Chunk
unfolding live_chunks
list_chunks db = sort_by created_leb (live_chunks db)

-- ORDER BY start_offset, created_at
unfoldable pub offset_leb : Chunk → Chunk → Bool
offset_leb a b =
    if eq_ℤ a.start_offset b.start_offset
    then created_leb a b
    else leb_ℤ a.start_offset b.start_offset

unfoldable pub list_chunks_by_source_file : String → CorpusDb → List Chunk
unfolding offset_leb live_chunks
list_chunks_by_source_file source_file db =
    sort_by offset_leb (select (λ c. c.source_file == source_file) (live_chunks db))

unfoldable pub list_chunks_page : ℤ → ℤ → CorpusDb → List Chunk × ℕ
unfolding page list_chunks live_chunks
list_chunks_page limit offset db = (page limit offset (list_chunks db), length (live_chunks db))

unfoldable pub list_chunk_ids : CorpusDb → List String
unfolding live_chunks
list_chunk_ids db = map (λ c. c.id) (live_chunks db)

abbrev pub wanted : List String → Chunk → Bool
wanted ids c = any (λ id. c.id == id) ids

abbrev pub batch : ℕ
batch = 500

-- The loop of GetChunksByIDs, a query for each batch of ids; the length of the list is fuel enough.
unfoldable pub batches : ℕ → List String → CorpusDb → List Chunk
unfolding live_chunks
batches zero ids db = []
batches (suc fuel) [] db = []
batches (suc fuel) (id ∷ ids) db =
    select (wanted (take batch (id ∷ ids))) (live_chunks db)
    ++ batches fuel (drop batch (id ∷ ids)) db

unfoldable pub get_chunks_by_ids : List String → CorpusDb → List Chunk
unfolding batches
get_chunks_by_ids ids db = batches (length ids) ids db
