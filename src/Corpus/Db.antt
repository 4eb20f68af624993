-- ===== src/Corpus/Db.antt =====
-- The tables of internal/corpus/migrations. Each is the list of its rows in insertion order, which is
-- the order in which SQLite leaves rows that ORDER BY ties or does not order. A statement fails by a
-- constraint only: a driver that fails for other reasons is left out, and so is a database that
-- cannot be opened or migrated. The one connection makes every method run alone.
use flying_shuttle.Prelude.{
  ℕ, String, Bool, true, false, Option, none, some, List, [], any, take, drop, ◌==◌, if◌then◌else◌,
}
use flying_shuttle.Prelude.Int.{ℤ, pos, ltb_ℤ, pos_part}
use flying_shuttle.Prelude.Result.{Result, ok, err, constraint, ◌>>=◌}
use flying_shuttle.Model.{Chunk, Upload, TranscriptSegment}
use flying_shuttle.Doc.Db.{insert_row}

pub record ChunkRow : Type 0 where
  pub chunk : Chunk
  pub deleted_at : Option ℕ

pub record CorpusDb : Type 0 where
  pub chunks : List ChunkRow
  pub uploads : List Upload
  pub segments : List TranscriptSegment
  pub meta : List (String × String)

abbrev pub empty_corpus : CorpusDb
empty_corpus = record { chunks = []; uploads = []; segments = []; meta = [] }

-- A method: its result, and the database after it.
abbrev pub Method : Type 0 → Type 0
Method A = CorpusDb → Result A × CorpusDb

-- A statement, or a transaction with its deferred rollback: refused, it leaves all as it was.
abbrev pub committed : Result CorpusDb → Method (Unit {0})
committed (ok db') db = (ok tt, db')
committed (err e) db = (err e, db)

-- deleted_at IS NULL
abbrev pub is_live : ChunkRow → Bool
is_live r = elim r.deleted_at [ none ↦ true | some t ↦ false ]

abbrev pub has_id : String → ChunkRow → Bool
has_id id r = r.chunk.id == id

abbrev pub chunk_clash : ChunkRow → ChunkRow → Bool
chunk_clash a b = b.chunk.id == a.chunk.id

abbrev pub upload_clash : Upload → Upload → Bool
upload_clash a b = b.id == a.id

abbrev pub segment_clash : TranscriptSegment → TranscriptSegment → Bool
segment_clash a b = b.id == a.id

abbrev pub meta_clash : String × String → String × String → Bool
meta_clash a b = b.0 == a.0

abbrev pub has_upload : List Upload → String → Bool
has_upload uploads id = any (λ u. u.id == id) uploads

unfoldable pub insert_chunk : ChunkRow → CorpusDb → Result CorpusDb
insert_chunk r db = insert_row chunk_clash r db.chunks >>= λ rows. ok (record db { chunks = rows })

unfoldable pub insert_upload : Upload → CorpusDb → Result CorpusDb
insert_upload u db =
    insert_row upload_clash u db.uploads >>= λ rows. ok (record db { uploads = rows })

unfoldable pub insert_segment : TranscriptSegment → CorpusDb → Result CorpusDb
insert_segment s db =
    if has_upload db.uploads s.upload_id
    then insert_row segment_clash s db.segments >>= (λ rows. ok (record db { segments = rows }))
    else err constraint

-- LIMIT ? OFFSET ?, after the guards of the paged methods: a limit that is not positive is none, and
-- a negative offset is zero.
unfoldable pub page {ℓ} : {A : Type ℓ} → ℤ → ℤ → List A → List A
page limit offset rows =
    let rest = drop (if ltb_ℤ offset (pos 0) then 0 else pos_part offset) rows in
    if ltb_ℤ (pos 0) limit then take (pos_part limit) rest else rest
