-- ===== src/Corpus/Uploads.antt =====
-- The methods of internal/corpus/sqlite.go for uploads and transcript segments.
use flying_shuttle.Prelude.{
  ℕ, String, Bool, none, some, List, any, find, select, length, ◌==◌, if◌then◌else◌,
}
use flying_shuttle.Prelude.Int.{ℤ, leb_ℤ}
use flying_shuttle.Prelude.Sort.{sort_by}
use flying_shuttle.Prelude.Result.{Result, ok, err, not_found}
use flying_shuttle.Model.{Upload, UploadStatus, pending, TranscriptSegment}
use flying_shuttle.Doc.Db.{update_where}
use flying_shuttle.Doc.Stamp.{stamp_leb}
use flying_shuttle.Corpus.Db.{CorpusDb, Method, committed, insert_upload, insert_segment, page}

abbrev pub created_upload : ℕ → Upload → Upload
created_upload now u = record u { status = pending; created_at = now; updated_at = now }

unfoldable pub create_upload : ℕ → Upload → Method (Unit {0})
unfolding insert_upload
create_upload now u db = committed (insert_upload (created_upload now u) db) db

unfoldable pub get_upload : String → CorpusDb → Result Upload
get_upload id db = elim (find (λ u. u.id == id) db.uploads) [ none ↦ err not_found | some u ↦ ok u ]

-- ORDER BY created_at DESC
abbrev pub newest_upload_leb : Upload → Upload → Bool
newest_upload_leb a b = stamp_leb b.created_at a.created_at

unfoldable pub list_uploads : CorpusDb → List Upload
list_uploads db = sort_by newest_upload_leb db.uploads

unfoldable pub list_uploads_page : ℤ → ℤ → CorpusDb → List Upload × ℕ
unfolding page list_uploads
list_uploads_page limit offset db = (page limit offset (list_uploads db), length db.uploads)

unfoldable pub update_upload_status : ℕ → String → UploadStatus → String → Method (Unit {0})
update_upload_status now id status message db =
    if any (λ u. u.id == id) db.uploads
    then (
      ok tt,
      record db {
        uploads =
            update_where (λ u. u.id == id)
              (λ u. record u { status = status; error = message; updated_at = now }) db.uploads;
      },
    )
    else (err not_found, db)

unfoldable pub create_transcript_segment : ℕ → TranscriptSegment → Method (Unit {0})
unfolding insert_segment
create_transcript_segment now s db =
    committed (insert_segment (record s { created_at = now }) db) db

abbrev pub start_leb : TranscriptSegment → TranscriptSegment → Bool
start_leb a b = leb_ℤ a.start_ms b.start_ms

unfoldable pub list_transcript_segments : String → CorpusDb → List TranscriptSegment
list_transcript_segments upload_id db =
    sort_by start_leb (select (λ s. s.upload_id == upload_id) db.segments)
