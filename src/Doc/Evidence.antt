-- ===== src/Doc/Evidence.antt =====
-- The evidence methods of SQLiteStore (internal/doc/sqlite.go).
use Prim.Native.String.{compare}
use Prim.Native.Nat.{Ordering}
use flying_shuttle.Prelude.{
  ℕ, String, Bool, true, false, List, any, map, select, nat_eq, ◌==◌, if◌then◌else◌,
}
use flying_shuttle.Prelude.Int.{ltb_ℤ, eq_ℤ}
use flying_shuttle.Prelude.Sort.{sort_by}
use flying_shuttle.Prelude.Result.{ok, err, not_found}
use flying_shuttle.Model.{Evidence}
use flying_shuttle.Doc.Stamp.{rfc3339_nano, strftime_millis, text_leb}
use flying_shuttle.Doc.Db.{Db, EvidenceRow, insert_evidence, delete_where, update_where}
use flying_shuttle.Doc.Action.{Action, pure, exec, ◌>>◌}

-- nz: an empty id is replaced by the one that uuid.NewString draws.
unfoldable pub nz : String → String → String
nz new_id id = if id == "" then new_id else id

-- The row that CreateEvidence writes. A creation time of 0 stands for Go's zero time, for which
-- formatTimeOrEmpty is "" and the column is filled in by strftime.
unfoldable pub created_evidence : ℕ → String → Evidence → EvidenceRow
unfolding nz
created_evidence now new_id e =
    let id = nz new_id e.id in
    if nat_eq e.created_at 0
    then record { row = record e { id = id; created_at = now }; by_strftime = true }
    else record { row = record e { id = id }; by_strftime = false }

unfoldable pub create_evidence : ℕ → String → Evidence → Action Evidence
unfolding created_evidence insert_evidence
create_evidence now new_id e = do
  exec (insert_evidence (created_evidence now new_id e))
  pure (record e { id = nz new_id e.id })

unfoldable pub update_evidence : Evidence → Action (Unit {0})
update_evidence e db =
    if any (λ r. r.row.id == e.id) db.evidence
    then (
      ok tt,
      record db {
        evidence =
            update_where (λ r. r.row.id == e.id)
              (λ r. record r {
                row = record (r.row) {
                  char_start = e.char_start;
                  char_end = e.char_end;
                  text = e.text;
                  edited = e.edited;
                };
              })
              db.evidence;
      },
    )
    else (err not_found, db)

-- The text of the created_at column.
unfoldable pub created_text : EvidenceRow → List ℕ
unfolding rfc3339_nano strftime_millis
created_text r =
    if r.by_strftime then strftime_millis r.row.created_at else rfc3339_nano r.row.created_at

-- ORDER BY position, created_at
unfoldable pub position_leb : EvidenceRow → EvidenceRow → Bool
unfolding created_text text_leb
position_leb a b =
    if ltb_ℤ a.row.position b.row.position
    then true
    else if eq_ℤ a.row.position b.row.position
    then text_leb (created_text a) (created_text b)
    else false

-- ORDER BY node_id, position, created_at
unfoldable pub node_position_leb : EvidenceRow → EvidenceRow → Bool
unfolding position_leb
node_position_leb a b = elim (compare a.row.node_id b.row.node_id) [
  | Ordering.lt ↦ true
  | Ordering.eq ↦ position_leb a b
  | Ordering.gt ↦ false
]

unfoldable pub list_node_evidence : Db → String → List Evidence
unfolding position_leb
list_node_evidence db node_id =
    map (λ r. r.row) (sort_by position_leb (select (λ r. r.row.node_id == node_id) db.evidence))

unfoldable pub list_all_evidence : Db → List Evidence
unfolding node_position_leb
list_all_evidence db = map (λ r. r.row) (sort_by node_position_leb db.evidence)

unfoldable pub delete_evidence : String → Action (Unit {0})
delete_evidence id db =
    if any (λ r. r.row.id == id) db.evidence
    then (ok tt, record db { evidence = delete_where (λ r. r.row.id == id) db.evidence })
    else (err not_found, db)

unfoldable pub delete_node_evidence : String → Action (Unit {0})
delete_node_evidence node_id db =
    (ok tt, record db { evidence = delete_where (λ r. r.row.node_id == node_id) db.evidence })
