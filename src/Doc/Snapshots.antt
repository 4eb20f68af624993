-- ===== src/Doc/Snapshots.antt =====
-- The snapshot methods of SQLiteStore (internal/doc/sqlite.go). The data column holds the JSON text
-- of a `SnapshotData`, which reads back as it was written, so the model keeps the value. `seen` holds what
-- CreateSnapshot and RestoreSnapshot have read before they write, as in Doc/Branches.
use flying_shuttle.Prelude.{ℕ, String, Bool, none, some, List, any, find, map, ◌==◌, if◌then◌else◌}
use flying_shuttle.Prelude.Sort.{sort_by}
use flying_shuttle.Prelude.Result.{Result, ok, err, not_found}
use flying_shuttle.Model.{Snapshot, SnapshotSummary}
use flying_shuttle.Doc.Stamp.{stamp_leb}
use flying_shuttle.Doc.Db.{Db, insert_snapshot, delete_where}
use flying_shuttle.Doc.Action.{Action, pure, exec, query, ◌>>=◌, ◌>>◌}
use flying_shuttle.Doc.State.{gather_dag_state, import_tx}

abbrev pub summary : Snapshot → SnapshotSummary
summary s = record { id = s.id; label = s.label; created_at = s.created_at }

unfoldable pub taken : ℕ → String → String → Db → Snapshot
unfolding gather_dag_state
taken now new_id label db = record {
  id = new_id;
  label = label;
  snapshot = gather_dag_state db;
  created_at = now;
}

unfoldable pub create_snapshot : Db → ℕ → String → String → Action SnapshotSummary
unfolding taken insert_snapshot
create_snapshot seen now new_id label = do
  exec (insert_snapshot (taken now new_id label seen))
  pure (record { id = new_id; label = label; created_at = now })

unfoldable pub get_snapshot : String → Db → Result Snapshot
get_snapshot id db = elim (find (λ s. s.id == id) db.snapshots) [
  | none ↦ err not_found
  | some s ↦ ok s
]

-- ORDER BY created_at DESC
abbrev pub newest_leb : Snapshot → Snapshot → Bool
newest_leb a b = stamp_leb b.created_at a.created_at

unfoldable pub list_snapshots : Db → List SnapshotSummary
list_snapshots db = map summary (sort_by newest_leb db.snapshots)

unfoldable pub delete_snapshot : String → Action (Unit {0})
delete_snapshot id db =
    if any (λ s. s.id == id) db.snapshots
    then (ok tt, record db { snapshots = delete_where (λ s. s.id == id) db.snapshots })
    else (err not_found, db)

unfoldable pub restore_snapshot : Db → (ℕ → String) → ℕ → String → Action (Unit {0})
unfolding get_snapshot import_tx
restore_snapshot seen uuid now id = do
  s ← query (λ _. get_snapshot id seen)
  exec (import_tx uuid now s.snapshot)
