-- ===== src/Doc/Branches.antt =====
-- The branch methods of SQLiteStore (internal/doc/sqlite.go). CreateBranch, DeleteBranch and SwitchBranch
-- read before they begin their transaction. `seen` holds what those queries have found, each table at the
-- time of its query: other calls can come between them and the transaction, which runs on `db`.
pub mod Rows
pub mod Split
use flying_shuttle.Prelude.{
  ℕ, String, Bool, true, false, Option, none, some, List, [], any, find, map, length, nat_eq, ◌==◌,
  if◌then◌else◌,
}
use flying_shuttle.Prelude.Sort.{sort_by}
use flying_shuttle.Prelude.Result.{Result, ok, err, not_found, active_branch, ◌>>=◌}
use flying_shuttle.Model.{SnapshotData, Branch, BranchSummary}
use flying_shuttle.Doc.Stamp.{stamp_leb}
use flying_shuttle.Doc.Db.{Db, insert_branch, delete_where, update_where}
use flying_shuttle.Doc.Action.{Action, exec}
use flying_shuttle.Doc.State.{gather_dag_state, clear_dag_tables, restore_dag_state}

abbrev pub branch_summary : Branch → BranchSummary
branch_summary b = record {
  id = b.id;
  name = b.name;
  active = b.active;
  created_at = b.created_at;
  updated_at = b.updated_at;
}

abbrev pub new_branch : ℕ → String → String → Bool → SnapshotData → Branch
new_branch now id name active dag = record {
  id = id;
  name = name;
  snapshot = dag;
  active = active;
  created_at = now;
  updated_at = now;
}

-- UPDATE branches SET data = ?, active = 0, updated_at = ? WHERE active = 1
unfoldable pub depart : ℕ → SnapshotData → Db → Db
depart now dag db = record db {
  branches =
      update_where (λ b. b.active)
        (λ b. record b { snapshot = dag; active = false; updated_at = now }) db.branches;
}

-- The transaction of CreateBranch; the first split also makes the inactive "main".
unfoldable pub create_branch_tx : ℕ → String → String → String → SnapshotData → Db → Result Db
unfolding depart insert_branch
create_branch_tx now main_id new_id name dag db = do
  db₁ ←
      if nat_eq (length db.branches) 0
      then insert_branch (new_branch now main_id "main" false dag) db
      else ok (depart now dag db)
  insert_branch (new_branch now new_id name true dag) db₁

unfoldable pub create_branch : Db → ℕ → String → String → String → Action BranchSummary
unfolding create_branch_tx gather_dag_state
create_branch seen now main_id new_id name db =
    let dag = gather_dag_state seen in
    elim (create_branch_tx now main_id new_id name dag db) [
      | ok db' ↦ (ok (branch_summary (new_branch now new_id name true dag)), db')
      | err e ↦ (err e, db)
    ]

unfoldable pub get_branch : String → Db → Result Branch
get_branch id db = elim (find (λ b. b.id == id) db.branches) [
  | none ↦ err not_found
  | some b ↦ ok b
]

abbrev pub branch_leb : Branch → Branch → Bool
branch_leb a b = stamp_leb a.created_at b.created_at

unfoldable pub list_branches : Db → List BranchSummary
list_branches db = map branch_summary (sort_by branch_leb db.branches)

unfoldable pub renamed : ℕ → String → String → Db → Db
renamed now id name db = record db {
  branches =
      update_where (λ b. b.id == id) (λ b. record b { name = name; updated_at = now }) db.branches;
}

-- After the UPDATE the row is read again.
unfoldable pub update_branch : ℕ → String → String → Action BranchSummary
unfolding renamed get_branch
update_branch now id name db =
    if any (λ b. b.id == id) db.branches
    then (
      (get_branch id (renamed now id name db) >>= λ b. ok (branch_summary b)),
      renamed now id name db,
    )
    else (err not_found, db)

-- When one branch is left, there are none.
unfoldable pub without_branch : String → Db → Db
without_branch id db =
    let rows = delete_where (λ b. b.id == id) db.branches in
    record db { branches = if nat_eq (length rows) 1 then [] else rows }

unfoldable pub delete_branch : Db → String → Action (Unit {0})
unfolding without_branch
delete_branch seen id db = elim (find (λ b. b.id == id) seen.branches) [
  | none ↦ (err not_found, db)
  | some b ↦ if b.active then (err active_branch, db) else (ok tt, without_branch id db)
]

-- UPDATE branches SET active = 1, updated_at = ? WHERE id = ?. No other row is active then, so the
-- index on the active row is not violated.
unfoldable pub activate : ℕ → String → Db → Db
activate now id db = record db {
  branches =
      update_where (λ b. b.id == id) (λ b. record b { active = true; updated_at = now })
        db.branches;
}

unfoldable pub switch_tx : (ℕ → String) → ℕ → SnapshotData → Branch → Db → Result Db
unfolding depart clear_dag_tables restore_dag_state activate
switch_tx uuid now dag target db =
    restore_dag_state uuid now target.snapshot (clear_dag_tables (depart now dag db)) >>= λ db'.
    ok (activate now target.id db')

unfoldable pub switch_branch : Db → (ℕ → String) → ℕ → String → Action (Unit {0})
unfolding switch_tx gather_dag_state
switch_branch seen uuid now id db = elim (find (λ b. b.id == id) seen.branches) [
  | none ↦ (err not_found, db)
  | some b ↦
      if b.active then (ok tt, db) else exec (switch_tx uuid now (gather_dag_state seen) b) db
]

-- `none` where no branch is active: GetActiveBranch returns nil and no error.
unfoldable pub get_active_branch : Db → Option BranchSummary
get_active_branch db = elim (find (λ b. b.active) db.branches) [
  | none ↦ none
  | some b ↦ some (record (branch_summary b) { active = true })
]
