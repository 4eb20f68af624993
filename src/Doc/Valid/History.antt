-- ===== src/Doc/Valid/History.antt =====
-- Validity over the calls of the store (internal/doc/store.go) and over their histories.
use flying_shuttle.Prelude.{
  ℕ, refl, true, false, inl, inr, Bool, Bool-cases, Option-cases, List, [], ◌∷◌, any, if◌then◌else◌,
  String, ◌==◌, find, length, nat_eq,
}
use flying_shuttle.Prelude.Int.{ℤ}
use flying_shuttle.Prelude.Result.{Result, ok, err}
use flying_shuttle.Model.{BranchSummary, SnapshotSummary, Snapshot, SnapshotData, ThreadNode}
use flying_shuttle.Doc.Db.{
  Db, insert_node, insert_edge, insert_thread, insert_thread_node, insert_evidence, insert_snapshot,
  insert_branch, delete_where,
}
use flying_shuttle.Doc.Action.{exec, pure, continue, ◌>>◌}
use flying_shuttle.Doc.Nodes.{
  same_version, updated_node, delete_node, update_node, create_node, created_node,
}
use flying_shuttle.Doc.Edges.{
  move_tx, move_node, create_edge, delete_edge, parent_link, behind, link,
}
use flying_shuttle.Doc.Evidence.{
  nz, create_evidence, created_evidence, update_evidence, delete_evidence, delete_node_evidence,
}
use flying_shuttle.Doc.Threads.{
  create_thread, update_thread, delete_thread, set_thread_nodes, thread_nodes_tx, created_thread,
}
use flying_shuttle.Doc.State.{import_state, import_tx, clear_dag_tables, gather_dag_state}
use flying_shuttle.Doc.Snapshots.{
  create_snapshot, delete_snapshot, restore_snapshot, get_snapshot, taken,
}
use flying_shuttle.Doc.Branches.{
  create_branch, create_branch_tx, update_branch, delete_branch, switch_branch, switch_tx, depart,
  new_branch, branch_summary,
}
use flying_shuttle.Doc.Calls.{Call, perform, history}
use flying_shuttle.Doc.Valid.{IsValid}
use flying_shuttle.Doc.Valid.Restore.{exec-IsValid, restore-IsValid, clear-IsValid, switch-IsValid}
use flying_shuttle.Doc.Valid.Insert.{
  Gives, Ensures-bind, each-Ensures, insert_node-IsValid, insert_edge-IsValid,
  insert_thread-IsValid, insert_thread_node-IsValid, insert_evidence-IsValid,
  insert_snapshot-IsValid, insert_branch-IsValid,
}
use flying_shuttle.Doc.Valid.Remove.{
  drop_node-IsValid, delete_edges-IsValid, delete_evidence-IsValid, delete_thread_nodes-IsValid,
  delete_thread-IsValid, delete_snapshots-IsValid, without_branch-IsValid,
}
use flying_shuttle.Doc.Valid.Update.{
  update_nodes-IsValid, shift_edges-IsValid, update_evidence-IsValid, update_threads-IsValid,
  depart-IsValid, renamed-IsValid,
}

create_branch_tx-IsValid :
    (now : ℕ) (main_id new_id name : String) (dag : SnapshotData) (db : Db)
    → IsValid db
    → Gives (create_branch_tx now main_id new_id name dag db)
unfolding create_branch_tx
create_branch_tx-IsValid now main_id new_id name dag db v =
    let fresh = new_branch now new_id name true dag in
    elim (Bool-cases (nat_eq (length db.branches) 0)) [
      | inl e ↦ rw e (
          Ensures-bind IsValid IsValid (insert_branch fresh) (insert_branch-IsValid fresh) _
            (insert_branch-IsValid (new_branch now main_id "main" false dag) db v))
      | inr e ↦ rw e (insert_branch-IsValid fresh (depart now dag db) (depart-IsValid now dag db v))
    ]

-- A transaction followed by a result, and a guarded change.
module _ {A : Type 0} where
  exec-pure-IsValid :
      (f : Db → Result Db) (a : A) (db : Db)
      → IsValid db
      → Gives (f db)
      → IsValid ((exec f >> pure a) db).1
  exec-pure-IsValid f a db v g = go (f db) g
    where
      go :
          (r : Result Db)
          → Gives r
          → IsValid
              (let out : Result (Unit {0}) × Db = elim r [
                | ok db' ↦ (ok tt, db')
                | err e ↦ (err e, db)
              ] in
                continue out.0 (λ _. pure a) out.1).1
      go (ok db') g = g
      go (err e) g = v

  guarded-IsValid :
      (b : Bool) (x y : Result A × Db) → IsValid x.1 → IsValid y.1 → IsValid (if b then x else y).1
  guarded-IsValid true x y v w = v
  guarded-IsValid false x y v w = w

delete_branch-IsValid :
    (seen : Db) (id : String) (db : Db) → IsValid db → IsValid (delete_branch seen id db).1
unfolding delete_branch
delete_branch-IsValid seen id db v = elim (Option-cases (find (λ b. b.id == id) seen.branches)) [
  | inl e ↦ rw (e, delete_branch) v
  | inr (b, e) ↦
      rw (e, delete_branch) (guarded-IsValid b.active _ _ v (without_branch-IsValid id db v))
]

switch_branch-IsValid :
    (seen : Db) (uuid : ℕ → String) (now : ℕ) (id : String) (db : Db)
    → IsValid db
    → IsValid (switch_branch seen uuid now id db).1
unfolding switch_branch
switch_branch-IsValid seen uuid now id db v =
    elim (Option-cases (find (λ b. b.id == id) seen.branches)) [
      | inl e ↦ rw (e, switch_branch) v
      | inr (b, e) ↦
          rw (e, switch_branch)
            (guarded-IsValid b.active _ _ v (
              exec-IsValid (switch_tx uuid now (gather_dag_state seen) b) db v
                (switch-IsValid uuid now (gather_dag_state seen) b db v)))
    ]

import_tx-IsValid :
    (uuid : ℕ → String) (now : ℕ) (dag : SnapshotData) (db : Db)
    → IsValid db
    → Gives (import_tx uuid now dag db)
unfolding import_tx
import_tx-IsValid uuid now dag db v =
    restore-IsValid uuid now dag (clear_dag_tables db) (clear-IsValid db v)

restore_snapshot-IsValid :
    (seen : Db) (uuid : ℕ → String) (now : ℕ) (id : String) (db : Db)
    → IsValid db
    → IsValid (restore_snapshot seen uuid now id db).1
unfolding restore_snapshot
restore_snapshot-IsValid seen uuid now id db v = go (get_snapshot id seen)
  where
    go :
        (r : Result Snapshot)
        → IsValid (continue r (λ s. exec (import_tx uuid now s.snapshot)) db).1
    go (ok s) =
        exec-IsValid (import_tx uuid now s.snapshot) db v
          (import_tx-IsValid uuid now s.snapshot db v)
    go (err e) = v

create_branch-IsValid :
    (seen : Db) (now : ℕ) (main_id new_id name : String) (db : Db)
    → IsValid db
    → IsValid (create_branch seen now main_id new_id name db).1
unfolding create_branch
create_branch-IsValid seen now main_id new_id name db v =
    go (create_branch_tx now main_id new_id name (gather_dag_state seen) db)
      (create_branch_tx-IsValid now main_id new_id name (gather_dag_state seen) db v)
  where
    go :
        (r : Result Db)
        → Gives r
        → IsValid
            (let out : Result BranchSummary × Db = elim r [
              | ok db' ↦ (
                ok (branch_summary (new_branch now new_id name true (gather_dag_state seen))),
                db',
              )
              | err e ↦ (err e, db)
            ] in
              out).1
    go (ok db') g = g
    go (err e) g = v

move_tx-IsValid :
    (now : ℕ) (new_id node_id parent_id : String) (position : ℤ) (db : Db)
    → IsValid db
    → Gives (move_tx now new_id node_id parent_id position db)
unfolding move_tx
move_tx-IsValid now new_id node_id parent_id position db v =
    let detached : IsValid (record db { edges = delete_where (parent_link node_id) db.edges }) =
      delete_edges-IsValid (parent_link node_id) db v in
    elim (Bool-cases (parent_id == "")) [
      | inl e ↦ rw e detached
      | inr e ↦ rw e (
          insert_edge-IsValid (link now new_id parent_id node_id position) _
            (shift_edges-IsValid (behind parent_id position) _ detached))
    ]

thread_nodes_tx-IsValid :
    (id : String) (nodes : List ThreadNode) (db : Db)
    → IsValid db
    → Gives (thread_nodes_tx id nodes db)
unfolding thread_nodes_tx
thread_nodes_tx-IsValid id nodes db v =
    each-Ensures IsValid insert_thread_node insert_thread_node-IsValid _ _
      (delete_thread_nodes-IsValid (λ tn. tn.thread_id == id) db v)

-- Every call keeps the constraints, whether it succeeds or fails.
pub perform-IsValid : (c : Call) (db : Db) → IsValid db → IsValid (perform c db)
unfolding perform create_node update_node delete_node create_evidence update_evidence
    delete_evidence delete_node_evidence move_node create_edge delete_edge create_thread
    update_thread delete_thread set_thread_nodes import_state create_snapshot delete_snapshot
    update_branch
perform-IsValid (Call.create_node now n) db v =
    exec-pure-IsValid (insert_node (created_node now n)) (created_node now n) db v
      (insert_node-IsValid (created_node now n) db v)
perform-IsValid (Call.update_node now n) db v =
    guarded-IsValid (any (same_version n) db.nodes) _ _
      (update_nodes-IsValid (same_version n) (updated_node now n) (λ m. unfold updated_node in refl)
        db v)
      v
perform-IsValid (Call.delete_node id) db v =
    guarded-IsValid (any (λ n. n.id == id) db.nodes) _ _ (drop_node-IsValid id db v) v
perform-IsValid (Call.create_evidence now new_id e) db v =
    exec-pure-IsValid (insert_evidence (created_evidence now new_id e))
      (record e { id = nz new_id e.id }) db v
      (insert_evidence-IsValid (created_evidence now new_id e) db v)
perform-IsValid (Call.update_evidence e) db v =
    guarded-IsValid (any (λ r. r.row.id == e.id) db.evidence) _ _
      (update_evidence-IsValid (λ r. r.row.id == e.id) _ (λ r. (refl, refl)) db v) v
perform-IsValid (Call.delete_evidence id) db v =
    guarded-IsValid (any (λ r. r.row.id == id) db.evidence) _ _
      (delete_evidence-IsValid (λ r. r.row.id == id) db v) v
perform-IsValid (Call.delete_node_evidence id) db v =
    delete_evidence-IsValid (λ r. r.row.node_id == id) db v
perform-IsValid (Call.move_node now new_id id parent position) db v =
    exec-IsValid (move_tx now new_id id parent position) db v
      (move_tx-IsValid now new_id id parent position db v)
perform-IsValid (Call.create_edge now e) db v =
    exec-pure-IsValid (insert_edge (record e { created_at = now })) (record e { created_at = now })
      db v (insert_edge-IsValid (record e { created_at = now }) db v)
perform-IsValid (Call.delete_edge id) db v =
    guarded-IsValid (any (λ e. e.id == id) db.edges) _ _
      (delete_edges-IsValid (λ e. e.id == id) db v) v
perform-IsValid (Call.create_thread now t) db v =
    exec-pure-IsValid (insert_thread (created_thread now t)) (created_thread now t) db v
      (insert_thread-IsValid (created_thread now t) db v)
perform-IsValid (Call.update_thread now t) db v =
    guarded-IsValid (any (λ u. u.id == t.id) db.threads) _ _
      (update_threads-IsValid (λ u. u.id == t.id) _ (λ u. refl) db v) v
perform-IsValid (Call.delete_thread id) db v =
    guarded-IsValid (any (λ t. t.id == id) db.threads) _ _ (delete_thread-IsValid id db v) v
perform-IsValid (Call.set_thread_nodes id nodes) db v =
    exec-IsValid (thread_nodes_tx id nodes) db v (thread_nodes_tx-IsValid id nodes db v)
perform-IsValid (Call.import_state uuid now dag) db v =
    exec-IsValid (import_tx uuid now dag) db v (import_tx-IsValid uuid now dag db v)
perform-IsValid (Call.create_snapshot seen now new_id label) db v =
    exec-pure-IsValid {A = SnapshotSummary} (insert_snapshot (taken now new_id label seen))
      (record { id = new_id; label = label; created_at = now }) db v
      (insert_snapshot-IsValid (taken now new_id label seen) db v)
perform-IsValid (Call.delete_snapshot id) db v =
    guarded-IsValid (any (λ s. s.id == id) db.snapshots) _ _
      (delete_snapshots-IsValid (λ s. s.id == id) db v) v
perform-IsValid (Call.restore_snapshot seen uuid now id) db v =
    restore_snapshot-IsValid seen uuid now id db v
perform-IsValid (Call.create_branch seen now main_id new_id name) db v =
    create_branch-IsValid seen now main_id new_id name db v
perform-IsValid (Call.update_branch now id name) db v =
    guarded-IsValid (any (λ b. b.id == id) db.branches) _ _ (renamed-IsValid now id name db v) v
perform-IsValid (Call.delete_branch seen id) db v = delete_branch-IsValid seen id db v
perform-IsValid (Call.switch_branch seen uuid now id) db v =
    switch_branch-IsValid seen uuid now id db v

-- From a valid database, any sequence of calls of the store's methods, each of which may succeed or
-- fail, and whatever the calls on branches and snapshots have read before they write, leads to a
-- database that meets every key, UNIQUE constraint and foreign key of the schema.
pub history-IsValid : (cs : List Call) (db : Db) → IsValid db → IsValid (history cs db)
unfolding history
history-IsValid [] db v = v
history-IsValid (c ∷ cs) db v = history-IsValid cs (perform c db) (perform-IsValid c db v)
