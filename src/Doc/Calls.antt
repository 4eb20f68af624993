-- ===== src/Doc/Calls.antt =====
-- The methods of the Store interface (internal/doc/store.go) that write, as the steps of a history.
-- Times and the ids that uuid.NewString draws are part of a step.
use flying_shuttle.Prelude.{ℕ, String, List, [], ◌∷◌}
use flying_shuttle.Prelude.Int.{ℤ}
use flying_shuttle.Model.{Node, Edge, Evidence, Thread, ThreadNode, SnapshotData}
use flying_shuttle.Doc.Db.{Db}
use flying_shuttle.Doc.Nodes
use flying_shuttle.Doc.Edges
use flying_shuttle.Doc.Evidence
use flying_shuttle.Doc.Threads
use flying_shuttle.Doc.State
use flying_shuttle.Doc.Snapshots
use flying_shuttle.Doc.Branches

pub data Call : Type 0 where
  create_node : ℕ → Node → Call
  update_node : ℕ → Node → Call
  delete_node : String → Call
  create_evidence : ℕ → String → Evidence → Call
  update_evidence : Evidence → Call
  delete_evidence : String → Call
  delete_node_evidence : String → Call
  move_node : ℕ → String → String → String → ℤ → Call
  create_edge : ℕ → Edge → Call
  delete_edge : String → Call
  create_thread : ℕ → Thread → Call
  update_thread : ℕ → Thread → Call
  delete_thread : String → Call
  set_thread_nodes : String → List ThreadNode → Call
  import_state : (ℕ → String) → ℕ → SnapshotData → Call
  create_snapshot : Db → ℕ → String → String → Call
  delete_snapshot : String → Call
  restore_snapshot : Db → (ℕ → String) → ℕ → String → Call
  create_branch : Db → ℕ → String → String → String → Call
  update_branch : ℕ → String → String → Call
  delete_branch : Db → String → Call
  switch_branch : Db → (ℕ → String) → ℕ → String → Call

-- The database after a call, whether it succeeds or fails.
unfoldable pub perform : Call → Db → Db
perform (create_node now n) db = (Nodes.create_node now n db).1
perform (update_node now n) db = (Nodes.update_node now n db).1
perform (delete_node id) db = (Nodes.delete_node id db).1
perform (create_evidence now new_id e) db = (Evidence.create_evidence now new_id e db).1
perform (update_evidence e) db = (Evidence.update_evidence e db).1
perform (delete_evidence id) db = (Evidence.delete_evidence id db).1
perform (delete_node_evidence id) db = (Evidence.delete_node_evidence id db).1
perform (move_node now new_id id parent position) db =
    (Edges.move_node now new_id id parent position db).1
perform (create_edge now e) db = (Edges.create_edge now e db).1
perform (delete_edge id) db = (Edges.delete_edge id db).1
perform (create_thread now t) db = (Threads.create_thread now t db).1
perform (update_thread now t) db = (Threads.update_thread now t db).1
perform (delete_thread id) db = (Threads.delete_thread id db).1
perform (set_thread_nodes id nodes) db = (Threads.set_thread_nodes id nodes db).1
perform (import_state uuid now dag) db = (State.import_state uuid now dag db).1
perform (create_snapshot seen now new_id label) db =
    (Snapshots.create_snapshot seen now new_id label db).1
perform (delete_snapshot id) db = (Snapshots.delete_snapshot id db).1
perform (restore_snapshot seen uuid now id) db = (Snapshots.restore_snapshot seen uuid now id db).1
perform (create_branch seen now main_id new_id name) db =
    (Branches.create_branch seen now main_id new_id name db).1
perform (update_branch now id name) db = (Branches.update_branch now id name db).1
perform (delete_branch seen id) db = (Branches.delete_branch seen id db).1
perform (switch_branch seen uuid now id) db = (Branches.switch_branch seen uuid now id db).1

unfoldable pub history : List Call → Db → Db
unfolding perform
history [] db = db
history (c ∷ cs) db = history cs (perform c db)
