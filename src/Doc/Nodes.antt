-- ===== src/Doc/Nodes.antt =====
-- The node methods of SQLiteStore (internal/doc/sqlite.go), the current time an argument of each.
pub mod Lock
pub mod Cascade
use flying_shuttle.Prelude.{
  ℕ, String, ◌+◌, Bool, ◌&&◌, ◌||◌, none, some, List, any, find, nat_eq, ◌==◌, if◌then◌else◌,
}
use flying_shuttle.Prelude.Sort.{sort_by}
use flying_shuttle.Prelude.Result.{Result, ok, err, not_found, conflict}
use flying_shuttle.Model.{Node, Edge, ThreadNode}
use flying_shuttle.Doc.Stamp.{stamp_leb}
use flying_shuttle.Doc.Db.{Db, EvidenceRow, insert_node, delete_where, update_where}
use flying_shuttle.Doc.Action.{Action, pure, exec, ◌>>◌}

unfoldable pub created_node : ℕ → Node → Node
created_node now n = record n { version = 1; created_at = now; updated_at = now }

unfoldable pub create_node : ℕ → Node → Action Node
unfolding created_node insert_node
create_node now n = do exec (insert_node (created_node now n)); pure (created_node now n)

unfoldable pub get_node : String → Db → Result Node
get_node id db = elim (find (λ n. n.id == id) db.nodes) [ none ↦ err not_found | some n ↦ ok n ]

abbrev pub node_leb : Node → Node → Bool
node_leb a b = stamp_leb a.created_at b.created_at

unfoldable pub list_nodes : Db → List Node
list_nodes db = sort_by node_leb db.nodes

-- The SET clause of UpdateNode, on the stored row m.
unfoldable pub updated_node : ℕ → Node → Node → Node
updated_node now n m = record m {
  type = n.type;
  title = n.title;
  body = n.body;
  labels = n.labels;
  locked = n.locked;
  version = m.version + 1;
  updated_at = now;
}

abbrev pub same_version : Node → Node → Bool
same_version n m = m.id == n.id && nat_eq m.version n.version

-- The optimistic lock: the row must still have the version that the caller read.
unfoldable pub update_node : ℕ → Node → Action Node
unfolding updated_node
update_node now n db =
    if any (same_version n) db.nodes
    then (
      ok (record n { version = n.version + 1; updated_at = now }),
      record db { nodes = update_where (same_version n) (updated_node now n) db.nodes },
    )
    else (err conflict, db)

abbrev pub touches : String → Edge → Bool
touches id e = e.from_node == id || e.to_node == id

-- ON DELETE CASCADE of the tables that refer to nodes.
unfoldable pub drop_node : String → Db → Db
drop_node id db = record db {
  nodes = delete_where (λ n. n.id == id) db.nodes;
  edges = delete_where (touches id) db.edges;
  thread_nodes = delete_where (λ (tn : ThreadNode). tn.node_id == id) db.thread_nodes;
  evidence = delete_where (λ (e : EvidenceRow). e.row.node_id == id) db.evidence;
}

unfoldable pub delete_node : String → Action (Unit {0})
unfolding drop_node
delete_node id db =
    if any (λ n. n.id == id) db.nodes then (ok tt, drop_node id db) else (err not_found, db)
