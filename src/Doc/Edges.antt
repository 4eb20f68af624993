-- ===== src/Doc/Edges.antt =====
-- The edge methods of SQLiteStore and MoveNode (internal/doc/sqlite.go).
pub mod Move
use flying_shuttle.Prelude.{
  ℕ, String, Bool, ◌&&◌, none, some, List, any, find, select, ◌==◌, if◌then◌else◌,
}
use flying_shuttle.Prelude.Int.{ℤ, pos, ◌+ℤ◌, leb_ℤ}
use flying_shuttle.Prelude.Sort.{sort_by}
use flying_shuttle.Prelude.Result.{Result, ok, err, not_found}
use flying_shuttle.Model.{Edge, linear, is_linear}
use flying_shuttle.Doc.Stamp.{stamp_leb}
use flying_shuttle.Doc.Db.{Db, insert_edge, delete_where, update_where}
use flying_shuttle.Doc.Action.{Action, pure, exec, ◌>>◌}

unfoldable pub create_edge : ℕ → Edge → Action Edge
unfolding insert_edge
create_edge now e = do
  exec (insert_edge (record e { created_at = now }))
  pure (record e { created_at = now })

unfoldable pub get_edge : String → Db → Result Edge
get_edge id db = elim (find (λ e. e.id == id) db.edges) [ none ↦ err not_found | some e ↦ ok e ]

abbrev pub edge_leb : Edge → Edge → Bool
edge_leb a b = stamp_leb a.created_at b.created_at

unfoldable pub list_edges : Db → List Edge
list_edges db = sort_by edge_leb db.edges

abbrev pub weight_leb : Edge → Edge → Bool
weight_leb a b = leb_ℤ a.weight b.weight

unfoldable pub list_edges_from : Db → String → List Edge
list_edges_from db node_id = sort_by weight_leb (select (λ e. e.from_node == node_id) db.edges)

unfoldable pub list_edges_to : Db → String → List Edge
list_edges_to db node_id = sort_by weight_leb (select (λ e. e.to_node == node_id) db.edges)

unfoldable pub delete_edge : String → Action (Unit {0})
delete_edge id db =
    if any (λ e. e.id == id) db.edges
    then (ok tt, record db { edges = delete_where (λ e. e.id == id) db.edges })
    else (err not_found, db)

-- The edges that MoveNode deletes first.
abbrev pub parent_link : String → Edge → Bool
parent_link node_id e = e.to_node == node_id && is_linear e.type

-- The siblings at the position or behind it, which make room.
abbrev pub behind : String → ℤ → Edge → Bool
behind parent_id position e =
    e.from_node == parent_id && (is_linear e.type && leb_ℤ position e.weight)

abbrev pub shift : Edge → Edge
shift e = record e { weight = e.weight +ℤ pos 1 }

abbrev pub link : ℕ → String → String → String → ℤ → Edge
link now new_id parent_id node_id position = record {
  id = new_id;
  from_node = parent_id;
  to_node = node_id;
  type = linear;
  condition = none;
  weight = position;
  created_at = now;
}

-- The transaction of MoveNode; `new_id` is the id that uuid.NewString draws.
unfoldable pub move_tx : ℕ → String → String → String → ℤ → Db → Result Db
unfolding insert_edge
move_tx now new_id node_id parent_id position db =
    let detached = delete_where (parent_link node_id) db.edges in
    if parent_id == ""
    then ok (record db { edges = detached })
    else insert_edge (link now new_id parent_id node_id position)
        (record db { edges = update_where (behind parent_id position) shift detached })

unfoldable pub move_node : ℕ → String → String → String → ℤ → Action (Unit {0})
unfolding move_tx
move_node now new_id node_id parent_id position =
    exec (move_tx now new_id node_id parent_id position)
