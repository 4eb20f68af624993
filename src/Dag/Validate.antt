-- ===== src/Dag/Validate.antt =====
-- ValidateGraph and FindRoots of internal/dag/validate.go.
pub mod Sound
use flying_shuttle.Prelude.{
  String, Bool, true, false, not, List, [], ◌∷◌, ◌++◌, any, select, ◌==◌, if◌then◌else◌,
}
use flying_shuttle.Model.{Node, Edge, Thread, ThreadNode}
use flying_shuttle.Text.{concat, show_ℕ, show_ℤ}
use flying_shuttle.Doc.Db.{Db, has_node}
use flying_shuttle.Doc.Nodes.{list_nodes}
use flying_shuttle.Doc.Edges.{list_edges}
use flying_shuttle.Doc.Threads.{list_threads, get_thread_nodes}
use flying_shuttle.Dag.Topo.{Order, sorted, cyclic, deep, topological_sort}

pub data IssueType : Type 0 where
  cycle self_link dangling_edge orphan_thread_ref : IssueType

pub record Issue : Type 0 where
  pub type : IssueType
  pub message : String
  pub id : String

pub record Report : Type 0 where
  pub valid : Bool
  pub issues : List Issue

unfoldable pub add_issue : IssueType → String → String → Report → Report
add_issue type id message r = record {
  valid = false;
  issues = r.issues ++ record { type = type; message = message; id = id } ∷ [];
}

-- `if c { report.addIssue(…) }`
abbrev pub report_if : Bool → IssueType → String → String → Report → Report
report_if c type id message r = if c then add_issue type id message r else r

unfoldable pub check_edge : List Node → Edge → Report → Report
unfolding add_issue concat
check_edge nodes e r =
    let r₁ =
      report_if (e.from_node == e.to_node) self_link e.id
        (concat ("edge " ∷ e.id ∷ " is a self-link (node " ∷ e.from_node ∷ ")" ∷ [])) r in
    let r₂ =
      report_if (not (has_node nodes e.from_node)) dangling_edge e.id
        (concat ("edge " ∷ e.id ∷ " references non-existent from_node " ∷ e.from_node ∷ [])) r₁ in
    report_if (not (has_node nodes e.to_node)) dangling_edge e.id
      (concat ("edge " ∷ e.id ∷ " references non-existent to_node " ∷ e.to_node ∷ [])) r₂

unfoldable pub check_edges : List Node → List Edge → Report → Report
unfolding check_edge
check_edges nodes [] r = r
check_edges nodes (e ∷ es) r = check_edges nodes es (check_edge nodes e r)

unfoldable pub check_members : List Node → String → List ThreadNode → Report → Report
unfolding add_issue concat show_ℤ
check_members nodes thread_id [] r = r
check_members nodes thread_id (tn ∷ tns) r = check_members nodes thread_id tns (
    report_if (not (has_node nodes tn.node_id)) orphan_thread_ref thread_id
      (concat (
        "thread "
        ∷ thread_id
        ∷ " references non-existent node "
        ∷ tn.node_id
        ∷ " at position "
        ∷ show_ℤ tn.position
        ∷ []))
      r)

unfoldable pub check_threads : Db → List Node → List Thread → Report → Report
unfolding check_members get_thread_nodes
check_threads db nodes [] r = r
check_threads db nodes (th ∷ ths) r =
    check_threads db nodes ths (check_members nodes th.id (get_thread_nodes db th.id) r)

unfoldable pub check_order : Order → Report → Report
unfolding add_issue concat show_ℕ
check_order (sorted ns) r = r
check_order (cyclic some_of all) r =
    add_issue cycle ""
      (concat (
        "graph contains a cycle: cycle detected: sorted "
        ∷ show_ℕ some_of
        ∷ " of "
        ∷ show_ℕ all
        ∷ " nodes"
        ∷ []))
      r
check_order deep r = r

unfoldable pub validate_graph : Db → Report
unfolding check_edges check_threads check_order topological_sort list_nodes list_edges list_threads
validate_graph db =
    let nodes = list_nodes db in
    check_order (topological_sort db) (
      check_threads db nodes (list_threads db)
        (check_edges nodes (list_edges db) (record { valid = true; issues = [] })))

-- The nodes that no edge enters.
unfoldable pub find_roots : Db → List Node
unfolding list_nodes list_edges
find_roots db = select (λ n. not (any (λ e. e.to_node == n.id) (list_edges db))) (list_nodes db)
