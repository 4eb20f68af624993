-- ===== src/Dag/Topo.antt =====
-- TopologicalSort of internal/dag/traverse.go: Kahn's algorithm.
pub mod Count
pub mod Loop
pub mod Drain
pub mod Sorted
pub mod Complete
pub mod Rank
use flying_shuttle.Prelude.{
  ℕ, zero, suc, ◌+◌, String, false, Option, none, some, List, [], ◌∷◌, ◌++◌, length, map, select,
  find, nat_eq, ◌==◌, if◌then◌else◌,
}
use flying_shuttle.Prelude.Int.{ℤ, pos, ◌+ℤ◌, negsuc, eq_ℤ}
use flying_shuttle.Model.{Node, Edge, outline}
use flying_shuttle.Doc.Db.{Db}
use flying_shuttle.Doc.Nodes.{list_nodes}
use flying_shuttle.Doc.Edges.{list_edges}

-- A Go map from ids to int: a missing key reads as 0.
abbrev pub Degrees : Type 0
Degrees = String → ℤ

unfoldable pub add_degree : String → ℤ → Degrees → Degrees
add_degree id d degrees j = if id == j then degrees j +ℤ d else degrees j

-- inDegree, from the list of the edges.
unfoldable pub in_degrees : List Edge → Degrees → Degrees
unfolding add_degree
in_degrees [] degrees = degrees
in_degrees (e ∷ es) degrees = in_degrees es (add_degree e.to_node (pos 1) degrees)

-- adj[id]
unfoldable pub children : List Edge → String → List String
children edges id = map (λ e. e.to_node) (select (λ e. e.from_node == id) edges)

-- The loop over the children: what joins the queue, and the degrees after it.
unfoldable pub relax : List String → List String → Degrees → List String × Degrees
unfolding add_degree
relax [] queue degrees = (queue, degrees)
relax (child ∷ rest) queue degrees =
    let lower = add_degree child (negsuc 0) degrees in
    relax rest (if eq_ℤ (lower child) (pos 0) then queue ++ child ∷ [] else queue) lower

-- nodeMap[id]; the zero Node where there is none.
unfoldable pub node_of : List Node → String → Node
node_of nodes id = elim (find (λ n. n.id == id) nodes) [
  | some n ↦ n
  | none ↦ record {
    id = "";
    type = outline;
    title = "";
    body = "";
    labels = [];
    locked = false;
    version = 0;
    created_at = 0;
    updated_at = 0;
  }
]

-- The loop over the queue; the ids popped, in their order. `none` if the fuel runs out first.
unfoldable pub drain : List Edge → ℕ → List String → Degrees → List String → Option (List String)
unfolding relax children
drain edges fuel [] degrees popped = some popped
drain edges zero (id ∷ queue) degrees popped = none
drain edges (suc fuel) (id ∷ queue) degrees popped =
    let (queue', degrees') = relax (children edges id) queue degrees in
    drain edges fuel queue' degrees' (popped ++ id ∷ [])

unfoldable pub roots : Degrees → List Node → List String
roots degrees nodes = map (λ n. n.id) (select (λ n. eq_ℤ (degrees n.id) (pos 0)) nodes)

pub data Order : Type 0 where
  sorted : List Node → Order
  cyclic : ℕ → ℕ → Order
  deep : Order

abbrev pub no_degrees : Degrees
no_degrees id = pos 0

-- Every node and every edge brings at most one id into the queue.
unfoldable pub topological_sort : Db → Order
unfolding drain roots in_degrees node_of list_nodes list_edges
topological_sort db =
    let nodes = list_nodes db in
    let edges = list_edges db in
    let degrees = in_degrees edges no_degrees in
    elim (drain edges (length nodes + length edges) (roots degrees nodes) degrees []) [
      | none ↦ deep
      | some ids ↦
          if nat_eq (length ids) (length nodes)
          then sorted (map (node_of nodes) ids)
          else cyclic (length ids) (length nodes)
    ]
