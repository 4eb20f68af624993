-- ===== src/Dag/Cycle.antt =====
-- The search for cycles of internal/dag/validate.go.
pub mod Search
pub mod Acyclic
use flying_shuttle.Prelude.{
  ℕ, zero, suc, String, Bool, true, false, Option, none, some, List, [], ◌∷◌, length, ◌==◌,
  if◌then◌else◌,
}
use flying_shuttle.Model.{Edge}
use flying_shuttle.Doc.Db.{Db}
use flying_shuttle.Doc.Edges.{list_edges_from}
use flying_shuttle.Dag.Condition.{member}

-- What a call of dfsReaches returns: the target was found, or it was not and the shared map of the
-- visited nodes has grown. `deep` is a recursion deeper than the fuel.
pub data Dfs : Type 0 where
  found : Dfs
  missed : List String → Dfs
  deep : Dfs

-- The loop over the edges of a node, where `reach` is the recursive call.
unfoldable pub dfs_edges : (String → List String → Dfs) → List Edge → List String → Dfs
dfs_edges reach [] visited = missed visited
dfs_edges reach (e ∷ es) visited = elim (reach e.to_node visited) [
  | missed visited' ↦ dfs_edges reach es visited'
  | found ↦ found
  | deep ↦ deep
]

unfoldable pub dfs_reaches : Db → String → ℕ → String → List String → Dfs
unfolding dfs_edges list_edges_from
dfs_reaches db target zero current visited = deep
dfs_reaches db target (suc fuel) current visited =
    let search =
      dfs_edges (dfs_reaches db target fuel) (list_edges_from db current) (current ∷ visited) in
    if current == target then found else if member current visited then missed visited else search

-- `none` if the recursion is deeper than the fuel: one level for each edge, and one.
unfoldable pub would_create_cycle : Db → String → String → Option Bool
unfolding dfs_reaches
would_create_cycle db from to = elim (dfs_reaches db from (suc (length db.edges)) to []) [
  | found ↦ some true
  | missed _ ↦ some false
  | deep ↦ none
]
