-- ===== src/Outline/Tree.antt =====
-- internal/outline/tree.go: the tree of bullets, from the nodes and the linear edges.
use Prim.Native.String.{compare}
use Prim.Native.Nat.{Ordering}
use flying_shuttle.Prelude.{
  ℕ, zero, suc, String, Bool, true, false, not, ◌&&◌, Option, none, some, List, [], ◌∷◌, ◌++◌, map,
  any, select, length, ltb, nat_eq, ◌==◌, if◌then◌else◌,
}
use flying_shuttle.Prelude.Int.{ℤ, ltb_ℤ, eq_ℤ}
use flying_shuttle.Prelude.Sort.{sort_by}
use flying_shuttle.Model.{Node, Edge, is_linear, is_outline, is_chunk_ref}

-- A bullet: its node, its children, the id of its parent ("" for a root) and its depth.
mutual
  pub data TreeNode : Type 0 where
    tree_node : Node → Forest → String → ℕ → TreeNode

  pub data Forest : Type 0 where
    leaf : Forest
    grove : TreeNode → Forest → Forest

abbrev pub node : TreeNode → Node
node (tree_node n cs p d) = n

abbrev pub sub_forest : TreeNode → Forest
sub_forest (tree_node n cs p d) = cs

abbrev pub parent_id : TreeNode → String
parent_id (tree_node n cs p d) = p

abbrev pub trees : Forest → List TreeNode
trees leaf = []
trees (grove t f) = t ∷ trees f

-- Outline nodes and chunk_ref nodes take part.
abbrev pub takes_part : Node → Bool
takes_part n = if is_outline n.type then true else is_chunk_ref n.type

-- nodeByID[id], for a list of nodes: a later node with the same id wins.
unfoldable pub node_by_id : List Node → String → Option Node
node_by_id [] id = none
node_by_id (n ∷ ns) id = elim (node_by_id ns id) [
  | some m ↦ some m
  | none ↦ if n.id == id then some n else none
]

abbrev pub known : List Node → String → Bool
known nodes id = elim (node_by_id nodes id) [ some _ ↦ true | none ↦ false ]

abbrev pub id_leb : String → String → Bool
id_leb a b = elim (compare a b) [ Ordering.gt ↦ false | _ ↦ true ]

-- By creation time, then by id. (The times themselves are compared, not their texts.)
unfoldable pub creation_leb : Node → Node → Bool
creation_leb a b =
    if nat_eq a.created_at b.created_at then id_leb a.id b.id else ltb a.created_at b.created_at

pub record ChildRef : Type 0 where
  pub child : Node
  pub weight : ℤ

-- childrenOf[id]: the known targets of the linear edges from a known node, in the edges' order.
unfoldable pub children_of : List Node → List Edge → String → List ChildRef
unfolding node_by_id
children_of nodes [] id = []
children_of nodes (e ∷ es) id =
    let rest = children_of nodes es id in
    if is_linear e.type && (known nodes e.from_node && e.from_node == id)
    then (elim (node_by_id nodes e.to_node) [
      | some n ↦ record { child = n; weight = e.weight } ∷ rest
      | none ↦ rest
    ])
    else rest

unfoldable pub has_parent : List Node → List Edge → String → Bool
unfolding node_by_id
has_parent nodes edges id =
    any
      (λ e.
        is_linear e.type && (known nodes e.from_node && (known nodes e.to_node && e.to_node == id)))
      edges

-- By weight, then by the place among all nodes in the order of creation.
unfoldable pub sibling_leb : ChildRef → ChildRef → Bool
unfolding creation_leb
sibling_leb a b =
    if eq_ℤ a.weight b.weight then creation_leb a.child b.child else ltb_ℤ a.weight b.weight

-- The loop over the children, where `build` is the recursive call.
unfoldable pub build_forest : (Node → Option TreeNode) → List ChildRef → Option Forest
build_forest build [] = some leaf
build_forest build (r ∷ rs) = elim (build r.child) [
  | none ↦ none
  | some t ↦ elim (build_forest build rs) [ none ↦ none | some f ↦ some (grove t f) ]
]

-- `none` if the tree is deeper than the fuel; the program's recursion has no bound.
unfoldable pub build : List Node → List Edge → ℕ → String → ℕ → Node → Option TreeNode
unfolding build_forest sibling_leb children_of
build nodes edges zero parent depth n = none
build nodes edges (suc fuel) parent depth n =
    elim (build_forest (build nodes edges fuel n.id (suc depth))
      (sort_by sibling_leb (children_of nodes edges n.id))) [
        | none ↦ none
        | some f ↦ some (tree_node n f parent depth)
      ]

abbrev pub as_root : Node → ChildRef
as_root n = record { child = n; weight = ℤ.pos 0 }

unfoldable pub root_nodes : List Node → List Edge → List Node
unfolding has_parent creation_leb
root_nodes nodes edges =
    select (λ n. not (has_parent nodes edges n.id))
      (sort_by creation_leb (select (λ n. is_outline n.type) nodes))

-- BuildTree; a path of bullets with no repetition is no longer than the list of nodes.
unfoldable pub build_tree : List Node → List Edge → Option Forest
unfolding root_nodes build
build_tree all edges =
    let nodes = select takes_part all in
    build_forest (build nodes edges (suc (length nodes)) "" 0)
      (map as_root (root_nodes nodes edges))

-- Flatten: the bullets in visual order.
unfoldable mutual
  pub flatten_node : TreeNode → List TreeNode
  flatten_node (tree_node n cs p d) = tree_node n cs p d ∷ flatten cs

  pub flatten : Forest → List TreeNode
  flatten leaf = []
  flatten (grove t f) = flatten_node t ++ flatten f

-- The first bullet with the id.
unfoldable pub find_in : List TreeNode → String → Option TreeNode
find_in [] id = none
find_in (t ∷ ts) id = let rest = find_in ts id in if (node t).id == id then some t else rest

unfoldable pub find : Forest → String → Option TreeNode
unfolding find_in flatten
find forest id = find_in (flatten forest) id

abbrev pub head_id : List TreeNode → String
head_id [] = ""
head_id (t ∷ ts) = (node t).id

-- The loop of Neighbors, with the id of the bullet before.
unfoldable pub neighbors_in : String → List TreeNode → String → String × String
neighbors_in prev [] id = ("", "")
neighbors_in prev (t ∷ ts) id =
    let rest = neighbors_in (node t).id ts id in
    if (node t).id == id then (prev, head_id ts) else rest

unfoldable pub neighbors : Forest → String → String × String
unfolding neighbors_in flatten
neighbors forest id = neighbors_in "" (flatten forest) id
