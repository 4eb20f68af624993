-- ===== src/Outline/Diff.antt =====
-- internal/outline/diff.go: the outline against a baseline. The maps are walked in no fixed order; the
-- ghosts here follow the baseline's nodes.
use flying_shuttle.Prelude.{
  ℕ, zero, suc, String, Bool, true, false, not, ◌&&◌, ◌||◌, Option, none, some, List, [], ◌∷◌,
  select, length, ◌==◌, if◌then◌else◌,
}
use flying_shuttle.Prelude.Int.{ℤ, pos}
use flying_shuttle.Model.{Node, Edge, is_linear, is_outline}
use flying_shuttle.Text.{is_empty}
use flying_shuttle.Outline.Tree.{node_by_id, known}

pub data DiffStatus : Type 0 where
  added changed : DiffStatus

pub record Ghost : Type 0 where
  pub node : Node
  pub parent_id : String
  pub weight : ℤ

abbrev pub outline_by_id : List Node → List Node
outline_by_id nodes = select (λ n. is_outline n.type) nodes

abbrev pub same_flag : Bool → Bool → Bool
same_flag true b = b
same_flag false b = not b

unfoldable pub differs : Node → Node → Bool
differs c b =
    not (c.title == b.title) || (not (c.body == b.body) || not (same_flag c.locked b.locked))

-- res.Status[id]
unfoldable pub status : List Node → List Node → String → Option DiffStatus
unfolding differs node_by_id
status cur base id = elim (node_by_id cur id) [
  | none ↦ none
  | some c ↦ elim (node_by_id base id) [
    | none ↦ some added
    | some b ↦ if differs c b then some changed else none
  ]
]

-- baseParent[id]: of several edges into a node the last counts.
unfoldable pub base_parent : List Node → List Edge → String → Option (String × ℤ)
unfolding node_by_id
base_parent base [] id = none
base_parent base (e ∷ es) id = elim (base_parent base es id) [
  | some p ↦ some p
  | none ↦
      if is_linear e.type && (known base e.from_node && (known base e.to_node && e.to_node == id))
      then some (e.from_node, e.weight)
      else none
]

-- baseParent[id].parent and .weight; the zero value where there is none.
abbrev pub parent_of : List Node → List Edge → String → String
parent_of base edges id = elim (base_parent base edges id) [ none ↦ "" | some (p, w) ↦ p ]

abbrev pub weight_of : List Node → List Edge → String → ℤ
weight_of base edges id = elim (base_parent base edges id) [ none ↦ pos 0 | some (p, w) ↦ w ]

-- The loop up to an ancestor that still exists. `none` if it takes more rounds than the fuel.
unfoldable pub anchor : List Node → List Node → List Edge → ℕ → String → Option String
unfolding base_parent node_by_id
anchor cur base edges zero cursor = none
anchor cur base edges (suc fuel) cursor =
    let up = anchor cur base edges fuel (parent_of base edges cursor) in
    if is_empty cursor then some "" else if known cur cursor then some cursor else up

unfoldable pub ghosts : List Node → List Node → List Edge → ℕ → List Node → Option (List Ghost)
unfolding anchor
ghosts cur base edges fuel [] = some []
ghosts cur base edges fuel (n ∷ ns) =
    let rest = ghosts cur base edges fuel ns in
    if known cur n.id
    then rest
    else (elim (anchor cur base edges fuel (parent_of base edges n.id)) [
      | none ↦ none
      | some a ↦ elim rest [
        | none ↦ none
        | some gs ↦
            some (record { node = n; parent_id = a; weight = weight_of base edges n.id } ∷ gs)
      ]
    ])

pub record DiffResult : Type 0 where
  pub status_of : String → Option DiffStatus
  pub ghosts : List Ghost

-- Diff. A path up with no repetition has at most one node for each of the baseline's.
unfoldable pub diff : List Node → List Node → List Edge → Option DiffResult
unfolding ghosts status
diff cur_nodes base_nodes base_edges =
    let cur = outline_by_id cur_nodes in
    let base = outline_by_id base_nodes in
    elim (ghosts cur base base_edges (suc (suc (length base))) base) [
      | none ↦ none
      | some gs ↦ some (record { status_of = status cur base; ghosts = gs })
    ]
