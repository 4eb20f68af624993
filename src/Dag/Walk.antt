-- ===== src/Dag/Walk.antt =====
-- Linearize and ConditionalWalk of internal/dag/traverse.go.
use flying_shuttle.Prelude.{
  ℕ, zero, suc, String, Bool, none, some, List, [], ◌∷◌, ◌++◌, length, if◌then◌else◌,
}
use flying_shuttle.Prelude.Result.{Result, ok, err, missing_node}
use flying_shuttle.Model.{Node, Edge, ThreadNode}
use flying_shuttle.Doc.Db.{Db}
use flying_shuttle.Doc.Nodes.{get_node}
use flying_shuttle.Doc.Edges.{list_edges_from}
use flying_shuttle.Doc.Threads.{get_thread_nodes}
use flying_shuttle.Dag.Condition.{EvalContext, member, eval_condition}

-- Each node of a list of ids, up to the first that is missing; the error names it.
unfoldable pub fetch : Db → List ThreadNode → Result (List Node)
unfolding get_node
fetch db [] = ok []
fetch db (tn ∷ tns) = elim (get_node tn.node_id db) [
  | ok n ↦ elim (fetch db tns) [ ok ns ↦ ok (n ∷ ns) | err e ↦ err e ]
  | err e ↦ err (missing_node tn.node_id)
]

unfoldable pub linearize : Db → String → Result (List Node)
unfolding fetch get_thread_nodes
linearize db thread_id = fetch db (get_thread_nodes db thread_id)

-- The variables that the closure `walk` shares.
pub record Walk : Type 0 where
  pub visited : List String
  pub result : List Node
  pub ctx : EvalContext

-- `deep` is a recursion deeper than the fuel.
pub data Outcome : Type 0 where
  done : Walk → Outcome
  missing : String → Outcome
  deep : Outcome

-- A nil condition is "".
abbrev pub condition : Edge → String
condition e = elim e.condition [ none ↦ "" | some c ↦ c ]

-- After `id` was looked up and is the node n.
unfoldable pub visit : String → Node → Walk → Walk
visit id n w = record {
  visited = id ∷ w.visited;
  result = w.result ++ n ∷ [];
  ctx = record (w.ctx) { read_nodes = id ∷ w.ctx.read_nodes };
}

module _ (equal_fold : String → String → Bool) (db : Db) where
  unfoldable pub walk_edges : (String → Walk → Outcome) → List Edge → Walk → Outcome
  unfolding eval_condition
  walk_edges walk [] w = done w
  walk_edges walk (e ∷ es) w =
      let skip = walk_edges walk es w in
      if eval_condition equal_fold (condition e) w.ctx
      then (elim (walk e.to_node w) [
        | done w' ↦ walk_edges walk es w'
        | missing id ↦ missing id
        | deep ↦ deep
      ])
      else skip

  unfoldable pub walk : ℕ → String → Walk → Outcome
  unfolding walk_edges get_node list_edges_from visit
  walk zero id w = deep
  walk (suc fuel) id w =
      let onward = λ (n : Node). walk_edges (walk fuel) (list_edges_from db id) (visit id n w) in
      if member id w.visited
      then done w
      else (elim (get_node id db) [ ok n ↦ onward n | err _ ↦ missing id ])

  unfoldable pub walk_all : ℕ → List String → Walk → Outcome
  unfolding walk
  walk_all fuel [] w = done w
  walk_all fuel (id ∷ ids) w = elim (walk fuel id w) [
    | done w' ↦ walk_all fuel ids w'
    | missing j ↦ missing j
    | deep ↦ deep
  ]

  abbrev pub start : EvalContext → Walk
  start ctx = record { visited = []; result = []; ctx = ctx }

  -- ConditionalWalk; one level of recursion for each edge, and one, is enough.
  unfoldable pub conditional_walk : List String → EvalContext → Outcome
  unfolding walk_all
  conditional_walk start_ids ctx = walk_all (suc (length db.edges)) start_ids (start ctx)
