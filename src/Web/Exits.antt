-- ===== src/Web/Exits.antt =====
-- internal/web/exits_handler.go: the exits of a bullet. A request is its parsed form values, and an
-- error its HTTP status: `bad_request` 400, `cycle` 409, any other 500.
pub mod Guard
use flying_shuttle.Prelude.{
  ℕ, String, Bool, true, false, not, ◌||◌, Option, none, some, List, [], ◌∷◌, any, map, select,
  ◌==◌, if◌then◌else◌,
}
use flying_shuttle.Prelude.Int.{ℤ, pos}
use flying_shuttle.Prelude.Result.{bad_request, cycle}
use flying_shuttle.Text.{is_empty}
use flying_shuttle.Model.{Node, Edge, EdgeType, branch, jump, is_linear, is_outline}
use flying_shuttle.Doc.Db.{Db}
use flying_shuttle.Doc.Action.{Action, raise}
use flying_shuttle.Doc.Nodes.{list_nodes}
use flying_shuttle.Doc.Edges.{list_edges_from, create_edge, delete_edge}
use flying_shuttle.Dag.Cycle.{would_create_cycle}
use flying_shuttle.Dag.Walk.{condition}

pub record ExitRow : Type 0 where
  pub edge_id : String
  pub to_id : String
  pub to_title : String
  pub type : EdgeType
  pub condition : String

pub record ExitOption : Type 0 where
  pub id : String
  pub title : String

pub record NodeExits : Type 0 where
  pub node_id : String
  pub exits : List ExitRow
  pub options : List ExitOption

-- titles[id]; "" where the bullet is missing.
unfoldable pub title_of : List Node → String → String
title_of [] id = ""
title_of (n ∷ ns) id = let rest = title_of ns id in if n.id == id then n.title else rest

-- The map of titles is walked in no fixed order; the options here follow the nodes.
unfoldable pub node_exits_view : Db → String → NodeExits
unfolding title_of list_nodes list_edges_from
node_exits_view db node_id =
    let bullets = select (λ n. is_outline n.type) (list_nodes db) in
    let edges = list_edges_from db node_id in
    let linked = λ (id : String). node_id == id || any (λ e. e.to_node == id) edges in
    record {
      node_id = node_id;
      exits =
          map
            (λ e. record {
              edge_id = e.id;
              to_id = e.to_node;
              to_title = title_of bullets e.to_node;
              type = e.type;
              condition = condition e;
            })
            (select (λ e. not (is_linear e.type)) edges);
      options =
          map (λ n. record { id = n.id; title = n.title })
            (select (λ (n : Node). not (linked n.id)) bullets);
    }

-- Any type but "jump" is taken for "branch".
unfoldable pub exit_type : String → EdgeType
exit_type etype = if etype == "jump" then jump else branch

abbrev pub new_exit : ℕ → String → String → String → String → String → Edge
new_exit now new_id from to etype cond = record {
  id = new_id;
  from_node = from;
  to_node = to;
  type = exit_type etype;
  condition = if is_empty cond then none else some cond;
  weight = pos 0;
  created_at = now;
}

unfoldable pub node_exit_create : ℕ → String → String → String → String → String → Action Edge
unfolding exit_type would_create_cycle create_edge
node_exit_create now new_id from to etype cond db =
    if is_empty to || to == from
    then (raise bad_request db)
    else (elim (would_create_cycle db from to) [
      | some true ↦ raise cycle db
      | some false ↦ create_edge now (new_exit now new_id from to etype cond) db
      | none ↦ raise cycle db
    ])

unfoldable pub node_exit_delete : String → Action (Unit {0})
unfolding delete_edge
node_exit_delete edge_id = delete_edge edge_id
