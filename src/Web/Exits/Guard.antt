-- ===== src/Web/Exits/Guard.antt =====
-- The handler that creates an exit (internal/web/exits_handler.go) and cycles.
use flying_shuttle.Prelude.{
  ℕ, String, ◌≡◌, ◌⊎◌, inl, inr, true, false, ◌||◌, Bool-cases, Option-cases, some, [], ◌∷◌, ◌++◌,
  ◌==◌,
}
use flying_shuttle.Model.{Edge}
use flying_shuttle.Doc.Db.{Db, insert_edge}
use flying_shuttle.Doc.Action.{exec-pure-ok, exec-pure-err}
use flying_shuttle.Doc.Inserted.{insert_edge-cases}
use flying_shuttle.Text.{is_empty}
use flying_shuttle.Doc.Edges.{create_edge}
use flying_shuttle.Dag.Cycle.{would_create_cycle}
use flying_shuttle.Dag.Cycle.Acyclic.{Acyclic, Acyclic-guard}
use flying_shuttle.Web.Exits.{node_exit_create, new_exit}

-- An INSERT adds the edge at the end or changes nothing.
create_edge-edges :
    (now : ℕ) (e : Edge) (db : Db)
    → ((create_edge now e db).1.edges ≡ db.edges)
      ⊎ ((create_edge now e db).1.edges ≡ db.edges ++ record e { created_at = now } ∷ [])
unfolding create_edge
create_edge-edges now e db =
    let e' = record e { created_at = now } in
    elim (insert_edge-cases e' db) [
      | inl c ↦ inl (rw (exec-pure-err (insert_edge e') e' db c))
      | inr n ↦ inr (rw (exec-pure-ok (insert_edge e') e' db n))
    ]

-- From an acyclic graph, whatever the form says and whether the request succeeds or fails, creating an
-- exit leaves the edges acyclic.
pub node_exit_create-Acyclic :
    (now : ℕ) (new_id from to etype cond : String) (db : Db)
    → Acyclic db.edges
    → Acyclic (node_exit_create now new_id from to etype cond db).1.edges
unfolding node_exit_create
node_exit_create-Acyclic now new_id from to etype cond db old =
    elim (Bool-cases (is_empty to || to == from)) [
      | inl bad ↦ rw (bad, node_exit_create) old
      | inr good ↦ elim (Option-cases (would_create_cycle db from to)) [
        | inl n ↦ rw (good, n, node_exit_create) old
        | inr (true, y) ↦ rw (good, y, node_exit_create) old
        | inr (false, n) ↦ rw (good, n, node_exit_create) (added n)
      ]
    ]
  where
    e : Edge
    e = new_exit now new_id from to etype cond

    added : would_create_cycle db from to ≡ some false → Acyclic (create_edge now e db).1.edges
    added n = elim (create_edge-edges now e db) [
      | inl same ↦ rw same old
      | inr more ↦ rw more (Acyclic-guard db e n old)
    ]
