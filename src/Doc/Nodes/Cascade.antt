-- ===== src/Doc/Nodes/Cascade.antt =====
-- What creating and deleting a node do to the tables (internal/doc/sqlite.go).
use flying_shuttle.Prelude.{
  ℕ, String, ◌≡◌, ◌⊎◌, refl, Bool, true, false, not, inl, inr, Bool-cases, List, [], ◌∷◌, ◌++◌, All,
  All-imp, All-select_test, find, find-append_none, find-eq-none, any_of_All, eq_iff, eq_refl,
  arith, ◌==◌,
}
use flying_shuttle.Prelude.Result.{ok, err, not_found, constraint}
use flying_shuttle.Model.{Node, ThreadNode}
use flying_shuttle.Doc.Db.{Db, EvidenceRow, delete_where, has_node, insert_node}
use flying_shuttle.Doc.Action.{exec-pure-ok, exec-pure-err}
use flying_shuttle.Doc.Inserted.{insert_node-new, insert_node-old}
use flying_shuttle.Doc.Nodes.{created_node, create_node, get_node, touches, drop_node, delete_node}

-- No row that a DELETE leaves passes its test.
All-delete :
    {A : Type 0} (p : A → Bool) (rows : List A) → All (λ x. p x ≡ false) (delete_where p rows)
All-delete p rows =
    All-imp (λ x t. ground arith) (delete_where p rows) (All-select_test (λ x. not (p x)) rows)

find-other :
    (id j : String) (rows : List Node)
    → (j == id) ≡ false
    → find (λ n. n.id == j) (delete_where (λ n. n.id == id) rows) ≡ find (λ n. n.id == j) rows
find-other id j [] h = refl
find-other id j (n ∷ rows) h = elim (Bool-cases (n.id == id)) [
  | inl t ↦ elim (Bool-cases (n.id == j)) [
    | inl k ↦ absurd (ground (arith, eq_iff n.id id, eq_iff n.id j, eq_iff j id))
    | inr k ↦ rw (t, k) (find-other id j rows h)
  ]
  | inr f ↦ rw f (ground (arith, find-other id j rows h))
]

-- DeleteNode of a node that is not there returns ErrNotFound and changes nothing; of a node that is
-- there it succeeds, and then the node is not found, no edge starts or ends at it, no thread holds it
-- and no evidence belongs to it, while every other node reads as before.
pub delete_node-cascade :
    (id : String) (db : Db)
    → (has_node db.nodes id ≡ false × (delete_node id db ≡ (err not_found, db)))
      ⊎ (((delete_node id db).0 ≡ ok tt)
          × (get_node id (delete_node id db).1 ≡ err not_found)
          × All (λ e. touches id e ≡ false) (delete_node id db).1.edges
          × All (λ tn. (tn.node_id == id) ≡ false) (delete_node id db).1.thread_nodes
          × All (λ (r : EvidenceRow). (r.row.node_id == id) ≡ false) (delete_node id db).1.evidence
          × ((j : String) → (j == id) ≡ false → get_node j (delete_node id db).1 ≡ get_node j db))
unfolding delete_node drop_node get_node
delete_node-cascade id db = elim (Bool-cases (has_node db.nodes id)) [
  | inr f ↦ inl (f, rw f)
  | inl t ↦ inr (
      rw t (
        refl,
        rw (
          find-eq-none (λ n. n.id == id) (delete_where (λ n. n.id == id) db.nodes)
              (any_of_All (λ n. n.id == id) (delete_where (λ n. n.id == id) db.nodes)
                (All-delete (λ n. n.id == id) db.nodes)),
          get_node,
        ),
        All-delete (touches id) db.edges,
        All-delete (λ (tn : ThreadNode). tn.node_id == id) db.thread_nodes,
        All-delete (λ (e : EvidenceRow). e.row.node_id == id) db.evidence,
        λ j h. rw (find-other id j db.nodes h, get_node),
      ))
]

find-snoc_other :
    (n : Node) (j : String) (rows : List Node)
    → (n.id == j) ≡ false
    → find (λ x. x.id == j) (rows ++ n ∷ []) ≡ find (λ x. x.id == j) rows
find-snoc_other n j [] h = rw h
find-snoc_other n j (x ∷ rows) h = ground (arith, find-snoc_other n j rows h)

-- CreateNode under an id that is taken fails and changes nothing; under a new id it succeeds, reading
-- the id then gives the node at version 1 with the time of its creation, and every other id reads as
-- before.
pub create_node-get_node :
    (now : ℕ) (n : Node) (db : Db)
    → (has_node db.nodes n.id ≡ true × (create_node now n db ≡ (err constraint, db)))
      ⊎ (((create_node now n db).0
            ≡ ok (record n { version = 1; created_at = now; updated_at = now }))
          × (get_node n.id (create_node now n db).1
              ≡ ok (record n { version = 1; created_at = now; updated_at = now }))
          × ((j : String)
              → (n.id == j) ≡ false
              → get_node j (create_node now n db).1 ≡ get_node j db))
unfolding create_node get_node created_node
create_node-get_node now n db = elim (Bool-cases (has_node db.nodes n.id)) [
  | inl t ↦ inl (
    t,
    exec-pure-err (insert_node (created_node now n)) (created_node now n) db
        (insert_node-old (created_node now n) db t),
  )
  | inr f ↦
      let out =
        exec-pure-ok (insert_node (created_node now n)) (created_node now n) db
          (insert_node-new (created_node now n) db f) in
      inr (
        rw out,
        rw out (
            rw (
              find-append_none (λ x. x.id == n.id) db.nodes (created_node now n ∷ []) f,
              eq_refl n.id,
              get_node,
            )),
        λ j h. rw out (rw (find-snoc_other (created_node now n) j db.nodes h, get_node)),
      )
]
