-- ===== src/Doc/Inserted.antt =====
-- What an INSERT does: it adds its row at the end, or it is refused.
use flying_shuttle.Prelude.{◌≡◌, ◌⊎◌, inl, inr, true, false, ◌&&◌, Bool-cases, [], ◌∷◌, ◌++◌, any}
use flying_shuttle.Prelude.Result.{ok, err, constraint}
use flying_shuttle.Model.{Node, Edge}
use flying_shuttle.Doc.Db.{Db, insert_node, insert_edge, edge_clash, has_node}

pub insert_node-new :
    (n : Node) (db : Db)
    → has_node db.nodes n.id ≡ false
    → insert_node n db ≡ ok (record db { nodes = db.nodes ++ n ∷ [] })
unfolding insert_node
insert_node-new n db h = rw h

pub insert_node-old :
    (n : Node) (db : Db) → has_node db.nodes n.id ≡ true → insert_node n db ≡ err constraint
unfolding insert_node
insert_node-old n db h = rw h

pub insert_edge-new :
    (e : Edge) (db : Db)
    → (has_node db.nodes e.from_node && has_node db.nodes e.to_node) ≡ true
    → any (edge_clash e) db.edges ≡ false
    → insert_edge e db ≡ ok (record db { edges = db.edges ++ e ∷ [] })
unfolding insert_edge
insert_edge-new e db h k = rw (h, k)

pub insert_edge-cases :
    (e : Edge) (db : Db)
    → (insert_edge e db ≡ err constraint)
      ⊎ (insert_edge e db ≡ ok (record db { edges = db.edges ++ e ∷ [] }))
unfolding insert_edge
insert_edge-cases e db =
    elim (Bool-cases (has_node db.nodes e.from_node && has_node db.nodes e.to_node)) [
      | inr f ↦ inl (rw f)
      | inl t ↦ elim (Bool-cases (any (edge_clash e) db.edges)) [
        | inl c ↦ inl (rw (t, c))
        | inr n ↦ inr (rw (t, n))
      ]
    ]
