-- ===== src/Doc/Nodes/Lock.antt =====
-- The optimistic lock of UpdateNode (internal/doc/sqlite.go).
use flying_shuttle.Prelude.{
  ℕ, String, ◌+◌, ◌≡◌, true, false, inl, inr, Bool-cases, none, some, List, [], ◌∷◌, All, any, find,
  Option-cases, ◌∙◌, ap, sym, Option, any_of_All, arith, nat_eq, ◌==◌,
}
use flying_shuttle.Prelude.Result.{ok, err, conflict}
use flying_shuttle.Model.{Node}
use flying_shuttle.Doc.Db.{Db, update_where}
use flying_shuttle.Doc.Nodes.{same_version, updated_node, update_node, get_node}

pub get_node-find :
    (id : String) (m : Node) (db : Db)
    → get_node id db ≡ ok m
    → find (λ x. x.id == id) db.nodes ≡ some m
unfolding get_node
get_node-find id m db h = elim (Option-cases (find (λ x. x.id == id) db.nodes)) [
  | inl e ↦ absurd (cc (rw (e, get_node) at h))
  | inr (x, e) ↦ e ∙ ap some (cc (rw (e, get_node) at h))
]

-- No row has the version that the update asked for.
none_left :
    (now : ℕ) (n m : Node)
    → m.id ≡ n.id
    → m.version ≡ n.version
    → (rows : List Node)
    → All (λ x. same_version m x ≡ false) (update_where (same_version n) (updated_node now n) rows)
unfolding updated_node
none_left now n m i v [] = tt
none_left now n m i v (x ∷ rows) = elim (Bool-cases (same_version n x)) [
  | inl t ↦ rw t (ground arith, none_left now n m i v rows)
  | inr f ↦ rw f (ground arith, none_left now n m i v rows)
]

-- Of two writers that have read the same version of a node, the second to write is refused with
-- ErrConflict, and what the first wrote stays.
pub update_node-conflict :
    (now later : ℕ) (n m r : Node) (db db' : Db)
    → m.id ≡ n.id
    → m.version ≡ n.version
    → update_node now n db ≡ (ok r, db')
    → update_node later m db' ≡ (err conflict, db')
unfolding update_node
update_node-conflict now later n m r db db' i v h =
    elim (Bool-cases (any (same_version n) db.nodes)) [
      | inl t ↦
          let rows : update_where (same_version n) (updated_node now n) db.nodes ≡ db'.nodes =
            (cc (rw t at h)) in
          rw (any_of_All (same_version m) db'.nodes (rw (← rows) (none_left now n m i v db.nodes)))
      | inr f ↦ absurd (cc (rw f at h))
    ]

find-update :
    (now : ℕ) (n m : Node) (rows : List Node)
    → m.version ≡ n.version
    → find (λ x. x.id == n.id) rows ≡ some m
    → (any (same_version n) rows ≡ true)
      × (find (λ x. x.id == n.id) (update_where (same_version n) (updated_node now n) rows)
          ≡ some (updated_node now n m))
unfolding updated_node
find-update now n m [] v h = absurd (cc h)
find-update now n m (x ∷ rows) v h = elim (Bool-cases (x.id == n.id)) [
  | inl t ↦ elim (Bool-cases (nat_eq x.version n.version)) [
    | inl k ↦
        let same : some x ≡ some m = (rw t at h) in
        (
          rw (t, k),
          rw (t, k)
              (rw t (
                ap
                  (λ (o : Option Node). elim o [
                    | none ↦ none
                    | some y ↦ some (updated_node now n y)
                  ])
                  same)),
        )
    | inr k ↦ absurd (ground arith)
  ]
  | inr f ↦ let ih = find-update now n m rows v (rw f at h) in (rw f ih.0, rw f (rw f ih.1))
]

-- A node that is read, changed and written back at the version that was read is stored: the update
-- succeeds, and reading the node gives the written fields, the next version and the time of the write.
pub update_node-get_node :
    (now : ℕ) (n m : Node) (db : Db)
    → get_node n.id db ≡ ok m
    → n.version ≡ m.version
    → ((update_node now n db).0 ≡ ok (record n { version = n.version + 1; updated_at = now }))
      × (get_node n.id (update_node now n db).1
          ≡ ok (record m {
            type = n.type;
            title = n.title;
            body = n.body;
            labels = n.labels;
            locked = n.locked;
            version = n.version + 1;
            updated_at = now;
          }))
unfolding update_node get_node updated_node
update_node-get_node now n m db h v =
    let (found, after) = find-update now n m db.nodes (sym v) (get_node-find n.id m db h) in
    (rw found, rw found (rw (after, get_node, v)))
