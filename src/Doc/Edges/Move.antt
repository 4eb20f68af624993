-- ===== src/Doc/Edges/Move.antt =====
-- What MoveNode (internal/doc/sqlite.go) does to the edges.
use flying_shuttle.Prelude.{
  ℕ, String, Bool, none, ◌≡◌, ◌⊎◌, refl, ◌∙◌, ap, false, not, inl, inr, Bool-cases, List, [], ◌∷◌,
  ◌++◌, map, select, true, select-append, eq_refl, arith, ◌==◌, if◌then◌else◌,
}
use mathlib.Core.List.{append-nil}
use mathlib.Core.Path.{fun_ext, subst, sym}
use flying_shuttle.Prelude.Int.{ℤ, pos, ltb_ℤ, leb_ℤ, ◌+ℤ◌}
use flying_shuttle.Prelude.Result.{Result, ok, err, constraint}
use flying_shuttle.Model.{Edge, linear, is_linear}
use flying_shuttle.Doc.Db.{Db, delete_where, update_where, insert_edge}
use flying_shuttle.Doc.Action.{exec-ok, exec-err}
use flying_shuttle.Doc.Inserted.{insert_edge-cases}
use flying_shuttle.Doc.Edges.{parent_link, behind, shift, link, move_tx, move_node}

-- The edges that do not lead to the node from a parent, with the room made behind the position.
abbrev pub roomy : String → String → ℤ → List Edge → List Edge
roomy node_id parent_id position edges =
    update_where (behind parent_id position) shift (delete_where (parent_link node_id) edges)

-- A linear edge to the node.
abbrev pub leads_to : String → Edge → Bool
leads_to node_id e = if e.to_node == node_id then is_linear e.type else false

-- An edge, one further back where it is a linear edge from the parent at the position or behind it.
abbrev pub moved_on : String → ℤ → Edge → Edge
moved_on parent_id position e =
    if e.from_node == parent_id
    then (if is_linear e.type
        then (if ltb_ℤ e.weight position then e else record e { weight = e.weight +ℤ pos 1 })
        else e)
    else e

leads_to-link : (node_id : String) → leads_to node_id ≡ parent_link node_id
leads_to-link node_id = fun_ext (λ e. go e (Bool-cases (e.to_node == node_id)))
  where
    go :
        (e : Edge)
        → ((e.to_node == node_id) ≡ true) ⊎ ((e.to_node == node_id) ≡ false)
        → leads_to node_id e ≡ parent_link node_id e
    go e (inl t) = rw t refl
    go e (inr t) = rw t refl

moved_on-shift :
    (parent_id : String) (position : ℤ) (e : Edge)
    → (if behind parent_id position e then shift e else e) ≡ moved_on parent_id position e
moved_on-shift parent_id position e = elim (Bool-cases (e.from_node == parent_id)) [
  | inr f ↦ rw f refl
  | inl f ↦ elim (Bool-cases (is_linear e.type)) [
    | inr l ↦ rw (f, l) refl
    | inl l ↦ elim (Bool-cases (ltb_ℤ e.weight position)) [
      | inl w ↦ let k : leb_ℤ position e.weight ≡ false = (ground arith) in rw (f, l, w, k) refl
      | inr w ↦ let k : leb_ℤ position e.weight ≡ true = (ground arith) in rw (f, l, w, k) refl
    ]
  ]
]

roomy-moved_on :
    (node_id parent_id : String) (position : ℤ) (edges : List Edge)
    → roomy node_id parent_id position edges
      ≡ map (moved_on parent_id position) (select (λ e. not (parent_link node_id e)) edges)
roomy-moved_on node_id parent_id position edges =
    ap (λ f. map f (select (λ e. not (parent_link node_id e)) edges))
      (fun_ext (moved_on-shift parent_id position))

-- Making room moves no edge.
keeps_parent :
    (node_id parent_id : String) (position : ℤ) (e : Edge)
    → parent_link node_id (if behind parent_id position e then shift e else e)
      ≡ parent_link node_id e
keeps_parent node_id parent_id position e = ground arith

module _ (node_id parent_id : String) (position : ℤ) where
  roomy-parent :
      (edges : List Edge)
      → select (parent_link node_id) (roomy node_id parent_id position edges) ≡ []
  roomy-parent [] = refl
  roomy-parent (e ∷ edges) = elim (Bool-cases (parent_link node_id e)) [
    | inl t ↦ rw t (roomy-parent edges)
    | inr f ↦ rw f (rw (keeps_parent node_id parent_id position e, f) (roomy-parent edges))
  ]

  roomy-other :
      (edges : List Edge)
      → select (λ e. not (parent_link node_id e)) (roomy node_id parent_id position edges)
        ≡ roomy node_id parent_id position edges
  roomy-other [] = refl
  roomy-other (e ∷ edges) = elim (Bool-cases (parent_link node_id e)) [
    | inl t ↦ rw t (roomy-other edges)
    | inr f ↦ rw f (
        rw (keeps_parent node_id parent_id position e, f)
          (ap (λ es. (if behind parent_id position e then shift e else e) ∷ es)
            (roomy-other edges)))
  ]

unlinked :
    (node_id : String) (edges : List Edge)
    → select (parent_link node_id) (delete_where (parent_link node_id) edges) ≡ []
unlinked node_id [] = refl
unlinked node_id (e ∷ edges) = elim (Bool-cases (parent_link node_id e)) [
  | inl t ↦ rw t (unlinked node_id edges)
  | inr f ↦ rw f (rw f (unlinked node_id edges))
]

-- Moving a node to the root succeeds and removes exactly the linear edges that lead to it.
pub move_node-root :
    (now : ℕ) (new_id node_id : String) (position : ℤ) (db : Db)
    → (move_node now new_id node_id "" position db
        ≡ (ok tt, record db { edges = delete_where (parent_link node_id) db.edges }))
      × (select (parent_link node_id) (move_node now new_id node_id "" position db).1.edges ≡ [])
unfolding move_node move_tx
move_node-root now new_id node_id position db = (refl, unlinked node_id db.edges)

-- Moving a node below a parent either is refused by the database and changes nothing, or it
-- succeeds; then exactly one linear edge leads to the node, the new one from that parent at that
-- position, without a condition and with the time of the move, and the other edges are those from
-- before, each as it was except that the linear ones from that parent at the position or behind it
-- have a weight greater by one.
pub move_node-parent :
    (now : ℕ) (new_id node_id parent_id : String) (position : ℤ) (db : Db)
    → (parent_id == "") ≡ false
    → (move_node now new_id node_id parent_id position db ≡ (err constraint, db))
      ⊎ (((move_node now new_id node_id parent_id position db).0 ≡ ok tt)
          × (select (leads_to node_id) (move_node now new_id node_id parent_id position db).1.edges
              ≡ record {
                id = new_id;
                from_node = parent_id;
                to_node = node_id;
                type = linear;
                condition = none;
                weight = position;
                created_at = now;
              }
                ∷ [])
          × (select
                (λ e. not (leads_to node_id e))
                (move_node now new_id node_id parent_id position db).1.edges
              ≡ map
                  (moved_on parent_id position)
                  (select (λ e. not (leads_to node_id e)) db.edges)))
unfolding move_node move_tx
move_node-parent now new_id node_id parent_id position db p =
    elim (insert_edge-cases (link now new_id parent_id node_id position) room) [
      | inl e ↦ inl (exec-err tx db (tx_is ∙ e))
      | inr s ↦
          let out = exec-ok tx db (tx_is ∙ s) in
          inr (
            rw out,
            rw out (
                subst (λ p. select p (after ++ added ∷ []) ≡ added ∷ [])
                  (sym (leads_to-link node_id)) only),
            rw out (
                subst
                  (λ p.
                    select (λ e. not (p e)) (after ++ added ∷ [])
                    ≡ map (moved_on parent_id position) (select (λ e. not (p e)) db.edges))
                  (sym (leads_to-link node_id))
                  (rest ∙ roomy-moved_on node_id parent_id position db.edges)),
          )
    ]
  where
    tx : Db → Result Db
    tx = move_tx now new_id node_id parent_id position

    after : List Edge
    after = roomy node_id parent_id position db.edges

    room : Db
    room = record db { edges = roomy node_id parent_id position db.edges }

    tx_is : tx db ≡ insert_edge (link now new_id parent_id node_id position) room
    tx_is = rw p

    added : Edge
    added = link now new_id parent_id node_id position

    only :
        select (parent_link node_id) (roomy node_id parent_id position db.edges ++ added ∷ [])
        ≡ added ∷ []
    only = rw (
      select-append (parent_link node_id) (roomy node_id parent_id position db.edges) (added ∷ []),
      roomy-parent node_id parent_id position db.edges,
      eq_refl node_id,
    )

    rest :
        select
          (λ e. not (parent_link node_id e))
          (roomy node_id parent_id position db.edges ++ added ∷ [])
        ≡ roomy node_id parent_id position db.edges
    rest =
        rw
          (
            select-append (λ e. not (parent_link node_id e))
                (roomy node_id parent_id position db.edges) (added ∷ []),
            roomy-other node_id parent_id position db.edges,
            eq_refl node_id,
          )
          (append-nil _)
