-- ===== src/Dag/Topo/Complete.antt =====
-- TopologicalSort (internal/dag/traverse.go) on acyclic graphs and on others.
use flying_shuttle.Prelude.{
  ℕ, zero, suc, ◌+◌, ◌≤◌, ◌<◌, String, true, false, not, ◌≡◌, ◌⊎◌, refl, sym, ap, ◌∙◌, subst, List,
  [], ◌∷◌, All, All-imp, All-Memᴰ, All-at, length, any-false, map, nat_eq, All-any, eq_iff, arith,
  ◌==◌, Bool-cases, inl, inr,
}
use mathlib.Core.List.{Memᴰ}
use flying_shuttle.Prelude.Distinct.{Distinct}
use flying_shuttle.Prelude.Sort.{All-sort_by}
use flying_shuttle.Model.{Node, Edge}
use flying_shuttle.Doc.Db.{Db, node_clash}
use flying_shuttle.Doc.Edges.{list_edges, edge_leb}
use flying_shuttle.Doc.Valid.{IsValid, EdgeRefers}
use flying_shuttle.Dag.Condition.{member}
use flying_shuttle.Dag.Cycle.Search.{Leads, here, step}
use flying_shuttle.Dag.Cycle.Acyclic.{Acyclic}
use flying_shuttle.Dag.Topo.Count.{waiting}
use flying_shuttle.Dag.Topo.Loop.{same_id, same_id_symm, Known}
use flying_shuttle.Dag.Topo.Drain.{Drained, known-length, drain-ends}
use flying_shuttle.Dag.Topo.Sorted.{
  IsSorting, Loop-start, own_ids, topological_sort-outcome, nodes-Distinct, edges-refer,
  length-list_nodes, Drained-IsSorting,
}
use flying_shuttle.Dag.Topo.{
  sorted, cyclic, in_degrees, no_degrees, roots, node_of, topological_sort,
}
use flying_shuttle.Doc.Nodes.{list_nodes}
use flying_shuttle.Prelude.Pigeonhole.{pigeonhole}

-- Where something waits, there is an edge from a node that is not popped.
waiting-some :
    (edges : List Edge) (popped : List String) (x : String)
    → (waiting edges popped x ≡ 0)
      ⊎ ((e : Edge) × Memᴰ e edges × (e.to_node ≡ x) × (member e.from_node popped ≡ false))
waiting-some [] popped x = inl refl
waiting-some (e ∷ es) popped x = elim (waiting-some es popped x) [
  | inr (d, m, t, f) ↦ inr (d, Memᴰ.tail m, t, f)
  | inl z ↦ elim (Bool-cases (e.to_node == x)) [
    | inr f ↦ inl (ground (arith, z, f))
    | inl t ↦ elim (Bool-cases (member e.from_node popped)) [
      | inl p ↦ inl (ground (arith, z, p))
      | inr p ↦ inr (e, Memᴰ.head refl, (eq_iff e.to_node x).0 t, p)
    ]
  ]
]

member-at :
    (P : String → Type 0) (x : String) (ids : List String) → member x ids ≡ true → All P ids → P x
member-at P x [] m h = absurd (cc m)
member-at P x (id ∷ ids) m h = elim (Bool-cases (id == x)) [
  | inl t ↦ subst P ((eq_iff id x).0 t) h.0
  | inr f ↦ member-at P x ids (rw f at m) h.1
]

module _ (nodes : List Node) (edges : List Edge) (refers : All (EdgeRefers nodes) edges)
    (acyclic : Acyclic edges) (ids : List String) (drained : Drained nodes edges refers ids) where
  -- From a node that is not popped one can go back along edges without end.
  go_back :
      (fuel : ℕ) (x : String) (path : List String)
      → length nodes < fuel + length path
      → Known nodes x
      → member x ids ≡ false
      → Distinct same_id path
      → All (Known nodes) path
      → All (Leads edges x) path
      → ⊥
  go_back zero x path lt k m d ks walks = omega (arith, lt, known-length nodes path d ks)
  go_back (suc fuel) x path lt k m d ks walks = elim (waiting-some edges ids x) [
    | inl z ↦ absurd (cc (m, drained.ready x k z))
    | inr (e, in_edges, to, from) ↦
        let from_known = (All-at (EdgeRefers nodes) edges in_edges refers).0 in
        elim (Bool-cases (member e.from_node path)) [
          | inl t ↦ acyclic e in_edges (
              subst (λ y. Leads edges y e.from_node) (sym to)
                (member-at (Leads edges x) e.from_node path t walks))
          | inr f ↦
              go_back fuel e.from_node (e.from_node ∷ path) (omega (arith, lt)) from_known from
                (
                  All-imp (λ y h. same_id_symm e.from_node y ∙ h) path
                      (any-false (λ y. y == e.from_node) path f),
                  d,
                )
                (from_known, ks)
                (
                  here refl,
                  All-imp (λ y w. step e in_edges refl (subst (λ z. Leads edges z y) (sym to) w))
                      path walks,
                )
        ]
  ]

  pub all_popped : (x : String) → Known nodes x → member x ids ≡ true
  all_popped x k = elim (Bool-cases (member x ids)) [
    | inl t ↦ t
    | inr f ↦ absurd (go_back (suc (length nodes)) x [] (omega arith) k f tt tt tt)
  ]

  -- So the order is as long as the list of the nodes.
  pub all_sorted : Distinct node_clash nodes → length nodes ≤ length ids
  all_sorted d =
      pigeonhole node_clash (λ n id. id == n.id) apart nodes ids d
        (All-imp (λ n k. all_popped n.id k) nodes (own_ids nodes))
    where
      apart :
          (a b : Node) (id : String)
          → node_clash a b ≡ false
          → (id == b.id) ≡ true
          → not (id == a.id) ≡ true
      apart a b id h t = ground (arith, eq_iff id b.id, eq_iff id a.id, eq_iff b.id a.id)

Leads-more :
    {edges more : List Edge}
    → ((e : Edge) → Memᴰ e edges → Memᴰ e more)
    → {a c : String} → Leads edges a c
    → Leads more a c
Leads-more f (here e) = here e
Leads-more f (step e m from w) = step e (f e m) from (Leads-more f w)

-- Listing the edges adds none.
pub listed-Acyclic : (db : Db) → Acyclic db.edges → Acyclic (list_edges db)
unfolding list_edges
listed-Acyclic db acyclic e m w = acyclic e (stored e m) (Leads-more stored w)
  where
    stored : (e : Edge) → Memᴰ e (list_edges db) → Memᴰ e db.edges
    stored e m =
        All-at (λ e. Memᴰ e db.edges) (list_edges db) m
          (All-sort_by edge_leb (λ e. Memᴰ e db.edges) db.edges (All-Memᴰ db.edges))

-- The sort of a valid database ends: either it returns every node once with the source of each edge
-- before its target, or it reports a cycle, with fewer nodes sorted than there are, and then the edges
-- have a cycle.
pub topological_sort_correct :
    (db : Db)
    → IsValid db
    → ((result : List Node) × (topological_sort db ≡ sorted result) × IsSorting db result)
      ⊎ ((count : ℕ) × (topological_sort db ≡ cyclic count (length db.nodes))
          × (count < length db.nodes)
          × ¬ (Acyclic db.edges))
topological_sort_correct db valid =
    let (ids, out, drained) =
      drain-ends nodes edges (edges-refer db valid) (length nodes + length edges)
        (roots (in_degrees edges no_degrees) nodes) (in_degrees edges no_degrees) [] (omega arith)
        (Loop-start nodes edges (nodes-Distinct db valid))
        (All-imp (λ e m t. absurd (cc t)) edges (All-any edges)) in
    let result = topological_sort-outcome db ids out in
    elim (Bool-cases (nat_eq (length ids) (length nodes))) [
      | inl t ↦ inl (
        map (node_of nodes) ids,
        result ∙ rw t,
        Drained-IsSorting db valid ids drained (ground arith),
      )
      | inr f ↦ inr (
        length ids,
        result ∙ rw f (ap (cyclic (length ids)) (length-list_nodes db valid)),
        ground (
          arith,
          f,
          known-length nodes ids drained.distinct drained.known,
          length-list_nodes db valid,
        ),
        λ acyclic. ground (
          arith,
          f,
          known-length nodes ids drained.distinct drained.known,
          all_sorted nodes edges (edges-refer db valid) (listed-Acyclic db acyclic) ids drained
              (nodes-Distinct db valid),
        ),
      )
    ]
  where
    nodes : List Node
    nodes = list_nodes db

    edges : List Edge
    edges = list_edges db
