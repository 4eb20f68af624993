-- ===== src/Dag/Topo/Sorted.antt =====
-- TopologicalSort (internal/dag/traverse.go) against what its result promises.
use flying_shuttle.Prelude.{
  ◌+◌, String, Bool, true, ◌≡◌, refl, sym, ap, ◌∙◌, subst, Option, some, none, List, [], ◌∷◌, map,
  select, any-find, All, All-imp, All-map, All-select, All-select_test, All-find, All-Memᴰ, All-at,
  length, any-false, eq_iff, eq_refl, arith, ◌==◌, if◌then◌else◌, Bool-cases, inl, inr, nat_eq,
}
use mathlib.Core.List.{Memᴰ}
use flying_shuttle.Prelude.Int.{pos, eq_ℤ, eq_ℤ_iff}
use flying_shuttle.Prelude.Sort.{All-sort_by, All-sort_by_inv, any-sort_by, length-sort_by}
use flying_shuttle.Prelude.Distinct.{Distinct, Distinct-select, Distinct-map, Distinct-sort_by}
use flying_shuttle.Model.{Node, Edge}
use flying_shuttle.Doc.Db.{Db, has_node, node_clash}
use flying_shuttle.Doc.Nodes.{list_nodes, node_leb}
use flying_shuttle.Doc.Edges.{list_edges, edge_leb}
use flying_shuttle.Doc.Valid.{IsValid, EdgeRefers, node_clash_symm}
use flying_shuttle.Dag.Condition.{member}
use flying_shuttle.Dag.Topo.{
  Order, sorted, cyclic, in_degrees, no_degrees, roots, node_of, drain, topological_sort,
}
use flying_shuttle.Dag.Topo.Count.{in_degrees-counted}
use flying_shuttle.Dag.Topo.Loop.{same_id, same_id_symm, Precedes, Known, Loop}
use flying_shuttle.Dag.Topo.Drain.{Drained, known-length}

abbrev pub ids_of : List Node → List String
ids_of nodes = map (λ n. n.id) nodes

-- The result has every row of the table once, and along each edge the source before the target.
pub record IsSorting (db : Db) (result : List Node) : Type 0 where
  pub rows : All (λ n. Memᴰ n db.nodes) result
  pub complete : All (λ n. member n.id (ids_of result) ≡ true) db.nodes
  pub distinct : Distinct same_id (ids_of result)
  pub ordered : All (λ e. Precedes (ids_of result) e) db.edges

-- Looking up a known id gives its row.
node_of-known :
    (nodes : List Node) (id : String)
    → Known nodes id
    → Memᴰ (node_of nodes id) nodes × ((node_of nodes id).id ≡ id)
unfolding node_of
node_of-known nodes id k =
    let (n, e) = any-find (λ n. n.id == id) nodes k in
    let (m, t) = All-find (λ n. Memᴰ n nodes) (λ n. n.id == id) nodes n (All-Memᴰ nodes) e in
    rw (e, node_of) (m, (eq_iff n.id id).0 t)

ids-node_of :
    (nodes : List Node) (ids : List String)
    → All (Known nodes) ids
    → ids_of (map (node_of nodes) ids) ≡ ids
ids-node_of nodes [] k = refl
ids-node_of nodes (id ∷ ids) k = rw ((node_of-known nodes id k.0).1, ids-node_of nodes ids k.1)

pub own_ids : (nodes : List Node) → All (λ n. Known nodes n.id) nodes
own_ids [] = tt
own_ids (n ∷ ns) = (ground (arith, eq_refl n.id), All-imp (λ m k. ground arith) ns (own_ids ns))

-- The loop starts with the roots in the queue.
pub Loop-start :
    (nodes : List Node) (edges : List Edge)
    → Distinct node_clash nodes
    → Loop nodes edges []
        (roots (in_degrees edges no_degrees) nodes)
        []
        (in_degrees edges no_degrees)
unfolding roots
Loop-start nodes edges d = record {
  counted = λ x. in_degrees-counted edges no_degrees (λ _. 0) (λ _. refl) x ∙ ap pos (omega arith);
  distinct =
      Distinct-map (λ n. n.id) {P = λ _. Unit {0}} node_clash same_id
        (λ x y _ _ h. same_id_symm x.id y.id ∙ h) (select is_root nodes)
        (All-imp (λ _ _. tt) (select is_root nodes) (All-select_test is_root nodes))
        (Distinct-select node_clash is_root nodes d);
  settled =
      All-map (λ x. in_degrees edges no_degrees x ≡ pos 0) (λ n. n.id) (select is_root nodes)
        (All-imp (λ n t. (eq_ℤ_iff _ (pos 0)).0 t) (select is_root nodes)
          (All-select_test is_root nodes));
  known =
      All-map (Known nodes) (λ n. n.id) (select is_root nodes)
        (All-select (λ n. Known nodes n.id) is_root nodes (own_ids nodes));
  ready = λ x k z. root_listed x z nodes k;
}
  where
    is_root : Node → Bool
    is_root n = eq_ℤ (in_degrees edges no_degrees n.id) (pos 0)

    root_listed :
        (x : String)
        → in_degrees edges no_degrees x ≡ pos 0
        → (ns : List Node) → Known ns x
        → member x (map (λ n. n.id) (select is_root ns)) ≡ true
    root_listed x z [] k = k
    root_listed x z (n ∷ ns) k = elim (Bool-cases (n.id == x)) [
      | inl t ↦
          let root : is_root n ≡ true =
            (eq_ℤ_iff _ (pos 0)).1 (ap (in_degrees edges no_degrees) ((eq_iff n.id x).0 t) ∙ z) in
          rw root (rw t)
      | inr f ↦ elim (Bool-cases (is_root n)) [
        | inl r ↦ rw r (rw f (root_listed x z ns (rw f at k)))
        | inr r ↦ rw r (root_listed x z ns (rw f at k))
      ]
    ]

-- As many known ids without repetitions as nodes are all of the nodes.
full :
    (nodes : List Node) (ids : List String)
    → Distinct same_id ids
    → All (Known nodes) ids
    → length ids ≡ length nodes
    → (id : String) → Known nodes id
    → member id ids ≡ true
full nodes ids d k same id t = elim (Bool-cases (member id ids)) [
  | inl m ↦ m
  | inr m ↦ absurd (
      omega (
        arith,
        same,
        known-length nodes (id ∷ ids)
            (All-imp (λ x h. same_id_symm id x ∙ h) ids (any-false (λ x. x == id) ids m), d) (t, k),
      ))
]

-- The sort, from what the loop popped.
abbrev pub outcome : List Node → Option (List String) → Order
outcome nodes none = Order.deep
outcome nodes (some ids) =
    if nat_eq (length ids) (length nodes)
    then sorted (map (node_of nodes) ids)
    else cyclic (length ids) (length nodes)

pub topological_sort-outcome :
    (db : Db) (ids : List String)
    → drain
        (list_edges db)
        (length (list_nodes db) + length (list_edges db))
        (roots (in_degrees (list_edges db) no_degrees) (list_nodes db))
        (in_degrees (list_edges db) no_degrees)
        []
      ≡ some ids
    → topological_sort db ≡ outcome (list_nodes db) (some ids)
unfolding topological_sort
topological_sort-outcome db ids h = ap (outcome (list_nodes db)) h

module _ (db : Db) (valid : IsValid db) where
  pub nodes-Distinct : Distinct node_clash (list_nodes db)
  unfolding list_nodes
  nodes-Distinct =
      Distinct-sort_by node_clash node_clash_symm node_leb db.nodes valid.nodes_distinct

  pub listed : (id : String) → has_node (list_nodes db) id ≡ has_node db.nodes id
  unfolding list_nodes
  listed id = any-sort_by node_leb (λ n. n.id == id) db.nodes

  pub edges-refer : All (EdgeRefers (list_nodes db)) (list_edges db)
  unfolding list_edges
  edges-refer = All-sort_by edge_leb (EdgeRefers (list_nodes db)) db.edges (
      All-imp (λ e r. (listed e.from_node ∙ r.0, listed e.to_node ∙ r.1)) db.edges
        valid.edges_refer)

  pub length-list_nodes : length (list_nodes db) ≡ length db.nodes
  unfolding list_nodes
  length-list_nodes = length-sort_by node_leb db.nodes

  pub Drained-IsSorting :
      (ids : List String)
      → Drained (list_nodes db) (list_edges db) edges-refer ids
      → length ids ≡ length (list_nodes db)
      → IsSorting db (map (node_of (list_nodes db)) ids)
  unfolding list_nodes list_edges
  Drained-IsSorting ids d same = record {
    rows = All-map (λ n. Memᴰ n db.nodes) (node_of (list_nodes db)) ids (All-imp row ids d.known);
    complete =
        subst (λ l. All (λ n. member n.id l ≡ true) db.nodes) (sym names)
          (All-imp (λ n k. full (list_nodes db) ids d.distinct d.known same n.id (listed n.id ∙ k))
            db.nodes (own_ids db.nodes));
    distinct = subst (Distinct same_id) (sym names) d.distinct;
    ordered =
        subst (λ l. All (Precedes l) db.edges) (sym names)
          (All-sort_by_inv edge_leb (Precedes ids) db.edges
            (All-both (list_edges db) edges-refer d.ordered));
  }
    where
      names : ids_of (map (node_of (list_nodes db)) ids) ≡ ids
      names = ids-node_of (list_nodes db) ids d.known

      row : (id : String) → Known (list_nodes db) id → Memᴰ (node_of (list_nodes db) id) db.nodes
      row id k =
          All-at (λ n. Memᴰ n db.nodes) (list_nodes db) (node_of-known (list_nodes db) id k).0
            (All-sort_by node_leb (λ n. Memᴰ n db.nodes) db.nodes (All-Memᴰ db.nodes))

      All-both :
          (es : List Edge)
          → All (EdgeRefers (list_nodes db)) es
          → All (λ e. member e.to_node ids ≡ true → Precedes ids e) es
          → All (Precedes ids) es
      All-both [] r h = tt
      All-both (e ∷ es) r h = (
        h.0 (full (list_nodes db) ids d.distinct d.known same e.to_node r.0.1),
        All-both es r.1 h.1,
      )
