-- ===== src/Dag/Validate/Sound.antt =====
-- What ValidateGraph (internal/dag/validate.go) says of a valid database.
use flying_shuttle.Prelude.{
  ℕ, length, String, true, false, ◌≡◌, ◌↔◌, refl, sym, ap, ◌∙◌, List, [], ◌∷◌, All, All-imp,
  All-Memᴰ, All-kept, eq_iff, ◌==◌, Bool-cases, inl, inr,
}
use mathlib.Core.List.{Memᴰ}
use flying_shuttle.Prelude.Sort.{All-sort_by}
use flying_shuttle.Model.{Node, Edge, Thread, ThreadNode}
use flying_shuttle.Doc.Db.{Db, has_node}
use flying_shuttle.Doc.Nodes.{list_nodes}
use flying_shuttle.Doc.Edges.{list_edges}
use flying_shuttle.Doc.Threads.{list_threads, get_thread_nodes, thread_position_leb}
use flying_shuttle.Doc.Valid.{IsValid, EdgeRefers}
use flying_shuttle.Dag.Cycle.Search.{here}
use flying_shuttle.Dag.Cycle.Acyclic.{Acyclic}
use flying_shuttle.Dag.Topo.{Order, sorted, cyclic, topological_sort}
use flying_shuttle.Dag.Topo.Sorted.{edges-refer, listed, ids_of}
use flying_shuttle.Dag.Topo.Complete.{topological_sort_correct, listed-Acyclic}
use flying_shuttle.Dag.Topo.Rank.{ordered-Acyclic}
use flying_shuttle.Dag.Validate.{
  Report, check_edge, check_edges, check_members, check_threads, check_order, validate_graph,
}

-- No edge of an acyclic graph with existing ends is reported.
check_edges-none :
    (nodes : List Node) (es : List Edge) (r : Report)
    → All (EdgeRefers nodes) es
    → All (λ e. (e.from_node == e.to_node) ≡ false) es
    → check_edges nodes es r ≡ r
unfolding check_edges
check_edges-none nodes [] r h k = refl
check_edges-none nodes (e ∷ es) r h k =
    ap (check_edges nodes es) (quiet h.0 k.0) ∙ check_edges-none nodes es r h.1 k.1
  where
    quiet : EdgeRefers nodes e → (e.from_node == e.to_node) ≡ false → check_edge nodes e r ≡ r
    quiet refers apart = rw (apart, refers.0, refers.1, check_edge)

check_members-none :
    (nodes : List Node) (id : String) (tns : List ThreadNode) (r : Report)
    → All (λ tn. has_node nodes tn.node_id ≡ true) tns
    → check_members nodes id tns r ≡ r
unfolding check_members
check_members-none nodes id [] r h = refl
check_members-none nodes id (tn ∷ tns) r h = rw h.0 (check_members-none nodes id tns r h.1)

check_threads-none :
    (db : Db) (nodes : List Node) (ths : List Thread) (r : Report)
    → ((id : String) → All (λ tn. has_node nodes tn.node_id ≡ true) (get_thread_nodes db id))
    → check_threads db nodes ths r ≡ r
unfolding check_threads
check_threads-none db nodes [] r h = refl
check_threads-none db nodes (th ∷ ths) r h =
    ap (check_threads db nodes ths)
      (check_members-none nodes th.id (get_thread_nodes db th.id) r (h th.id))
    ∙ check_threads-none db nodes ths r h

module _ (db : Db) (valid : IsValid db) where
  members-known :
      (id : String)
      → All (λ tn. has_node (list_nodes db) tn.node_id ≡ true) (get_thread_nodes db id)
  unfolding get_thread_nodes
  members-known id =
      All-sort_by thread_position_leb (λ tn. has_node (list_nodes db) tn.node_id ≡ true) _
        (All-kept (λ tn. tn.thread_id == id)
          (λ (tn : ThreadNode) r t. listed db valid tn.node_id ∙ r.1) db.thread_nodes
          valid.thread_nodes_refer)

  no_self_link :
      Acyclic (list_edges db) → All (λ e. (e.from_node == e.to_node) ≡ false) (list_edges db)
  no_self_link acyclic = All-imp apart (list_edges db) (All-Memᴰ (list_edges db))
    where
      apart : (e : Edge) → Memᴰ e (list_edges db) → (e.from_node == e.to_node) ≡ false
      apart e m = elim (Bool-cases (e.from_node == e.to_node)) [
        | inr f ↦ f
        | inl t ↦ absurd (acyclic e m (here (sym ((eq_iff e.from_node e.to_node).0 t))))
      ]

-- An order that was not found makes the report invalid.
cyclic-invalid : (n m : ℕ) (r : Report) → (check_order (cyclic n m) r).valid ≡ false
unfolding check_order
cyclic-invalid n m r = refl

sorted-quiet : (ns : List Node) (r : Report) → check_order (sorted ns) r ≡ r
unfolding check_order
sorted-quiet ns r = refl

abbrev checks : Db → Report
checks db =
    check_threads db (list_nodes db) (list_threads db)
      (check_edges (list_nodes db) (list_edges db) (record { valid = true; issues = [] }))

validate_graph-order :
    (db : Db) (o : Order) → topological_sort db ≡ o → validate_graph db ≡ check_order o (checks db)
unfolding validate_graph
validate_graph-order db o h = ap (λ o. check_order o (checks db)) h

-- The report on a database that meets the schema says "valid" exactly if its edges have no cycle.
pub validate_graph_correct :
    (db : Db) → IsValid db → ((validate_graph db).valid ≡ true) ↔ Acyclic db.edges
validate_graph_correct db valid = elim (topological_sort_correct db valid) [
  | inl (result, out, sorting) ↦ (
    (λ _. ordered-Acyclic db.edges (ids_of result) sorting.ordered),
    (λ acyclic. good result out acyclic),
  )
  | inr (count, out, less, cycle) ↦
      ((λ v. absurd (cc (v, bad count out))), (λ acyclic. absurd (cycle acyclic)))
]
  where
    good :
        (result : List Node)
        → topological_sort db ≡ sorted result
        → Acyclic db.edges
        → (validate_graph db).valid ≡ true
    good result out acyclic =
        ap (λ r. r.valid)
          (validate_graph-order db (sorted result) out
            ∙ sorted-quiet result (checks db)
            ∙ check_threads-none db (list_nodes db) (list_threads db) _ (members-known db valid)
            ∙ check_edges-none (list_nodes db) (list_edges db) _ (edges-refer db valid)
                (no_self_link db valid (listed-Acyclic db acyclic)))

    bad :
        (count : ℕ)
        → topological_sort db ≡ cyclic count (length db.nodes)
        → (validate_graph db).valid ≡ false
    bad count out =
        ap (λ r. r.valid) (validate_graph-order db (cyclic count (length db.nodes)) out)
        ∙ cyclic-invalid count (length db.nodes) (checks db)
