-- ===== src/Doc/Valid/Remove.antt =====
-- Validity over the DELETE statements of internal/doc/sqlite.go, with their cascades.
use flying_shuttle.Prelude.{
  ◌≡◌, not, true, false, inl, inr, Bool-cases, List, [], ◌∷◌, All, All-select, select, arith, Bool,
  String, ◌==◌, eq_iff, length, nat_eq,
}
use flying_shuttle.Prelude.Distinct.{Distinct-select, any-select}
use flying_shuttle.Model.{Node, Edge, Thread, ThreadNode, Snapshot}
use flying_shuttle.Doc.Db.{
  Db, EvidenceRow, delete_where, node_clash, edge_clash, evidence_clash, thread_clash,
  thread_node_clash, snapshot_clash, branch_clash, has_node, has_thread,
}
use flying_shuttle.Doc.Nodes.{drop_node, touches}
use flying_shuttle.Doc.Branches.{without_branch}
use flying_shuttle.Doc.Valid.{IsValid, EdgeRefers, EvidenceRefers, ThreadNodeRefers}

-- Deleting the node `id` leaves every other node.
has_node-delete :
    (id j : String) (nodes : List Node)
    → (j == id) ≡ false
    → has_node (delete_where (λ n. n.id == id) nodes) j ≡ has_node nodes j
has_node-delete id j nodes h =
    any-select (λ n. n.id == j) (λ n. not (n.id == id))
      (λ n e. ground (arith, eq_iff n.id j, eq_iff n.id id, eq_iff j id)) nodes

has_thread-delete :
    (id j : String) (threads : List Thread)
    → (j == id) ≡ false
    → has_thread (delete_where (λ t. t.id == id) threads) j ≡ has_thread threads j
has_thread-delete id j threads h =
    any-select (λ t. t.id == j) (λ t. not (t.id == id))
      (λ t e. ground (arith, eq_iff t.id j, eq_iff t.id id, eq_iff j id)) threads

-- What holds of the rows and, by the test, of the rows that stay.
module _ {ℓ} {A : Type ℓ} {P Q : A → Type 0} (p : A → Bool)
    (keeps : (x : A) → P x → p x ≡ true → Q x) where
  All-kept : (xs : List A) → All P xs → All Q (select p xs)
  All-kept [] h = tt
  All-kept (x ∷ xs) h = elim (Bool-cases (p x)) [
    | inl e ↦ rw e (keeps x h.0 e, All-kept xs h.1)
    | inr e ↦ rw e (All-kept xs h.1)
  ]

pub drop_node-IsValid : (id : String) (db : Db) → IsValid db → IsValid (drop_node id db)
unfolding drop_node
drop_node-IsValid id db v = assumption (
  Distinct-select node_clash (λ n. not (n.id == id)) db.nodes v.nodes_distinct,
  Distinct-select edge_clash (λ e. not (touches id e)) db.edges v.edges_distinct,
  Distinct-select evidence_clash (λ r. not (r.row.node_id == id)) db.evidence v.evidence_distinct,
  Distinct-select thread_node_clash (λ tn. not (tn.node_id == id)) db.thread_nodes
      v.thread_nodes_distinct,
  All-kept (λ e. not (touches id e)) edge_stays db.edges v.edges_refer,
  All-kept (λ r. not (r.row.node_id == id)) evidence_stays db.evidence v.evidence_refer,
  All-kept (λ tn. not (tn.node_id == id)) thread_node_stays db.thread_nodes v.thread_nodes_refer,
)
  where
    kept : List Node
    kept = delete_where (λ n. n.id == id) db.nodes

    edge_stays : (e : Edge) → EdgeRefers db.nodes e → not (touches id e) ≡ true → EdgeRefers kept e
    edge_stays e h t = (
      rw (has_node-delete id e.from_node db.nodes (ground arith)) h.0,
      rw (has_node-delete id e.to_node db.nodes (ground arith)) h.1,
    )

    evidence_stays :
        (r : EvidenceRow)
        → EvidenceRefers db.nodes r
        → not (r.row.node_id == id) ≡ true
        → EvidenceRefers kept r
    evidence_stays r h t = rw (has_node-delete id r.row.node_id db.nodes (ground arith)) h

    thread_node_stays :
        (tn : ThreadNode)
        → ThreadNodeRefers db.threads db.nodes tn
        → not (tn.node_id == id) ≡ true
        → ThreadNodeRefers db.threads kept tn
    thread_node_stays tn h t = (h.0, rw (has_node-delete id tn.node_id db.nodes (ground arith)) h.1)

pub delete_edges-IsValid :
    (p : Edge → Bool) (db : Db)
    → IsValid db
    → IsValid (record db { edges = delete_where p db.edges })
delete_edges-IsValid p db v = assumption (
  Distinct-select edge_clash (λ e. not (p e)) db.edges v.edges_distinct,
  All-select (EdgeRefers db.nodes) (λ e. not (p e)) db.edges v.edges_refer,
)

pub delete_evidence-IsValid :
    (p : EvidenceRow → Bool) (db : Db)
    → IsValid db
    → IsValid (record db { evidence = delete_where p db.evidence })
delete_evidence-IsValid p db v = assumption (
  Distinct-select evidence_clash (λ e. not (p e)) db.evidence v.evidence_distinct,
  All-select (EvidenceRefers db.nodes) (λ e. not (p e)) db.evidence v.evidence_refer,
)

pub delete_thread_nodes-IsValid :
    (p : ThreadNode → Bool) (db : Db)
    → IsValid db
    → IsValid (record db { thread_nodes = delete_where p db.thread_nodes })
delete_thread_nodes-IsValid p db v = assumption (
  Distinct-select thread_node_clash (λ tn. not (p tn)) db.thread_nodes v.thread_nodes_distinct,
  All-select (ThreadNodeRefers db.threads db.nodes) (λ tn. not (p tn)) db.thread_nodes
      v.thread_nodes_refer,
)

pub delete_thread-IsValid :
    (id : String) (db : Db)
    → IsValid db
    → IsValid (record db {
      threads = delete_where (λ t. t.id == id) db.threads;
      thread_nodes = delete_where (λ (tn : ThreadNode). tn.thread_id == id) db.thread_nodes;
    })
delete_thread-IsValid id db v = assumption (
  Distinct-select thread_clash (λ t. not (t.id == id)) db.threads v.threads_distinct,
  Distinct-select thread_node_clash (λ tn. not (tn.thread_id == id)) db.thread_nodes
      v.thread_nodes_distinct,
  All-kept (λ tn. not (tn.thread_id == id)) stays db.thread_nodes v.thread_nodes_refer,
)
  where
    stays :
        (tn : ThreadNode)
        → ThreadNodeRefers db.threads db.nodes tn
        → not (tn.thread_id == id) ≡ true
        → ThreadNodeRefers (delete_where (λ t. t.id == id) db.threads) db.nodes tn
    stays tn h t = (rw (has_thread-delete id tn.thread_id db.threads (ground arith)) h.0, h.1)

pub delete_snapshots-IsValid :
    (p : Snapshot → Bool) (db : Db)
    → IsValid db
    → IsValid (record db { snapshots = delete_where p db.snapshots })
delete_snapshots-IsValid p db v =
    assumption (Distinct-select snapshot_clash (λ s. not (p s)) db.snapshots v.snapshots_distinct)

pub without_branch-IsValid : (id : String) (db : Db) → IsValid db → IsValid (without_branch id db)
unfolding without_branch
without_branch-IsValid id db v =
    elim (Bool-cases (nat_eq (length (delete_where (λ b. b.id == id) db.branches)) 1)) [
      | inl e ↦ rw e (assumption tt)
      | inr e ↦ rw e (
          assumption
            (Distinct-select branch_clash (λ b. not (b.id == id)) db.branches v.branches_distinct))
    ]
