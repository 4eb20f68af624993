-- ===== src/Doc/Valid/Insert.antt =====
-- Validity over the INSERT statements of internal/doc/sqlite.go, one row or a list of them.
use flying_shuttle.Prelude.{
  ◌≡◌, true, inl, inr, Bool-cases, List, [], ◌∷◌, ◌++◌, All-append, All-imp, any, any-append, arith,
  Bool, ◌&&◌, ◌==◌,
}
use flying_shuttle.Prelude.Distinct.{Distinct-snoc}
use flying_shuttle.Prelude.Result.{Result, ok, err, each, ◌>>=◌}
use flying_shuttle.Model.{Node, Edge, Thread, ThreadNode, Snapshot, Branch}
use flying_shuttle.Doc.Db.{
  Db, EvidenceRow, node_clash, edge_clash, evidence_clash, thread_clash, thread_node_clash,
  snapshot_clash, branch_clash, has_node, has_thread, insert_node, insert_edge, insert_thread,
  insert_thread_node, insert_evidence, insert_snapshot, insert_branch,
}
use flying_shuttle.Doc.Valid.{
  IsValid, EdgeRefers, EvidenceRefers, ThreadNodeRefers, node_clash_symm, edge_clash_symm,
  evidence_clash_symm, thread_clash_symm, thread_node_clash_symm, snapshot_clash_symm,
  branch_clash_symm,
}

-- The result, if there is one, has the property.
abbrev pub Ensures : (Db → Type 0) → Result Db → Type 0
Ensures P (ok db) = P db
Ensures P (err e) = Unit

abbrev pub Gives : Result Db → Type 0
Gives = Ensures IsValid

module _ {ℓ} {A : Type ℓ} (p : A → Bool) where
  any-snoc : (xs : List A) (x : A) → any p xs ≡ true → any p (xs ++ x ∷ []) ≡ true
  any-snoc xs x h = ground (arith, any-append p xs (x ∷ []))

module _ (threads : List Thread) (nodes : List Node) (n : Node) where
  more_nodes-thread_nodes :
      (tn : ThreadNode)
      → ThreadNodeRefers threads nodes tn
      → ThreadNodeRefers threads (nodes ++ n ∷ []) tn
  more_nodes-thread_nodes tn h = (h.0, any-snoc (λ m. m.id == tn.node_id) nodes n h.1)

module _ (nodes : List Node) (threads : List Thread) (t : Thread) where
  more_threads-thread_nodes :
      (tn : ThreadNode)
      → ThreadNodeRefers threads nodes tn
      → ThreadNodeRefers (threads ++ t ∷ []) nodes tn
  more_threads-thread_nodes tn h = (any-snoc (λ m. m.id == tn.thread_id) threads t h.0, h.1)

more_nodes-edges :
    (nodes : List Node) (n : Node) (e : Edge) → EdgeRefers nodes e → EdgeRefers (nodes ++ n ∷ []) e
more_nodes-edges nodes n e h = (any-snoc _ nodes n h.0, any-snoc _ nodes n h.1)

pub insert_node-IsValid : (n : Node) (db : Db) → IsValid db → Gives (insert_node n db)
unfolding insert_node
insert_node-IsValid n db v = elim (Bool-cases (any (node_clash n) db.nodes)) [
  | inl e ↦ rw e tt
  | inr e ↦ rw e (
      assumption (
        Distinct-snoc node_clash node_clash_symm n db.nodes v.nodes_distinct e,
        All-imp (more_nodes-edges db.nodes n) db.edges v.edges_refer,
        All-imp (λ (r : EvidenceRow). any-snoc (λ m. m.id == r.row.node_id) db.nodes n) db.evidence
            v.evidence_refer,
        All-imp (more_nodes-thread_nodes db.threads db.nodes n) db.thread_nodes
            v.thread_nodes_refer,
      ))
]

pub insert_edge-IsValid : (x : Edge) (db : Db) → IsValid db → Gives (insert_edge x db)
unfolding insert_edge
insert_edge-IsValid x db v =
    elim (Bool-cases (has_node db.nodes x.from_node && has_node db.nodes x.to_node)) [
      | inr f ↦ rw f tt
      | inl t ↦ elim (Bool-cases (any (edge_clash x) db.edges)) [
        | inl e ↦ rw (t, e) tt
        | inr e ↦
            let refers : EdgeRefers db.nodes x = ground arith in
            rw (t, e)
              (assumption (
                Distinct-snoc edge_clash edge_clash_symm x db.edges v.edges_distinct e,
                All-append (EdgeRefers db.nodes) db.edges (x ∷ []) v.edges_refer (refers, tt),
              ))
      ]
    ]

pub insert_evidence-IsValid :
    (x : EvidenceRow) (db : Db) → IsValid db → Gives (insert_evidence x db)
unfolding insert_evidence
insert_evidence-IsValid x db v = elim (Bool-cases (has_node db.nodes x.row.node_id)) [
  | inr f ↦ rw f tt
  | inl t ↦ elim (Bool-cases (any (evidence_clash x) db.evidence)) [
    | inl e ↦ rw (t, e) tt
    | inr e ↦
        rw (t, e)
          (assumption (
            Distinct-snoc evidence_clash evidence_clash_symm x db.evidence v.evidence_distinct e,
            All-append (EvidenceRefers db.nodes) db.evidence (x ∷ []) v.evidence_refer (t, tt),
          ))
  ]
]

pub insert_thread-IsValid : (x : Thread) (db : Db) → IsValid db → Gives (insert_thread x db)
unfolding insert_thread
insert_thread-IsValid x db v = elim (Bool-cases (any (thread_clash x) db.threads)) [
  | inl e ↦ rw e tt
  | inr e ↦ rw e (
      assumption (
        Distinct-snoc thread_clash thread_clash_symm x db.threads v.threads_distinct e,
        All-imp (more_threads-thread_nodes db.nodes db.threads x) db.thread_nodes
            v.thread_nodes_refer,
      ))
]

pub insert_thread_node-IsValid :
    (x : ThreadNode) (db : Db) → IsValid db → Gives (insert_thread_node x db)
unfolding insert_thread_node
insert_thread_node-IsValid x db v =
    elim (Bool-cases (has_thread db.threads x.thread_id && has_node db.nodes x.node_id)) [
      | inr f ↦ rw f tt
      | inl t ↦ elim (Bool-cases (any (thread_node_clash x) db.thread_nodes)) [
        | inl e ↦ rw (t, e) tt
        | inr e ↦
            let refers : ThreadNodeRefers db.threads db.nodes x = ground arith in
            rw (t, e)
              (assumption (
                Distinct-snoc thread_node_clash thread_node_clash_symm x db.thread_nodes
                    v.thread_nodes_distinct e,
                All-append (ThreadNodeRefers db.threads db.nodes) db.thread_nodes (x ∷ [])
                    v.thread_nodes_refer (refers, tt),
              ))
      ]
    ]

pub insert_snapshot-IsValid : (x : Snapshot) (db : Db) → IsValid db → Gives (insert_snapshot x db)
unfolding insert_snapshot
insert_snapshot-IsValid x db v = elim (Bool-cases (any (snapshot_clash x) db.snapshots)) [
  | inl e ↦ rw e tt
  | inr e ↦ rw e (
      assumption
        (Distinct-snoc snapshot_clash snapshot_clash_symm x db.snapshots v.snapshots_distinct e))
]

pub insert_branch-IsValid : (x : Branch) (db : Db) → IsValid db → Gives (insert_branch x db)
unfolding insert_branch
insert_branch-IsValid x db v = elim (Bool-cases (any (branch_clash x) db.branches)) [
  | inl e ↦ rw e tt
  | inr e ↦ rw e (
      assumption (Distinct-snoc branch_clash branch_clash_symm x db.branches v.branches_distinct e))
]

module _ (P Q : Db → Type 0) where
  pub Ensures-bind :
      (f : Db → Result Db)
      → ((db : Db) → P db → Ensures Q (f db))
      → (r : Result Db) → Ensures P r
      → Ensures Q (r >>= f)
  Ensures-bind f k (ok db) v = k db v
  Ensures-bind f k (err e) v = tt

-- A property that each step keeps holds after all of them.
module _ {A : Type 0} (P : Db → Type 0) (step : A → Db → Result Db)
    (keeps : (x : A) (db : Db) → P db → Ensures P (step x db)) where
  pub each-Ensures : (xs : List A) (db : Db) → P db → Ensures P (each step xs db)
  unfolding each
  each-Ensures [] db v = v
  each-Ensures (x ∷ xs) db v =
      Ensures-bind P P (each step xs) (each-Ensures xs) (step x db) (keeps x db v)
