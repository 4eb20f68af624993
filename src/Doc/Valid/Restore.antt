-- ===== src/Doc/Valid/Restore.antt =====
-- Validity over restoreDAGState (internal/doc/sqlite.go), which writes a whole state back.
use flying_shuttle.Prelude.{
  ℕ, ◌≡◌, refl, ◌&&◌, false, inl, inr, Bool-cases, List, any, sym, String, All, subst,
}
use flying_shuttle.Prelude.Result.{Result, ok, err, ◌>>=◌}
use flying_shuttle.Model.{Branch, SnapshotData, Node, Thread, ThreadNode, Edge}
use flying_shuttle.Doc.Db.{
  Db, EvidenceRow, insert_node, insert_edge, insert_thread, insert_thread_node, insert_evidence,
  node_clash, edge_clash, evidence_clash, thread_clash, thread_node_clash, has_node, has_thread,
}
use flying_shuttle.Doc.Action.{exec}
use flying_shuttle.Doc.State.{restore_dag_state, clear_dag_tables}
use flying_shuttle.Doc.Branches.{switch_tx, depart, activate}
use flying_shuttle.Doc.Valid.{IsValid}
use flying_shuttle.Doc.Valid.Insert.{
  Gives, Ensures, Ensures-bind, each-Ensures, insert_node-IsValid, insert_edge-IsValid,
  insert_thread-IsValid, insert_thread_node-IsValid, insert_evidence-IsValid,
}
use flying_shuttle.Doc.Valid.Update.{depart-IsValid, depart-IsInactive, activate-IsValid}

-- A transaction commits a valid database or rolls back.
pub exec-IsValid :
    (f : Db → Result Db) (db : Db) → IsValid db → Gives (f db) → IsValid (exec f db).1
exec-IsValid f db v g = go (f db) g
  where
    go :
        (r : Result Db)
        → Gives r
        → IsValid
            (elim r as (λ _. Result (Unit {0}) × Db) [
              | ok db' ↦ (ok tt, db')
              | err e ↦ (err e, db)
            ]).1
    go (ok db') g = g
    go (err e) g = v

pub clear-IsValid : (db : Db) → IsValid db → IsValid (clear_dag_tables db)
unfolding clear_dag_tables
clear-IsValid db v = assumption tt

-- What every insertion keeps, the restored state has.
module _ (P : Db → Type 0) (node : (x : Node) (db : Db) → P db → Ensures P (insert_node x db))
    (edge : (x : Edge) (db : Db) → P db → Ensures P (insert_edge x db))
    (thread : (x : Thread) (db : Db) → P db → Ensures P (insert_thread x db))
    (member : (x : ThreadNode) (db : Db) → P db → Ensures P (insert_thread_node x db))
    (cited : (x : EvidenceRow) (db : Db) → P db → Ensures P (insert_evidence x db)) where
  pub restore-Ensures :
      (uuid : ℕ → String) (now : ℕ) (dag : SnapshotData) (db : Db)
      → P db
      → Ensures P (restore_dag_state uuid now dag db)
  unfolding restore_dag_state
  restore-Ensures uuid now dag db v =
      go _
        (λ db₁ v₁.
          go _
            (λ db₂ v₂.
              go _
                (λ db₃ v₃.
                  go _
                    (λ db₄ v₄.
                      go _ (each-Ensures P insert_evidence cited _) _
                        (each-Ensures P insert_evidence cited _ db₄ v₄))
                    _ (each-Ensures P insert_thread_node member dag.thread_nodes db₃ v₃))
                _ (each-Ensures P insert_thread thread dag.threads db₂ v₂))
            _ (each-Ensures P insert_edge edge dag.edges db₁ v₁))
        _ (each-Ensures P insert_node node dag.nodes db v)
    where
      go :
          (f : Db → Result Db)
          → ((db : Db) → P db → Ensures P (f db))
          → (r : Result Db) → Ensures P r
          → Ensures P (r >>= f)
      go = Ensures-bind P P

pub restore-IsValid :
    (uuid : ℕ → String) (now : ℕ) (dag : SnapshotData) (db : Db)
    → IsValid db
    → Gives (restore_dag_state uuid now dag db)
restore-IsValid =
    restore-Ensures IsValid insert_node-IsValid insert_edge-IsValid insert_thread-IsValid
      insert_thread_node-IsValid insert_evidence-IsValid

-- The insertions of the graph's tables leave the branches alone.
module _ (bs : List Branch) where
  abbrev Keeps : Db → Type 0
  Keeps db = db.branches ≡ bs

  node-Keeps : (x : Node) (db : Db) → Keeps db → Ensures Keeps (insert_node x db)
  unfolding insert_node
  node-Keeps x db h = elim (Bool-cases (any (node_clash x) db.nodes)) [
    | inl e ↦ rw e tt
    | inr e ↦ rw e h
  ]

  edge-Keeps : (x : Edge) (db : Db) → Keeps db → Ensures Keeps (insert_edge x db)
  unfolding insert_edge
  edge-Keeps x db h =
      elim (Bool-cases (has_node db.nodes x.from_node && has_node db.nodes x.to_node)) [
        | inr f ↦ rw f tt
        | inl t ↦ elim (Bool-cases (any (edge_clash x) db.edges)) [
          | inl e ↦ rw (t, e) tt
          | inr e ↦ rw (t, e) h
        ]
      ]

  thread-Keeps : (x : Thread) (db : Db) → Keeps db → Ensures Keeps (insert_thread x db)
  unfolding insert_thread
  thread-Keeps x db h = elim (Bool-cases (any (thread_clash x) db.threads)) [
    | inl e ↦ rw e tt
    | inr e ↦ rw e h
  ]

  member-Keeps : (x : ThreadNode) (db : Db) → Keeps db → Ensures Keeps (insert_thread_node x db)
  unfolding insert_thread_node
  member-Keeps x db h =
      elim (Bool-cases (has_thread db.threads x.thread_id && has_node db.nodes x.node_id)) [
        | inr f ↦ rw f tt
        | inl t ↦ elim (Bool-cases (any (thread_node_clash x) db.thread_nodes)) [
          | inl e ↦ rw (t, e) tt
          | inr e ↦ rw (t, e) h
        ]
      ]

  cited-Keeps : (x : EvidenceRow) (db : Db) → Keeps db → Ensures Keeps (insert_evidence x db)
  unfolding insert_evidence
  cited-Keeps x db h = elim (Bool-cases (has_node db.nodes x.row.node_id)) [
    | inr f ↦ rw f tt
    | inl t ↦ elim (Bool-cases (any (evidence_clash x) db.evidence)) [
      | inl e ↦ rw (t, e) tt
      | inr e ↦ rw (t, e) h
    ]
  ]

  pub restore-branches :
      (uuid : ℕ → String) (now : ℕ) (dag : SnapshotData) (db : Db)
      → db.branches ≡ bs
      → Ensures (λ db'. db'.branches ≡ bs) (restore_dag_state uuid now dag db)
  restore-branches =
      restore-Ensures Keeps node-Keeps edge-Keeps thread-Keeps member-Keeps cited-Keeps

module _ (uuid : ℕ → String) (now : ℕ) (dag : SnapshotData) (id : String) where
  -- Restoring into a database with no active branch, and then activating one.
  activated-IsValid :
      (db : Db) (r : Result Db)
      → All (λ b. b.active ≡ false) db.branches
      → Gives r
      → Ensures (λ db'. db'.branches ≡ db.branches) r
      → Gives (r >>= λ db'. ok (activate now id db'))
  activated-IsValid db (ok db') idle v same =
      activate-IsValid now id db' (subst (All (λ b. b.active ≡ false)) (sym same) idle) v
  activated-IsValid db (err e) idle v same = tt

pub switch-IsValid :
    (uuid : ℕ → String) (now : ℕ) (dag : SnapshotData) (target : Branch) (db : Db)
    → IsValid db
    → Gives (switch_tx uuid now dag target db)
unfolding switch_tx clear_dag_tables
switch-IsValid uuid now dag target db v =
    let left = depart now dag db in
    activated-IsValid uuid now dag target.id left _ (depart-IsInactive now dag db)
      (restore-IsValid uuid now target.snapshot (clear_dag_tables left)
        (clear-IsValid left (depart-IsValid now dag db v)))
      (restore-branches left.branches uuid now target.snapshot (clear_dag_tables left) refl)
