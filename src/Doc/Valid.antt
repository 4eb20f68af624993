-- ===== src/Doc/Valid.antt =====
-- The schema's constraints as an invariant of the database: keys are unique, references have their
-- rows, and one branch at most is active. Each constraint is about one table or two.
pub mod Insert
pub mod Remove
pub mod Update
pub mod Restore
pub mod History
use flying_shuttle.Prelude.{
  String, ◌≡◌, refl, true, false, Bool, ◌&&◌, ◌||◌, ◌==◌, All, List, arith, eq_iff,
}
use flying_shuttle.Prelude.Int.{eq_ℤ, eq_ℤ_iff}
use flying_shuttle.Prelude.Distinct.{Distinct}
use flying_shuttle.Prelude.Texts.{eq_symm}
use flying_shuttle.Model.{Node, Edge, Evidence, Thread, ThreadNode, Snapshot, Branch}
use flying_shuttle.Doc.Db.{
  Db, EvidenceRow, empty, node_clash, edge_clash, evidence_clash, thread_clash, thread_node_clash,
  snapshot_clash, branch_clash, has_node, has_thread,
}

-- Both ends of an edge are rows of nodes; so for the other foreign keys.
abbrev pub EdgeRefers : List Node → Edge → Type 0
EdgeRefers nodes e = (has_node nodes e.from_node ≡ true) × (has_node nodes e.to_node ≡ true)

abbrev pub EvidenceRefers : List Node → EvidenceRow → Type 0
EvidenceRefers nodes e = has_node nodes e.row.node_id ≡ true

abbrev pub ThreadNodeRefers : List Thread → List Node → ThreadNode → Type 0
ThreadNodeRefers threads nodes tn =
    (has_thread threads tn.thread_id ≡ true) × (has_node nodes tn.node_id ≡ true)

pub record IsValid (db : Db) : Type 0 where
  pub nodes_distinct : Distinct node_clash db.nodes
  pub edges_distinct : Distinct edge_clash db.edges
  pub edges_refer : All (EdgeRefers db.nodes) db.edges
  pub evidence_distinct : Distinct evidence_clash db.evidence
  pub evidence_refer : All (EvidenceRefers db.nodes) db.evidence
  pub threads_distinct : Distinct thread_clash db.threads
  pub thread_nodes_distinct : Distinct thread_node_clash db.thread_nodes
  pub thread_nodes_refer : All (ThreadNodeRefers db.threads db.nodes) db.thread_nodes
  pub snapshots_distinct : Distinct snapshot_clash db.snapshots
  pub branches_distinct : Distinct branch_clash db.branches

pub IsValid-empty : IsValid empty
IsValid-empty = record {
  nodes_distinct = tt;
  edges_distinct = tt;
  edges_refer = tt;
  evidence_distinct = tt;
  evidence_refer = tt;
  threads_distinct = tt;
  thread_nodes_distinct = tt;
  thread_nodes_refer = tt;
  snapshots_distinct = tt;
  branches_distinct = tt;
}

-- Clashing is symmetric.
pub node_clash_symm : (a b : Node) → node_clash a b ≡ node_clash b a
node_clash_symm a b = eq_symm b.id a.id

pub thread_clash_symm : (a b : Thread) → thread_clash a b ≡ thread_clash b a
thread_clash_symm a b = eq_symm b.id a.id

pub evidence_clash_symm : (a b : EvidenceRow) → evidence_clash a b ≡ evidence_clash b a
evidence_clash_symm a b = eq_symm a.row.id b.row.id

pub snapshot_clash_symm : (a b : Snapshot) → snapshot_clash a b ≡ snapshot_clash b a
snapshot_clash_symm a b = eq_symm a.id b.id

pub edge_clash_symm : (a b : Edge) → edge_clash a b ≡ edge_clash b a
edge_clash_symm a b =
    ground (arith, eq_symm a.id b.id, eq_symm a.from_node b.from_node, eq_symm a.to_node b.to_node)

pub thread_node_clash_symm : (a b : ThreadNode) → thread_node_clash a b ≡ thread_node_clash b a
thread_node_clash_symm a b =
    ground (arith, eq_symm a.thread_id b.thread_id, eq_symm a.node_id b.node_id)

pub branch_clash_symm : (a b : Branch) → branch_clash a b ≡ branch_clash b a
branch_clash_symm a b = ground (arith, eq_symm a.id b.id)
