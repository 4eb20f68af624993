-- ===== src/Doc/Db.antt =====
-- The tables of internal/doc/migrations and the SQL statements of internal/doc/sqlite.go over them.
-- A table is the list of its rows in insertion order, which is the order in which SQLite leaves rows
-- that ORDER BY ties. Primary keys, UNIQUE constraints and foreign keys (PRAGMA foreign_keys = ON) are
-- checked at each insert, and ON DELETE CASCADE is carried out. The one connection makes every method
-- run alone; a driver that fails for other reasons than a constraint is left out.
use flying_shuttle.Prelude.{
  String, Bool, not, ◌&&◌, ◌||◌, List, [], ◌∷◌, ◌++◌, map, any, select, ◌==◌, if◌then◌else◌,
}
use flying_shuttle.Prelude.Int.{eq_ℤ}
use flying_shuttle.Prelude.Result.{Result, ok, err, constraint, ◌>>=◌}
use flying_shuttle.Model.{Node, Edge, Evidence, Thread, ThreadNode, Snapshot, Branch}

-- An evidence row, and whether its created_at column was filled in by strftime.
pub record EvidenceRow : Type 0 where
  pub row : Evidence
  pub by_strftime : Bool

pub record Db : Type 0 where
  pub nodes : List Node
  pub edges : List Edge
  pub evidence : List EvidenceRow
  pub threads : List Thread
  pub thread_nodes : List ThreadNode
  pub snapshots : List Snapshot
  pub branches : List Branch

abbrev pub empty : Db
empty = record {
  nodes = [];
  edges = [];
  evidence = [];
  threads = [];
  thread_nodes = [];
  snapshots = [];
  branches = [];
}

module _ {ℓ} {A : Type ℓ} where
  -- INSERT, where `clash` is a violation of a key or of a UNIQUE constraint.
  abbrev pub insert_row : (A → A → Bool) → A → List A → Result (List A)
  insert_row clash x rows = if any (clash x) rows then err constraint else ok (rows ++ x ∷ [])

  -- DELETE … WHERE
  abbrev pub delete_where : (A → Bool) → List A → List A
  delete_where p rows = select (λ x. not (p x)) rows

  -- UPDATE … SET … WHERE
  abbrev pub update_where : (A → Bool) → (A → A) → List A → List A
  update_where p f rows = map (λ x. if p x then f x else x) rows

abbrev pub node_clash : Node → Node → Bool
node_clash a b = b.id == a.id

abbrev pub edge_clash : Edge → Edge → Bool
edge_clash a b = a.id == b.id || (a.from_node == b.from_node && a.to_node == b.to_node)

abbrev pub evidence_clash : EvidenceRow → EvidenceRow → Bool
evidence_clash a b = a.row.id == b.row.id

abbrev pub thread_clash : Thread → Thread → Bool
thread_clash a b = b.id == a.id

abbrev pub thread_node_clash : ThreadNode → ThreadNode → Bool
thread_node_clash a b =
    a.thread_id == b.thread_id && (a.node_id == b.node_id || eq_ℤ a.position b.position)

abbrev pub snapshot_clash : Snapshot → Snapshot → Bool
snapshot_clash a b = a.id == b.id

-- idx_branches_active allows one active row.
abbrev pub branch_clash : Branch → Branch → Bool
branch_clash a b = a.id == b.id || (a.active && b.active)

abbrev pub has_node : List Node → String → Bool
has_node nodes id = any (λ n. n.id == id) nodes

abbrev pub has_thread : List Thread → String → Bool
has_thread threads id = any (λ t. t.id == id) threads

unfoldable pub insert_node : Node → Db → Result Db
insert_node n db = insert_row node_clash n db.nodes >>= λ rows. ok (record db { nodes = rows })

unfoldable pub insert_edge : Edge → Db → Result Db
insert_edge e db =
    if has_node db.nodes e.from_node && has_node db.nodes e.to_node
    then insert_row edge_clash e db.edges >>= (λ rows. ok (record db { edges = rows }))
    else err constraint

unfoldable pub insert_thread : Thread → Db → Result Db
insert_thread t db =
    insert_row thread_clash t db.threads >>= λ rows. ok (record db { threads = rows })

unfoldable pub insert_thread_node : ThreadNode → Db → Result Db
insert_thread_node tn db =
    if has_thread db.threads tn.thread_id && has_node db.nodes tn.node_id
    then insert_row thread_node_clash tn db.thread_nodes
      >>= (λ rows. ok (record db { thread_nodes = rows }))
    else err constraint

unfoldable pub insert_evidence : EvidenceRow → Db → Result Db
insert_evidence e db =
    if has_node db.nodes e.row.node_id
    then insert_row evidence_clash e db.evidence >>= (λ rows. ok (record db { evidence = rows }))
    else err constraint

unfoldable pub insert_snapshot : Snapshot → Db → Result Db
insert_snapshot s db =
    insert_row snapshot_clash s db.snapshots >>= λ rows. ok (record db { snapshots = rows })

unfoldable pub insert_branch : Branch → Db → Result Db
insert_branch b db =
    insert_row branch_clash b db.branches >>= λ rows. ok (record db { branches = rows })
