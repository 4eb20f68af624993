-- ===== src/Doc/Valid/Update.antt =====
-- Validity over the UPDATE statements of internal/doc/sqlite.go, which keep the keys of the rows.
use flying_shuttle.Prelude.{
  ℕ, ◌≡◌, true, false, List, [], ◌∷◌, All, All-any, All-imp, All-map, arith, if◌then◌else◌, Bool,
  String, ◌==◌, eq_iff,
}
use flying_shuttle.Prelude.Distinct.{Distinct, Distinct-map, any-map}
use flying_shuttle.Model.{Node, Edge, Thread, ThreadNode, Branch, SnapshotData}
use flying_shuttle.Doc.Db.{
  Db, EvidenceRow, update_where, node_clash, edge_clash, evidence_clash, thread_clash, branch_clash,
  has_node, has_thread,
}
use flying_shuttle.Doc.Edges.{shift}
use flying_shuttle.Doc.Branches.{depart, renamed, activate}
use flying_shuttle.Doc.Valid.{IsValid, EdgeRefers, EvidenceRefers, ThreadNodeRefers}

-- A new nodes table with the same ids.
pub same_nodes-IsValid :
    (db : Db) (rows : List Node)
    → Distinct node_clash rows
    → ((j : String) → has_node rows j ≡ has_node db.nodes j)
    → IsValid db
    → IsValid (record db { nodes = rows })
same_nodes-IsValid db rows d same v = assumption (
  d,
  All-imp edge_stays db.edges v.edges_refer,
  All-imp evidence_stays db.evidence v.evidence_refer,
  All-imp thread_node_stays db.thread_nodes v.thread_nodes_refer,
)
  where
    edge_stays : (e : Edge) → EdgeRefers db.nodes e → EdgeRefers rows e
    edge_stays e h = (rw same h.0, rw same h.1)

    evidence_stays : (r : EvidenceRow) → EvidenceRefers db.nodes r → EvidenceRefers rows r
    evidence_stays r h = rw same h

    thread_node_stays :
        (tn : ThreadNode)
        → ThreadNodeRefers db.threads db.nodes tn
        → ThreadNodeRefers db.threads rows tn
    thread_node_stays tn h = (h.0, rw same h.1)

-- A row of an UPDATE keeps its key.
abbrev pub set_where {ℓ} : {A : Type ℓ} → (A → Bool) → (A → A) → A → A
set_where p f x = if p x then f x else x

pub update_nodes-IsValid :
    (p : Node → Bool) (f : Node → Node)
    → ((n : Node) → (f n).id ≡ n.id)
    → (db : Db) → IsValid db
    → IsValid (record db { nodes = update_where p f db.nodes })
update_nodes-IsValid p f keeps db v =
    same_nodes-IsValid db (update_where p f db.nodes)
      (Distinct-map (set_where p f) {P = λ _. Unit {0}} node_clash node_clash apart db.nodes
        (All-any db.nodes) v.nodes_distinct)
      (λ j. any-map (set_where p f) (λ n. n.id == j) (λ n. n.id == j) (same j) db.nodes) v
  where
    id-set : (n : Node) → (set_where p f n).id ≡ n.id
    id-set n = ground (arith, keeps n)

    apart :
        (x y : Node)
        → Unit {0}
        → Unit {0}
        → node_clash x y ≡ false
        → node_clash (set_where p f x) (set_where p f y) ≡ false
    apart x y _ _ h = rw (id-set x, id-set y) h

    same : (j : String) (n : Node) → ((set_where p f n).id == j) ≡ (n.id == j)
    same j n = rw (id-set n)

pub shift_edges-IsValid :
    (p : Edge → Bool) (db : Db)
    → IsValid db
    → IsValid (record db { edges = update_where p shift db.edges })
shift_edges-IsValid p db v = assumption (
  Distinct-map (set_where p shift) {P = λ _. Unit {0}} edge_clash edge_clash apart db.edges
      (All-any db.edges) v.edges_distinct,
  All-map (EdgeRefers db.nodes) (set_where p shift) db.edges
      (All-imp refers db.edges v.edges_refer),
)
  where
    apart :
        (x y : Edge)
        → Unit {0}
        → Unit {0}
        → edge_clash x y ≡ false
        → edge_clash (set_where p shift x) (set_where p shift y) ≡ false
    apart x y _ _ h = ground arith

    refers : (e : Edge) → EdgeRefers db.nodes e → EdgeRefers db.nodes (set_where p shift e)
    refers e h = ground arith

pub update_evidence-IsValid :
    (p : EvidenceRow → Bool) (f : EvidenceRow → EvidenceRow)
    → ((r : EvidenceRow) → ((f r).row.id ≡ r.row.id) × ((f r).row.node_id ≡ r.row.node_id))
    → (db : Db) → IsValid db
    → IsValid (record db { evidence = update_where p f db.evidence })
update_evidence-IsValid p f keeps db v = assumption (
  Distinct-map (set_where p f) {P = λ _. Unit {0}} evidence_clash evidence_clash apart db.evidence
      (All-any db.evidence) v.evidence_distinct,
  All-map (EvidenceRefers db.nodes) (set_where p f) db.evidence
      (All-imp refers db.evidence v.evidence_refer),
)
  where
    same :
        (r : EvidenceRow)
        → ((set_where p f r).row.id ≡ r.row.id) × ((set_where p f r).row.node_id ≡ r.row.node_id)
    same r = ground (arith, keeps r)

    apart :
        (x y : EvidenceRow)
        → Unit {0}
        → Unit {0}
        → evidence_clash x y ≡ false
        → evidence_clash (set_where p f x) (set_where p f y) ≡ false
    apart x y _ _ h = rw ((same x).0, (same y).0) h

    refers :
        (r : EvidenceRow) → EvidenceRefers db.nodes r → EvidenceRefers db.nodes (set_where p f r)
    refers r h = rw (same r).1 h

pub update_threads-IsValid :
    (p : Thread → Bool) (f : Thread → Thread)
    → ((t : Thread) → (f t).id ≡ t.id)
    → (db : Db) → IsValid db
    → IsValid (record db { threads = update_where p f db.threads })
update_threads-IsValid p f keeps db v = assumption (
  Distinct-map (set_where p f) {P = λ _. Unit {0}} thread_clash thread_clash apart db.threads
      (All-any db.threads) v.threads_distinct,
  All-imp refers db.thread_nodes v.thread_nodes_refer,
)
  where
    same : (t : Thread) → (set_where p f t).id ≡ t.id
    same t = ground (arith, keeps t)

    apart :
        (x y : Thread)
        → Unit {0}
        → Unit {0}
        → thread_clash x y ≡ false
        → thread_clash (set_where p f x) (set_where p f y) ≡ false
    apart x y _ _ h = rw (same x, same y) h

    has_thread-update :
        (j : String) → has_thread (update_where p f db.threads) j ≡ has_thread db.threads j
    has_thread-update j =
        any-map (set_where p f) (λ t. t.id == j) (λ t. t.id == j) (λ t. rw (same t)) db.threads

    refers :
        (tn : ThreadNode)
        → ThreadNodeRefers db.threads db.nodes tn
        → ThreadNodeRefers (update_where p f db.threads) db.nodes tn
    refers tn h = (rw has_thread-update h.0, h.1)

-- Saving the departing branch leaves none active.
pub depart-IsInactive :
    (now : ℕ) (dag : SnapshotData) (db : Db)
    → All (λ b. b.active ≡ false) (depart now dag db).branches
unfolding depart
depart-IsInactive now dag db = go db.branches
  where
    go :
        (bs : List Branch)
        → All
            (λ b. b.active ≡ false)
            (update_where
              (λ b. b.active)
              (λ b. record b { snapshot = dag; active = false; updated_at = now })
              bs)
    go [] = tt
    go (b ∷ bs) = (ground arith, go bs)

pub depart-IsValid :
    (now : ℕ) (dag : SnapshotData) (db : Db) → IsValid db → IsValid (depart now dag db)
unfolding depart
depart-IsValid now dag db v = assumption (
    Distinct-map (set_where (λ b. b.active) f) {P = λ _. Unit {0}} branch_clash branch_clash apart
      db.branches (All-any db.branches) v.branches_distinct)
  where
    f : Branch → Branch
    f b = record b { snapshot = dag; active = false; updated_at = now }

    apart :
        (x y : Branch)
        → Unit {0}
        → Unit {0}
        → branch_clash x y ≡ false
        → branch_clash (set_where (λ b. b.active) f x) (set_where (λ b. b.active) f y) ≡ false
    apart x y _ _ h = ground arith

pub renamed-IsValid :
    (now : ℕ) (id name : String) (db : Db) → IsValid db → IsValid (renamed now id name db)
unfolding renamed
renamed-IsValid now id name db v = assumption (
    Distinct-map (set_where (λ b. b.id == id) f) {P = λ _. Unit {0}} branch_clash branch_clash apart
      db.branches (All-any db.branches) v.branches_distinct)
  where
    f : Branch → Branch
    f b = record b { name = name; updated_at = now }

    apart :
        (x y : Branch)
        → Unit {0}
        → Unit {0}
        → branch_clash x y ≡ false
        → branch_clash (set_where (λ b. b.id == id) f x) (set_where (λ b. b.id == id) f y) ≡ false
    apart x y _ _ h = ground arith

pub activate-IsValid :
    (now : ℕ) (id : String) (db : Db)
    → All (λ b. b.active ≡ false) db.branches
    → IsValid db
    → IsValid (activate now id db)
unfolding activate
activate-IsValid now id db idle v = assumption (
    Distinct-map (set_where (λ b. b.id == id) f) {P = λ b. b.active ≡ false} branch_clash
      branch_clash apart db.branches idle v.branches_distinct)
  where
    f : Branch → Branch
    f b = record b { active = true; updated_at = now }

    apart :
        (x y : Branch)
        → x.active ≡ false
        → y.active ≡ false
        → branch_clash x y ≡ false
        → branch_clash (set_where (λ b. b.id == id) f x) (set_where (λ b. b.id == id) f y) ≡ false
    apart x y p q h = ground (arith, eq_iff x.id y.id, eq_iff x.id id, eq_iff y.id id)
