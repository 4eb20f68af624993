-- ===== src/Tests.antt =====
-- The theorems at concrete inputs, and runs of the definitions.
pub mod Graph
pub mod Corpus
pub mod Indexer
pub mod Export
pub mod Pane
use flying_shuttle.Prelude.{
  any, ◌++◌, ◌≡◌, ◌⊎◌, inr, refl, Bool, true, false, not, none, some, List, [], ◌∷◌, String, All,
  map, select, ◌==◌, arith, ◌+◌, ◌*◌, ◌<◌, ℕ, length,
}
use flying_shuttle.Prelude.Result.{ok, err, conflict, not_found, constraint}
use flying_shuttle.Doc.Nodes.{
  update_node, get_node, delete_node, create_node, created_node, updated_node, touches,
}
use flying_shuttle.Doc.Nodes.Lock.{update_node-conflict, update_node-get_node}
use flying_shuttle.Doc.Nodes.Cascade.{delete_node-cascade, create_node-get_node}
use flying_shuttle.Doc.Edges.{move_node}
use flying_shuttle.Doc.Edges.Move.{leads_to, moved_on, move_node-parent}
use flying_shuttle.Text.{is_empty, trim_space}
use flying_shuttle.Text.Runes.{runes, of_runes, slice}
use flying_shuttle.Outline.Quote.{
  Excerpt, trim, splice, resolve_excerpt, locate_selection, edit_excerpt,
}
use flying_shuttle.Outline.Quote.Locate.{Agrees, resolve_excerpt-Agrees}
use flying_shuttle.Outline.Quote.Edit.{edit_excerpt-Agrees}
use flying_shuttle.Dag.Topo.{topological_sort, sorted, cyclic}
use flying_shuttle.Dag.Topo.Sorted.{IsSorting}
use flying_shuttle.Dag.Topo.Complete.{topological_sort_correct}
use flying_shuttle.Doc.Branches.{
  new_branch, create_branch, update_branch, delete_branch, switch_branch,
}
use flying_shuttle.Doc.Branches.Rows.{IsSplit}
use flying_shuttle.Doc.Branches.Split.{branches-IsSplit}
use flying_shuttle.Model.{SnapshotData}
use flying_shuttle.Doc.Stamp.{stamp_leb, rfc3339_nano, second_text, nanos}
use flying_shuttle.Prelude.Int.{pos}
use flying_shuttle.Prelude.Sort.{sort_by}
use flying_shuttle.Model.{Node, Edge, outline, linear}
use flying_shuttle.Doc.Db.{Db, EvidenceRow, empty, has_node}
use flying_shuttle.Doc.Calls.{Call, history}
use flying_shuttle.Doc.Valid.{IsValid, IsValid-empty}
use flying_shuttle.Doc.Valid.History.{history-IsValid}
use flying_shuttle.Dag.Cycle.{would_create_cycle}
use flying_shuttle.Dag.Cycle.Search.{Leads, would_create_cycle_correct}
use flying_shuttle.Dag.Cycle.Acyclic.{Acyclic}
use flying_shuttle.Web.Exits.{node_exit_create}
use flying_shuttle.Web.Exits.Guard.{node_exit_create-Acyclic}
use mathlib.Core.List.Memᴰ

abbrev bullet : String → Node
bullet id = record {
  id = id;
  type = outline;
  title = id;
  body = "";
  labels = [];
  locked = false;
  version = 1;
  created_at = 5;
  updated_at = 5;
}

-- Two bullets, the second moved below the first, and a snapshot.
abbrev opening : List Call
opening =
    Call.create_node 5 (bullet "a")
    ∷ Call.create_node 6 (bullet "b")
    ∷ Call.move_node 7 "e" "b" "a" (pos 0)
    ∷ []

-- The snapshot is of the document before.
abbrev saving : List Call
saving = Call.create_snapshot (history opening empty) 8 "s" "first" ∷ Call.delete_node "a" ∷ []

abbrev script : List Call
script =
    opening
    ++ saving
    ++ Call.restore_snapshot (history (opening ++ saving) empty) (λ i. "u") 9 "s" ∷ []

history-IsValid_example : IsValid (history script empty)
history-IsValid_example = history-IsValid script empty IsValid-empty

abbrev arrow : String → String → Edge
arrow a b = record {
  id = a;
  from_node = a;
  to_node = b;
  type = linear;
  condition = none;
  weight = pos 0;
  created_at = 7;
}

-- a → b → c
abbrev pub chain : Db
chain = record empty {
  nodes = bullet "a" ∷ bullet "b" ∷ bullet "c" ∷ [];
  edges = arrow "a" "b" ∷ arrow "b" "c" ∷ [];
}

would_create_cycle_correct_example :
    (b : Bool) × (would_create_cycle chain "c" "a" ≡ some b)
    × (b ≡ true → Leads chain.edges "a" "c")
    × (Leads chain.edges "a" "c" → b ≡ true)
would_create_cycle_correct_example = would_create_cycle_correct chain "c" "a"

chain-cycles :
    (would_create_cycle chain "c" "a" ≡ some true) × (would_create_cycle chain "a" "c" ≡ some false)
unfolding would_create_cycle sort_by
chain-cycles = (refl, refl)

Acyclic-none : Acyclic empty.edges
Acyclic-none e m walk = Memᴰ.not-nil m

abbrev pair : Db
pair = record empty { nodes = bullet "a" ∷ bullet "b" ∷ [] }

node_exit_create-Acyclic_example : Acyclic (node_exit_create 7 "e" "a" "b" "jump" "" pair).1.edges
node_exit_create-Acyclic_example =
    node_exit_create-Acyclic 7 "e" "a" "b" "jump" "" pair Acyclic-none

-- A bullet at version 1, changed by two writers at once.
abbrev held : Db
held = record empty { nodes = bullet "a" ∷ bullet "b" ∷ [] }

abbrev written : Db
written = (update_node 8 (bullet "a") held).1

update_node-conflict_example : update_node 9 (bullet "a") written ≡ (err conflict, written)
unfolding update_node
update_node-conflict_example =
    update_node-conflict 8 9 (bullet "a") (bullet "a")
      (record (bullet "a") { version = 2; updated_at = 8 }) held written refl refl refl

update_node-get_node_example :
    ((update_node 8 (bullet "a") held).0 ≡ ok (record (bullet "a") { version = 2; updated_at = 8 }))
    × (get_node "a" written ≡ ok (record (bullet "a") { version = 2; updated_at = 8 }))
unfolding get_node
update_node-get_node_example = update_node-get_node 8 (bullet "a") (bullet "a") held refl refl

delete_node-cascade_example :
    (has_node chain.nodes "b" ≡ false × (delete_node "b" chain ≡ (err not_found, chain)))
    ⊎ (((delete_node "b" chain).0 ≡ ok tt)
        × (get_node "b" (delete_node "b" chain).1 ≡ err not_found)
        × All (λ e. touches "b" e ≡ false) (delete_node "b" chain).1.edges
        × All (λ tn. (tn.node_id == "b") ≡ false) (delete_node "b" chain).1.thread_nodes
        × All
            (λ (r : EvidenceRow). (r.row.node_id == "b") ≡ false)
            (delete_node "b" chain).1.evidence
        × ((j : String)
            → (j == "b") ≡ false
            → get_node j (delete_node "b" chain).1 ≡ get_node j chain))
delete_node-cascade_example = delete_node-cascade "b" chain

create_node-get_node_example :
    (has_node chain.nodes "d" ≡ true × (create_node 9 (bullet "d") chain ≡ (err constraint, chain)))
    ⊎ (((create_node 9 (bullet "d") chain).0
          ≡ ok (record (bullet "d") { version = 1; created_at = 9; updated_at = 9 }))
        × (get_node "d" (create_node 9 (bullet "d") chain).1
            ≡ ok (record (bullet "d") { version = 1; created_at = 9; updated_at = 9 }))
        × ((j : String)
            → ("d" == j) ≡ false
            → get_node j (create_node 9 (bullet "d") chain).1 ≡ get_node j chain))
create_node-get_node_example = create_node-get_node 9 (bullet "d") chain

move_node-parent_example :
    (move_node 9 "e" "c" "a" (pos 0) chain ≡ (err constraint, chain))
    ⊎ (((move_node 9 "e" "c" "a" (pos 0) chain).0 ≡ ok tt)
        × (select (leads_to "c") (move_node 9 "e" "c" "a" (pos 0) chain).1.edges
            ≡ record {
              id = "e";
              from_node = "a";
              to_node = "c";
              type = linear;
              condition = none;
              weight = pos 0;
              created_at = 9;
            }
              ∷ [])
        × (select (λ e. not (leads_to "c" e)) (move_node 9 "e" "c" "a" (pos 0) chain).1.edges
            ≡ map (moved_on "a" (pos 0)) (select (λ e. not (leads_to "c" e)) chain.edges)))
move_node-parent_example = move_node-parent 9 "e" "c" "a" (pos 0) chain refl

-- A row that is created at a full second is listed behind a row of the same second that is younger.
stamp_leb_run :
    (stamp_leb (2 * nanos) (2 * nanos + 5) ≡ false) × (stamp_leb (2 * nanos + 5) (2 * nanos) ≡ true)
unfolding stamp_leb
stamp_leb_run = (refl, refl)

-- A quote of "two" from a chunk of three words.
abbrev two : Excerpt
two = record { char_start = pos 4; char_end = pos 7; text = "two" }

abbrev words : String
words = "one two three"

resolve_excerpt-Agrees_example :
    Agrees words (resolve_excerpt words two)
    ⊎ ((resolve_excerpt words two ≡ two)
        × ((is_empty (trim_space "two") ≡ true) ⊎ (locate_selection words "two" ≡ none)))
resolve_excerpt-Agrees_example = resolve_excerpt-Agrees words two

two-Agrees : Agrees words two
unfolding runes of_runes slice
two-Agrees = record {
  from = 4;
  to = 7;
  start_is = refl;
  end_is = refl;
  ordered = omega arith;
  within = omega arith;
  text_is = refl;
}

edit_excerpt-Agrees_example :
    Agrees words (record { char_start = pos 5; char_end = pos 7; text = "wo" })
    ⊎ ((trim ≡ splice) × (0 < 1) × (9 < length (runes "two")))
unfolding edit_excerpt
edit_excerpt-Agrees_example =
    edit_excerpt-Agrees trim (pos 1) (pos 9) words two
      (record { char_start = pos 5; char_end = pos 7; text = "wo" }) two-Agrees refl

-- A request whose text is not in the chunk is stored as it came.
not_located :
    resolve_excerpt words (record { char_start = pos 0; char_end = pos 3; text = "four" })
    ≡ record { char_start = pos 0; char_end = pos 3; text = "four" }
unfolding resolve_excerpt
not_located = refl

-- A document of one bullet with the branches "main" and "draft", on "draft".
abbrev no_state : SnapshotData
no_state = record {
  nodes = [];
  edges = [];
  threads = [];
  thread_nodes = [];
  evidence = [];
  node_chunks = [];
}

abbrev forked : Db
forked = record empty {
  nodes = bullet "a" ∷ [];
  branches = new_branch 5 "m" "main" false no_state ∷ new_branch 6 "d" "draft" true no_state ∷ [];
}

forked-IsValid : IsValid forked
forked-IsValid = record {
  nodes_distinct = (tt, tt);
  edges_distinct = tt;
  edges_refer = tt;
  evidence_distinct = tt;
  evidence_refer = tt;
  threads_distinct = tt;
  thread_nodes_distinct = tt;
  thread_nodes_refer = tt;
  snapshots_distinct = tt;
  branches_distinct = ((refl, tt), (tt, tt));
}

branches-IsSplit_example :
    IsSplit (create_branch forked 9 "x" "m" "new" forked).1.branches
    × IsSplit (update_branch 9 "m" "new" forked).1.branches
    × IsSplit (delete_branch forked "m" forked).1.branches
    × IsSplit (switch_branch forked (λ i. "u") 9 "m" forked).1.branches
branches-IsSplit_example =
    branches-IsSplit forked forked-IsValid (inr (refl, omega arith)) forked 9 "x" "m" "new"
      (λ i. "u") refl

-- Three branches, with "main" the active one.
abbrev on_main : Db
on_main = record forked {
  branches =
      new_branch 5 "m" "main" true no_state
      ∷ new_branch 6 "d" "draft" false no_state
      ∷ new_branch 7 "e" "end" false no_state
      ∷ [];
}

-- DeleteBranch has read that "main" is not active, and then a switch to it comes between: no branch is
-- active afterwards.
delete_branch_run : any (λ b. b.active) (delete_branch forked "m" on_main).1.branches ≡ false
unfolding delete_branch
delete_branch_run = refl

-- 2026-11-26T07:03:45.25Z, and below it 2024-02-29T23:59:59 of a leap day.
rfc3339_nano_run :
    rfc3339_nano (1795676625 * nanos + 250000000)
    ≡ b'2' ∷ b'0' ∷ b'2' ∷ b'6' ∷ b'-' ∷ b'1' ∷ b'1' ∷ b'-' ∷ b'2' ∷ b'6' ∷ b'T' ∷ b'0' ∷ b'7'
      ∷ b':' ∷ b'0' ∷ b'3' ∷ b':' ∷ b'4' ∷ b'5' ∷ b'.' ∷ b'2' ∷ b'5' ∷ b'Z' ∷ []
unfolding rfc3339_nano
rfc3339_nano_run = refl

second_text_run :
    second_text 1709251199
    ≡ b'2' ∷ b'0' ∷ b'2' ∷ b'4' ∷ b'-' ∷ b'0' ∷ b'2' ∷ b'-' ∷ b'2' ∷ b'9' ∷ b'T' ∷ b'2' ∷ b'3'
      ∷ b':' ∷ b'5' ∷ b'9' ∷ b':' ∷ b'5' ∷ b'9' ∷ []
unfolding second_text
second_text_run = refl
