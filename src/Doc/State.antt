-- ===== src/Doc/State.antt =====
-- The whole state of the graph (internal/doc/sqlite.go): collected, cleared and written back.
use flying_shuttle.Prelude.{ℕ, String, ◌+◌, true, true, false, List, [], ◌∷◌, ◌++◌, length}
use flying_shuttle.Prelude.Int.{pos}
use flying_shuttle.Prelude.Result.{Result, ◌>>=◌, each}
use flying_shuttle.Model.{Evidence, Thread, ThreadNode, NodeChunkAssoc, SnapshotData}
use flying_shuttle.Doc.Db.{
  Db, EvidenceRow, insert_node, insert_edge, insert_thread, insert_thread_node, insert_evidence,
}
use flying_shuttle.Doc.Action.{Action, exec}
use flying_shuttle.Doc.Nodes.{list_nodes}
use flying_shuttle.Doc.Edges.{list_edges}
use flying_shuttle.Doc.Evidence.{nz, list_all_evidence}
use flying_shuttle.Doc.Threads.{list_threads, get_thread_nodes}

-- The loop of gatherDAGState over the threads.
unfoldable pub all_thread_nodes : Db → List Thread → List ThreadNode
all_thread_nodes db [] = []
all_thread_nodes db (t ∷ ts) = get_thread_nodes db t.id ++ all_thread_nodes db ts

unfoldable pub gather_dag_state : Db → SnapshotData
unfolding all_thread_nodes
gather_dag_state db = record {
  nodes = list_nodes db;
  edges = list_edges db;
  threads = list_threads db;
  thread_nodes = all_thread_nodes db (list_threads db);
  evidence = list_all_evidence db;
  node_chunks = [];
}

unfoldable pub export_state : Db → SnapshotData
unfolding gather_dag_state
export_state db = gather_dag_state db

unfoldable pub clear_dag_tables : Db → Db
clear_dag_tables db = record db {
  nodes = [];
  edges = [];
  evidence = [];
  threads = [];
  thread_nodes = [];
}

-- `uuid i` is the id drawn for the i-th evidence row, should it need one.
unfoldable pub restored_evidence : (ℕ → String) → ℕ → List Evidence → List EvidenceRow
unfolding nz
restored_evidence uuid i [] = []
restored_evidence uuid i (e ∷ es) =
    record { row = record e { id = nz (uuid i) e.id }; by_strftime = false }
    ∷ restored_evidence uuid (i + 1) es

-- A legacy association keeps its ids and its position, and has an empty excerpt.
unfoldable pub restored_chunks : (ℕ → String) → ℕ → ℕ → List NodeChunkAssoc → List EvidenceRow
restored_chunks uuid now i [] = []
restored_chunks uuid now i (nc ∷ ncs) =
    record {
      row = record {
        id = uuid i;
        node_id = nc.node_id;
        chunk_id = nc.chunk_id;
        source_file = "";
        char_start = pos 0;
        char_end = pos 0;
        text = "";
        position = nc.position;
        edited = false;
        created_at = now;
      };
      by_strftime = true;
    }
    ∷ restored_chunks uuid now (i + 1) ncs

unfoldable pub restore_dag_state : (ℕ → String) → ℕ → SnapshotData → Db → Result Db
unfolding restored_evidence restored_chunks
restore_dag_state uuid now dag db = do
  db₁ ← each insert_node dag.nodes db
  db₂ ← each insert_edge dag.edges db₁
  db₃ ← each insert_thread dag.threads db₂
  db₄ ← each insert_thread_node dag.thread_nodes db₃
  db₅ ← each insert_evidence (restored_evidence uuid 0 dag.evidence) db₄
  each insert_evidence (restored_chunks uuid now (length dag.evidence) dag.node_chunks) db₅

unfoldable pub import_tx : (ℕ → String) → ℕ → SnapshotData → Db → Result Db
unfolding clear_dag_tables restore_dag_state
import_tx uuid now dag db = restore_dag_state uuid now dag (clear_dag_tables db)

unfoldable pub import_state : (ℕ → String) → ℕ → SnapshotData → Action (Unit {0})
unfolding import_tx
import_state uuid now dag = exec (import_tx uuid now dag)
