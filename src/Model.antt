-- ===== src/Model.antt =====
-- internal/model: the records that the stores keep and that the graph and the outline read.
-- A time is a count of nanoseconds; an `int` that may be negative is a ℤ.
use flying_shuttle.Prelude.{ℕ, String, Bool, true, false, Option, List}
use flying_shuttle.Prelude.Int.{ℤ}

pub data NodeType : Type 0 where
  outline chunk_ref synth : NodeType

pub record Node : Type 0 where
  pub id : String
  pub type : NodeType
  pub title : String
  pub body : String
  pub labels : List (String × String)
  pub locked : Bool
  pub version : ℕ
  pub created_at : ℕ
  pub updated_at : ℕ

pub data EdgeType : Type 0 where
  linear branch jump : EdgeType

pub record Edge : Type 0 where
  pub id : String
  pub from_node : String
  pub to_node : String
  pub type : EdgeType
  pub condition : Option String
  pub weight : ℤ
  pub created_at : ℕ

pub record Evidence : Type 0 where
  pub id : String
  pub node_id : String
  pub chunk_id : String
  pub source_file : String
  pub char_start : ℤ
  pub char_end : ℤ
  pub text : String
  pub position : ℤ
  pub edited : Bool
  pub created_at : ℕ

-- A passage of a transcript, in the corpus. A nil embedding vector is `none`.
pub record Chunk : Type 0 where
  pub id : String
  pub source_file : String
  pub content : String
  pub start_offset : ℤ
  pub end_offset : ℤ
  pub speaker : Option String
  pub embedding_vec : Option (List ℕ)
  pub created_at : ℕ

pub data UploadStatus : Type 0 where
  pending transcribing done failed : UploadStatus

pub record Upload : Type 0 where
  pub id : String
  pub filename : String
  pub format : String
  pub size_bytes : ℤ
  pub status : UploadStatus
  pub error : String
  pub created_at : ℕ
  pub updated_at : ℕ

pub record TranscriptSegment : Type 0 where
  pub id : String
  pub upload_id : String
  pub speaker : String
  pub text : String
  pub start_ms : ℤ
  pub end_ms : ℤ
  pub created_at : ℕ

pub record Thread : Type 0 where
  pub id : String
  pub name : String
  pub description : String
  pub created_at : ℕ
  pub updated_at : ℕ

pub record ThreadNode : Type 0 where
  pub thread_id : String
  pub node_id : String
  pub position : ℤ

-- The association that snapshots older than the evidence table hold.
pub record NodeChunkAssoc : Type 0 where
  pub node_id : String
  pub chunk_id : String
  pub position : ℤ

pub record SnapshotData : Type 0 where
  pub nodes : List Node
  pub edges : List Edge
  pub threads : List Thread
  pub thread_nodes : List ThreadNode
  pub evidence : List Evidence
  pub node_chunks : List NodeChunkAssoc

pub record Snapshot : Type 0 where
  pub id : String
  pub label : String
  pub snapshot : SnapshotData
  pub created_at : ℕ

pub record SnapshotSummary : Type 0 where
  pub id : String
  pub label : String
  pub created_at : ℕ

pub record Branch : Type 0 where
  pub id : String
  pub name : String
  pub snapshot : SnapshotData
  pub active : Bool
  pub created_at : ℕ
  pub updated_at : ℕ

pub record BranchSummary : Type 0 where
  pub id : String
  pub name : String
  pub active : Bool
  pub created_at : ℕ
  pub updated_at : ℕ

abbrev pub is_linear : EdgeType → Bool
is_linear linear = true
is_linear branch = false
is_linear jump = false

abbrev pub is_outline : NodeType → Bool
is_outline outline = true
is_outline chunk_ref = false
is_outline synth = false

abbrev pub is_chunk_ref : NodeType → Bool
is_chunk_ref outline = false
is_chunk_ref chunk_ref = true
is_chunk_ref synth = false
