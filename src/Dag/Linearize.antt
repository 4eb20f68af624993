-- ===== src/Dag/Linearize.antt =====
-- internal/dag/linearize.go: the nodes in order, their excerpts, and the stitched document.
use flying_shuttle.Prelude.{String, Bool, not, ◌&&◌, List, [], ◌∷◌, ◌++◌, any, ◌==◌, if◌then◌else◌}
use flying_shuttle.Prelude.Int.{ℤ, eq_ℤ}
use flying_shuttle.Prelude.Result.{Result, ok, err, cycle, thread_required, ◌>>=◌}
use flying_shuttle.Model.{Node, Evidence}
use flying_shuttle.Stitch.{ChunkInput, Request, Stitched}
use flying_shuttle.Text.{is_empty}
use flying_shuttle.Doc.Db.{Db}
use flying_shuttle.Doc.Evidence.{list_node_evidence}
use flying_shuttle.Dag.Condition.{member}
use flying_shuttle.Dag.Topo.{Order, sorted, cyclic, deep, topological_sort}
use flying_shuttle.Dag.Walk.{linearize}

pub data LinearizeMode : Type 0 where
  thread manuscript : LinearizeMode

pub record LinearizeRequest : Type 0 where
  pub mode : LinearizeMode
  pub thread_id : String
  pub glue_level : ℤ

pub record LinearizeResult : Type 0 where
  pub nodes : List Node
  pub stitch : Stitched

-- The key "chunk:start:end". The two numbers hold no colon, so equal keys have equal parts.
pub record SpanKey : Type 0 where
  pub chunk_id : String
  pub char_start : ℤ
  pub char_end : ℤ

abbrev pub key_of : Evidence → SpanKey
key_of e = record { chunk_id = e.chunk_id; char_start = e.char_start; char_end = e.char_end }

abbrev pub same_key : SpanKey → SpanKey → Bool
same_key a b =
    a.chunk_id == b.chunk_id && (eq_ℤ a.char_start b.char_start && eq_ℤ a.char_end b.char_end)

-- The variables of collectChunks.
pub record Collected : Type 0 where
  pub chunks : List ChunkInput
  pub seen_span : List SpanKey
  pub seen_body : List String

unfoldable pub collect_span : Evidence → Collected → Collected
collect_span e c = if any (same_key (key_of e)) c.seen_span then c else record c {
  seen_span = key_of e ∷ c.seen_span;
  chunks = c.chunks ++ record { id = e.chunk_id; content = e.text; speaker = "" } ∷ [];
}

unfoldable pub collect_spans : List Evidence → Collected → Collected
unfolding collect_span
collect_spans [] c = c
collect_spans (e ∷ es) c = collect_spans es (collect_span e c)

unfoldable pub collect_body : Node → Collected → Collected
collect_body n c =
    if not (is_empty n.body) && not (member n.id c.seen_body)
    then record c {
      seen_body = n.id ∷ c.seen_body;
      chunks = c.chunks ++ record { id = n.id; content = n.body; speaker = "" } ∷ [];
    }
    else c

unfoldable pub collect_node : Db → Node → Collected → Collected
unfolding collect_body collect_spans list_node_evidence
collect_node db n c = elim (list_node_evidence db n.id) [
  | [] ↦ collect_body n c
  | e ∷ es ↦ collect_spans (e ∷ es) c
]

unfoldable pub collect_nodes : Db → List Node → Collected → Collected
unfolding collect_node
collect_nodes db [] c = c
collect_nodes db (n ∷ ns) c = collect_nodes db ns (collect_node db n c)

unfoldable pub collect_chunks : Db → List Node → List ChunkInput
unfolding collect_nodes
collect_chunks db nodes =
    (collect_nodes db nodes (record { chunks = []; seen_span = []; seen_body = [] })).chunks

-- `deep` is a sort out of fuel: see Dag/Topo/Complete.
abbrev pub order_result : Order → Result (List Node)
order_result (sorted ns) = ok ns
order_result (cyclic _ _) = err cycle
order_result deep = err cycle

unfoldable pub linear_nodes : Db → LinearizeRequest → Result (List Node)
unfolding topological_sort linearize
linear_nodes db req = elim req.mode [
  | manuscript ↦ order_result (topological_sort db)
  | thread ↦ if is_empty req.thread_id then err thread_required else linearize db req.thread_id
]

-- `stitch` is the stitcher: the stub, or a language model.
module _ (stitch : Request → Result Stitched) where
  unfoldable pub linearize_and_stitch : Db → LinearizeRequest → Result LinearizeResult
  unfolding linear_nodes collect_chunks
  linearize_and_stitch db req = do
    nodes ← linear_nodes db req
    stitched ← stitch (record { chunks = collect_chunks db nodes; glue_level = req.glue_level })
    ok (record { nodes = nodes; stitch = stitched })
