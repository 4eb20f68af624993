-- ===== src/Ingest/Chunker.antt =====
-- ChunkTranscript of internal/ingest/transcript.go.
use Prim.Native.Char.{code}
use flying_shuttle.Prelude.{
  ℕ, ◌+◌, String, none, List, [], ◌∷◌, ◌++◌, length, leb, ltb, if◌then◌else◌,
}
use flying_shuttle.Prelude.Int.{pos}
use flying_shuttle.Model.{Chunk, TranscriptSegment}
use flying_shuttle.Text.Runes.{fields, join}

-- len(s), the bytes of the UTF-8 text.
unfoldable pub byte_length : String → ℕ
byte_length String.[] = 0
byte_length (String.◌∷◌ c s) =
    (if ltb (code c) 0x80
      then 1
      else if ltb (code c) 0x800
      then 2
      else if ltb (code c) 0x10000
      then 3
      else 4)
    + byte_length s

abbrev pub target_chunk_words : ℕ
target_chunk_words = 160

-- The variables of the loop.
pub record Chunker : Type 0 where
  pub chunks : List Chunk
  pub buf : List String
  pub words : ℕ
  pub position : ℕ

abbrev pub start : Chunker
start = record { chunks = []; buf = []; words = 0; position = 0 }

-- The ids that uuid.NewString draws are `uuid i`, for the i-th chunk. The time is that of the store.
module _ (uuid : ℕ → String) (source_file : String) where
  abbrev pub next_chunk : Chunker → Chunk
  next_chunk s = record {
    id = uuid (length s.chunks);
    source_file = source_file;
    content = join " " s.buf;
    start_offset = pos s.position;
    end_offset = pos (s.position + byte_length (join " " s.buf));
    speaker = none;
    embedding_vec = none;
    created_at = 0;
  }

  abbrev pub flushed : Chunker → Chunker
  flushed s = record {
    chunks = s.chunks ++ next_chunk s ∷ [];
    buf = [];
    words = 0;
    position = s.position + (byte_length (join " " s.buf) + 1);
  }

  unfoldable pub flush : Chunker → Chunker
  flush s = elim s.buf [ [] ↦ s | t ∷ ts ↦ flushed s ]

  abbrev pub with_text : String → Chunker → Chunker
  with_text text s = record s { buf = s.buf ++ text ∷ []; words = s.words + length (fields text) }

  unfoldable pub add_segment : TranscriptSegment → Chunker → Chunker
  unfolding flush
  add_segment seg s =
      let s' = with_text seg.text s in if leb target_chunk_words s'.words then flush s' else s'

  unfoldable pub add_segments : List TranscriptSegment → Chunker → Chunker
  unfolding add_segment
  add_segments [] s = s
  add_segments (seg ∷ segs) s = add_segments segs (add_segment seg s)

  unfoldable pub chunk_transcript : List TranscriptSegment → List Chunk
  unfolding add_segments flush
  chunk_transcript segments = (flush (add_segments segments start)).chunks
