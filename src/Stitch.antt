-- ===== src/Stitch.antt =====
-- internal/stitch: the request and the result of a stitch, and the stitcher that adds ellipses.
use flying_shuttle.Prelude.{ℕ, zero, suc, ◌+◌, String, List, [], ◌∷◌}
use flying_shuttle.Prelude.Int.{ℤ}
use flying_shuttle.Prelude.Result.{Result, ok}
use flying_shuttle.Text.{concat}

pub data SpanType : Type 0 where
  chunk glue : SpanType

pub record Span : Type 0 where
  pub type : SpanType
  pub chunk_index : ℕ
  pub chunk_id : String
  pub text : String

pub record ChunkInput : Type 0 where
  pub id : String
  pub content : String
  pub speaker : String

pub record Request : Type 0 where
  pub chunks : List ChunkInput
  pub glue_level : ℤ

-- The glue ratio, a float, is glue_chars over total_chars and is not kept.
pub record Stats : Type 0 where
  pub chunk_chars : ℕ
  pub glue_chars : ℕ
  pub total_chars : ℕ

pub record Stitched : Type 0 where
  pub spans : List Span
  pub text : String
  pub stats : Stats

-- len([]rune(s))
unfoldable pub rune_count : String → ℕ
rune_count String.[] = 0
rune_count (String.◌∷◌ c s) = suc (rune_count s)

unfoldable pub count_spans : List Span → Stats → Stats
unfolding rune_count
count_spans [] st = st
count_spans (s ∷ ss) st = count_spans ss (elim s.type [
  | chunk ↦ record st { chunk_chars = st.chunk_chars + rune_count s.text }
  | glue ↦ record st { glue_chars = st.glue_chars + rune_count s.text }
])

unfoldable pub texts : List Span → List String
texts [] = []
texts (s ∷ ss) = s.text ∷ texts ss

unfoldable pub build_result : List Span → Stitched
unfolding count_spans concat texts
build_result spans =
    let st = count_spans spans (record { chunk_chars = 0; glue_chars = 0; total_chars = 0 }) in
    record {
      spans = spans;
      text = concat (texts spans);
      stats = record st { total_chars = st.chunk_chars + st.glue_chars };
    }

abbrev pub ellipsis : Span
ellipsis = record { type = glue; chunk_index = 0; chunk_id = ""; text = " ... " }

abbrev pub chunk_span : ℕ → ChunkInput → Span
chunk_span i c = record { type = chunk; chunk_index = i; chunk_id = c.id; text = c.content }

-- The spans from the chunk with index i on.
unfoldable pub stub_spans : ℕ → List ChunkInput → List Span
stub_spans i [] = []
stub_spans zero (c ∷ cs) = chunk_span zero c ∷ stub_spans 1 cs
stub_spans (suc i) (c ∷ cs) = ellipsis ∷ chunk_span (suc i) c ∷ stub_spans (suc i + 1) cs

unfoldable pub stub_stitch : Request → Result Stitched
unfolding stub_spans build_result
stub_stitch req = ok (build_result (stub_spans 0 req.chunks))
