-- ===== src/Transcript/Window.antt =====
-- Windows around a chunk (internal/transcript/transcript.go), read from the corpus.
use Prim.Native.String.{◌++◌}
use flying_shuttle.Prelude.{
  ℕ, suc, ◌+◌, ◌-◌, String, Bool, false, ◌&&◌, Option, none, some, List, [], ◌∷◌, map, length, take,
  drop, get_elem?, ltb, ◌==◌, if◌then◌else◌,
}
use flying_shuttle.Prelude.Int.{ℤ, pos, pos_part, leb_ℤ, ltb_ℤ}
use flying_shuttle.Prelude.Result.{Result, ok, err, not_found, ◌>>=◌}
use flying_shuttle.Text.{is_empty}
use flying_shuttle.Model.{Chunk}
use flying_shuttle.Corpus.Db.{CorpusDb}
use flying_shuttle.Corpus.Chunks.{get_chunk, list_chunks_by_source_file}

pub record Segment : Type 0 where
  pub chunk_id : String
  pub source_file : String
  pub char_start : ℤ
  pub char_end : ℤ
  pub text : String
  pub speaker : String
  pub focus : Bool

pub record Window : Type 0 where
  pub source_file : String
  pub focus_chunk : String
  pub segments : List Segment
  pub text : String
  pub has_prev : Bool
  pub has_next : Bool
  pub prev_chunk : String
  pub next_chunk : String

abbrev pub default_radius : ℕ
default_radius = 2

abbrev pub radius_of : ℤ → ℕ
radius_of radius = if leb_ℤ radius (pos 0) then default_radius else pos_part radius

-- The first index of the chunk with the id.
unfoldable pub index_of_chunk : String → List Chunk → Option ℕ
index_of_chunk id [] = none
index_of_chunk id (c ∷ cs) =
    let rest = index_of_chunk id cs in
    if c.id == id then some 0 else elim rest [ none ↦ none | some i ↦ some (suc i) ]

-- chunks[i].ID
abbrev pub id_at : List Chunk → ℕ → String
id_at cs i = elim (get_elem? cs i) [ none ↦ "" | some c ↦ c.id ]

abbrev pub segment : String → Chunk → Segment
segment focus_id c = record {
  chunk_id = c.id;
  source_file = c.source_file;
  char_start = c.start_offset;
  char_end = c.end_offset;
  text = c.content;
  speaker = elim c.speaker [ none ↦ "" | some s ↦ s ];
  focus = c.id == focus_id;
}

-- w.Text, as the loop builds it up.
unfoldable pub running_text : String → List Chunk → String
running_text text [] = text
running_text text (c ∷ cs) =
    running_text ((if is_empty text then text else text ++ " ") ++ c.content) cs

abbrev pub low : ℕ → ℕ → ℕ
low fi radius = fi - radius

abbrev pub high : ℕ → ℕ → ℕ → ℕ
high fi radius count = if ltb count (fi + radius + 1) then count else fi + radius + 1

unfoldable pub window_at : String → String → ℕ → List Chunk → ℕ → Window
unfolding running_text
window_at source_file focus_id radius chunks fi =
    let lo = low fi radius in
    let hi = high fi radius (length chunks) in
    let shown = take (hi - lo) (drop lo chunks) in
    let earlier = ltb 0 lo in
    let later = ltb hi (length chunks) in
    record {
      source_file = source_file;
      focus_chunk = focus_id;
      segments = map (segment focus_id) shown;
      text = running_text "" shown;
      has_prev = earlier;
      has_next = later;
      prev_chunk = if earlier then id_at chunks (lo - 1) else "";
      next_chunk = if later then id_at chunks hi else "";
    }

unfoldable pub window : String → String → ℤ → CorpusDb → Result Window
unfolding window_at index_of_chunk
window source_file focus_id radius db =
    let chunks = list_chunks_by_source_file source_file db in
    elim (index_of_chunk focus_id chunks) [
      | none ↦ err not_found
      | some fi ↦ ok (window_at source_file focus_id (radius_of radius) chunks fi)
    ]

unfoldable pub window_around : String → ℤ → CorpusDb → Result Window
unfolding window
window_around chunk_id radius db =
    get_chunk chunk_id db >>= λ c. window c.source_file chunk_id radius db

-- The loop of WindowFrom.
unfoldable pub center_from : ℤ → String → List Chunk → String
center_from offset center [] = center
center_from offset center (c ∷ cs) =
    let rest = center_from offset c.id cs in
    if leb_ℤ c.start_offset offset && ltb_ℤ offset c.end_offset
    then c.id
    else if ltb_ℤ offset c.start_offset
    then c.id
    else rest

abbrev pub no_window : String → Window
no_window source_file = record {
  source_file = source_file;
  focus_chunk = "";
  segments = [];
  text = "";
  has_prev = false;
  has_next = false;
  prev_chunk = "";
  next_chunk = "";
}

unfoldable pub window_from : String → ℤ → ℤ → CorpusDb → Result Window
unfolding window center_from
window_from source_file offset radius db = elim (list_chunks_by_source_file source_file db) [
  | [] ↦ ok (no_window source_file)
  | c ∷ cs ↦ window source_file (center_from offset c.id (c ∷ cs)) radius db
]
