-- ===== src/Outline/Quote.antt =====
-- The excerpts of internal/outline/service.go: where a selection stands in a chunk, and how an edit
-- changes an excerpt and its offsets.
pub mod Locate
pub mod Edit
use Prim.Native.Char.{Char}
use Prim.Native.String
use Prim.Native.String.{◌++◌}
use flying_shuttle.Prelude.{
  ℕ, zero, suc, ◌+◌, ◌-◌, String, Bool, true, false, not, ◌||◌, Option, none, some, List, [], ◌∷◌,
  length, take, drop, get_elem?, leb, ltb, nat_eq, ◌==◌, if◌then◌else◌,
}
use flying_shuttle.Prelude.Int.{ℤ, pos, pos_part, ◌+ℤ◌, leb_ℤ, ltb_ℤ}
use flying_shuttle.Model.{Chunk, Evidence}
use flying_shuttle.Text.{is_empty, is_space, trim_space, cut}
use flying_shuttle.Text.Runes.{runes, of_runes, rune_count, slice, fields, join}

-- A text with each run of white space made one space, and the index each rune came from.
unfoldable pub normalize : ℕ → Bool → List Char → List Char × List ℕ
unfolding is_space
normalize i in_ws [] = ([], [])
normalize i in_ws (c ∷ cs) =
    let space = normalize (suc i) true cs in
    let other = normalize (suc i) false cs in
    if is_space c
    then (if in_ws then space else (" " ∷ space.0, i ∷ space.1))
    else (c ∷ other.0, i ∷ other.1)

-- The offsets of the needle, found in the normalized text before `before`.
unfoldable pub source_span : List ℕ → ℕ → ℕ → Option (ℕ × ℕ)
source_span src sr len = if nat_eq len 0 then none else (elim (get_elem? src sr) [
  | none ↦ none
  | some s ↦ elim (get_elem? src (sr + len - 1)) [ none ↦ none | some e ↦ some (s, e + 1) ]
])

unfoldable pub locate_normalized : String → String → Option (ℕ × ℕ)
unfolding normalize runes of_runes rune_count fields join cut source_span
locate_normalized content sel =
    let needle = join " " (fields sel) in
    let (norm, src) = normalize 0 false (runes content) in
    elim (cut needle (of_runes norm)) [
      | none ↦ none
      | some (before, _) ↦ source_span src (rune_count before) (rune_count needle)
    ]

-- locateSelection, for a selection that is trimmed already.
unfoldable pub locate_trimmed : String → String → Option (ℕ × ℕ)
unfolding cut rune_count locate_normalized
locate_trimmed content sel = if is_empty sel then none else (elim (cut sel content) [
  | some (before, _) ↦ some (rune_count before, rune_count before + rune_count sel)
  | none ↦ locate_normalized content sel
])

unfoldable pub locate_selection : String → String → Option (ℕ × ℕ)
unfolding trim_space locate_trimmed
locate_selection content sel = locate_trimmed content (trim_space sel)

-- An excerpt: its offsets in the chunk and its text.
pub record Excerpt : Type 0 where
  pub char_start : ℤ
  pub char_end : ℤ
  pub text : String

abbrev pub whole : String → Excerpt
whole content = record {
  char_start = pos 0;
  char_end = pos (length (runes content));
  text = content;
}

-- The excerpt that the selection stands for, where it can be located.
unfoldable pub canonical : String → Excerpt → Excerpt
unfolding locate_selection trim_space slice
canonical content x =
    if is_empty (trim_space x.text) then x else (elim (locate_selection content x.text) [
      | none ↦ x
      | some (s, e) ↦ record {
        char_start = pos s;
        char_end = pos e;
        text = of_runes (slice s e (runes content));
      }
    ])

unfoldable pub degenerate : String → Excerpt → Bool
degenerate content x =
    is_empty x.text
    || (leb_ℤ x.char_end x.char_start
        || (ltb_ℤ x.char_start (pos 0) || ltb_ℤ (pos (length (runes content))) x.char_end))

-- The first half of AttachEvidence: the excerpt that is stored.
unfoldable pub resolve_excerpt : String → Excerpt → Excerpt
unfolding canonical degenerate
resolve_excerpt content x =
    let y = canonical content x in if degenerate content y then whole content else y

pub data QuoteOp : Type 0 where
  trim splice other : QuoteOp

-- The switch of EditQuote, for start < end ≤ len(runes).
unfoldable pub edited : QuoteOp → ℕ → ℕ → Excerpt → Option Excerpt
unfolding slice of_runes runes ◌+ℤ◌
edited trim start end x =
    let kept = slice start end (runes x.text) in
    some (record {
      char_start = x.char_start +ℤ pos start;
      char_end = x.char_start +ℤ pos start +ℤ pos (length kept);
      text = of_runes kept;
    })
edited splice start end x =
    let r = runes x.text in
    some (record {
      char_start = if nat_eq start 0 then x.char_start +ℤ pos end else x.char_start;
      char_end =
          if nat_eq start 0
          then x.char_end
          else if nat_eq end (length r)
          then x.char_start +ℤ pos start
          else x.char_end;
      text = of_runes (take start r) ++ of_runes (drop end r);
    })
edited other start end x = none

-- An edit that would empty the excerpt, or not change it, is none.
unfoldable pub effective : String → Option Excerpt → Option Excerpt
unfolding trim_space
effective old none = none
effective old (some x) = if is_empty (trim_space x.text) || x.text == old then none else some x

-- EditQuote on an excerpt: the offsets are clamped to its text first.
unfoldable pub edit_excerpt : QuoteOp → ℤ → ℤ → Excerpt → Option Excerpt
unfolding edited effective runes
edit_excerpt op start end x =
    let len = length (runes x.text) in
    let lo = pos_part start in
    let hi = if leb (pos_part end) len then pos_part end else len in
    if leb hi lo then none else effective x.text (edited op lo hi x)
