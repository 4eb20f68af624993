-- ===== src/Ingest/Sentences.antt =====
-- ParseTranscript of internal/ingest/transcript.go: paragraphs, then sentences.
use Prim.Native.Char.{Char, code}
use Prim.Native.String.{◌++◌ as ◌++ˢ◌}
use flying_shuttle.Prelude.{
  ℕ, zero, suc, String, Bool, false, ◌&&◌, ◌||◌, Option, none, some, List, [], ◌∷◌, ◌++◌, any, ◌==◌,
  nat_eq, if◌then◌else◌,
}
use flying_shuttle.Text.{is_empty, trim_space}
use flying_shuttle.Text.Runes.{rune_count}

abbrev pub text_extensions : List String
text_extensions = ".txt" ∷ ".md" ∷ ".markdown" ∷ ".text" ∷ []

-- `to_lower` is strings.ToLower.
unfoldable pub is_text_transcript : (String → String) → String → Bool
is_text_transcript to_lower ext = any (λ e. e == to_lower ext) text_extensions

abbrev is_blank : Char → Bool
is_blank c = nat_eq (code c) b' ' || nat_eq (code c) b'\t'

abbrev is_newline : Char → Bool
is_newline c = nat_eq (code c) b'\n'

-- strings.ReplaceAll(raw, "\r\n", "\n")
unfoldable pub unix_lines : String → String
unix_lines String.[] = String.[]
unix_lines (String.◌∷◌ c String.[]) = String.◌∷◌ c String.[]
unix_lines (String.◌∷◌ c (String.◌∷◌ d s)) =
    let rest = unix_lines (String.◌∷◌ d s) in
    if nat_eq (code c) b'\r' && is_newline d then rest else String.◌∷◌ c rest

skip : (Char → Bool) → String → String
skip p String.[] = String.[]
skip p (String.◌∷◌ c s) = let rest = skip p s in if p c then rest else String.◌∷◌ c s

-- What follows a newline and the rest of a match of `\n[ \t]*\n+`, if there is one.
unfoldable pub after_break : String → Option String
unfolding skip
after_break s = elim (skip is_blank s) [
  | String.[] ↦ none
  | String.◌∷◌ c t ↦ if is_newline c then some (skip is_newline t) else none
]

-- paragraphSplit.Split(raw, -1): the first piece and the others. Each step takes a rune at least, so the
-- count of the runes is fuel enough.
unfoldable pub split_paragraphs : ℕ → String → String × List String
unfolding after_break
split_paragraphs zero s = (s, [])
split_paragraphs (suc fuel) String.[] = (String.[], [])
split_paragraphs (suc fuel) (String.◌∷◌ c s) = elim (if is_newline c then after_break s else none) [
  | some t ↦ let (p, ps) = split_paragraphs fuel t in (String.[], p ∷ ps)
  | none ↦ let (p, ps) = split_paragraphs fuel s in (String.◌∷◌ c p, ps)
]

unfoldable pub paragraphs : String → List String
unfolding split_paragraphs
paragraphs raw = let (p, ps) = split_paragraphs (rune_count raw) raw in p ∷ ps

-- whitespaceRun.ReplaceAllString(sent, " "): `inside` says that a run has begun.
unfoldable pub collapse : Bool → String → String
collapse inside String.[] = String.[]
collapse inside (String.◌∷◌ c s) =
    let space = is_blank c || (nat_eq (code c) b'\r' || is_newline c) in
    let rest = collapse space s in
    if space then (if inside then rest else " " ++ˢ rest) else String.◌∷◌ c rest

abbrev pub is_stop : Char → Bool
is_stop c = nat_eq (code c) b'.' || (nat_eq (code c) b'!' || nat_eq (code c) b'?')

-- A blank follows.
abbrev pub blank_next : String → Bool
blank_next String.[] = false
blank_next (String.◌∷◌ c s) = is_blank c || is_newline c

-- The loop of splitSentences with the builder b.
unfoldable pub sentences_from : String → String → List String
sentences_from b String.[] = if is_empty (trim_space b) then [] else b ∷ []
sentences_from b (String.◌∷◌ c s) =
    let b' = b ++ˢ String.◌∷◌ c String.[] in
    let ends = is_stop c && blank_next s in
    let rest = sentences_from (if ends then String.[] else b') s in if ends then b' ∷ rest else rest

-- The text is valid UTF-8, as every String here: []rune would put U+FFFD for other bytes.
unfoldable pub split_sentences : String → List String
unfolding sentences_from
split_sentences text = sentences_from String.[] text

-- The segments' texts of a paragraph.
unfoldable pub tidy : List String → List String
unfolding collapse
tidy [] = []
tidy (sent ∷ sents) =
    let rest = tidy sents in
    let text = trim_space (collapse false sent) in if is_empty text then rest else text ∷ rest

unfoldable pub parse_paragraphs : List String → List String
unfolding tidy split_sentences
parse_paragraphs [] = []
parse_paragraphs (para ∷ paras) =
    let rest = parse_paragraphs paras in
    if is_empty (trim_space para) then rest else tidy (split_sentences para) ++ rest

-- A segment has no field but its text yet.
unfoldable pub parse_transcript : String → List String
unfolding parse_paragraphs paragraphs unix_lines
parse_transcript raw = parse_paragraphs (paragraphs (unix_lines raw))
