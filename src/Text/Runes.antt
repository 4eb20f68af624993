-- ===== src/Text/Runes.antt =====
-- Texts as slices of runes, and the words of a text (strings.Fields).
pub mod Slices
pub mod Join
use Prim.Native.Char.{Char}
use Prim.Native.String.{◌++◌}
use flying_shuttle.Prelude.{
  ℕ, suc, ◌-◌, String, List, [], ◌∷◌, length, take, drop, leb, if◌then◌else◌,
}
use flying_shuttle.Text.{is_empty, is_space}

-- []rune(s) and string(r)
unfoldable pub runes : String → List Char
runes String.[] = []
runes (String.◌∷◌ c s) = c ∷ runes s

unfoldable pub of_runes : List Char → String
of_runes [] = String.[]
of_runes (c ∷ cs) = String.◌∷◌ c (of_runes cs)

-- utf8.RuneCountInString
unfoldable pub rune_count : String → ℕ
rune_count String.[] = 0
rune_count (String.◌∷◌ c s) = suc (rune_count s)

-- r[start:end], for start ≤ end ≤ len(r)
unfoldable pub slice : ℕ → ℕ → List Char → List Char
slice start end r = take (end - start) (drop start r)

-- The first word of a text, as far as it reaches, and the words behind it.
unfoldable pub words : String → String × List String
unfolding is_space
words String.[] = (String.[], [])
words (String.◌∷◌ c s) =
    let (w, ws) = words s in
    if is_space c then (String.[], if is_empty w then ws else w ∷ ws) else (String.◌∷◌ c w, ws)

-- strings.Fields
unfoldable pub fields : String → List String
unfolding words
fields s = let (w, ws) = words s in if is_empty w then ws else w ∷ ws

-- strings.Join
unfoldable pub join : String → List String → String
join sep [] = ""
join sep (w ∷ []) = w
join sep (w ∷ (v ∷ ws)) = w ++ (sep ++ join sep (v ∷ ws))

-- previewText of internal/outline/service.go
unfoldable pub preview_text : String → ℕ → String
unfolding runes of_runes
preview_text s max = if leb (length (runes s)) max then s else of_runes (take max (runes s)) ++ "…"
