-- ===== src/Text.antt =====
-- What the program uses of Go's strings, strconv and unicode packages, on native texts.
-- A text is its sequence of code points.
pub mod Runes
use Prim.Native.Char.{Char, code}
use Prim.Native.String
use Prim.Native.String.{◌++◌}
use flying_shuttle.Prelude.{
  ℕ, zero, suc, ◌/◌, ◌%◌, String, Bool, true, false, not, ◌&&◌, ◌||◌, Option, none, some, List, [],
  ◌∷◌, ◌==◌, leb, ltb, nat_eq, if◌then◌else◌,
}
use flying_shuttle.Prelude.Int.{ℤ, pos, negsuc}

abbrev pub is_empty : String → Bool
is_empty s = s == ""

unfoldable pub concat : List String → String
concat [] = ""
concat (s ∷ ss) = s ++ concat ss

digit : ℕ → String
digit zero = "0"
digit (suc zero) = "1"
digit (suc (suc zero)) = "2"
digit (suc (suc (suc zero))) = "3"
digit (suc (suc (suc (suc zero)))) = "4"
digit (suc (suc (suc (suc (suc zero))))) = "5"
digit (suc (suc (suc (suc (suc (suc zero)))))) = "6"
digit (suc (suc (suc (suc (suc (suc (suc zero))))))) = "7"
digit (suc (suc (suc (suc (suc (suc (suc (suc zero)))))))) = "8"
digit n = "9"

-- The digits of n before `rest`; a number has at most as many digits as it counts, so n is fuel enough.
show_from : ℕ → ℕ → String → String
unfolding digit
show_from zero n rest = digit (n % 10) ++ rest
show_from (suc f) n rest =
    let shown = digit (n % 10) ++ rest in
    let more = show_from f (n / 10) shown in if ltb n 10 then shown else more

-- %d
unfoldable pub show_ℕ : ℕ → String
unfolding show_from
show_ℕ n = show_from n n ""

unfoldable pub show_ℤ : ℤ → String
unfolding show_ℕ
show_ℤ (pos n) = show_ℕ n
show_ℤ (negsuc n) = "-" ++ show_ℕ (suc n)

-- unicode.IsSpace
unfoldable pub is_space : Char → Bool
is_space ch =
    let c = code ch in
    (leb 9 c && leb c 13)
    || (nat_eq c 0x20
        || (nat_eq c 0x85
            || (nat_eq c 0xa0
                || (nat_eq c 0x1680
                    || ((leb 0x2000 c && leb c 0x200a)
                        || (nat_eq c 0x2028
                            || (nat_eq c 0x2029
                                || (nat_eq c 0x202f || (nat_eq c 0x205f || nat_eq c 0x3000)))))))))

unfoldable pub trim_left : String → String
unfolding is_space
trim_left String.[] = String.[]
trim_left (String.◌∷◌ c s) = let rest = trim_left s in if is_space c then rest else String.◌∷◌ c s

unfoldable pub trim_right : String → String
unfolding is_space
trim_right String.[] = String.[]
trim_right (String.◌∷◌ c s) =
    let rest = trim_right s in if is_space c && is_empty rest then String.[] else String.◌∷◌ c rest

-- strings.TrimSpace
unfoldable pub trim_space : String → String
unfolding trim_left trim_right
trim_space s = trim_right (trim_left s)

-- What follows the prefix p of s: HasPrefix and TrimPrefix at once.
unfoldable pub strip_prefix : String → String → Option String
strip_prefix String.[] s = some s
strip_prefix (String.◌∷◌ c p) String.[] = none
strip_prefix (String.◌∷◌ c p) (String.◌∷◌ d s) =
    let rest = strip_prefix p s in if nat_eq (code c) (code d) then rest else none

-- What stands before the last character, if that is c.
unfoldable pub strip_last : Char → String → Option String
strip_last c String.[] = none
strip_last c (String.◌∷◌ d String.[]) = if nat_eq (code c) (code d) then some String.[] else none
strip_last c (String.◌∷◌ d (String.◌∷◌ e s)) = elim (strip_last c (String.◌∷◌ e s)) [
  | none ↦ none
  | some t ↦ some (String.◌∷◌ d t)
]

-- The parts before and after the first occurrence of sep: strings.Index and the two slices.
unfoldable pub cut : String → String → Option (String × String)
unfolding strip_prefix
cut sep String.[] = elim (strip_prefix sep String.[]) [ none ↦ none | some t ↦ some (String.[], t) ]
cut sep (String.◌∷◌ c s) = elim (strip_prefix sep (String.◌∷◌ c s)) [
  | some t ↦ some (String.[], t)
  | none ↦ elim (cut sep s) [ none ↦ none | some (a, b) ↦ some (String.◌∷◌ c a, b) ]
]
