-- ===== src/Text/Runes/Slices.antt =====
-- The runes of a text, and slices of slices.
use Prim.Native.Char.{Char}
use Prim.Native.String.{◌++◌ as ◌++ˢ◌}
use text.Mathlib.TextLemmas.{append-nil}
use flying_shuttle.Prelude.{
  ℕ, String, ◌+◌, ◌-◌, ◌≤◌, ◌≡◌, refl, ap, sym, ◌∙◌, List, [], ◌∷◌, length, take, drop, arith,
}
use flying_shuttle.Prelude.Slices.{
  length-take, length-drop, take-all, drop-all, drop-drop, drop-take, take-take,
}
use flying_shuttle.Text.Runes.{runes, of_runes, slice}

pub runes-of_runes : (cs : List Char) → runes (of_runes cs) ≡ cs
unfolding runes of_runes
runes-of_runes [] = refl
runes-of_runes (c ∷ cs) = ap (λ ds. c ∷ ds) (runes-of_runes cs)

pub of_runes-runes : (s : String) → of_runes (runes s) ≡ s
unfolding of_runes runes
of_runes-runes String.[] = refl
of_runes-runes (String.◌∷◌ c s) = ap (λ t. String.◌∷◌ c t) (of_runes-runes s)

-- A slice of a slice is a slice.
pub slice-slice :
    (f t a b : ℕ) (cs : List Char) → b ≤ t - f → slice a b (slice f t cs) ≡ slice (f + a) (f + b) cs
unfolding slice
slice-slice f t a b cs h =
    rw (drop-take a (t - f) (drop f cs), drop-drop a f cs)
      (take-take (b - a) (t - f - a) (drop (f + a) cs) (omega (arith, h))
        ∙ ap (λ k. take k (drop (f + a) cs)) (omega arith))

pub length-slice : (f t : ℕ) (cs : List Char) → t ≤ length cs → length (slice f t cs) ≡ t - f
unfolding slice
length-slice f t cs h = length-take (t - f) (drop f cs) (omega (arith, length-drop f cs, h))

pub slice-rest : (n : ℕ) (cs : List Char) → drop n cs ≡ slice n (length cs) cs
unfolding slice
slice-rest n cs = sym (rw (sym (length-drop n cs)) (take-all (drop n cs)))

pub slice-front :
    (n : ℕ) (cs : List Char)
    → of_runes (take n cs) ++ˢ of_runes (drop (length cs) cs) ≡ of_runes (slice 0 n cs)
unfolding slice of_runes
slice-front n cs =
    rw (drop-all cs, append-nil (of_runes (take n cs)))
      (ap (λ k. of_runes (take k cs)) (omega arith))

pub slice-all : (cs : List Char) → slice 0 (length cs) cs ≡ cs
unfolding slice
slice-all cs = ap (λ n. take n cs) (omega arith) ∙ take-all cs
