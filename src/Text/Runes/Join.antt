-- ===== src/Text/Runes/Join.antt =====
-- strings.Join and strings.Fields over parts of lists.
use Prim.Native.String.{◌++◌ as ◌++ˢ◌}
use text.Mathlib.TextLemmas.{nil-append, cons-append, append_assoc}
use flying_shuttle.Prelude.{
  ℕ, ◌+◌, ◌≡◌, refl, sym, ap, ◌∙◌, inl, inr, Bool-cases, String, List, [], ◌∷◌, ◌++◌, All, map,
  length, length-append, arith,
}
use flying_shuttle.Text.{is_empty, is_space}
use flying_shuttle.Text.Runes.{words, fields, join}

abbrev pub IsCons {ℓ} : {A : Type ℓ} → List A → Type 0
IsCons [] = ⊥
IsCons (x ∷ xs) = Unit

pub join-append :
    (sep : String) (xs ys : List String)
    → IsCons xs
    → IsCons ys
    → join sep (xs ++ ys) ≡ join sep xs ++ˢ (sep ++ˢ join sep ys)
unfolding join
join-append sep [] ys c d = absurd c
join-append sep (x ∷ xs) [] c d = absurd d
join-append sep (x ∷ []) (y ∷ ys) c d = refl
join-append sep (x ∷ (x' ∷ xs)) (y ∷ ys) c d =
    ap (λ t. x ++ˢ (sep ++ˢ t)) (join-append sep (x' ∷ xs) (y ∷ ys) tt tt)
    ∙ ap (λ t. x ++ˢ t) (sym (append_assoc sep (join sep (x' ∷ xs)) (sep ++ˢ join sep (y ∷ ys))))
    ∙ sym (append_assoc x (sep ++ˢ join sep (x' ∷ xs)) (sep ++ˢ join sep (y ∷ ys)))

abbrev pub flat {ℓ} : {A : Type ℓ} → List (List A) → List A
flat [] = []
flat (g ∷ gs) = g ++ flat gs

-- Joining the joined groups joins the whole.
pub join-flat :
    (sep : String) (gs : List (List String))
    → All IsCons gs
    → join sep (map (join sep) gs) ≡ join sep (flat gs)
unfolding join
join-flat sep [] c = refl
join-flat sep (g ∷ []) c = ap (join sep) (sym (nothing g))
  where
    nothing : (xs : List String) → xs ++ [] ≡ xs
    nothing [] = refl
    nothing (x ∷ xs) = ap (λ ys. x ∷ ys) (nothing xs)
join-flat sep (g ∷ (h ∷ gs)) c =
    ap (λ t. join sep g ++ˢ (sep ++ˢ t)) (join-flat sep (h ∷ gs) c.1)
    ∙ sym (join-append sep g (h ++ flat gs) c.0 (cons-append_left h (flat gs) c.1.0))
  where
    cons-append_left : (xs ys : List String) → IsCons xs → IsCons (xs ++ ys)
    cons-append_left [] ys d = absurd d
    cons-append_left (x ∷ xs) ys d = tt

-- A blank between two texts keeps their words apart.
words-space : (a b : String) → words (a ++ˢ (" " ++ˢ b)) ≡ ((words a).0, (words a).1 ++ fields b)
unfolding words fields is_space
words-space String.[] b =
    ap words
      (nil-append (" " ++ˢ b) ∙ cons-append " " "" b ∙ ap (λ t. String.◌∷◌ " " t) (nil-append b))
words-space (String.◌∷◌ c a) b =
    ap words (cons-append c a (" " ++ˢ b))
    ∙ rw (words, words-space a b)
        (elim (Bool-cases (is_space c)) [
          | inr e ↦ rw (words, e) refl
          | inl e ↦
              rw (words, e)
                (elim (Bool-cases (is_empty (words a).0)) [ inl t ↦ rw t refl | inr t ↦ rw t refl ])
        ])

pub fields-space : (a b : String) → fields (a ++ˢ (" " ++ˢ b)) ≡ fields a ++ fields b
unfolding fields
fields-space a b =
    rw (fields, words-space a b)
      (elim (Bool-cases (is_empty (words a).0)) [
        | inl t ↦ rw (t, fields) refl
        | inr t ↦ rw (t, fields) refl
      ])

abbrev pub word_total : List String → ℕ
word_total [] = 0
word_total (t ∷ ts) = length (fields t) + word_total ts

pub fields-join : (ts : List String) → length (fields (join " " ts)) ≡ word_total ts
unfolding join fields words
fields-join [] = refl
fields-join (t ∷ []) = omega arith
fields-join (t ∷ (u ∷ ts)) =
    ap length (fields-space t (join " " (u ∷ ts)))
    ∙ omega (arith, length-append (fields t) (fields (join " " (u ∷ ts))), fields-join (u ∷ ts))

pub word_total-append :
    (xs ys : List String) → word_total (xs ++ ys) ≡ word_total xs + word_total ys
word_total-append [] ys = omega arith
word_total-append (x ∷ xs) ys = omega (arith, word_total-append xs ys)
