-- ===== src/Export/Slug.antt =====
-- Slugify and the exits of internal/export/markdown.go.
use Prim.Native.Char.{Char, code}
use Prim.Native.String.{◌++◌ as ◌++ˢ◌}
use text.Mathlib.TextLemmas.{nil-append, cons-append}
use flying_shuttle.Prelude.{
  nat_eq, false, if◌then◌else◌, arith, ◌≡◌, ◌≤◌, ◌⊎◌, refl, ap, ◌∙◌, true, inl, inr, Bool-cases,
  String,
}
use flying_shuttle.Export.{is_slug_char, is_gap, slug, slugify}

-- A small letter from a to z, a digit or a dash.
abbrev IsSlugChar : Char → Type 0
IsSlugChar c = ((97 ≤ code c) × (code c ≤ 122)) ⊎ (((48 ≤ code c) × (code c ≤ 57)) ⊎ (code c ≡ 45))

is_slug_char-IsSlugChar : (c : Char) → is_slug_char c ≡ true → IsSlugChar c
is_slug_char-IsSlugChar c h = ground arith

IsSlugChar-is_slug_char : (c : Char) → IsSlugChar c → is_slug_char c ≡ true
IsSlugChar-is_slug_char c h = ground arith

-- A text of small letters, digits and dashes.
abbrev pub IsSlug : String → Type 0
IsSlug String.[] = Unit
IsSlug (String.◌∷◌ c s) = IsSlugChar c × IsSlug s

slug-IsSlug : (s : String) → IsSlug (slug s)
unfolding slug
slug-IsSlug String.[] = tt
slug-IsSlug (String.◌∷◌ c s) = elim (Bool-cases (is_slug_char c)) [
  | inl e ↦ rw e (is_slug_char-IsSlugChar c e, slug-IsSlug s)
  | inr e ↦ rw e (elim (Bool-cases (is_gap c)) [
    | inl g ↦ rw g (dash (slug s) (slug-IsSlug s))
    | inr g ↦ rw g (slug-IsSlug s)
  ])
]
  where
    dash : (t : String) → IsSlug t → IsSlug ("-" ++ˢ t)
    dash t h = rw (cons-append "-" "" t, nil-append t) (inr (inr refl), h)

slug_idem : (s : String) → IsSlug s → slug s ≡ s
unfolding slug
slug_idem String.[] h = refl
slug_idem (String.◌∷◌ c s) h =
    rw (IsSlugChar-is_slug_char c h.0) (ap (λ t. String.◌∷◌ c t) (slug_idem s h.1))

-- A text of small letters, digits, dashes, spaces and underscores.
abbrev pub IsPlain : String → Type 0
IsPlain String.[] = Unit
IsPlain (String.◌∷◌ c s) = (IsSlugChar c ⊎ ((code c ≡ 32) ⊎ (code c ≡ 95))) × IsPlain s

IsSlug-IsPlain : (s : String) → IsSlug s → IsPlain s
IsSlug-IsPlain String.[] h = tt
IsSlug-IsPlain (String.◌∷◌ c s) h = (inl h.0, IsSlug-IsPlain s h.1)

-- The text with a dash for each space and underscore.
abbrev pub dashed : String → String
dashed String.[] = String.[]
dashed (String.◌∷◌ c s) =
    let rest = dashed s in
    if nat_eq (code c) 32
    then "-" ++ˢ rest
    else if nat_eq (code c) 95
    then "-" ++ˢ rest
    else String.◌∷◌ c rest

slug-dashed : (s : String) → IsPlain s → slug s ≡ dashed s
unfolding slug
slug-dashed String.[] h = refl
slug-dashed (String.◌∷◌ c s) h = elim (Bool-cases (nat_eq (code c) 32)) [
  | inl e ↦
      let k : is_slug_char c ≡ false = (ground arith) in
      rw (k, e) (ap (λ t. "-" ++ˢ t) (slug-dashed s h.1))
  | inr e ↦ elim (Bool-cases (nat_eq (code c) 95)) [
    | inl u ↦
        let k : is_slug_char c ≡ false = (ground arith) in
        rw (k, e, u) (ap (λ t. "-" ++ˢ t) (slug-dashed s h.1))
    | inr u ↦
        let k : is_slug_char c ≡ true = (left h.0 e u) in
        rw (k, e, u) (ap (λ t. String.◌∷◌ c t) (slug-dashed s h.1))
  ]
]
  where
    left :
        IsSlugChar c ⊎ ((code c ≡ 32) ⊎ (code c ≡ 95))
        → nat_eq (code c) 32 ≡ false
        → nat_eq (code c) 95 ≡ false
        → is_slug_char c ≡ true
    left (inl p) e u = IsSlugChar-is_slug_char c p
    left (inr p) e u = absurd (ground arith)

-- Where ToLower leaves a text of small letters, digits, dashes, spaces and underscores as it is:
-- Slugify of any text is a text of small letters, digits and dashes, slugifying it again changes
-- nothing, and Slugify of a text of small letters, digits, dashes, spaces and underscores is that
-- text with a dash for each space and underscore.
pub slugify_lem :
    (to_lower : String → String)
    → ((s : String) → IsPlain s → to_lower s ≡ s)
    → (s t : String) → IsPlain t
    → IsSlug (slugify to_lower s)
      × (slugify to_lower (slugify to_lower s) ≡ slugify to_lower s)
      × (slugify to_lower t ≡ dashed t)
unfolding slugify
slugify_lem to_lower lower s t plain =
    let h = slug-IsSlug (to_lower s) in
    (
      h,
      ap slug (lower (slug (to_lower s)) (IsSlug-IsPlain (slug (to_lower s)) h))
          ∙ slug_idem (slug (to_lower s)) h,
      ap slug (lower t plain) ∙ slug-dashed t plain,
    )
