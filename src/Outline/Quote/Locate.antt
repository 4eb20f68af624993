-- ===== src/Outline/Quote/Locate.antt =====
-- What the excerpt of AttachEvidence (internal/outline/service.go) has to do with its chunk.
use flying_shuttle.Prelude.{
  ℕ, String, ◌≤◌, ◌<◌, ◌≡◌, ◌⊎◌, refl, ap, sym, ◌∙◌, true, false, inl, inr, Bool-cases, none,
  Option-cases, length, arith,
}
use flying_shuttle.Prelude.Int.{ℤ, pos, negsuc, leb_ℤ, ltb_ℤ}
use flying_shuttle.Text.{is_empty, trim_space}
use flying_shuttle.Text.Runes.Slices.{of_runes-runes, slice-all}
use flying_shuttle.Text.Runes.{runes, of_runes, slice}
use flying_shuttle.Outline.Quote.{
  Excerpt, whole, canonical, degenerate, resolve_excerpt, locate_selection,
}

-- The text of the excerpt is what stands in the chunk between its offsets.
pub record Agrees (content : String) (x : Excerpt) : Type 0 where
  pub from : ℕ
  pub to : ℕ
  pub start_is : x.char_start ≡ pos from
  pub end_is : x.char_end ≡ pos to
  pub ordered : from ≤ to
  pub within : to ≤ length (runes content)
  pub text_is : x.text ≡ of_runes (slice from to (runes content))

whole-Agrees : (content : String) → Agrees content (whole content)
whole-Agrees content = record {
  from = 0;
  to = length (runes content);
  start_is = refl;
  end_is = refl;
  ordered = omega arith;
  within = omega arith;
  text_is = sym (ap of_runes (slice-all (runes content)) ∙ of_runes-runes content);
}

-- Offsets that are not degenerate are in order and within the chunk.
in_bounds :
    (content : String) (x : Excerpt)
    → degenerate content x ≡ false
    → (from to : ℕ) × (x.char_start ≡ pos from)
      × (x.char_end ≡ pos to)
      × (from < to)
      × (to ≤ length (runes content))
unfolding degenerate
in_bounds content x h =
    go x.char_start x.char_end (ground (arith, h)) (ground (arith, h)) (ground (arith, h))
  where
    go :
        (s e : ℤ)
        → leb_ℤ e s ≡ false
        → ltb_ℤ s (pos 0) ≡ false
        → ltb_ℤ (pos (length (runes content))) e ≡ false
        → (from to : ℕ) × (s ≡ pos from)
          × (e ≡ pos to)
          × (from < to)
          × (to ≤ length (runes content))
    go (pos s) (pos e) p q r = (s, e, refl, refl, ground arith, ground arith)
    go (pos s) (negsuc e) p q r = absurd (ground arith)
    go (negsuc s) e p q r = absurd (ground arith)

-- The excerpt that AttachEvidence stores is in order and within the chunk and its text is what stands
-- there between its offsets, except where the request is stored as it came: then its text is blank or
-- was not found in the chunk.
pub resolve_excerpt-Agrees :
    (content : String) (x : Excerpt)
    → Agrees content (resolve_excerpt content x)
      ⊎ ((resolve_excerpt content x ≡ x)
          × ((is_empty (trim_space x.text) ≡ true) ⊎ (locate_selection content x.text ≡ none)))
unfolding resolve_excerpt canonical
resolve_excerpt-Agrees content x = elim (Bool-cases (degenerate content (canonical content x))) [
  | inl t ↦ inl (rw t (whole-Agrees content))
  | inr f ↦ rw f (elim (Bool-cases (is_empty (trim_space x.text))) [
    | inl b ↦ inr (rw b, inl b)
    | inr b ↦ elim (Option-cases (locate_selection content x.text)) [
      | inl n ↦ inr (rw (n, b), inr n)
      | inr ((s, e), l) ↦
          let found : Excerpt = record {
            char_start = pos s;
            char_end = pos e;
            text = of_runes (slice s e (runes content));
          } in
          let ok_bounds : degenerate content found ≡ false = (rw (l, b) at f) in
          inl (rw (l, b) (located s e (in_bounds content found ok_bounds)))
    ]
  ])
]
  where
    located :
        (s e : ℕ)
        → (from to : ℕ) × (pos s ≡ pos from)
          × (pos e ≡ pos to)
          × (from < to)
          × (to ≤ length (runes content))
        → Agrees content (record {
          char_start = pos s;
          char_end = pos e;
          text = of_runes (slice s e (runes content));
        })
    located s e (from, to, p, q, lt, le) = record {
      from = s;
      to = e;
      start_is = refl;
      end_is = refl;
      ordered = ground arith;
      within = ground arith;
      text_is = refl;
    }
