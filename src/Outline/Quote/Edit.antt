-- ===== src/Outline/Quote/Edit.antt =====
-- What EditQuote (internal/outline/service.go) keeps of the agreement of a quote with its chunk.
use flying_shuttle.Prelude.{
  ℕ, zero, suc, String, ◌+◌, ◌-◌, ◌≤◌, ◌<◌, ◌≡◌, ◌⊎◌, refl, ap, sym, ◌∙◌, true, false, inl, inr,
  Bool-cases, Option, none, some, List, [], length, take, drop, arith, ◌||◌, leb, if◌then◌else◌,
  ◌==◌, nat_eq, subst,
}
use Prim.Native.Char.{Char}
use text.Mathlib.TextLemmas.{nil-append}
use Prim.Native.String.{◌++◌ as ◌++ˢ◌}
use flying_shuttle.Prelude.Int.{ℤ, pos, pos_part, ◌+ℤ◌}
use flying_shuttle.Text.{is_empty, trim_space}
use flying_shuttle.Text.Runes.Slices.{
  runes-of_runes, slice-slice, length-slice, slice-rest, slice-front,
}
use flying_shuttle.Text.Runes.{runes, of_runes, slice}
use flying_shuttle.Outline.Quote.{
  Excerpt, QuoteOp, trim, splice, other, edited, effective, edit_excerpt,
}
use flying_shuttle.Outline.Quote.Locate.{Agrees}

pos-sum : (a b : ℕ) → pos a +ℤ pos b ≡ pos (a + b)
unfolding ◌+ℤ◌
pos-sum a b = ground arith

some-injective : {A : Type 0} {a b : A} → some a ≡ some b → a ≡ b
some-injective h = cc h

effective-some :
    (old : String) (o : Option Excerpt) (y : Excerpt) → effective old o ≡ some y → o ≡ some y
unfolding effective
effective-some old none y h = h
effective-some old (some z) y h =
    elim (Bool-cases (is_empty (trim_space z.text) || z.text == old)) [
      | inl t ↦ absurd (cc (rw t at h))
      | inr f ↦ (rw f at h)
    ]

module _ (content : String) (x : Excerpt) (agrees : Agrees content x) where
  runes_are : runes x.text ≡ slice agrees.from agrees.to (runes content)
  runes_are = ap runes agrees.text_is ∙ runes-of_runes (slice agrees.from agrees.to (runes content))

  runes_count : length (runes x.text) ≡ agrees.to - agrees.from
  runes_count =
      ap length runes_are ∙ length-slice agrees.from agrees.to (runes content) agrees.within

  -- A part of an excerpt that agrees with its chunk agrees with it.
  part-Agrees :
      (a b : ℕ) (y : Excerpt)
      → a ≤ b
      → b ≤ length (runes x.text)
      → y.char_start ≡ pos (agrees.from + a)
      → y.char_end ≡ pos (agrees.from + b)
      → y.text ≡ of_runes (slice a b (runes x.text))
      → Agrees content y
  part-Agrees a b y ab bl s e t = record {
    from = agrees.from + a;
    to = agrees.from + b;
    start_is = s;
    end_is = e;
    ordered = omega (arith, ab);
    within = omega (arith, agrees.within, bl, runes_count, agrees.ordered);
    text_is =
        t
        ∙ ap (λ cs. of_runes (slice a b cs)) runes_are
        ∙ ap of_runes (
            slice-slice agrees.from agrees.to a b (runes content) (omega (arith, bl, runes_count)));
  }

  shifted : (a : ℕ) → x.char_start +ℤ pos a ≡ pos (agrees.from + a)
  shifted a = rw (agrees.start_is) (pos-sum agrees.from a)

  trim-Agrees :
      (lo hi : ℕ) (y : Excerpt)
      → lo < hi
      → hi ≤ length (runes x.text)
      → edited trim lo hi x ≡ some y
      → Agrees content y
  unfolding edited
  trim-Agrees lo hi y lt le h =
      subst (Agrees content) some_injective
        (part-Agrees lo hi kept (omega (arith, lt)) le (shifted lo) end_is refl)
    where
      part : List Char
      part = slice lo hi (runes x.text)

      kept : Excerpt
      kept = record {
        char_start = x.char_start +ℤ pos lo;
        char_end = x.char_start +ℤ pos lo +ℤ pos (length part);
        text = of_runes part;
      }

      some_injective : kept ≡ y
      some_injective = cc h

      end_is : x.char_start +ℤ pos lo +ℤ pos (length part) ≡ pos (agrees.from + hi)
      end_is =
          rw (shifted lo, length-slice lo hi (runes x.text) le)
            (pos-sum (agrees.from + lo) (hi - lo) ∙ ap pos (omega (arith, lt)))

  splice_front-Agrees :
      (hi : ℕ) (y : Excerpt)
      → hi ≤ length (runes x.text)
      → edited splice 0 hi x ≡ some y
      → Agrees content y
  unfolding edited
  splice_front-Agrees hi y le h =
      subst (Agrees content) same
        (part-Agrees hi (length (runes x.text)) kept le (omega arith) (shifted hi) end_is text_is)
    where
      kept : Excerpt
      kept = record {
        char_start = x.char_start +ℤ pos hi;
        char_end = x.char_end;
        text = of_runes [] ++ˢ of_runes (drop hi (runes x.text));
      }

      same : kept ≡ y
      same = some-injective h

      end_is : x.char_end ≡ pos (agrees.from + length (runes x.text))
      end_is = agrees.end_is ∙ ap pos (omega (arith, runes_count, agrees.ordered))

      text_is : kept.text ≡ of_runes (slice hi (length (runes x.text)) (runes x.text))
      text_is = nil-append _ ∙ ap of_runes (slice-rest hi (runes x.text))

  splice_back-Agrees :
      (lo : ℕ) (y : Excerpt)
      → 0 < lo
      → lo ≤ length (runes x.text)
      → edited splice lo (length (runes x.text)) x ≡ some y
      → Agrees content y
  unfolding edited
  splice_back-Agrees lo y lt le h =
      subst (Agrees content) same
        (part-Agrees 0 lo kept (omega arith) le start_is (shifted lo) text_is)
    where
      kept : Excerpt
      kept = record {
        char_start = x.char_start;
        char_end = x.char_start +ℤ pos lo;
        text =
            of_runes (take lo (runes x.text))
            ++ˢ of_runes (drop (length (runes x.text)) (runes x.text));
      }

      positive : nat_eq lo 0 ≡ false
      positive = ground (arith, lt)

      at_end : nat_eq (length (runes x.text)) (length (runes x.text)) ≡ true
      at_end = ground arith

      result : edited splice lo (length (runes x.text)) x ≡ some kept
      result = rw (positive, at_end)

      same : kept ≡ y
      same = some-injective (sym result ∙ h)

      start_is : x.char_start ≡ pos (agrees.from + 0)
      start_is = agrees.start_is ∙ ap pos (omega arith)

      text_is : kept.text ≡ of_runes (slice 0 lo (runes x.text))
      text_is = slice-front lo (runes x.text)

  edited-Agrees :
      (op : QuoteOp) (lo hi : ℕ) (y : Excerpt)
      → lo < hi
      → hi ≤ length (runes x.text)
      → edited op lo hi x ≡ some y
      → Agrees content y ⊎ ((op ≡ splice) × (0 < lo) × (hi < length (runes x.text)))
  unfolding edited
  edited-Agrees trim lo hi y lt le h = inl (trim-Agrees lo hi y lt le h)
  edited-Agrees splice zero hi y lt le h = inl (splice_front-Agrees hi y le h)
  edited-Agrees splice (suc lo) hi y lt le h =
      elim (Bool-cases (nat_eq hi (length (runes x.text)))) [
        | inl e ↦
            let end : hi ≡ length (runes x.text) = ground arith in
            inl (
              splice_back-Agrees (suc lo) y (omega arith) (omega (arith, lt, le))
                (subst (λ k. edited splice (suc lo) k x ≡ some y) end h))
        | inr n ↦ inr (refl, omega arith, ground (arith, le, n))
      ]
  edited-Agrees other lo hi y lt le h = absurd (cc h)

-- An edit of a quote that agrees with its chunk gives one that agrees with it, unless it removes a part
-- from the middle of the quote.
pub edit_excerpt-Agrees :
    (op : QuoteOp) (start end : ℤ) (content : String) (x y : Excerpt)
    → Agrees content x
    → edit_excerpt op start end x ≡ some y
    → Agrees content y
      ⊎ ((op ≡ splice) × (0 < pos_part start) × (pos_part end < length (runes x.text)))
unfolding edit_excerpt
edit_excerpt-Agrees op start end content x y agrees h = elim (Bool-cases (leb hi lo)) [
  | inl t ↦ absurd (cc (rw t at h))
  | inr f ↦
      let made = effective-some x.text (edited op lo hi x) y (rw f at h) in
      elim (edited-Agrees content x agrees op lo hi y (ground (arith, f)) (ground arith) made) [
        | inl a ↦ inl a
        | inr (s, l, e) ↦ inr (s, l, ground (arith, e))
      ]
]
  where
    lo : ℕ
    lo = pos_part start

    hi : ℕ
    hi = if leb (pos_part end) (length (runes x.text)) then pos_part end else length (runes x.text)
