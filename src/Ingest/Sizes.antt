-- ===== src/Ingest/Sizes.antt =====
-- What ChunkTranscript of internal/ingest/transcript.go makes of the segments.
use mathlib.Core.List.{append_assoc, append-nil}
use flying_shuttle.Prelude.{
  ℕ, ◌+◌, ◌≤◌, ◌≡◌, refl, subst, sym, ap, ◌∙◌, inl, inr, Bool-cases, String, List, [], ◌∷◌, ◌++◌,
  All, All-append, map, length, leb, arith,
}
use flying_shuttle.Prelude.Int.{pos}
use flying_shuttle.Model.{Chunk, TranscriptSegment}
use flying_shuttle.Text.Runes.{fields, join}
use flying_shuttle.Text.Runes.Join.{
  IsCons, flat, join-flat, word_total, fields-join, word_total-append,
}
use flying_shuttle.Ingest.Chunker.{
  Chunker, start, byte_length, target_chunk_words, next_chunk, flushed, flush, with_text,
  add_segment, add_segments, chunk_transcript,
}

-- The chunks lie one behind the other from the position on, with one byte between two.
abbrev pub IsLaid : ℕ → List Chunk → Type 0
IsLaid p [] = Unit
IsLaid p (c ∷ cs) =
    (c.start_offset ≡ pos p)
    × (c.end_offset ≡ pos (p + byte_length c.content))
    × IsLaid (p + (byte_length c.content + 1)) cs

-- The position behind the chunks.
abbrev behind : ℕ → List Chunk → ℕ
behind p [] = p
behind p (c ∷ cs) = behind (p + (byte_length c.content + 1)) cs

-- All but the last item have the property.
abbrev pub AllButLast {ℓ κ} : {A : Type ℓ} → (A → Type κ) → List A → Type κ
AllButLast P [] = Unit
AllButLast P (x ∷ []) = Unit
AllButLast P (x ∷ (y ∷ ys)) = P x × AllButLast P (y ∷ ys)

module _ {ℓ κ} {A : Type ℓ} (P : A → Type κ) where
  AllButLast-of_All : (xs : List A) → All P xs → AllButLast P xs
  AllButLast-of_All [] h = tt
  AllButLast-of_All (x ∷ []) h = tt
  AllButLast-of_All (x ∷ (y ∷ ys)) h = (h.0, AllButLast-of_All (y ∷ ys) h.1)

  AllButLast-snoc : (xs : List A) (x : A) → All P xs → AllButLast P (xs ++ x ∷ [])
  AllButLast-snoc [] x h = tt
  AllButLast-snoc (y ∷ []) x h = (h.0, tt)
  AllButLast-snoc (y ∷ (z ∷ zs)) x h = (h.0, AllButLast-snoc (z ∷ zs) x h.1)

IsLaid-snoc :
    (p : ℕ) (cs : List Chunk) (c : Chunk)
    → IsLaid p cs
    → IsLaid (behind p cs) (c ∷ [])
    → IsLaid p (cs ++ c ∷ [])
IsLaid-snoc p [] c h k = k
IsLaid-snoc p (d ∷ cs) c h k = (h.0, h.1, IsLaid-snoc (p + (byte_length d.content + 1)) cs c h.2 k)

behind-snoc :
    (p : ℕ) (cs : List Chunk) (c : Chunk)
    → behind p (cs ++ c ∷ []) ≡ behind p cs + (byte_length c.content + 1)
behind-snoc p [] c = refl
behind-snoc p (d ∷ cs) c = behind-snoc (p + (byte_length d.content + 1)) cs c

-- A full chunk has the words that were aimed at.
abbrev pub IsFull : Chunk → Type 0
IsFull c = target_chunk_words ≤ length (fields c.content)

-- The loop, when it has read the texts: the chunks are the joined groups of the texts before `buf`.
record IsChunker (texts : List String) (s : Chunker) : Type 0 where
  groups : List (List String)
  grouped : flat groups ++ s.buf ≡ texts
  joined : map (λ c. c.content) s.chunks ≡ map (join " ") groups
  inhabited : All IsCons groups
  full : All IsFull s.chunks
  counted : s.words ≡ word_total s.buf
  laid : IsLaid 0 s.chunks
  placed : s.position ≡ behind 0 s.chunks

IsChunker-start : IsChunker [] start
IsChunker-start = record {
  groups = [];
  grouped = refl;
  joined = refl;
  inhabited = tt;
  full = tt;
  counted = refl;
  laid = tt;
  placed = refl;
}

with_text-IsChunker :
    (uuid : ℕ → String) (source text : String) (texts : List String) (s : Chunker)
    → IsChunker texts s
    → IsChunker (texts ++ text ∷ []) (with_text uuid source text s)
with_text-IsChunker uuid source text texts s c = record {
  groups = c.groups;
  grouped =
      sym (append_assoc (flat c.groups) s.buf (text ∷ [])) ∙ ap (λ ts. ts ++ text ∷ []) c.grouped;
  joined = c.joined;
  inhabited = c.inhabited;
  full = c.full;
  counted = omega (arith, word_total-append s.buf (text ∷ []), c.counted);
  laid = c.laid;
  placed = c.placed;
}

module _ (uuid : ℕ → String) (source : String) (texts : List String) (s : Chunker)
    (c : IsChunker texts s) where
  IsLaid-flushed : IsLaid 0 (flushed uuid source s).chunks
  IsLaid-flushed =
      IsLaid-snoc 0 s.chunks (next_chunk uuid source s) c.laid
        (ap pos c.placed, ap (λ p. pos (p + byte_length (join " " s.buf))) c.placed, tt)

  grouped-flushed : flat (c.groups ++ s.buf ∷ []) ≡ texts
  grouped-flushed = flat-snoc c.groups ∙ c.grouped
    where
      flat-snoc : (gs : List (List String)) → flat (gs ++ s.buf ∷ []) ≡ flat gs ++ s.buf
      flat-snoc [] = append-nil s.buf
      flat-snoc (g ∷ gs) = ap (λ ts. g ++ ts) (flat-snoc gs) ∙ sym (append_assoc g (flat gs) s.buf)

  joined-flushed :
      map (λ c. c.content) (flushed uuid source s).chunks ≡ map (join " ") (c.groups ++ s.buf ∷ [])
  joined-flushed =
      map-snoc (λ (c : Chunk). c.content) s.chunks (next_chunk uuid source s)
      ∙ ap (λ ts. ts ++ join " " s.buf ∷ []) c.joined
      ∙ sym (map-snoc (join " ") c.groups s.buf)
    where
      map-snoc :
          {A : Type 0} (f : A → String) (xs : List A) (x : A)
          → map f (xs ++ x ∷ []) ≡ map f xs ++ f x ∷ []
      map-snoc f [] x = refl
      map-snoc f (y ∷ xs) x = ap (λ ys. f y ∷ ys) (map-snoc f xs x)

  flushed-IsChunker :
      IsCons s.buf → target_chunk_words ≤ s.words → IsChunker texts (flushed uuid source s)
  flushed-IsChunker some_text enough = record {
    groups = c.groups ++ s.buf ∷ [];
    grouped = append-nil (flat (c.groups ++ s.buf ∷ [])) ∙ grouped-flushed;
    joined = joined-flushed;
    inhabited = All-append IsCons c.groups (s.buf ∷ []) c.inhabited (some_text, tt);
    full =
        All-append IsFull s.chunks (next_chunk uuid source s ∷ []) c.full
          (omega (arith, fields-join s.buf, c.counted, enough), tt);
    counted = refl;
    laid = IsLaid-flushed;
    placed =
        ap (λ p. p + (byte_length (join " " s.buf) + 1)) c.placed
        ∙ sym (behind-snoc 0 s.chunks (next_chunk uuid source s));
  }

  -- The chunks of the last flush, whether it finds texts or not.
  abbrev IsResult : List Chunk → Type 0
  IsResult cs =
      (join " " (map (λ c. c.content) cs) ≡ join " " texts) × IsLaid 0 cs × AllButLast IsFull cs

  flush-IsResult : IsResult (flush uuid source s).chunks
  unfolding flush
  flush-IsResult = go s.buf refl
    where
      go : (buf : List String) → s.buf ≡ buf → IsResult (flush uuid source s).chunks
      go [] e =
          let whole : flat c.groups ≡ texts =
            sym (append-nil (flat c.groups)) ∙ ap (λ b. flat c.groups ++ b) (sym e) ∙ c.grouped in
          rw (flush, e)
            (
              ap (join " ") c.joined ∙ join-flat " " c.groups c.inhabited ∙ ap (join " ") whole,
              c.laid,
              AllButLast-of_All IsFull s.chunks c.full,
            )
      go (t ∷ ts) e =
          let some_text : IsCons s.buf = subst IsCons (sym e) tt in
          rw (flush, e)
            (
              ap (join " ") joined-flushed
                  ∙ join-flat " " (c.groups ++ s.buf ∷ [])
                      (All-append IsCons c.groups (s.buf ∷ []) c.inhabited (some_text, tt))
                  ∙ ap (join " ") grouped-flushed,
              IsLaid-flushed,
              AllButLast-snoc IsFull s.chunks (next_chunk uuid source s) c.full,
            )

IsCons-snoc : (xs : List String) (x : String) → IsCons (xs ++ x ∷ [])
IsCons-snoc [] x = tt
IsCons-snoc (y ∷ ys) x = tt

flush-cons :
    (uuid : ℕ → String) (source : String) (s : Chunker)
    → IsCons s.buf
    → flush uuid source s ≡ flushed uuid source s
unfolding flush
flush-cons uuid source s h = go s.buf h
  where
    go :
        (buf : List String)
        → IsCons buf
        → (elim buf [ [] ↦ s | t ∷ ts ↦ flushed uuid source s ]) ≡ flushed uuid source s
    go [] k = absurd k
    go (t ∷ ts) k = refl

add_segment-IsChunker :
    (uuid : ℕ → String) (source : String) (seg : TranscriptSegment) (texts : List String)
    (s : Chunker)
    → IsChunker texts s
    → IsChunker (texts ++ seg.text ∷ []) (add_segment uuid source seg s)
unfolding add_segment flush
add_segment-IsChunker uuid source seg texts s c =
    let s' = with_text uuid source seg.text s in
    let c' = with_text-IsChunker uuid source seg.text texts s c in
    let more = texts ++ seg.text ∷ [] in
    let some_text = IsCons-snoc s.buf seg.text in
    elim (Bool-cases (leb target_chunk_words s'.words)) [
      | inr e ↦ rw (add_segment, e) c'
      | inl e ↦
          rw (add_segment, e)
            (subst (IsChunker more) (sym (flush-cons uuid source s' some_text))
              (flushed-IsChunker uuid source more s' c' some_text (ground arith)))
    ]

add_segments-IsChunker :
    (uuid : ℕ → String) (source : String) (segs : List TranscriptSegment) (texts : List String)
    (s : Chunker)
    → IsChunker texts s
    → IsChunker (texts ++ map (λ seg. seg.text) segs) (add_segments uuid source segs s)
unfolding add_segments
add_segments-IsChunker uuid source [] texts s c =
    subst (λ ts. IsChunker ts s) (sym (append-nil texts)) c
add_segments-IsChunker uuid source (seg ∷ segs) texts s c =
    subst (λ ts. IsChunker ts (add_segments uuid source segs (add_segment uuid source seg s)))
      (append_assoc texts (seg.text ∷ []) (map (λ g. g.text) segs))
      (add_segments-IsChunker uuid source segs (texts ++ seg.text ∷ [])
        (add_segment uuid source seg s) (add_segment-IsChunker uuid source seg texts s c))

-- The contents of the chunks of a transcript, joined by blanks, are the texts of its segments, joined by
-- blanks; the chunks' offsets lie one behind the other from 0 on, each end the start and the bytes of
-- the content further and each next start one byte behind that; and every chunk but the last has at
-- least 160 words.
pub chunk_transcript_lem :
    (uuid : ℕ → String) (source : String) (segs : List TranscriptSegment)
    → (join " " (map (λ c. c.content) (chunk_transcript uuid source segs))
        ≡ join " " (map (λ seg. seg.text) segs))
      × IsLaid 0 (chunk_transcript uuid source segs)
      × AllButLast IsFull (chunk_transcript uuid source segs)
unfolding chunk_transcript
chunk_transcript_lem uuid source segs =
    flush-IsResult uuid source (map (λ seg. seg.text) segs) (add_segments uuid source segs start)
      (add_segments-IsChunker uuid source segs [] start IsChunker-start)
