-- ===== src/Transcript/Files.antt =====
-- SourceFiles of internal/transcript/transcript.go: the transcripts and how many chunks each has.
use flying_shuttle.Prelude.{
  ℕ, ◌+◌, ◌≡◌, refl, ap, ◌∙◌, false, inl, inr, Bool-cases, String, List, [], ◌∷◌, All, select,
  length, ◌==◌, eq_iff, if◌then◌else◌, arith, Bool,
}
use flying_shuttle.Prelude.Distinct.{Distinct}
use flying_shuttle.Model.{Chunk}

pub record FileSummary : Type 0 where
  pub source_file : String
  pub chunk_count : ℕ

-- One more chunk of the file: `order` and `count` of the loop, as one list.
unfoldable pub tally : String → List FileSummary → List FileSummary
tally f [] = record { source_file = f; chunk_count = 1 } ∷ []
tally f (s ∷ ss) =
    let rest = tally f ss in
    if s.source_file == f then record s { chunk_count = s.chunk_count + 1 } ∷ ss else s ∷ rest

unfoldable pub source_files_from : List FileSummary → List Chunk → List FileSummary
unfolding tally
source_files_from seen [] = seen
source_files_from seen (c ∷ cs) = source_files_from (tally c.source_file seen) cs

unfoldable pub source_files : List Chunk → List FileSummary
unfolding source_files_from
source_files chunks = source_files_from [] chunks

-- The chunks that the summaries count for the file.
abbrev pub counted : String → List FileSummary → ℕ
counted f [] = 0
counted f (s ∷ ss) = (if s.source_file == f then s.chunk_count else 0) + counted f ss

abbrev pub of_file : String → List Chunk → ℕ
of_file f cs = length (select (λ c. c.source_file == f) cs)

abbrev pub same_file : FileSummary → FileSummary → Bool
same_file s t = t.source_file == s.source_file

counted-tally :
    (f g : String) (ss : List FileSummary)
    → counted g (tally f ss) ≡ (if f == g then 1 else 0) + counted g ss
unfolding tally
counted-tally f g [] = refl
counted-tally f g (s ∷ ss) = elim (Bool-cases (s.source_file == f)) [
  | inl e ↦
      let same : (s.source_file == g) ≡ (f == g) =
        ap (λ x. x == g) ((eq_iff s.source_file f).0 e) in
      rw (e, same) (ground arith)
  | inr e ↦ rw e (ground (arith, counted-tally f g ss))
]

tally-Distinct :
    (f : String) (ss : List FileSummary) → Distinct same_file ss → Distinct same_file (tally f ss)
unfolding tally
tally-Distinct f [] d = (tt, tt)
tally-Distinct f (s ∷ ss) d = elim (Bool-cases (s.source_file == f)) [
  | inl e ↦ rw e d
  | inr e ↦ rw e (fresh ss d.0 e, tally-Distinct f ss d.1)
]
  where
    fresh :
        (ts : List FileSummary)
        → All (λ t. same_file s t ≡ false) ts
        → (s.source_file == f) ≡ false
        → All (λ t. same_file s t ≡ false) (tally f ts)
    fresh [] h e = (ground (arith, eq_iff f s.source_file, eq_iff s.source_file f), tt)
    fresh (t ∷ ts) h e = elim (Bool-cases (t.source_file == f)) [
      | inl k ↦ rw k h
      | inr k ↦ rw k (h.0, fresh ts h.1 e)
    ]

source_files_from-counted :
    (seen : List FileSummary) (cs : List Chunk) (f : String)
    → counted f (source_files_from seen cs) ≡ counted f seen + of_file f cs
unfolding source_files_from
source_files_from-counted seen [] f = omega arith
source_files_from-counted seen (c ∷ cs) f =
    source_files_from-counted (tally c.source_file seen) cs f
    ∙ ground (arith, counted-tally c.source_file f seen)

source_files_from-Distinct :
    (seen : List FileSummary) (cs : List Chunk)
    → Distinct same_file seen
    → Distinct same_file (source_files_from seen cs)
unfolding source_files_from
source_files_from-Distinct seen [] d = d
source_files_from-Distinct seen (c ∷ cs) d =
    source_files_from-Distinct (tally c.source_file seen) cs (tally-Distinct c.source_file seen d)

-- SourceFiles names no file twice, and its count for a file, 0 where it does not name it, is the number
-- of the chunks of that file.
pub source_files_lem :
    (cs : List Chunk)
    → Distinct same_file (source_files cs)
      × ((f : String) → counted f (source_files cs) ≡ of_file f cs)
unfolding source_files
source_files_lem cs =
    (source_files_from-Distinct [] cs tt, λ f. source_files_from-counted [] cs f ∙ omega arith)
