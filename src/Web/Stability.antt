-- ===== src/Web/Stability.antt =====
-- internal/web/evidence_stability.go: the snippets of the evidence pane while the writer types. The mutex
-- makes every call run alone. The scores are floating-point numbers that nothing here computes with.
use flying_shuttle.Prelude.{
  true, false, Bool, ◌||◌, Option, none, some, String, List, [], ◌∷◌, map, length, nat_eq, ◌==◌,
  if◌then◌else◌,
}
use flying_shuttle.Prelude.Int.{ℤ}
use flying_shuttle.Prelude.Sort.{sort_by}
use flying_shuttle.Text.{is_empty}
use flying_shuttle.Text.Runes.{join}
use flying_shuttle.Outline.Tree.{id_leb}

pub record SnippetSeg : Type 0 where
  pub text : String
  pub mark : Bool

module _ (Float : Type 0) where
  pub record ShadedSentence : Type 0 where
    pub segments : List SnippetSeg
    pub score : Float

  pub record Candidate : Type 0 where
    pub chunk_id : String
    pub source_file : String
    pub speaker : String
    pub snippet : String
    pub segments : List SnippetSeg
    pub full : List SnippetSeg
    pub full_sentences : List ShadedSentence
    pub focus_start : ℤ
    pub focus_end : ℤ
    pub score : Float
    pub match : String
    pub score_norm : Float
    pub summary : String

  pub record StableEntry : Type 0 where
    pub sig : String
    pub cands : List Candidate

  -- byNode
  abbrev pub Stability : Type 0
  Stability = List (String × StableEntry)

module _ {Float : Type 0} where
  unfoldable pub candidate_sig : List (Candidate Float) → String
  candidate_sig cands = join "|" (sort_by id_leb (map (λ c. c.chunk_id) cands))

  -- s.byNode[node]
  unfoldable pub entry_of : String → Stability Float → Option (StableEntry Float)
  entry_of node [] = none
  entry_of node (kv ∷ rest) = elim (kv.0 == node) [ true ↦ some kv.1 | false ↦ entry_of node rest ]

  -- s.byNode[node] = e
  unfoldable pub set_entry : String → StableEntry Float → Stability Float → Stability Float
  set_entry node e [] = (node, e) ∷ []
  set_entry node e (kv ∷ rest) = elim (kv.0 == node) [
    | true ↦ (node, e) ∷ rest
    | false ↦ kv ∷ set_entry node e rest
  ]

  -- prevByChunk[id]: a later candidate of the same chunk replaces an earlier one.
  unfoldable pub prev_by_chunk :
      String → Option (Candidate Float) → List (Candidate Float) → Option (Candidate Float)
  prev_by_chunk id found [] = found
  prev_by_chunk id found (c ∷ cs) = prev_by_chunk id (if c.chunk_id == id then some c else found) cs

  abbrev pub shown_as : Candidate Float → Candidate Float → Candidate Float
  shown_as old c = record c {
    snippet = old.snippet;
    segments = old.segments;
    full = old.full;
    full_sentences = old.full_sentences;
    focus_start = old.focus_start;
    focus_end = old.focus_end;
  }

  unfoldable pub carry : List (Candidate Float) → Candidate Float → Candidate Float
  unfolding prev_by_chunk
  carry prev c = elim (prev_by_chunk c.chunk_id none prev) [ none ↦ c | some old ↦ shown_as old c ]

  -- The candidates to render, and the cache after it.
  unfoldable pub refresh :
      String
      → List (Candidate Float)
      → Option (StableEntry Float)
      → Stability Float
      → List (Candidate Float) × Stability Float
  unfolding carry set_entry candidate_sig
  refresh node fresh entry s = elim entry [
    | none ↦ (fresh, set_entry node (record { sig = candidate_sig fresh; cands = fresh }) s)
    | some prev ↦
        if prev.sig == candidate_sig fresh
        then (let out = map (carry prev.cands) fresh in
            (out, set_entry node (record { sig = candidate_sig fresh; cands = out }) s))
        else (fresh, set_entry node (record { sig = candidate_sig fresh; cands = fresh }) s)
  ]

  unfoldable pub stabilize :
      String → List (Candidate Float) → Stability Float → List (Candidate Float) × Stability Float
  unfolding refresh entry_of
  stabilize node fresh s =
      if is_empty node || nat_eq (length fresh) 0
      then (fresh, s)
      else refresh node fresh (entry_of node s) s
