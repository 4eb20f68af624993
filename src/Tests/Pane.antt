-- ===== src/Tests/Pane.antt =====
-- The theorem of the evidence pane at concrete renders.
use flying_shuttle.Prelude.{ℕ, ◌≡◌, refl, List, [], ◌∷◌, String, All, map}
use flying_shuttle.Prelude.Int.{pos}
use flying_shuttle.Prelude.Sort.{sort_by}
use flying_shuttle.Web.Stability.{Candidate, stabilize}
use flying_shuttle.Web.Steady.{ShownBefore, ranked, stabilize-SameShown}

abbrev card : String → String → ℕ → Candidate ℕ
card id snippet score = record {
  chunk_id = id;
  source_file = "a.txt";
  speaker = "";
  snippet = snippet;
  segments = [];
  full = [];
  full_sentences = [];
  focus_start = pos 0;
  focus_end = pos 0;
  score = score;
  match = "keyword";
  score_norm = 1;
  summary = "";
}

-- The same two chunks, ranked the other way round by a longer query.
abbrev before : List (Candidate ℕ)
before = card "p" "one" 9 ∷ card "q" "two" 5 ∷ []

abbrev after : List (Candidate ℕ)
after = card "q" "two more" 8 ∷ card "p" "one more" 7 ∷ []

stabilize-SameShown_example :
    (map ranked (stabilize "n" after (stabilize "n" before []).1).0 ≡ map ranked after)
    × All
        (ShownBefore (stabilize "n" before []).0)
        (stabilize "n" after (stabilize "n" before []).1).0
unfolding sort_by
stabilize-SameShown_example = stabilize-SameShown "n" before after [] refl refl refl
