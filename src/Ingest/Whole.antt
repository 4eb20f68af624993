-- ===== src/Ingest/Whole.antt =====
-- splitSentences of internal/ingest/transcript.go loses no text.
use Prim.Native.String.{◌++◌ as ◌++ˢ◌}
use text.Mathlib.TextLemmas.{nil-append, cons-append, append-nil, append_assoc}
use flying_shuttle.Prelude.{
  ◌≡◌, refl, sym, ap, ◌∙◌, inl, inr, Bool-cases, String, ◌&&◌, List, eq_iff,
}
use flying_shuttle.Text.{is_empty, trim_space, concat}
use flying_shuttle.Ingest.Sentences.{is_stop, blank_next, sentences_from, split_sentences}

-- The texts are all of the text but a blank end.
abbrev IsAll : List String → String → Type 0
IsAll parts text = (end : String) × (concat parts ++ˢ end ≡ text) × (trim_space end ≡ "")

trim_space-nil : trim_space "" ≡ ""
unfolding trim_space
trim_space-nil = refl

sentences_from-IsAll : (b s : String) → IsAll (sentences_from b s) (b ++ˢ s)
unfolding sentences_from concat
sentences_from-IsAll b String.[] = elim (Bool-cases (is_empty (trim_space b))) [
  | inl e ↦ rw e (b, nil-append b ∙ sym (append-nil b), (eq_iff (trim_space b) "").0 e)
  | inr e ↦ rw e ("", append-nil (b ++ˢ ""), trim_space-nil)
]
sentences_from-IsAll b (String.◌∷◌ c s) =
    let b' = b ++ˢ String.◌∷◌ c String.[] in
    let whole : b' ++ˢ s ≡ b ++ˢ String.◌∷◌ c s =
      append_assoc b (String.◌∷◌ c String.[]) s
      ∙ ap (λ t. b ++ˢ t) (cons-append c "" s ∙ ap (λ t. String.◌∷◌ c t) (nil-append s)) in
    elim (Bool-cases (is_stop c && blank_next s)) [
      | inl e ↦
          let (end, all, blank) = sentences_from-IsAll String.[] s in
          rw e (end, append_assoc b' _ end ∙ ap (λ t. b' ++ˢ t) (all ∙ nil-append s) ∙ whole, blank)
      | inr e ↦ let (end, all, blank) = sentences_from-IsAll b' s in rw e (end, all ∙ whole, blank)
    ]

-- The sentences of a text that is valid UTF-8, one after another and followed by a blank text, are
-- the text that was split.
pub split_sentences_lem :
    (text : String)
    → (end : String) × (concat (split_sentences text) ++ˢ end ≡ text) × (trim_space end ≡ "")
unfolding split_sentences
split_sentences_lem text =
    let (end, all, blank) = sentences_from-IsAll String.[] text in
    (end, all ∙ nil-append text, blank)
