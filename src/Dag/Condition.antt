-- ===== src/Dag/Condition.antt =====
-- internal/dag/condition.go: the conditions on edges.
use flying_shuttle.Prelude.{
  String, Bool, true, false, not, Option, none, some, List, [], ◌∷◌, any, ◌==◌, if◌then◌else◌,
}
use flying_shuttle.Text.{is_empty, trim_space, strip_prefix, strip_last, cut}

-- The read nodes are those whose entry in the map is true; a missing label reads as "".
pub record EvalContext : Type 0 where
  pub audience : String
  pub read_nodes : List String
  pub labels : List (String × String)

-- A nil context.
abbrev pub no_context : EvalContext
no_context = record { audience = ""; read_nodes = []; labels = [] }

abbrev pub member : String → List String → Bool
member id ids = any (λ j. j == id) ids

unfoldable pub label : String → List (String × String) → String
label key [] = ""
label key ((k, v) ∷ rest) = let other = label key rest in if k == key then v else other

-- has_read(id), after the "!" has been taken off.
unfoldable pub has_read_id : String → Option String
unfolding strip_prefix strip_last trim_space
has_read_id expr = elim (strip_prefix "has_read(" expr) [
  | none ↦ none
  | some rest ↦ elim (strip_last ")" rest) [ none ↦ none | some id ↦ some (trim_space id) ]
]

-- The expression after a leading "!", and whether there was one.
unfoldable pub negation : String → Bool × String
unfolding strip_prefix
negation cond = elim (strip_prefix "!" cond) [ none ↦ (false, cond) | some rest ↦ (true, rest) ]

-- `equal_fold` is strings.EqualFold, comparison up to Unicode's simple case folding.
module _ (equal_fold : String → String → Bool) where
  -- label.key==value, and else any condition holds.
  unfoldable pub eval_label : String → EvalContext → Bool
  unfolding strip_prefix cut label
  eval_label cond ctx = elim (strip_prefix "label." cond) [
    | none ↦ true
    | some rest ↦ elim (cut "==" rest) [
      | none ↦ true
      | some (key, val) ↦ label key ctx.labels == val
    ]
  ]

  -- audience==value and audience!=value.
  unfoldable pub eval_audience : String → EvalContext → Bool
  unfolding strip_prefix trim_space eval_label
  eval_audience cond ctx = elim (strip_prefix "audience==" cond) [
    | some val ↦ equal_fold ctx.audience (trim_space val)
    | none ↦ elim (strip_prefix "audience!=" cond) [
      | some val ↦ not (equal_fold ctx.audience (trim_space val))
      | none ↦ eval_label cond ctx
    ]
  ]

  unfoldable pub eval_trimmed : String → EvalContext → Bool
  unfolding has_read_id negation eval_audience
  eval_trimmed cond ctx =
      if is_empty cond
      then true
      else let (negated, expr) = negation cond in
        elim (has_read_id expr) [
          | some id ↦ if negated then not (member id ctx.read_nodes) else member id ctx.read_nodes
          | none ↦ eval_audience cond ctx
        ]

  -- EvalCondition
  unfoldable pub eval_condition : String → EvalContext → Bool
  unfolding eval_trimmed trim_space
  eval_condition cond ctx = eval_trimmed (trim_space cond) ctx
