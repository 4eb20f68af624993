-- ===== src/Export.antt =====
-- internal/export/markdown.go: the manuscript as a Markdown document. `to_lower` is strings.ToLower.
pub mod Slug
use Prim.Native.Char.{Char, code}
use Prim.Native.String
use Prim.Native.String.{◌++◌ as ◌++ˢ◌}
use flying_shuttle.Prelude.{
  ℕ, suc, String, Bool, true, false, not, ◌&&◌, ◌||◌, Option, none, some, List, [], ◌∷◌, select,
  leb, nat_eq, ◌==◌, if◌then◌else◌,
}
use flying_shuttle.Prelude.Int.{ℤ}
use flying_shuttle.Prelude.Result.{Result, ok, err, ◌>>=◌}
use flying_shuttle.Text.{is_empty, trim_space, show_ℕ}
use flying_shuttle.Model.{Node, Edge, EdgeType, linear, branch, jump, is_linear}
use flying_shuttle.Stitch.{Span, chunk, glue, Request, Stitched}
use flying_shuttle.Doc.Db.{Db}
use flying_shuttle.Doc.Edges.{list_edges}
use flying_shuttle.Dag.Linearize.{LinearizeResult, thread, manuscript, linearize_and_stitch}

abbrev pub is_slug_char : Char → Bool
is_slug_char c =
    (leb b'a' (code c) && leb (code c) b'z')
    || ((leb b'0' (code c) && leb (code c) b'9') || nat_eq (code c) b'-')

abbrev pub is_gap : Char → Bool
is_gap c = nat_eq (code c) b' ' || nat_eq (code c) b'_'

-- strings.Map with the function of Slugify.
unfoldable pub slug : String → String
slug String.[] = String.[]
slug (String.◌∷◌ c s) =
    let rest = slug s in
    if is_slug_char c then String.◌∷◌ c rest else if is_gap c then "-" ++ˢ rest else rest

abbrev pub is_exit : EdgeType → Bool
is_exit t = not (is_linear t)

-- exitMap[id]
unfoldable pub exits_of : String → List Edge → List Edge
exits_of id edges = select (λ e. is_exit e.type && (e.from_node == id)) edges

-- titleMap[id], where a later node of the same id replaces an earlier one.
unfoldable pub title_of : String → String → List Node → String
title_of id title [] = title
title_of id title (n ∷ ns) = title_of id (if n.id == id then n.title else title) ns

unfoldable pub spans_text : List Span → String
spans_text [] = ""
spans_text (s ∷ ss) =
    (elim s.type [ glue ↦ "*" ++ˢ (trim_space s.text ++ˢ "* ") | chunk ↦ s.text ]) ++ˢ spans_text ss

abbrev pub body_text : List Span → String
body_text [] = ""
body_text (s ∷ ss) = "---\n\n" ++ˢ (spans_text (s ∷ ss) ++ˢ "\n\n")

abbrev pub condition_text : Option String → String
condition_text none = ""
condition_text (some c) = if is_empty c then "" else " *(if " ++ˢ (c ++ˢ ")*")

abbrev pub exit_mark : EdgeType → String
exit_mark linear = ""
exit_mark branch = "→ "
exit_mark jump = ""

module _ (to_lower : String → String) where
  unfoldable pub slugify : String → String
  unfolding slug
  slugify s = slug (to_lower s)

  -- The section of the node at the place i.
  unfoldable pub sections : ℕ → List Node → String
  unfolding slugify
  sections i [] = ""
  sections i (n ∷ ns) =
      "<a id=\""
      ++ˢ (slugify n.id
          ++ˢ ("\"></a>\n\n## "
              ++ˢ ((if is_empty n.title then "Section " ++ˢ show_ℕ (suc i) else n.title)
                  ++ˢ ("\n\n" ++ˢ sections (suc i) ns))))

  unfoldable pub exit_link : List Node → Edge → String
  unfolding slugify title_of
  exit_link nodes e =
      let title = title_of e.to_node "" nodes in
      let target = if is_empty title then e.to_node else title in
      "- ["
      ++ˢ (exit_mark e.type
          ++ˢ (target
              ++ˢ (condition_text e.condition ++ˢ ("](#" ++ˢ (slugify e.to_node ++ˢ ")\n")))))

  unfoldable pub exit_links : List Node → List Edge → String
  unfolding exit_link
  exit_links nodes [] = "\n"
  exit_links nodes (e ∷ es) = exit_link nodes e ++ˢ exit_links nodes es

  -- `has_exits` says that the heading stands already.
  unfoldable pub navigation : List Node → List Edge → Bool → List Node → String
  unfolding exit_links exits_of
  navigation nodes edges has_exits [] = ""
  navigation nodes edges has_exits (n ∷ ns) = elim (exits_of n.id edges) [
    | [] ↦ navigation nodes edges has_exits ns
    | e ∷ es ↦
        (if has_exits then "" else "---\n\n### Navigation\n\n")
        ++ˢ ("**From "
            ++ˢ (n.title
                ++ˢ (":**\n\n" ++ˢ (exit_links nodes (e ∷ es) ++ˢ navigation nodes edges true ns))))
  ]

  unfoldable pub to_markdown : LinearizeResult → String → List Edge → String
  unfolding sections spans_text navigation
  to_markdown result title edges =
      (if is_empty title then "" else "# " ++ˢ (title ++ˢ "\n\n"))
      ++ˢ (sections 0 result.nodes
          ++ˢ (body_text result.stitch.spans ++ˢ navigation result.nodes edges false result.nodes))

  unfoldable pub generate_markdown :
      (Request → Result Stitched) → Db → String → ℤ → String → Result String
  unfolding to_markdown
  generate_markdown stitch db thread_id glue_level title =
      linearize_and_stitch stitch db (record {
        mode = if is_empty thread_id then manuscript else thread;
        thread_id = thread_id;
        glue_level = glue_level;
      })
      >>= λ result. ok (to_markdown result title (list_edges db))
