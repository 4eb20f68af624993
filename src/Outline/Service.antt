-- ===== src/Outline/Service.antt =====
-- internal/outline/service.go: the edits of the outline editor. Each reads the tree and then calls the
-- store; what an earlier call committed stays if a later one fails.
use flying_shuttle.Prelude.{
  ℕ, zero, suc, String, Bool, true, false, not, Option, none, some, List, [], ◌∷◌, length, ltb,
  ◌==◌, if◌then◌else◌,
}
use flying_shuttle.Prelude.Int.{ℤ, pos, ltb_ℤ}
use flying_shuttle.Prelude.Result.{Result, ok, err, not_found, noop, no_corpus, stack_overflow}
use flying_shuttle.Model.{Node, NodeType, outline, chunk_ref, is_chunk_ref, Evidence, Chunk}
use flying_shuttle.Text.{is_empty, trim_space}
use flying_shuttle.Text.Runes.{preview_text}
use flying_shuttle.Doc.Db.{Db}
use flying_shuttle.Doc.Action.{Action, pure, raise, query, ◌>>=◌, ◌>>◌}
use flying_shuttle.Doc.Nodes.{create_node, get_node, update_node, delete_node, list_nodes}
use flying_shuttle.Doc.Edges.{move_node, list_edges}
use flying_shuttle.Doc.Evidence.{create_evidence, update_evidence, list_node_evidence}
use flying_shuttle.Outline.Tree
use flying_shuttle.Outline.Tree.{
  TreeNode, Forest, tree_node, leaf, grove, trees, node, sub_forest, parent_id, build_tree, flatten,
  find, find_in, neighbors,
}
use flying_shuttle.Outline.Quote.{Excerpt, QuoteOp, resolve_excerpt, edit_excerpt}

-- What the calls of one operation draw from outside: the i-th time and the i-th id.
pub record World : Type 0 where
  pub clock : ℕ → ℕ
  pub uuid : ℕ → String

unfoldable pub tree : Db → Result Forest
unfolding build_tree list_nodes list_edges
tree db = elim (build_tree (list_nodes db) (list_edges db)) [
  | some f ↦ ok f
  | none ↦ err stack_overflow
]

unfoldable pub tree_and_node : String → Db → Result (Forest × TreeNode)
unfolding tree find
tree_and_node id db = elim (tree db) [
  | err e ↦ err e
  | ok forest ↦ elim (find forest id) [ none ↦ err not_found | some t ↦ ok (forest, t) ]
]

-- The siblings under a parent, the roots for "".
unfoldable pub siblings_of : Forest → String → List TreeNode
unfolding find
siblings_of forest parent =
    if is_empty parent
    then trees forest
    else (elim (find forest parent) [ none ↦ [] | some p ↦ trees (sub_forest p) ])

-- indexOf; `none` for -1.
unfoldable pub index_of : List TreeNode → String → Option ℕ
index_of [] id = none
index_of (t ∷ ts) id =
    let later : Option ℕ = elim (index_of ts id) [ none ↦ none | some i ↦ some (suc i) ] in
    if (node t).id == id then some 0 else later

abbrev pub bullet : World → NodeType → String → String → List (String × String) → Node
bullet w type title body labels = record {
  id = w.uuid 0;
  type = type;
  title = title;
  body = body;
  labels = labels;
  locked = false;
  version = 0;
  created_at = 0;
  updated_at = 0;
}

abbrev pub outline_bullet : World → String → Node
outline_bullet w title = bullet w outline title "" []

abbrev pub child_count : TreeNode → ℤ
child_count t = pos (length (trees (sub_forest t)))

unfoldable pub add_root : World → String → Action Node
unfolding create_node
add_root w title = create_node (w.clock 0) (outline_bullet w title)

-- A new bullet, and its move under the parent.
unfoldable pub create_under : World → Node → String → ℤ → Action Node
unfolding create_node move_node
create_under w n parent position = do
  m ← create_node (w.clock 0) n
  move_node (w.clock 1) (w.uuid 1) m.id parent position
  pure m

unfoldable pub add_child : World → String → String → Action Node
unfolding tree_and_node create_under
add_child w parent title = do
  (_, t) ← query (tree_and_node parent)
  create_under w (outline_bullet w title) parent (child_count t)

unfoldable pub add_child_at : World → String → String → ℤ → Action Node
unfolding tree_and_node create_under
add_child_at w parent title position = do
  (_, _) ← query (tree_and_node parent)
  create_under w (outline_bullet w title) parent position

-- indexOf(…) + 1
abbrev pub behind_index : Option ℕ → ℤ
behind_index none = pos 0
behind_index (some i) = pos (suc i)

-- A sibling of a root is one more root.
unfoldable pub add_sibling : World → String → String → Action Node
unfolding tree_and_node create_node create_under siblings_of index_of
add_sibling w after title = do
  (forest, t) ← query (tree_and_node after)
  if is_empty (parent_id t)
      then create_node (w.clock 0) (outline_bullet w title)
      else create_under w (outline_bullet w title) (parent_id t)
          (behind_index (index_of (siblings_of forest (parent_id t)) after))

-- siblings[i]
unfoldable pub nth : List TreeNode → ℕ → Option TreeNode
nth [] i = none
nth (t ∷ ts) zero = some t
nth (t ∷ ts) (suc i) = nth ts i

-- The sibling just before the bullet; none for the first one and for a bullet that is not there.
unfoldable pub preceding : List TreeNode → String → Option TreeNode
unfolding index_of nth
preceding siblings id = elim (index_of siblings id) [
  | none ↦ none
  | some zero ↦ none
  | some (suc i) ↦ nth siblings i
]

unfoldable pub indent : World → String → Action Node
unfolding tree_and_node siblings_of preceding move_node
indent w id = do
  (forest, t) ← query (tree_and_node id)
  elim (preceding (siblings_of forest (parent_id t)) id) [
    | none ↦ raise noop
    | some p ↦ do move_node (w.clock 0) (w.uuid 0) id (node p).id (child_count p); pure (node t)
  ]

-- The parent is in the tree, as the child was found below it.
unfoldable pub unindent : World → String → Action Node
unfolding tree_and_node siblings_of index_of find move_node
unindent w id = do
  (forest, t) ← query (tree_and_node id)
  if is_empty (parent_id t) then raise noop else (elim (find forest (parent_id t)) [
    | none ↦ raise not_found
    | some p ↦ do
      move_node (w.clock 0) (w.uuid 0) id (parent_id p)
          (behind_index (index_of (siblings_of forest (parent_id p)) (node p).id))
      pure (node t)
  ])

unfoldable pub delete : String → Action (Unit {0})
unfolding delete_node
delete id = delete_node id

-- A version of 0 stands for none given.
unfoldable pub set_title : World → String → String → ℕ → Action Node
unfolding get_node update_node
set_title w id title version = do
  n ← query (get_node id)
  if n.title == title
      then pure n
      else update_node (w.clock 0)
          (record n { title = title; version = if ltb 0 version then version else n.version })

-- The bullet before the deleted one, else the one after it.
unfoldable pub focus_in : String → List TreeNode → String → String
focus_in prev [] id = ""
focus_in prev (t ∷ ts) id =
    let rest = focus_in (node t).id ts id in
    if (node t).id == id then (if is_empty prev then Tree.head_id ts else prev) else rest

unfoldable pub focus_after_delete : String → Db → Result String
unfolding tree flatten focus_in
focus_after_delete id db = elim (tree db) [
  | err e ↦ err e
  | ok forest ↦ ok (focus_in "" (flatten forest) id)
]

-- The corpus is a reader of chunks, or none is bound.
abbrev pub Corpus : Type 0
Corpus = Option (String → Result Chunk)

abbrev pub cited : Node → Chunk → Excerpt → Evidence
cited n chunk x = record {
  id = "";
  node_id = n.id;
  chunk_id = chunk.id;
  source_file = chunk.source_file;
  char_start = x.char_start;
  char_end = x.char_end;
  text = x.text;
  position = pos 0;
  edited = false;
  created_at = 0;
}

unfoldable pub attach_evidence : World → Corpus → String → String → ℤ → ℤ → String → Action Node
unfolding resolve_excerpt tree_and_node create_under create_evidence preview_text
attach_evidence w none parent chunk_id char_start char_end text = raise no_corpus
attach_evidence w (some get_chunk) parent chunk_id char_start char_end text = do
  chunk ← query (λ _. get_chunk chunk_id)
  let x =
      resolve_excerpt chunk.content
        (record { char_start = char_start; char_end = char_end; text = text })
  (_, t) ← query (tree_and_node parent)
  n ←
      create_under w
        (bullet w chunk_ref (preview_text x.text 80) x.text
          (("source_file", chunk.source_file) ∷ []))
        parent (child_count t)
  _ ← create_evidence (w.clock 2) (w.uuid 2) (record (cited n chunk x) { chunk_id = chunk_id })
  pure n

abbrev pub excerpt_of : Evidence → Excerpt
excerpt_of ev = record { char_start = ev.char_start; char_end = ev.char_end; text = ev.text }

-- The first evidence row of a quote: noop for another bullet.
unfoldable pub quote_row : String → Db → Result (Node × Evidence)
unfolding get_node list_node_evidence
quote_row id db = elim (get_node id db) [
  | err e ↦ err e
  | ok n ↦
      if not (is_chunk_ref n.type)
      then err noop
      else (elim (list_node_evidence db id) [ [] ↦ err not_found | ev ∷ evs ↦ ok (n, ev) ])
]

-- The row and the bullet with a new excerpt.
unfoldable pub store_excerpt : World → Node → Evidence → Excerpt → Action Node
unfolding update_evidence update_node preview_text
store_excerpt w n ev x = do
  update_evidence
      (record ev { char_start = x.char_start; char_end = x.char_end; text = x.text; edited = true })
  update_node (w.clock 0) (record n { body = x.text; title = preview_text x.text 80 })

unfoldable pub edit_quote : World → String → QuoteOp → ℤ → ℤ → Action Node
unfolding quote_row edit_excerpt store_excerpt
edit_quote w id op start end = do
  (n, ev) ← query (quote_row id)
  elim (edit_excerpt op start end (excerpt_of ev)) [
    | none ↦ raise noop
    | some x ↦ store_excerpt w n ev x
  ]

unfoldable pub set_quote_text : World → String → String → Action Node
unfolding quote_row trim_space store_excerpt
set_quote_text w id text = do
  (n, ev) ← query (quote_row id)
  let t = trim_space text
  if is_empty t
      then raise noop
      else if t == ev.text
      then raise noop
      else store_excerpt w n ev (record (excerpt_of ev) { text = t })

unfoldable pub set_locked : World → String → Bool → Action Node
unfolding get_node update_node
set_locked w id locked = do
  n ← query (get_node id)
  update_node (w.clock 0) (record n { locked = locked })

abbrev pub at_least_zero : ℤ → ℤ
at_least_zero p = if ltb_ℤ p (pos 0) then pos 0 else p

-- The checks of Move on the bullet and its new parent.
unfoldable pub move_allowed : Forest → TreeNode → String → Result (Unit {0})
unfolding find
move_allowed forest moving parent =
    if is_empty parent then ok tt else (elim (find (grove moving leaf) parent) [
      | some _ ↦ err noop
      | none ↦ elim (find forest parent) [ none ↦ err not_found | some _ ↦ ok tt ]
    ])

unfoldable pub move : World → String → String → ℤ → Action (Unit {0})
unfolding tree_and_node move_allowed move_node
move w id parent position = if id == parent then raise noop else do
  (forest, moving) ← query (tree_and_node id)
  query (λ _. move_allowed forest moving parent)
  move_node (w.clock 0) (w.uuid 0) id parent (at_least_zero position)
