-- ===== src/Dag/Topo/Loop.antt =====
-- The loop over the queue of TopologicalSort (internal/dag/traverse.go): what holds whenever it is at
-- a child, and at its end.
use flying_shuttle.Prelude.{
  ◌+◌, String, Bool, true, false, ◌≡◌, sym, ap, ◌∙◌, subst, List, [], ◌∷◌, ◌++◌, All, All-imp,
  All-append, any-append, any_of_All, eq_iff, arith, ◌==◌, if◌then◌else◌, Bool-cases, inl, inr,
}
use mathlib.Core.List.{append_assoc}
use flying_shuttle.Prelude.Int.{pos, negsuc, eq_ℤ, eq_ℤ_iff, ◌+ℤ◌}
use flying_shuttle.Prelude.Distinct.{Distinct, Distinct-snoc}
use flying_shuttle.Model.{Node, Edge}
use flying_shuttle.Doc.Db.{has_node}
use flying_shuttle.Dag.Condition.{member}
use flying_shuttle.Dag.Topo.{Degrees, add_degree, relax}
use flying_shuttle.Dag.Topo.Count.{waiting, times, down, add_degree-same, add_degree-other}

abbrev pub same_id : String → String → Bool
same_id a b = a == b

pub same_id_symm : (a b : String) → same_id a b ≡ same_id b a
same_id_symm a b = ground (arith, eq_iff a b, eq_iff b a)

-- In the order `ids`, the source of the edge stands before its target.
pub record Precedes (ids : List String) (e : Edge) : Type 0 where
  pub front : List String
  pub back : List String
  pub parts : ids ≡ front ++ back
  pub source : member e.from_node front ≡ true
  pub target : member e.to_node front ≡ false

abbrev pub Ordered : List Edge → List String → Type 0
Ordered edges ids = All (λ e. member e.to_node ids ≡ true → Precedes ids e) edges

abbrev pub Known : List Node → String → Type 0
Known nodes id = has_node nodes id ≡ true

module _ (nodes : List Node) (edges : List Edge) where
  -- `cs` are the children of the last popped node that are still to be relaxed.
  pub record Loop (popped queue cs : List String) (degrees : Degrees) : Type 0 where
    pub counted : (x : String) → degrees x ≡ pos (waiting edges popped x + times x cs)
    pub distinct : Distinct same_id (popped ++ queue)
    pub settled : All (λ x. degrees x ≡ pos 0) (popped ++ queue)
    pub known : All (Known nodes) (popped ++ queue)
    pub ready : (x : String) → Known nodes x → degrees x ≡ pos 0 → member x (popped ++ queue) ≡ true

  module _ (popped queue cs : List String) (c : String) (degrees : Degrees)
      (loop : Loop popped queue (c ∷ cs) degrees) where
    -- The child has a positive degree, so it is not in the queue yet, nor popped.
    busy : (x : String) → degrees x ≡ pos 0 → (c == x) ≡ false
    busy x h = elim (Bool-cases (c == x)) [
      | inr f ↦ f
      | inl t ↦ absurd (clash (sym h ∙ loop.counted x) t)
    ]
      where
        clash : pos 0 ≡ pos (waiting edges popped x + times x (c ∷ cs)) → (c == x) ≡ true → ⊥
        clash e t = ground arith

    abbrev lower : Degrees
    lower = add_degree c (negsuc 0) degrees

    lower-counted : (x : String) → lower x ≡ pos (waiting edges popped x + times x cs)
    lower-counted x = elim (Bool-cases (c == x)) [
      | inl t ↦
          let same : c ≡ x = (eq_iff c x).0 t in
          ap (λ z. add_degree z (negsuc 0) degrees x) same
          ∙ add_degree-same x (negsuc 0) degrees
          ∙ ap (λ z. z +ℤ negsuc 0) (loop.counted x ∙ ap pos (one_more x t))
          ∙ down (waiting edges popped x + times x cs)
      | inr f ↦
          add_degree-other c x (negsuc 0) degrees f ∙ loop.counted x ∙ ap pos (ground (arith, f))
    ]
      where
        one_more :
            (x : String)
            → (c == x) ≡ true
            → waiting edges popped x + times x (c ∷ cs) ≡ waiting edges popped x + times x cs + 1
        one_more x t = ground (arith, t)

    lower-settled : All (λ x. lower x ≡ pos 0) (popped ++ queue)
    lower-settled =
        All-imp (λ x h. add_degree-other c x (negsuc 0) degrees (busy x h) ∙ h) (popped ++ queue)
          loop.settled

    -- A node with the degree 0 was ready before, or is the child.
    was_ready :
        (x : String)
        → Known nodes x
        → lower x ≡ pos 0
        → (c == x) ≡ false
        → member x (popped ++ queue) ≡ true
    was_ready x k z f = loop.ready x k (sym (add_degree-other c x (negsuc 0) degrees f) ∙ z)

    Loop-wait : eq_ℤ (lower c) (pos 0) ≡ false → Loop popped queue cs lower
    Loop-wait busy_child = record {
      counted = lower-counted;
      distinct = loop.distinct;
      settled = lower-settled;
      known = loop.known;
      ready = λ x k z. elim (Bool-cases (c == x)) [
        | inr f ↦ was_ready x k z f
        | inl e ↦
            let at_child = subst (λ y. lower y ≡ pos 0) (sym ((eq_iff c x).0 e)) z in
            absurd (cc (busy_child, (eq_ℤ_iff (lower c) (pos 0)).1 at_child))
      ];
    }

    Loop-enqueue : Known nodes c → lower c ≡ pos 0 → Loop popped (queue ++ c ∷ []) cs lower
    Loop-enqueue k z = record {
      counted = lower-counted;
      distinct = subst (Distinct same_id) (append_assoc popped queue (c ∷ [])) (
          Distinct-snoc same_id same_id_symm c (popped ++ queue) loop.distinct (
            any_of_All (same_id c) (popped ++ queue)
              (All-imp busy (popped ++ queue) loop.settled)));
      settled =
          subst (All (λ x. lower x ≡ pos 0)) (append_assoc popped queue (c ∷ []))
            (All-append (λ x. lower x ≡ pos 0) (popped ++ queue) (c ∷ []) lower-settled (z, tt));
      known =
          subst (All (Known nodes)) (append_assoc popped queue (c ∷ []))
            (All-append (Known nodes) (popped ++ queue) (c ∷ []) loop.known (k, tt));
      ready = λ x k zero_degree.
          subst (λ l. member x l ≡ true) (append_assoc popped queue (c ∷ []))
            (any-append (λ j. j == x) (popped ++ queue) (c ∷ []) ∙ elim (Bool-cases (c == x)) [
              | inr f ↦ ground (arith, was_ready x k zero_degree f)
              | inl e ↦ ground (arith, e)
            ]);
    }

    Loop-child :
        Known nodes c
        → Loop popped (if eq_ℤ (lower c) (pos 0) then queue ++ c ∷ [] else queue) cs lower
    Loop-child k = elim (Bool-cases (eq_ℤ (lower c) (pos 0))) [
      | inl t ↦ rw t (Loop-enqueue k ((eq_ℤ_iff (lower c) (pos 0)).0 t))
      | inr f ↦ rw f (Loop-wait f)
    ]

  pub relax-Loop :
      (popped cs queue : List String) (degrees : Degrees)
      → All (Known nodes) cs
      → Loop popped queue cs degrees
      → Loop popped (relax cs queue degrees).0 [] (relax cs queue degrees).1
  unfolding relax
  relax-Loop popped [] queue degrees k loop = loop
  relax-Loop popped (c ∷ cs) queue degrees k loop =
      relax-Loop popped cs _ _ k.1 (Loop-child popped queue cs c degrees loop k.0)
