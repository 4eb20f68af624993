-- ===== src/Dag/Topo/Drain.antt =====
-- The loop over the queue of TopologicalSort (internal/dag/traverse.go): its fuel, and the order of the
-- ids that it popped.
use flying_shuttle.Prelude.{
  ℕ, zero, suc, ◌+◌, ◌≤◌, ◌<◌, String, true, false, not, ◌≡◌, refl, sym, ap, ◌∙◌, subst, some, List,
  [], ◌∷◌, ◌++◌, select, All, All-imp, All-map, All-select, All-append_right, length, length-append,
  any-append, eq_iff, arith, ◌==◌, Bool-cases, inl, inr,
}
use mathlib.Core.List.{append_assoc, append-nil}
use flying_shuttle.Prelude.Int.{pos}
use flying_shuttle.Prelude.Distinct.{Distinct}
use flying_shuttle.Prelude.Pigeonhole.{pigeonhole}
use flying_shuttle.Model.{Node, Edge}
use flying_shuttle.Doc.Db.{has_node}
use flying_shuttle.Doc.Valid.{EdgeRefers}
use flying_shuttle.Dag.Condition.{member}
use flying_shuttle.Dag.Topo.{Degrees, children, drain}
use flying_shuttle.Dag.Topo.Count.{waiting, waiting-pop, waiting-zero}
use flying_shuttle.Dag.Topo.Loop.{same_id, Precedes, Ordered, Known, Loop, relax-Loop}

-- No item of a list without repetitions stands before itself.
fresh :
    (xs : List String) (y : String) (ys : List String)
    → Distinct same_id (xs ++ y ∷ ys)
    → member y xs ≡ false
fresh [] y ys d = refl
fresh (x ∷ xs) y ys d =
    ground
      (arith, fresh xs y ys d.1, (All-append_right (λ z. same_id x z ≡ false) xs (y ∷ ys) d.0).0)

-- Distinct ids of nodes are no more than the nodes.
pub known-length :
    (nodes : List Node) (ids : List String)
    → Distinct same_id ids
    → All (Known nodes) ids
    → length ids ≤ length nodes
known-length nodes ids d k = pigeonhole same_id (λ id n. n.id == id) apart ids nodes d k
  where
    apart :
        (a b : String) (n : Node)
        → same_id a b ≡ false
        → (n.id == b) ≡ true
        → not (n.id == a) ≡ true
    apart a b n h t = ground (arith, eq_iff n.id b, eq_iff n.id a, eq_iff a b)

module _ (nodes : List Node) (edges : List Edge) (refers : All (EdgeRefers nodes) edges) where
  children-known : (id : String) → All (Known nodes) (children edges id)
  unfolding children
  children-known id =
      All-map (Known nodes) (λ e. e.to_node) (select (λ e. e.from_node == id) edges)
        (All-select (λ e. has_node nodes e.to_node ≡ true) (λ e. e.from_node == id) edges
          (All-imp (λ e r. r.1) edges refers))

  -- The order grows by a node for which nothing waits.
  Ordered-snoc :
      (popped : List String) (id : String)
      → member id popped ≡ false
      → (es : List Edge) → All (λ e. member e.to_node popped ≡ true → Precedes popped e) es
      → All (λ e. (e.to_node == id) ≡ true → member e.from_node popped ≡ true) es
      → Ordered es (popped ++ id ∷ [])
  Ordered-snoc popped id m [] h k = tt
  Ordered-snoc popped id m (e ∷ es) h k = (grow, Ordered-snoc popped id m es h.1 k.1)
    where
      grow : member e.to_node (popped ++ id ∷ []) ≡ true → Precedes (popped ++ id ∷ []) e
      grow t = elim (Bool-cases (member e.to_node popped)) [
        | inl old ↦
            let before = h.0 old in
            record {
              front = before.front;
              back = before.back ++ id ∷ [];
              parts =
                  ap (λ l. l ++ id ∷ []) before.parts
                  ∙ append_assoc before.front before.back (id ∷ []);
              source = before.source;
              target = before.target;
            }
        | inr new ↦ record {
          front = popped;
          back = id ∷ [];
          parts = refl;
          source = k.0 (
              ground (
                arith,
                new,
                eq_iff id e.to_node,
                eq_iff e.to_node id,
                any-append (λ j. j == e.to_node) popped (id ∷ []),
              ));
          target = new;
        }
      ]

  module _ (popped queue : List String) (id : String) (degrees : Degrees)
      (loop : Loop nodes edges popped (id ∷ queue) [] degrees) where
    new_id : member id popped ≡ false
    new_id = fresh popped id queue loop.distinct

    regroup : popped ++ id ∷ queue ≡ (popped ++ id ∷ []) ++ queue
    regroup = sym (append_assoc popped (id ∷ []) queue)

    Loop-pop : Loop nodes edges (popped ++ id ∷ []) queue (children edges id) degrees
    Loop-pop = record {
      counted = λ x. loop.counted x ∙ ap pos (omega (arith, waiting-pop edges popped id x new_id));
      distinct = subst (Distinct same_id) regroup loop.distinct;
      settled = subst (All (λ x. degrees x ≡ pos 0)) regroup loop.settled;
      known = subst (All (Known nodes)) regroup loop.known;
      ready = λ x k z. subst (λ l. member x l ≡ true) regroup (loop.ready x k z);
    }

    Ordered-pop : Ordered edges popped → Ordered edges (popped ++ id ∷ [])
    Ordered-pop h = Ordered-snoc popped id new_id edges h (waiting-zero edges popped id idle)
      where
        idle : waiting edges popped id ≡ 0
        idle =
            let zero_degree =
              (All-append_right (λ x. degrees x ≡ pos 0) popped (id ∷ queue) loop.settled).0 in
            count_zero (sym zero_degree ∙ loop.counted id)
          where
            count_zero : {n : ℕ} → pos 0 ≡ pos (n + 0) → n ≡ 0
            count_zero e = ground arith

    room : length popped < length nodes
    room = omega (
      arith,
      known-length nodes (popped ++ id ∷ queue) loop.distinct loop.known,
      length-append popped (id ∷ queue),
    )

  pub record Drained (ids : List String) : Type 0 where
    pub distinct : Distinct same_id ids
    pub known : All (Known nodes) ids
    pub ordered : Ordered edges ids
    pub ready : (id : String) → Known nodes id → waiting edges ids id ≡ 0 → member id ids ≡ true

  pub drain-ends :
      (fuel : ℕ) (queue : List String) (degrees : Degrees) (popped : List String)
      → length nodes ≤ fuel + length popped
      → Loop nodes edges popped queue [] degrees
      → Ordered edges popped
      → (ids : List String) × (drain edges fuel queue degrees popped ≡ some ids) × Drained ids
  unfolding drain
  drain-ends fuel [] degrees popped le loop h = (
    popped,
    refl,
    record {
      distinct = subst (Distinct same_id) (append-nil popped) loop.distinct;
      known = subst (All (Known nodes)) (append-nil popped) loop.known;
      ordered = h;
      ready = λ id k z.
          subst (λ l. member id l ≡ true) (append-nil popped)
            (loop.ready id k (loop.counted id ∙ ap pos (omega (arith, z))));
    },
  )
  drain-ends zero (id ∷ queue) degrees popped le loop h =
      absurd (omega (arith, le, room popped queue id degrees loop))
  drain-ends (suc fuel) (id ∷ queue) degrees popped le loop h =
      drain-ends fuel _ _ (popped ++ id ∷ []) (omega (arith, le, length-append popped (id ∷ [])))
        (relax-Loop nodes edges (popped ++ id ∷ []) (children edges id) queue degrees
          (children-known id) (Loop-pop popped queue id degrees loop))
        (Ordered-pop popped queue id degrees loop h)
