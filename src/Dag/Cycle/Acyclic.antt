-- ===== src/Dag/Cycle/Acyclic.antt =====
-- Acyclic graphs, and the edges that the check for cycles (internal/dag/validate.go) admits.
use mathlib.Core.List.Memᴰ
use mathlib.Core.List.{Memᴰ}
use flying_shuttle.Prelude.{
  String, ◌≡◌, refl, sym, ◌∙◌, ◌⊎◌, inl, inr, false, some, List, [], ◌∷◌, ◌++◌, subst, arith,
}
use flying_shuttle.Model.{Edge}
use flying_shuttle.Doc.Db.{Db}
use flying_shuttle.Dag.Cycle.{would_create_cycle}
use flying_shuttle.Dag.Cycle.Search.{Leads, here, step, would_create_cycle_correct}

-- No walk leads from the target of an edge back to its source.
abbrev pub Acyclic : List Edge → Type 0
Acyclic edges = (e : Edge) → Memᴰ e edges → ¬ (Leads edges e.to_node e.from_node)

pub Leads-trans :
    {edges : List Edge} {a b c : String} → Leads edges a b → Leads edges b c → Leads edges a c
Leads-trans {edges} {a} {b} {c} (here e) q = subst (λ x. Leads edges x c) (sym e) q
Leads-trans (step e m from p) q = step e m from (Leads-trans p q)

module _ (edges : List Edge) (x : Edge) where
  -- A walk over one more edge either never takes it, or reaches its source and later leaves its
  -- target, both over the old edges.
  split_walk :
      {a c : String}
      → Leads (edges ++ x ∷ []) a c
      → Leads edges a c ⊎ Leads edges a x.from_node × Leads edges x.to_node c
  split_walk (here e) = inl (here e)
  split_walk {c = c} (step e m from p) = elim (Memᴰ.append_cases edges m) [
    | inl old ↦ elim (split_walk p) [
      | inl q ↦ inl (step e old from q)
      | inr (q, r) ↦ inr (step e old from q, r)
    ]
    | inr new ↦
        let same : e ≡ x = Memᴰ.eq_of_singleton new in
        let start = here (sym from ∙ (λ i. (same i).from_node)) in
        elim (split_walk p) [
          | inl q ↦ inr (start, subst (λ y. Leads edges y.to_node c) same q)
          | inr (q, r) ↦ inr (start, r)
        ]
  ]

  Acyclic-add : Acyclic edges → ¬ (Leads edges x.to_node x.from_node) → Acyclic (edges ++ x ∷ [])
  Acyclic-add old new e m walk = elim (Memᴰ.append_cases edges m) [
    | inl known ↦ elim (split_walk walk) [
      | inl p ↦ old e known p
      | inr (p, q) ↦ new (Leads-trans q (step e known refl p))
    ]
    | inr added ↦
        let same : e ≡ x = Memᴰ.eq_of_singleton added in
        elim (split_walk (subst (λ y. Leads (edges ++ x ∷ []) y.to_node y.from_node) same walk)) [
          | inl p ↦ new p
          | inr (p, _) ↦ new p
        ]
  ]

-- Where WouldCreateCycle returns false, an edge between the two nodes keeps the graph acyclic.
pub Acyclic-guard :
    (db : Db) (x : Edge)
    → would_create_cycle db x.from_node x.to_node ≡ some false
    → Acyclic db.edges
    → Acyclic (db.edges ++ x ∷ [])
Acyclic-guard db x h old =
    let (b, e, _, full) = would_create_cycle_correct db x.from_node x.to_node in
    Acyclic-add db.edges x old (λ walk. ground (arith, full walk))
