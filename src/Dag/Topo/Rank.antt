-- ===== src/Dag/Topo/Rank.antt =====
-- Orders of the nodes against cycles, for TopologicalSort (internal/dag/traverse.go).
use flying_shuttle.Prelude.{
  ℕ, suc, ◌≤◌, ◌<◌, String, true, false, ◌≡◌, sym, subst, List, [], ◌∷◌, ◌++◌, All, All-at, arith,
  ◌==◌, if◌then◌else◌,
}
use flying_shuttle.Model.{Edge}
use flying_shuttle.Dag.Condition.{member}
use flying_shuttle.Dag.Cycle.Search.{Leads, here, step}
use flying_shuttle.Dag.Cycle.Acyclic.{Acyclic}
use flying_shuttle.Dag.Topo.Loop.{Precedes}

-- Where an id stands.
abbrev rank : List String → String → ℕ
rank [] x = 0
rank (id ∷ ids) x = let rest = rank ids x in if id == x then 0 else suc rest

rank-front :
    (front back : List String) (x y : String)
    → member x front ≡ true
    → member y front ≡ false
    → rank (front ++ back) x < rank (front ++ back) y
rank-front [] back x y m n = absurd (cc m)
rank-front (id ∷ front) back x y m n = ground (arith, rank-front front back x y)

rank-edge :
    (ids : List String) (e : Edge) → Precedes ids e → rank ids e.from_node < rank ids e.to_node
rank-edge ids e p =
    subst (λ l. rank l e.from_node < rank l e.to_node) (sym p.parts)
      (rank-front p.front p.back e.from_node e.to_node p.source p.target)

module _ (edges : List Edge) (ids : List String) (ordered : All (Precedes ids) edges) where
  rank-Leads : {a c : String} → Leads edges a c → rank ids a ≤ rank ids c
  rank-Leads {a} (here e) = subst (λ x. rank ids a ≤ rank ids x) e (omega arith)
  rank-Leads {a} {c} (step e m from w) =
      subst (λ x. rank ids x ≤ rank ids c) from
        (omega (arith, rank-edge ids e (All-at (Precedes ids) edges m ordered), rank-Leads w))

  pub ordered-Acyclic : Acyclic edges
  ordered-Acyclic e m w =
      omega (arith, rank-edge ids e (All-at (Precedes ids) edges m ordered), rank-Leads w)
