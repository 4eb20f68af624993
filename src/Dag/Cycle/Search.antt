-- ===== src/Dag/Cycle/Search.antt =====
-- The depth-first search of internal/dag/validate.go: its fuel, and the walks that it finds.
use mathlib.Core.List.{Memᴰ}
use flying_shuttle.Prelude.{
  ℕ, zero, suc, ◌≤◌, ◌<◌, String, ◌≡◌, ◌≢◌, refl, ◌⊎◌, inl, inr, Bool, true, false, not, Bool-cases,
  some, List, [], ◌∷◌, length, any, select, All, All-imp, All-kept, All-Memᴰ, All-at, All-unselect,
  length-select, arith, ◌==◌, eq_iff, subst,
}
use flying_shuttle.Prelude.Sort.{sort_by, All-sort_by, All-sort_by_inv}
use flying_shuttle.Model.{Edge}
use flying_shuttle.Doc.Db.{Db}
use flying_shuttle.Doc.Edges.{list_edges_from, weight_leb}
use flying_shuttle.Dag.Condition.{member}
use flying_shuttle.Dag.Cycle.{Dfs, found, missed, deep, dfs_edges, dfs_reaches, would_create_cycle}

-- The walks along edges.
pub data Leads (edges : List Edge) : String → String → Type 0 where
  here : {a c : String} → a ≡ c → Leads edges a c
  step :
      {a c : String} (e : Edge)
      → Memᴰ e edges
      → e.from_node ≡ a
      → Leads edges e.to_node c
      → Leads edges a c

-- ListEdgesFrom has the edges that leave the node.
pub list_edges_from_sound :
    (db : Db) (a : String) → All (λ e. Memᴰ e db.edges × (e.from_node ≡ a)) (list_edges_from db a)
unfolding list_edges_from
list_edges_from_sound db a =
    All-sort_by weight_leb (λ e. Memᴰ e db.edges × (e.from_node ≡ a)) _
      (All-kept (λ e. e.from_node == a) (λ e m t. (m, (eq_iff e.from_node a).0 t)) db.edges
        (All-Memᴰ db.edges))

pub list_edges_from_complete :
    (P : Edge → Type 0) (db : Db) (a : String)
    → All P (list_edges_from db a)
    → All (λ e. (e.from_node == a) ≡ true → P e) db.edges
unfolding list_edges_from
list_edges_from_complete P db a h =
    All-unselect P (λ e. e.from_node == a) db.edges (All-sort_by_inv weight_leb P _ h)

select-none : {A : Type 0} (p : A → Bool) (xs : List A) → any p xs ≡ false → select p xs ≡ []
select-none p [] h = refl
select-none p (x ∷ xs) h = ground (arith, select-none p xs)

list_edges_from-none :
    (db : Db) (a : String)
    → any (λ e. e.from_node == a) db.edges ≡ false
    → list_edges_from db a ≡ []
unfolding list_edges_from sort_by
list_edges_from-none db a h = rw (select-none (λ e. e.from_node == a) db.edges h)

-- Every visited node stays so.
abbrev pub Sub : List String → List String → Type 0
Sub v w = (x : String) → member x v ≡ true → member x w ≡ true

-- The edges whose source is not yet visited.
abbrev pending : List Edge → List String → ℕ
pending edges v = length (select (λ e. not (member e.from_node v)) edges)

pending-Sub : (edges : List Edge) (v w : List String) → Sub v w → pending edges w ≤ pending edges v
pending-Sub [] v w h = omega arith
pending-Sub (e ∷ es) v w h = ground (arith, pending-Sub es v w h, h e.from_node)

pending-visit :
    (edges : List Edge) (a : String) (v : List String)
    → any (λ e. e.from_node == a) edges ≡ true
    → member a v ≡ false
    → pending edges (a ∷ v) < pending edges v
pending-visit [] a v h m = cc
pending-visit (e ∷ es) a v h m = ground (
  arith,
  eq_iff a e.from_node,
  eq_iff e.from_node a,
  pending-visit es a v,
  pending-Sub es v (a ∷ v) (λ x t. ground arith),
)

Dfs-cases : (r : Dfs) → ((r ≡ found) ⊎ (r ≡ deep)) ⊎ ((w : List String) × (r ≡ missed w))
Dfs-cases found = inl (inl refl)
Dfs-cases deep = inl (inr refl)
Dfs-cases (missed w) = inr (w, refl)

module _ (db : Db) (target : String) where
  -- What a search has visited since v: none is the target, and their edges lead to visited nodes.
  abbrev Closed : List String → List String → Type 0
  Closed v w =
      (x : String)
      → member x w ≡ true
      → (member x v ≡ true)
        ⊎ ((x ≢ target) × All (λ e. (e.from_node == x) ≡ true → member e.to_node w ≡ true) db.edges)

  Closed-trans : (u v w : List String) → Sub v w → Closed u v → Closed v w → Closed u w
  Closed-trans u v w sub c d x m = elim (d x m) [
    | inr closed ↦ inr closed
    | inl old ↦ elim (c x old) [
      | inl older ↦ inl older
      | inr (ne, to) ↦ inr (ne, All-imp (λ e k t. sub e.to_node (k t)) db.edges to)
    ]
  ]

  record Missed (current : String) (v w : List String) : Type 0 where
    grows : Sub v w
    here : member current w ≡ true
    closed : Closed v w

  record MissedAll (es : List Edge) (v w : List String) : Type 0 where
    grows : Sub v w
    targets : All (λ e. member e.to_node w ≡ true) es
    closed : Closed v w

  -- The loop, given what the recursive call does.
  dfs_edges-missed :
      (reach : String → List String → Dfs)
      → ((a : String) (v w : List String) → reach a v ≡ missed w → Missed a v w)
      → (es : List Edge) (v w : List String) → dfs_edges reach es v ≡ missed w
      → MissedAll es v w
  unfolding dfs_edges
  dfs_edges-missed reach rec [] v w h =
      let same : v ≡ w = ground arith in
      subst (MissedAll [] v) same (record { grows = λ x m. m; targets = tt; closed = λ x m. inl m })
  dfs_edges-missed reach rec (e ∷ es) v w h = elim (Dfs-cases (reach e.to_node v)) [
    | inl (inl f) ↦ absurd (cc (rw (f, dfs_edges) at h))
    | inl (inr d) ↦ absurd (cc (rw (d, dfs_edges) at h))
    | inr (u, m) ↦
        let one = rec e.to_node v u m in
        let rest = dfs_edges-missed reach rec es u w (rw (m, dfs_edges) at h) in
        record {
          grows = λ x t. rest.grows x (one.grows x t);
          targets = (rest.grows e.to_node one.here, rest.targets);
          closed = Closed-trans v u w rest.grows one.closed rest.closed;
        }
  ]

  -- A search that misses the target has visited its start, and all that its new nodes lead to.
  dfs_reaches-missed :
      (fuel : ℕ) (a : String) (v w : List String)
      → dfs_reaches db target fuel a v ≡ missed w
      → Missed a v w
  unfolding dfs_reaches
  dfs_reaches-missed zero a v w h = absurd (cc)
  dfs_reaches-missed (suc fuel) a v w h = elim (Bool-cases (a == target)) [
    | inl t ↦ absurd (cc (rw (t, dfs_reaches) at h))
    | inr ne ↦ elim (Bool-cases (member a v)) [
      | inl seen ↦
          let same : missed v ≡ missed w = (rw (ne, seen, dfs_reaches) at h) in
          let eq : v ≡ w = ground arith in
          subst (Missed a v) eq (record { grows = λ x m. m; here = seen; closed = λ x m. inl m })
      | inr new ↦ visited ne (
          dfs_edges-missed (dfs_reaches db target fuel) (dfs_reaches-missed fuel)
            (list_edges_from db a) (a ∷ v) w (rw (ne, new, dfs_reaches) at h))
    ]
  ]
    where
      visited : (a == target) ≡ false → MissedAll (list_edges_from db a) (a ∷ v) w → Missed a v w
      visited ne all = record {
        grows = λ x m. all.grows x (ground arith);
        here = all.grows a (ground (arith, eq_iff a a));
        closed = λ x m. elim (all.closed x m) [
          | inr closed ↦ inr closed
          | inl old ↦ elim (Bool-cases (a == x)) [
            | inr other ↦ inl (ground arith)
            | inl same ↦
                let eq : a ≡ x = (eq_iff a x).0 same in
                subst
                  (λ y.
                    (member y v ≡ true)
                    ⊎ ((y ≢ target)
                        × All (λ e. (e.from_node == y) ≡ true → member e.to_node w ≡ true)
                            db.edges))
                  eq
                  (inr (
                    (λ p. cc ((eq_iff a target).1 p)),
                    list_edges_from_complete (λ e. member e.to_node w ≡ true) db a all.targets,
                  ))
          ]
        ];
      }

  -- With fuel beyond the pending edges the loop ends, if the recursive call does so at every node.
  dfs_edges_ends :
      (reach : String → List String → Dfs) (n : ℕ)
      → ((a : String) (v : List String) → pending db.edges v < n → reach a v ≢ deep)
      → ((a : String) (v w : List String) → reach a v ≡ missed w → Sub v w)
      → (es : List Edge) (v : List String) → pending db.edges v < n
      → dfs_edges reach es v ≢ deep
  unfolding dfs_edges
  dfs_edges_ends reach n ends grows [] v h e = cc
  dfs_edges_ends reach n ends grows (x ∷ es) v h e = elim (Dfs-cases (reach x.to_node v)) [
    | inl (inl f) ↦ cc (rw (f, dfs_edges) at e)
    | inl (inr d) ↦ ends x.to_node v h d
    | inr (w, m) ↦
        dfs_edges_ends reach n ends grows es w
          (omega (arith, pending-Sub db.edges v w (grows x.to_node v w m))) (rw (m, dfs_edges) at e)
  ]

  dfs_reaches_ends :
      (fuel : ℕ) (a : String) (v : List String)
      → pending db.edges v < fuel
      → dfs_reaches db target fuel a v ≢ deep
  unfolding dfs_reaches
  dfs_reaches_ends zero a v h e = elim h [ ]
  dfs_reaches_ends (suc fuel) a v h e = elim (Bool-cases (a == target)) [
    | inl t ↦ cc (rw (t, dfs_reaches) at e)
    | inr ne ↦ elim (Bool-cases (member a v)) [
      | inl seen ↦ cc (rw (ne, seen, dfs_reaches) at e)
      | inr new ↦ elim (Bool-cases (any (λ x. x.from_node == a) db.edges)) [
        | inl leaves ↦
            dfs_edges_ends (dfs_reaches db target fuel) fuel (dfs_reaches_ends fuel)
              (λ b u w m. (dfs_reaches-missed fuel b u w m).grows) (list_edges_from db a) (a ∷ v)
              (omega (arith, pending-visit db.edges a v leaves new))
              (rw (ne, new, dfs_reaches) at e)
        | inr none_leave ↦ cc (
            rw (list_edges_from-none db a none_leave, dfs_edges) at
              (rw (ne, new, dfs_reaches) at e))
      ]
    ]
  ]

  -- What is found, a walk leads to.
  dfs_edges-found :
      (reach : String → List String → Dfs) (P : Edge → Type 0)
      → ((a : String) (v : List String) → reach a v ≡ found → Leads db.edges a target)
      → (es : List Edge) (v : List String) → All P es
      → dfs_edges reach es v ≡ found
      → (e : Edge) × P e × Leads db.edges e.to_node target
  unfolding dfs_edges
  dfs_edges-found reach P rec [] v ps h = absurd (cc)
  dfs_edges-found reach P rec (x ∷ es) v ps h = elim (Dfs-cases (reach x.to_node v)) [
    | inl (inl f) ↦ (x, ps.0, rec x.to_node v f)
    | inl (inr d) ↦ absurd (cc (rw (d, dfs_edges) at h))
    | inr (w, m) ↦ dfs_edges-found reach P rec es w ps.1 (rw (m, dfs_edges) at h)
  ]

  dfs_reaches-found :
      (fuel : ℕ) (a : String) (v : List String)
      → dfs_reaches db target fuel a v ≡ found
      → Leads db.edges a target
  unfolding dfs_reaches
  dfs_reaches-found zero a v h = absurd (cc)
  dfs_reaches-found (suc fuel) a v h = elim (Bool-cases (a == target)) [
    | inl t ↦ here ((eq_iff a target).0 t)
    | inr ne ↦ elim (Bool-cases (member a v)) [
      | inl seen ↦ absurd (cc (rw (ne, seen, dfs_reaches) at h))
      | inr new ↦
          let (e, known, onward) =
            dfs_edges-found (dfs_reaches db target fuel) (λ e. Memᴰ e db.edges × (e.from_node ≡ a))
              (dfs_reaches-found fuel) (list_edges_from db a) (a ∷ v) (list_edges_from_sound db a)
              (rw (ne, new, dfs_reaches) at h) in
          step e known.0 known.1 onward
    ]
  ]

  -- From a set that is closed from the start no walk leaves, so none leads to the target.
  Closed-not-Leads :
      (w : List String)
      → Closed [] w
      → (a : String) → member a w ≡ true
      → Leads db.edges a target
      → ⊥
  Closed-not-Leads w closed a m (here e) = elim (closed a m) [ inl old ↦ cc | inr (ne, _) ↦ ne e ]
  Closed-not-Leads w closed a m (step e known from onward) = elim (closed a m) [
    | inl old ↦ cc
    | inr (_, to) ↦
        Closed-not-Leads w closed e.to_node
          (All-at (λ x. (x.from_node == a) ≡ true → member x.to_node w ≡ true) db.edges known to
            ((eq_iff e.from_node a).1 from))
          onward
  ]

-- WouldCreateCycle always returns, and it returns true exactly if a walk along the edges leads from
-- `to` to `from`.
pub would_create_cycle_correct :
    (db : Db) (from to : String)
    → (b : Bool) × (would_create_cycle db from to ≡ some b)
      × (b ≡ true → Leads db.edges to from)
      × (Leads db.edges to from → b ≡ true)
unfolding would_create_cycle
would_create_cycle_correct db from to =
    elim (Dfs-cases (dfs_reaches db from (suc (length db.edges)) to [])) [
      | inl (inl f) ↦ (
        true,
        rw (f, would_create_cycle) refl,
        (λ _. dfs_reaches-found db from (suc (length db.edges)) to [] f),
        (λ _. refl),
      )
      | inl (inr d) ↦ absurd (
          dfs_reaches_ends db from (suc (length db.edges)) to []
            (omega (arith, length-select (λ e. not (member e.from_node [])) db.edges)) d)
      | inr (w, m) ↦
          let all = dfs_reaches-missed db from (suc (length db.edges)) to [] w m in
          (
            false,
            rw (m, would_create_cycle) refl,
            (λ e. absurd (cc)),
            (λ walk. absurd (Closed-not-Leads db from w all.closed to all.here walk)),
          )
    ]
