-- ===== src/Dag/Topo/Count.antt =====
-- What the degrees of TopologicalSort (internal/dag/traverse.go) count.
use flying_shuttle.Prelude.{
  ℕ, ◌+◌, String, true, false, not, ◌&&◌, ◌≡◌, List, [], ◌∷◌, ◌++◌, All, any-append, eq_iff,
  eq_refl, arith, ◌==◌, if◌then◌else◌, ap, ◌∙◌, Bool-cases, inl, inr,
}
use flying_shuttle.Prelude.Int.{ℤ, pos, negsuc, ◌+ℤ◌}
use flying_shuttle.Model.{Edge}
use flying_shuttle.Dag.Condition.{member}
use flying_shuttle.Dag.Topo.{Degrees, add_degree, in_degrees, children}

-- The edges into x whose source is not popped.
abbrev pub waiting : List Edge → List String → String → ℕ
waiting [] popped x = 0
waiting (e ∷ es) popped x =
    (if e.to_node == x && not (member e.from_node popped) then 1 else 0) + waiting es popped x

-- How often x is in a list.
abbrev pub times : String → List String → ℕ
times x [] = 0
times x (c ∷ cs) = (if c == x then 1 else 0) + times x cs

-- Popping a node takes its own edges off.
pub waiting-pop :
    (edges : List Edge) (popped : List String) (id x : String)
    → member id popped ≡ false
    → waiting edges popped x ≡ waiting edges (popped ++ id ∷ []) x + times x (children edges id)
unfolding children
waiting-pop [] popped id x m = omega arith
waiting-pop (e ∷ es) popped id x m = elim (Bool-cases (e.from_node == id)) [
  | inl t ↦
      let same : e.from_node ≡ id = (eq_iff e.from_node id).0 t in
      ground (
        arith,
        t,
        m,
        same,
        eq_refl id,
        waiting-pop es popped id x m,
        any-append (λ j. j == e.from_node) popped (id ∷ []),
      )
  | inr f ↦ ground (
    arith,
    f,
    eq_iff e.from_node id,
    eq_iff id e.from_node,
    waiting-pop es popped id x m,
    any-append (λ j. j == e.from_node) popped (id ∷ []),
  )
]

-- Nothing waits: the sources of the edges into x are popped.
pub waiting-zero :
    (edges : List Edge) (popped : List String) (x : String)
    → waiting edges popped x ≡ 0
    → All (λ e. (e.to_node == x) ≡ true → member e.from_node popped ≡ true) edges
waiting-zero [] popped x h = tt
waiting-zero (e ∷ es) popped x h = ((λ t. ground arith), waiting-zero es popped x (ground arith))

pub up : (n : ℕ) → pos n +ℤ pos 1 ≡ pos (n + 1)
unfolding ◌+ℤ◌
up n = ground arith

pub down : (n : ℕ) → pos (n + 1) +ℤ negsuc 0 ≡ pos n
unfolding ◌+ℤ◌
down n = ground arith

pub add_degree-same :
    (id : String) (d : ℤ) (degrees : Degrees) → add_degree id d degrees id ≡ degrees id +ℤ d
unfolding add_degree
add_degree-same id d degrees = rw (eq_refl id)

pub add_degree-other :
    (id x : String) (d : ℤ) (degrees : Degrees)
    → (id == x) ≡ false
    → add_degree id d degrees x ≡ degrees x
unfolding add_degree
add_degree-other id x d degrees h = rw h

pub in_degrees-counted :
    (edges : List Edge) (degrees : Degrees) (k : String → ℕ)
    → ((x : String) → degrees x ≡ pos (k x))
    → (x : String) → in_degrees edges degrees x ≡ pos (k x + waiting edges [] x)
unfolding in_degrees
in_degrees-counted [] degrees k h x = h x ∙ ap pos (omega arith)
in_degrees-counted (e ∷ es) degrees k h x =
    in_degrees-counted es (add_degree e.to_node (pos 1) degrees)
      (λ y. k y + (if e.to_node == y then 1 else 0)) more x
    ∙ ap pos (ground arith)
  where
    more :
        (y : String)
        → add_degree e.to_node (pos 1) degrees y ≡ pos (k y + (if e.to_node == y then 1 else 0))
    more y = elim (Bool-cases (e.to_node == y)) [
      | inl t ↦ rw t (ap (λ z. z +ℤ pos 1) (h y) ∙ up (k y))
      | inr f ↦ rw f (h y ∙ ap pos (omega arith))
    ]
