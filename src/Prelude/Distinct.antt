-- ===== src/Prelude/Distinct.antt =====
-- Rows of which no two clash, as primary keys and UNIQUE constraints want them.
use flying_shuttle.Prelude.Lists.{
  All, All-imp, All-select, All-append, All-any, any, any-false, select,
}
use flying_shuttle.Prelude.Sort.{insert_by, sort_by, All-insert_by, All-sort_by}
use flying_shuttle.Prelude.Tests.{Bool-cases}
use mathlib.Core.Path.{◌≡◌, refl, ◌∙◌}
use mathlib.Core.Logic.{inl, inr}
use mathlib.Core.Bool.{Bool, true, false}
use mathlib.Core.List.{List, [], ◌∷◌, ◌++◌, map}
use native.Mathlib.Omega.{arith}

module _ {ℓ} {A : Type ℓ} (clash : A → A → Bool) where
  abbrev pub Distinct : List A → Type 0
  Distinct [] = Unit
  Distinct (x ∷ xs) = All (λ y. clash x y ≡ false) xs × Distinct xs

  pub Distinct-select : (p : A → Bool) (xs : List A) → Distinct xs → Distinct (select p xs)
  Distinct-select p [] h = tt
  Distinct-select p (x ∷ xs) h = elim (Bool-cases (p x)) [
    | inl e ↦ rw e (All-select (λ y. clash x y ≡ false) p xs h.0, Distinct-select p xs h.1)
    | inr e ↦ rw e (Distinct-select p xs h.1)
  ]

  pub Distinct-append :
      (xs ys : List A)
      → Distinct xs
      → Distinct ys
      → All (λ x. All (λ y. clash x y ≡ false) ys) xs
      → Distinct (xs ++ ys)
  Distinct-append [] ys h k c = k
  Distinct-append (x ∷ xs) ys h k c =
      (All-append (λ y. clash x y ≡ false) xs ys h.0 c.0, Distinct-append xs ys h.1 k c.1)

module _ {ℓ} {A : Type ℓ} (clash : A → A → Bool)
    (symmetric : (x y : A) → clash x y ≡ clash y x) where
  -- A row that clashes with none goes to the end.
  pub Distinct-snoc :
      (x : A) (xs : List A)
      → Distinct clash xs
      → any (clash x) xs ≡ false
      → Distinct clash (xs ++ x ∷ [])
  Distinct-snoc x xs h e =
      Distinct-append clash xs (x ∷ []) h (tt, tt)
        (All-imp (λ y c. (symmetric y x ∙ c, tt)) xs (any-false (clash x) xs e))

  pub Distinct-insert_by :
      (le : A → A → Bool) (x : A) (xs : List A)
      → Distinct clash xs
      → All (λ y. clash x y ≡ false) xs
      → Distinct clash (insert_by le x xs)
  unfolding insert_by
  Distinct-insert_by le x [] h c = (tt, tt)
  Distinct-insert_by le x (y ∷ ys) h c = elim (Bool-cases (le x y)) [
    | inl e ↦ rw e (c, h)
    | inr e ↦ rw e (
      All-insert_by le (λ z. clash y z ≡ false) x ys (symmetric y x ∙ c.0) h.0,
      Distinct-insert_by le x ys h.1 c.1,
    )
  ]

  pub Distinct-sort_by :
      (le : A → A → Bool) (xs : List A) → Distinct clash xs → Distinct clash (sort_by le xs)
  unfolding sort_by
  Distinct-sort_by le [] h = tt
  Distinct-sort_by le (x ∷ xs) h =
      Distinct-insert_by le x (sort_by le xs) (Distinct-sort_by le xs h.1)
        (All-sort_by le (λ y. clash x y ≡ false) xs h.0)

-- A change of the rows that keeps their keys.
module _ {ℓ κ} {A : Type ℓ} {B : Type κ} (g : A → B) where
  pub any-map :
      (p : B → Bool) (q : A → Bool)
      → ((x : A) → p (g x) ≡ q x)
      → (xs : List A) → any p (map g xs) ≡ any q xs
  any-map p q e [] = refl
  any-map p q e (x ∷ xs) = ground (arith, e x, any-map p q e xs)

  -- A change that makes no two rows clash, of rows with the property P.
  module _ {ι} {P : A → Type ι} (clash : A → A → Bool) (clash' : B → B → Bool)
      (apart : (x y : A) → P x → P y → clash x y ≡ false → clash' (g x) (g y) ≡ false) where
    All-apart :
        (x : A) (xs : List A)
        → P x
        → All P xs
        → All (λ y. clash x y ≡ false) xs
        → All (λ y. clash' (g x) y ≡ false) (map g xs)
    All-apart x [] p ps h = tt
    All-apart x (y ∷ ys) p ps h = (apart x y p ps.0 h.0, All-apart x ys p ps.1 h.1)

    pub Distinct-map : (xs : List A) → All P xs → Distinct clash xs → Distinct clash' (map g xs)
    Distinct-map [] ps h = tt
    Distinct-map (x ∷ xs) ps h = (All-apart x xs ps.0 ps.1 h.0, Distinct-map xs ps.1 h.1)

-- A change that keeps which rows clash.
module _ {ℓ} {A : Type ℓ} (clash : A → A → Bool) (g : A → A)
    (same : (x y : A) → clash (g x) (g y) ≡ clash x y) where
  pub Distinct-same : (xs : List A) → Distinct clash xs → Distinct clash (map g xs)
  Distinct-same xs =
      Distinct-map g {P = λ _. Unit {0}} clash clash (λ x y _ _ h. same x y ∙ h) xs (All-any xs)

module _ {ℓ} {A : Type ℓ} where
  -- Some item passes p still, where the selection keeps what passes p.
  pub any-select :
      (p q : A → Bool)
      → ((x : A) → p x ≡ true → q x ≡ true)
      → (xs : List A) → any p (select q xs) ≡ any p xs
  any-select p q e [] = refl
  any-select p q e (x ∷ xs) = elim (Bool-cases (q x)) [
    | inl t ↦ rw t (ground (arith, any-select p q e xs))
    | inr f ↦ rw f (ground (arith, any-select p q e xs, e x))
  ]
