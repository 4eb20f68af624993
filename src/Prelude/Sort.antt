-- ===== src/Prelude/Sort.antt =====
-- A stable sort by a Boolean order, for ORDER BY and the sort package.
use Prim.Native.Nat.{suc}
use native.Mathlib.Omega.{arith}
use mathlib.Core.Path.{◌≡◌, refl, ap, ◌∙◌}
use mathlib.Core.Logic.{inl, inr}
use mathlib.Core.Bool.{Bool, true, false, ◌||◌}
use mathlib.Core.List.{List, [], ◌∷◌}
use flying_shuttle.Prelude.Tests.{if◌then◌else◌, Bool-cases}
use flying_shuttle.Prelude.Lists.{All, All-imp, any, length}

module _ {ℓ} {A : Type ℓ} (le : A → A → Bool) where
  unfoldable pub insert_by : A → List A → List A
  insert_by x [] = x ∷ []
  insert_by x (y ∷ ys) = if le x y then x ∷ y ∷ ys else y ∷ insert_by x ys

  -- An item goes before those that it ties with, so items that tie keep their order.
  unfoldable pub sort_by : List A → List A
  unfolding insert_by
  sort_by [] = []
  sort_by (x ∷ xs) = insert_by x (sort_by xs)

  abbrev pub IsSorted : List A → Type 0
  IsSorted [] = Unit
  IsSorted (x ∷ xs) = All (λ y. le x y ≡ true) xs × IsSorted xs

  -- Sorting a sorted list changes nothing.
  pub insert_by-head : (x : A) (xs : List A) → All (λ y. le x y ≡ true) xs → insert_by x xs ≡ x ∷ xs
  unfolding insert_by
  insert_by-head x [] h = refl
  insert_by-head x (y ∷ ys) h = rw h.0

  pub sort_by_sorted : (xs : List A) → IsSorted xs → sort_by xs ≡ xs
  unfolding sort_by
  sort_by_sorted [] h = refl
  sort_by_sorted (x ∷ xs) h = rw (sort_by_sorted xs h.1) (insert_by-head x xs h.0)

module _ {ℓ κ} {A : Type ℓ} (le : A → A → Bool) (P : A → Type κ) where
  pub All-insert_by : (x : A) (xs : List A) → P x → All P xs → All P (insert_by le x xs)
  unfolding insert_by
  All-insert_by x [] p h = (p, tt)
  All-insert_by x (y ∷ ys) p h = elim (Bool-cases (le x y)) [
    | inl e ↦ rw e (p, h)
    | inr e ↦ rw e (h.0, All-insert_by x ys p h.1)
  ]

  pub All-sort_by : (xs : List A) → All P xs → All P (sort_by le xs)
  unfolding sort_by
  All-sort_by [] h = tt
  All-sort_by (x ∷ xs) h = All-insert_by x (sort_by le xs) h.0 (All-sort_by xs h.1)

  -- Sorting adds nothing.
  pub All-insert_by_inv : (x : A) (xs : List A) → All P (insert_by le x xs) → P x × All P xs
  unfolding insert_by
  All-insert_by_inv x [] h = h
  All-insert_by_inv x (y ∷ ys) h = elim (Bool-cases (le x y)) [
    | inl e ↦ (rw e at h)
    | inr e ↦
        let k : P y × All P (insert_by le x ys) = (rw e at h) in
        let (p, ps) = All-insert_by_inv x ys k.1 in (p, (k.0, ps))
  ]

  pub All-sort_by_inv : (xs : List A) → All P (sort_by le xs) → All P xs
  unfolding sort_by
  All-sort_by_inv [] h = tt
  All-sort_by_inv (x ∷ xs) h =
      let (p, ps) = All-insert_by_inv x (sort_by le xs) h in (p, All-sort_by_inv xs ps)

-- For a total and transitive order the result is sorted.
module _ {ℓ} {A : Type ℓ} (le : A → A → Bool) where
  pub record IsOrder : Type ℓ where
    pub total : (x y : A) → le x y ≡ false → le y x ≡ true
    pub transitive : (x y z : A) → le x y ≡ true → le y z ≡ true → le x z ≡ true

  pub sort_by-IsSorted : IsOrder → (xs : List A) → IsSorted le (sort_by le xs)
  unfolding sort_by
  sort_by-IsSorted o [] = tt
  sort_by-IsSorted o (x ∷ xs) = put x (sort_by le xs) (sort_by-IsSorted o xs)
    where
      put : (x : A) (ys : List A) → IsSorted le ys → IsSorted le (insert_by le x ys)
      put x [] h = (tt, tt)
      put x (y ∷ ys) h = elim (Bool-cases (le x y)) [
        | inl e ↦ rw e ((e, All-imp (λ z. o.transitive x y z e) ys h.0), h)
        | inr e ↦
            rw e (All-insert_by le (λ z. le y z ≡ true) x ys (o.total x y e) h.0, put x ys h.1)
      ]

  pub sort_by_idem : IsOrder → (xs : List A) → sort_by le (sort_by le xs) ≡ sort_by le xs
  sort_by_idem o xs = sort_by_sorted le (sort_by le xs) (sort_by-IsSorted o xs)

-- Sorting neither drops nor doubles an item.
module _ {ℓ} {A : Type ℓ} (le : A → A → Bool) where
  length-insert_by : (x : A) (xs : List A) → length (insert_by le x xs) ≡ suc (length xs)
  unfolding insert_by
  length-insert_by x [] = refl
  length-insert_by x (y ∷ ys) = ground (arith, length-insert_by x ys)

  pub length-sort_by : (xs : List A) → length (sort_by le xs) ≡ length xs
  unfolding sort_by
  length-sort_by [] = refl
  length-sort_by (x ∷ xs) = length-insert_by x (sort_by le xs) ∙ ap suc (length-sort_by xs)

  any-insert_by :
      (p : A → Bool) (x : A) (xs : List A) → any p (insert_by le x xs) ≡ (p x || any p xs)
  unfolding insert_by
  any-insert_by p x [] = refl
  any-insert_by p x (y ∷ ys) = elim (Bool-cases (le x y)) [
    | inl t ↦ rw t
    | inr f ↦ rw f (ground (arith, any-insert_by p x ys))
  ]

  pub any-sort_by : (p : A → Bool) (xs : List A) → any p (sort_by le xs) ≡ any p xs
  unfolding sort_by
  any-sort_by p [] = refl
  any-sort_by p (x ∷ xs) = any-insert_by p x (sort_by le xs) ∙ ap (λ b. p x || b) (any-sort_by p xs)
