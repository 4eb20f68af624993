-- ===== src/Prelude/Pigeonhole.antt =====
-- A list without repetitions of items of another is no longer than that.
use Prim.Native.Nat.{◌≤◌, ◌<◌}
use mathlib.Core.Path.{◌≡◌}
use mathlib.Core.Bool.{Bool, true, false, not}
use mathlib.Core.List.{List, [], ◌∷◌}
use native.Mathlib.Omega.{arith}
use flying_shuttle.Prelude.Lists.{length, any, select, All, length-select}
use flying_shuttle.Prelude.Distinct.{Distinct, any-select}

module _ {ℓ} {A : Type ℓ} where
  pub length-select_less :
      (p : A → Bool) (xs : List A)
      → any p xs ≡ true
      → length (select (λ x. not (p x)) xs) < length xs
  length-select_less p [] h = absurd (cc h)
  length-select_less p (x ∷ xs) h =
      ground (arith, length-select_less p xs, length-select (λ y. not (p y)) xs)

-- `key a x` says that a stands for x.
module _ {ℓ κ} {A : Type ℓ} {B : Type κ} (clash : A → A → Bool) (key : A → B → Bool)
    (apart : (a b : A) (x : B) → clash a b ≡ false → key b x ≡ true → not (key a x) ≡ true) where
  pub pigeonhole :
      (ys : List A) (xs : List B)
      → Distinct clash ys
      → All (λ a. any (key a) xs ≡ true) ys
      → length ys ≤ length xs
  pigeonhole [] xs d h = omega arith
  pigeonhole (a ∷ ys) xs d h =
      let rest = pigeonhole ys (select (λ x. not (key a x)) xs) d.1 (both ys d.0 h.1) in
      omega (arith, rest, length-select_less (key a) xs h.0)
    where
      both :
          (bs : List A)
          → All (λ b. clash a b ≡ false) bs
          → All (λ b. any (key b) xs ≡ true) bs
          → All (λ b. any (key b) (select (λ x. not (key a x)) xs) ≡ true) bs
      both [] c k = tt
      both (b ∷ bs) c k = (
        rw (any-select (key b) (λ x. not (key a x)) (λ x t. apart a b x c.0 t) xs) k.0,
        both bs c.1 k.1,
      )
