-- ===== src/Prelude/Result.antt =====
-- Errors as values: what an operation of the stores and services returns when it fails.
use Prim.Native.String.{String}
use mathlib.Core.List.{List, [], ◌∷◌}

-- `not_found`, `conflict` and `active_branch` are the sentinels of internal/doc/errors.go, `noop` that
-- of internal/outline/service.go; `constraint` is a statement that SQLite refuses; `missing_node` wraps
-- a failed lookup with the node's id, `unavailable` is a database that cannot carry a statement out, `stack_overflow` is a recursion without end, and the others are the
-- messages of their callers.
pub data Err : Type 0 where
  not_found conflict active_branch noop constraint : Err
  no_corpus cycle thread_required bad_request stack_overflow : Err
  no_segments wrong_count unavailable : Err
  missing_node : String → Err

pub data Result {ℓ} (A : Type ℓ) : Type ℓ where
  ok : A → Result A
  err : Err → Result A

infixl 5 ◌>>=◌
abbrev pub ◌>>=◌ {ℓ κ} : {A : Type ℓ} {B : Type κ} → Result A → (A → Result B) → Result B
ok a >>= f = f a
err e >>= f = err e

-- The rows of a list one after another, up to the first that is refused.
module _ {ℓ κ} {A : Type ℓ} {S : Type κ} (step : A → S → Result S) where
  unfoldable pub each : List A → S → Result S
  each [] s = ok s
  each (x ∷ xs) s = step x s >>= each xs
