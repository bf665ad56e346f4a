-- ===== src/Prelude/Outcome.antt =====
-- What a Python call does: it returns a value or raises. Loops run on fuel, and running out of it
-- is an outcome of its own, which the theorems on the loops exclude.
use Prim.Native.Nat.{ℕ, zero, suc, ◌<◌}
use mathlib.Core.Path.{◌≡◌, refl}
use mathlib.Core.Bool.{Bool, true, false}
use mathlib.Core.List.{List, [], ◌∷◌}
use native.Mathlib.Omega.{arith}
use network_config_analyzer.Prelude.Lists.{length, get_or}

pub data Exn : Type 0 where
  index_error key_error value_error assertion_error exception out_of_fuel : Exn

pub data Outcome {ℓ} (A : Type ℓ) : Type ℓ where
  ok : A → Outcome A
  raised : Exn → Outcome A

infixl 5 ◌>>=◌
abbrev pub ◌>>=◌ {ℓ κ} : {A : Type ℓ} {B : Type κ} → Outcome A → (A → Outcome B) → Outcome B
ok a >>= f = f a
raised e >>= f = raised e

infixl 5 ◌>>◌
abbrev pub ◌>>◌ {ℓ} : {B : Type ℓ} → Outcome (Unit {0}) → Outcome B → Outcome B
m >> k = m >>= λ _. k

-- `assert b`
abbrev pub assert : Bool → Outcome (Unit {0})
assert true = ok tt
assert false = raised Exn.assertion_error

module _ {ℓ} {A : Type ℓ} where
  -- `xs[i]` for an index that is not negative.
  abbrev pub item : List A → ℕ → Outcome A
  item [] i = raised Exn.index_error
  item (x ∷ xs) zero = ok x
  item (x ∷ xs) (suc i) = item xs i

  pub item-get_or : (xs : List A) (i : ℕ) (d : A) → i < length xs → item xs i ≡ ok (get_or xs i d)
  item-get_or [] i d h = absurd (omega arith)
  item-get_or (x ∷ xs) zero d h = refl
  item-get_or (x ∷ xs) (suc i) d h = item-get_or xs i d (omega arith)
