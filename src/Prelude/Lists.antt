-- ===== src/Prelude/Lists.antt =====
-- Python lists as lists indexed by native numbers.
use Prim.Native.Nat.{ℕ, zero, suc}
use mathlib.Core.List.{List, [], ◌∷◌}

module _ {ℓ} {A : Type ℓ} where
  abbrev pub length : List A → ℕ
  length [] = 0
  length (x ∷ xs) = suc (length xs)

  abbrev pub take : ℕ → List A → List A
  take zero xs = []
  take (suc n) [] = []
  take (suc n) (x ∷ xs) = x ∷ take n xs

  abbrev pub drop : ℕ → List A → List A
  drop zero xs = xs
  drop (suc n) [] = []
  drop (suc n) (x ∷ xs) = drop n xs

  -- `xs[i]`, and `d` past the end.
  abbrev pub get_or : List A → ℕ → A → A
  get_or [] i d = d
  get_or (x ∷ xs) zero d = x
  get_or (x ∷ xs) (suc i) d = get_or xs i d

  -- `xs.insert(i, a)`, which appends past the end.
  abbrev pub insert : List A → ℕ → A → List A
  insert xs zero a = a ∷ xs
  insert [] (suc i) a = a ∷ []
  insert (x ∷ xs) (suc i) a = x ∷ insert xs i a

  -- `del xs[i:j]`, which deletes nothing when `j <= i`.
  abbrev pub delete : List A → ℕ → ℕ → List A
  delete [] i j = []
  delete (x ∷ xs) i zero = x ∷ xs
  delete (x ∷ xs) zero (suc j) = delete xs zero j
  delete (x ∷ xs) (suc i) (suc j) = x ∷ delete xs i j
