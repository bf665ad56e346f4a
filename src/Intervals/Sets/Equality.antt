-- ===== src/Intervals/Sets/Equality.antt =====
-- Canonical sets are equal exactly when they hold the same points.
use network_config_analyzer.Prelude.{
  ℕ, ◌+◌, ◌≡◌, refl, sym, ap, ap₂, ◌∙◌, ◌↔◌, true, [], ◌∷◌, arith,
}
use network_config_analyzer.Intervals.Interval.{Interval}
use network_config_analyzer.Intervals.Canonical.{
  IntervalSet, Chain, IsProper, covers, IsCanonical, SamePoints,
}
use network_config_analyzer.Intervals.Sets.{set_eq}
use network_config_analyzer.Intervals.Sets.Containment.{covers_below}

set_eq→eq : (xs ys : IntervalSet) → set_eq xs ys ≡ true → xs ≡ ys
unfolding set_eq
set_eq→eq [] [] e = refl
set_eq→eq [] (j ∷ ys) e = cc
set_eq→eq (i ∷ xs) [] e = cc
set_eq→eq (i ∷ xs) (j ∷ ys) e = ground (arith, set_eq→eq xs ys)

set_eq_refl : (xs : IntervalSet) → set_eq xs xs ≡ true
unfolding set_eq
set_eq_refl [] = refl
set_eq_refl (i ∷ xs) = ground (arith, set_eq_refl xs)

-- `==` on interval sets is equality of the lists of intervals.
pub set_eq_iff : (xs ys : IntervalSet) → (set_eq xs ys ≡ true) ↔ (xs ≡ ys)
set_eq_iff xs ys = (set_eq→eq xs ys, λ e. rw e (set_eq_refl ys))

heads-eq :
    (i j : Interval) (xs ys : IntervalSet)
    → IsProper i
    → IsProper j
    → Chain (i.end + 2) xs
    → Chain (j.end + 2) ys
    → SamePoints (i ∷ xs) (j ∷ ys)
    → i ≡ j
heads-eq i j xs ys p q c d same = ground (
  arith,
  same i.start,
  same j.start,
  same (i.end + 1),
  same (j.end + 1),
  covers_below (i.end + 2) xs j.start,
  covers_below (j.end + 2) ys i.start,
  covers_below (i.end + 2) xs (i.end + 1),
  covers_below (j.end + 2) ys (j.end + 1),
)

tails_same :
    (i : Interval) (xs ys : IntervalSet) (n : ℕ)
    → Chain (i.end + 2) xs
    → Chain (i.end + 2) ys
    → covers (i ∷ xs) n ≡ covers (i ∷ ys) n
    → covers xs n ≡ covers ys n
tails_same i xs ys n c d e =
    ground (arith, covers_below (i.end + 2) xs n, covers_below (i.end + 2) ys n)

pub canonical_unique :
    (low high : ℕ) (xs ys : IntervalSet) → Chain low xs → Chain high ys → SamePoints xs ys → xs ≡ ys
canonical_unique low high [] [] c d same = refl
canonical_unique low high [] (j ∷ ys) c d same = absurd (ground (arith, same j.start))
canonical_unique low high (i ∷ xs) [] c d same = absurd (ground (arith, same i.start))
canonical_unique low high (i ∷ xs) (j ∷ ys) c d same =
    let e : i ≡ j = heads-eq i j xs ys c.1 d.1 c.2 d.2 same in
    let d' : Chain (i.end + 2) ys = rw e d.2 in
    ap₂ ◌∷◌ e (
      canonical_unique (i.end + 2) (i.end + 2) xs ys c.2 d'
        (λ n. tails_same i xs ys n c.2 d' (same n ∙ ap (λ k. covers (k ∷ ys) n) (sym e))))

-- `==` on canonical sets answers true exactly when the two sets hold the same points: the
-- representation is canonical.
pub set_eq_iff_SamePoints :
    (xs ys : IntervalSet)
    → IsCanonical xs
    → IsCanonical ys
    → (set_eq xs ys ≡ true) ↔ SamePoints xs ys
set_eq_iff_SamePoints xs ys c d = (
  λ e n. ap (λ l. covers l n) (set_eq→eq xs ys e),
  λ same. (set_eq_iff xs ys).1 (canonical_unique 0 0 xs ys c d same),
)
