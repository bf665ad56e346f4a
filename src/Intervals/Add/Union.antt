-- ===== src/Intervals/Add/Union.antt =====
-- add_interval, `|=` and `|` keep the invariant and give the union of the points.
use network_config_analyzer.Prelude.{ℕ, ◌+◌, ◌≤◌, ◌≡◌, refl, ap, ◌||◌, [], ◌∷◌, arith}
use network_config_analyzer.Prelude.Outcome.{ok, ◌>>=◌}
use network_config_analyzer.Intervals.Interval.{Interval, inside, copy}
use network_config_analyzer.Intervals.Canonical.{IntervalSet, Chain, IsProper, covers, IsCanonical}
use network_config_analyzer.Intervals.Add.{
  add_interval, union, union_in_place, copy_set, get_interval_set,
}
use network_config_analyzer.Intervals.Add.Merge.{absorb, merge_in, hull, add_interval-merge_in}

pub Chain-weaken : (low high : ℕ) (xs : IntervalSet) → low ≤ high → Chain high xs → Chain low xs
Chain-weaken low high [] h c = tt
Chain-weaken low high (i ∷ xs) h c = (omega arith, c.1, c.2)

absorb-Chain :
    (low : ℕ) (q : Interval) (xs : IntervalSet)
    → low ≤ q.start
    → IsProper q
    → Chain low xs
    → Chain low (absorb q xs)
unfolding absorb
absorb-Chain low q [] h p c = (h, p, tt)
absorb-Chain low q (i ∷ xs) h p c =
    ground (arith, absorb-Chain low (hull q i) xs, Chain-weaken low (i.end + 2) xs)

merge_in-Chain :
    (low : ℕ) (q : Interval) (xs : IntervalSet)
    → low ≤ q.start
    → IsProper q
    → Chain low xs
    → Chain low (merge_in q xs)
unfolding merge_in
merge_in-Chain low q [] h p c = (h, p, tt)
merge_in-Chain low q (i ∷ xs) h p c =
    ground (arith, merge_in-Chain (i.end + 2) q xs, absorb-Chain low q (i ∷ xs))

covers-absorb :
    (low : ℕ) (q : Interval) (xs : IntervalSet) (n : ℕ)
    → q.start ≤ low + 1
    → IsProper q
    → Chain low xs
    → covers (absorb q xs) n ≡ (inside q n || covers xs n)
unfolding absorb
covers-absorb low q [] n h p c = refl
covers-absorb low q (i ∷ xs) n h p c = ground (arith, covers-absorb (i.end + 2) (hull q i) xs n)

covers-merge_in :
    (low : ℕ) (q : Interval) (xs : IntervalSet) (n : ℕ)
    → IsProper q
    → Chain low xs
    → covers (merge_in q xs) n ≡ (inside q n || covers xs n)
unfolding merge_in absorb
covers-merge_in low q [] n p c = refl
covers-merge_in low q (i ∷ xs) n p c =
    ground (arith, covers-merge_in (i.end + 2) q xs n, covers-absorb (i.end + 2) (hull q i) xs n)

-- add_interval on a canonical set and a proper interval returns, and its result is canonical and
-- holds the points of the set and those of the interval.
pub add_interval-IsCanonical :
    (xs : IntervalSet) (q : Interval)
    → IsCanonical xs
    → IsProper q
    → (ys : IntervalSet) × (add_interval xs q ≡ ok ys)
      × IsCanonical ys
      × ((n : ℕ) → covers ys n ≡ (covers xs n || inside q n))
add_interval-IsCanonical xs q c p = (
  merge_in q xs,
  add_interval-merge_in 0 xs q c p,
  merge_in-Chain 0 q xs (omega arith) p c,
  λ n. ground (arith, covers-merge_in 0 q xs n p c),
)

pub copy_set_lem : (xs : IntervalSet) → copy_set xs ≡ xs
unfolding copy_set copy
copy_set_lem [] = refl
copy_set_lem (i ∷ xs) = ap (◌∷◌ i) (copy_set_lem xs)

pub union_in_place-IsCanonical :
    (xs other : IntervalSet) (low : ℕ)
    → IsCanonical xs
    → Chain low other
    → (ys : IntervalSet) × (union_in_place xs other ≡ ok ys)
      × IsCanonical ys
      × ((n : ℕ) → covers ys n ≡ (covers xs n || covers other n))
unfolding union_in_place
union_in_place-IsCanonical xs [] low c d = (xs, refl, c, λ n. ground arith)
union_in_place-IsCanonical xs (i ∷ other) low c d =
    let (ys, e, k, cov) = add_interval-IsCanonical xs i c d.1 in
    let (zs, f, m, cov') = union_in_place-IsCanonical ys other (i.end + 2) k d.2 in
    (zs, rw (e, ◌>>=◌) f, m, λ n. ground (arith, cov n, cov' n))

-- `self | other` on canonical sets returns a canonical set that holds the points of both.
pub union-IsCanonical :
    (xs other : IntervalSet)
    → IsCanonical xs
    → IsCanonical other
    → (ys : IntervalSet) × (union xs other ≡ ok ys)
      × IsCanonical ys
      × ((n : ℕ) → covers ys n ≡ (covers xs n || covers other n))
unfolding union
union-IsCanonical xs other c d = rw (copy_set_lem xs) (union_in_place-IsCanonical xs other 0 c d)

-- The one-interval set holds exactly the points of its interval.
pub get_interval_set-IsCanonical :
    (start end : ℕ)
    → start ≤ end
    → (ys : IntervalSet) × (get_interval_set start end ≡ ok ys)
      × IsCanonical ys
      × ((n : ℕ) → covers ys n ≡ inside (record { start = start; end = end }) n)
unfolding get_interval_set
get_interval_set-IsCanonical start end h =
    (record { start = start; end = end } ∷ [], refl, (omega arith, h, tt), λ n. ground arith)
