-- ===== src/Intervals/Sets/Difference.antt =====
-- add_hole, `-=` and `-` keep the invariant and give the difference of the points.
use network_config_analyzer.Prelude.{
  ℕ, ◌+◌, ◌≤◌, ◌≡◌, refl, not, ◌&&◌, ◌||◌, [], ◌∷◌, ◌++◌, arith, if_intro, ltb, min, ◌-◌,
}
use network_config_analyzer.Intervals.Interval.{Interval, inside, minus, overlaps, is_subset}
use network_config_analyzer.Intervals.Interval.Points.{covers-minus}
use network_config_analyzer.Intervals.Canonical.{IntervalSet, Chain, IsProper, covers, IsCanonical}
use network_config_analyzer.Intervals.Add.Union.{Chain-weaken, copy_set_lem}
use network_config_analyzer.Intervals.Sets.{add_hole, difference, difference_in_place}

pub covers-append :
    (xs ys : IntervalSet) (n : ℕ) → covers (xs ++ ys) n ≡ (covers xs n || covers ys n)
covers-append [] ys n = refl
covers-append (i ∷ xs) ys n = ground (arith, covers-append xs ys n)

-- What `-` leaves of an interval can stand in front of what follows the interval.
minus-append-Chain :
    (low : ℕ) (i hole : Interval) (rest : IntervalSet)
    → low ≤ i.start
    → IsProper i
    → IsProper hole
    → Chain (i.end + 2) rest
    → Chain low (minus i hole ++ rest)
unfolding minus
minus-append-Chain low i hole rest h p q c =
    let Fits = λ (l : IntervalSet). Chain low (l ++ rest) in
    if_intro Fits (overlaps i hole)
      (λ o.
        if_intro Fits (is_subset i hole) (λ s. Chain-weaken low (i.end + 2) rest (omega arith) c)
          (λ s.
            if_intro Fits (ltb i.start hole.start && ltb hole.end i.end) (λ t. ground arith)
              (λ t.
                if_intro Fits (ltb i.start hole.start)
                  (λ u.
                    ground (arith, Chain-weaken (min i.end (hole.start - 1) + 2) (i.end + 2) rest))
                  (λ u. ground arith))))
      (λ o. (h, p, c))

pub add_hole-Chain :
    (low : ℕ) (xs : IntervalSet) (hole : Interval)
    → Chain low xs
    → IsProper hole
    → Chain low (add_hole xs hole)
unfolding add_hole
add_hole-Chain low [] hole c p = c
add_hole-Chain low (i ∷ xs) hole c p =
    minus-append-Chain low i hole (add_hole xs hole) c.0 c.1 p
      (add_hole-Chain (i.end + 2) xs hole c.2 p)

-- add_hole removes exactly the points of the hole, from any list of intervals.
pub covers-add_hole :
    (xs : IntervalSet) (hole : Interval) (n : ℕ)
    → covers (add_hole xs hole) n ≡ (covers xs n && not (inside hole n))
unfolding add_hole
covers-add_hole [] hole n = refl
covers-add_hole (i ∷ xs) hole n = ground (
  arith,
  covers-append (minus i hole) (add_hole xs hole) n,
  covers-minus i hole n,
  covers-add_hole xs hole n,
)

-- On a canonical set and a proper hole, add_hole keeps the invariant and removes exactly the
-- points of the hole.
pub add_hole-IsCanonical :
    (xs : IntervalSet) (hole : Interval)
    → IsCanonical xs
    → IsProper hole
    → IsCanonical (add_hole xs hole)
      × ((n : ℕ) → covers (add_hole xs hole) n ≡ (covers xs n && not (inside hole n)))
add_hole-IsCanonical xs hole c p = (add_hole-Chain 0 xs hole c p, covers-add_hole xs hole)

difference_in_place-IsCanonical :
    (xs other : IntervalSet) (low : ℕ)
    → IsCanonical xs
    → Chain low other
    → IsCanonical (difference_in_place xs other)
unfolding difference_in_place
difference_in_place-IsCanonical xs [] low c d = c
difference_in_place-IsCanonical xs (i ∷ other) low c d =
    difference_in_place-IsCanonical (add_hole xs i) other (i.end + 2) (add_hole-Chain 0 xs i c d.1)
      d.2

covers-difference_in_place :
    (xs other : IntervalSet) (n : ℕ)
    → covers (difference_in_place xs other) n ≡ (covers xs n && not (covers other n))
unfolding difference_in_place
covers-difference_in_place xs [] n = ground arith
covers-difference_in_place xs (i ∷ other) n =
    ground (arith, covers-difference_in_place (add_hole xs i) other n, covers-add_hole xs i n)

pub covers-difference :
    (xs other : IntervalSet) (n : ℕ)
    → covers (difference xs other) n ≡ (covers xs n && not (covers other n))
unfolding difference
covers-difference xs other n = rw (copy_set_lem xs) (covers-difference_in_place xs other n)

-- `self - other` on canonical sets is canonical and holds the points of the first that are not
-- in the second.
pub difference-IsCanonical :
    (xs other : IntervalSet)
    → IsCanonical xs
    → IsCanonical other
    → IsCanonical (difference xs other)
      × ((n : ℕ) → covers (difference xs other) n ≡ (covers xs n && not (covers other n)))
unfolding difference
difference-IsCanonical xs other c d = (
  unfold difference in rw (copy_set_lem xs) (difference_in_place-IsCanonical xs other 0 c d),
  covers-difference xs other,
)
