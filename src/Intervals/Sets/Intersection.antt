-- ===== src/Intervals/Sets/Intersection.antt =====
-- `&` keeps the invariant and gives the intersection; overlaps tells whether it has a point.
use network_config_analyzer.Prelude.{
  ℕ, ◌+◌, ◌≤◌, ◌≡◌, refl, ◌&&◌, [], ◌∷◌, ◌++◌, arith, true, false, max, min, if_intro, ltb, ◌↔◌,
  Bool-cases, inl, inr,
}
use network_config_analyzer.Intervals.Interval.{Interval, inside, meet}
use network_config_analyzer.Intervals.Interval
use network_config_analyzer.Intervals.Interval.Points.{covers-meet}
use network_config_analyzer.Intervals.Canonical.{IntervalSet, Chain, IsProper, covers, IsCanonical}
use network_config_analyzer.Intervals.Add.Union.{Chain-weaken}
use network_config_analyzer.Intervals.Sets.{meet_all, intersection, overlaps, overlaps_any}
use network_config_analyzer.Intervals.Sets.Difference.{covers-append}

covers-meet_all :
    (i : Interval) (ys : IntervalSet) (n : ℕ)
    → covers (meet_all i ys) n ≡ (inside i n && covers ys n)
unfolding meet_all
covers-meet_all i [] n = ground arith
covers-meet_all i (j ∷ ys) n =
    ground
      (arith, covers-append (meet i j) (meet_all i ys) n, covers-meet i j n, covers-meet_all i ys n)

pub covers-intersection :
    (xs ys : IntervalSet) (n : ℕ) → covers (intersection xs ys) n ≡ (covers xs n && covers ys n)
unfolding intersection
covers-intersection [] ys n = refl
covers-intersection (i ∷ xs) ys n = ground (
  arith,
  covers-append (meet_all i ys) (intersection xs ys) n,
  covers-meet_all i ys n,
  covers-intersection xs ys n,
)

-- The pieces of `i` in `ys` can stand in front of what follows `i`.
meet_all-append-Chain :
    (low from : ℕ) (i : Interval) (ys rest : IntervalSet)
    → low ≤ max i.start from
    → low ≤ i.end + 2
    → Chain from ys
    → Chain (i.end + 2) rest
    → Chain low (meet_all i ys ++ rest)
unfolding meet_all meet
meet_all-append-Chain low from i [] rest h k c d = Chain-weaken low (i.end + 2) rest k d
meet_all-append-Chain low from i (j ∷ ys) rest h k c d =
    if_intro (λ l. Chain low ((l ++ meet_all i ys) ++ rest))
      (ltb (min i.end j.end) (max i.start j.start))
      (λ e. meet_all-append-Chain low (j.end + 2) i ys rest (ground (arith, c.1)) k c.2 d)
      (λ e. (
        ground arith,
        ground arith,
        meet_all-append-Chain (min i.end j.end + 2) (j.end + 2) i ys rest (omega arith)
            (omega arith) c.2 d,
      ))

intersection-Chain :
    (low : ℕ) (xs ys : IntervalSet) → Chain low xs → IsCanonical ys → Chain low (intersection xs ys)
unfolding intersection
intersection-Chain low [] ys c d = tt
intersection-Chain low (i ∷ xs) ys c d =
    meet_all-append-Chain low 0 i ys (intersection xs ys) (omega arith) (omega arith) d
      (intersection-Chain (i.end + 2) xs ys c.2 d)

-- `self & other` on canonical sets is canonical and holds the points that are in both.
pub intersection-IsCanonical :
    (xs other : IntervalSet)
    → IsCanonical xs
    → IsCanonical other
    → IsCanonical (intersection xs other)
      × ((n : ℕ) → covers (intersection xs other) n ≡ (covers xs n && covers other n))
intersection-IsCanonical xs other c d =
    (intersection-Chain 0 xs other c d, covers-intersection xs other)

overlaps_any_sound :
    (i : Interval) (ys : IntervalSet) (n : ℕ)
    → overlaps_any i ys ≡ false
    → (inside i n && covers ys n) ≡ false
unfolding overlaps_any Interval.overlaps
overlaps_any_sound i [] n e = ground arith
overlaps_any_sound i (j ∷ ys) n e = ground (arith, overlaps_any_sound i ys n)

overlaps_sound :
    (xs ys : IntervalSet) (n : ℕ) → overlaps xs ys ≡ false → (covers xs n && covers ys n) ≡ false
unfolding overlaps
overlaps_sound [] ys n e = refl
overlaps_sound (i ∷ xs) ys n e = ground (arith, overlaps_any_sound i ys n, overlaps_sound xs ys n)

overlaps_any-point :
    (low : ℕ) (i : Interval) (ys : IntervalSet)
    → IsProper i
    → Chain low ys
    → overlaps_any i ys ≡ true
    → (n : ℕ) × ((inside i n && covers ys n) ≡ true)
unfolding overlaps_any Interval.overlaps
overlaps_any-point low i [] p d e = cc
overlaps_any-point low i (j ∷ ys) p d e = elim (Bool-cases (Interval.overlaps i j)) [
  | inl o ↦ (max i.start j.start, ground arith)
  | inr o ↦
      let (n, h) = overlaps_any-point (j.end + 2) i ys p d.2 (ground arith) in (n, ground arith)
]

overlaps-point :
    (low high : ℕ) (xs ys : IntervalSet)
    → Chain low xs
    → Chain high ys
    → overlaps xs ys ≡ true
    → (n : ℕ) × ((covers xs n && covers ys n) ≡ true)
unfolding overlaps
overlaps-point low high [] ys c d e = cc
overlaps-point low high (i ∷ xs) ys c d e = elim (Bool-cases (overlaps_any i ys)) [
  | inl o ↦ let (n, h) = overlaps_any-point high i ys c.1 d o in (n, ground arith)
  | inr o ↦
      let (n, h) = overlaps-point (i.end + 2) high xs ys c.2 d (ground arith) in (n, ground arith)
]

-- On canonical sets overlaps answers true exactly when some point is in both, and the point is
-- found.
pub overlaps_iff :
    (xs ys : IntervalSet)
    → IsCanonical xs
    → IsCanonical ys
    → (overlaps xs ys ≡ true) ↔ ((n : ℕ) × ((covers xs n && covers ys n) ≡ true))
overlaps_iff xs ys c d = (
  overlaps-point 0 0 xs ys c d,
  λ w. elim (Bool-cases (overlaps xs ys)) [
    | inl o ↦ o
    | inr o ↦
        let e : (covers xs w.0 && covers ys w.0) ≡ false = overlaps_sound xs ys w.0 o in
        absurd (ground (arith, w.1))
  ],
)
