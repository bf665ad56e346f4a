-- ===== src/Examples/Intervals.antt =====
-- CanonicalIntervalSet on concrete sets.
use network_config_analyzer.Prelude.{
  ℕ, ◌≡◌, refl, ◌↔◌, Bool, true, some, [], ◌∷◌, ◌&&◌, ◌||◌, not, arith,
}
use network_config_analyzer.Prelude.Outcome.{ok}
use network_config_analyzer.Intervals.Interval.{Interval, inside, minus}
use network_config_analyzer.Intervals.Interval.Points.{covers-minus}
use network_config_analyzer.Intervals.Canonical.{IntervalSet, IsCanonical, SamePoints, covers}
use network_config_analyzer.Intervals.Search.{find_interval_left, find_interval_right}
use network_config_analyzer.Intervals.Search.Position.{
  lower_count, before, find_interval_left-before,
}
use network_config_analyzer.Intervals.Add.{add_interval, union}
use network_config_analyzer.Intervals.Add.Merge.{merge_in, add_interval-merge_in}
use network_config_analyzer.Intervals.Add.Union.{add_interval-IsCanonical, union-IsCanonical}
use network_config_analyzer.Intervals.Sets.{
  add_hole, contained_in, difference, intersection, overlaps, set_eq,
}
use network_config_analyzer.Intervals.Sets.Difference.{add_hole-IsCanonical, difference-IsCanonical}
use network_config_analyzer.Intervals.Sets.Intersection.{intersection-IsCanonical, overlaps_iff}
use network_config_analyzer.Intervals.Sets.Containment.{IsWithin, contained_in_iff}
use network_config_analyzer.Intervals.Sets.Equality.{set_eq_iff_SamePoints}

abbrev span : ℕ → ℕ → Interval
span start end = record { start = start; end = end }

abbrev ports : IntervalSet
ports = span 1 80 ∷ span 443 443 ∷ span 8000 9000 ∷ []

abbrev others : IntervalSet
others = span 80 443 ∷ span 9500 9600 ∷ []

ports-IsCanonical : IsCanonical ports
ports-IsCanonical = omega arith

others-IsCanonical : IsCanonical others
others-IsCanonical = omega arith

find_left_runs : find_interval_left ports (span 445 500) ≡ ok (some 1)
unfolding find_interval_left
find_left_runs = refl

find_right_runs : find_interval_right ports (span 445 500) ≡ ok (some 2)
unfolding find_interval_right
find_right_runs = refl

-- 444 touches 443: the two become one interval.
add_touching :
    add_interval ports (span 444 500) ≡ ok (span 1 80 ∷ span 443 500 ∷ span 8000 9000 ∷ [])
unfolding add_interval find_interval_left find_interval_right
add_touching = refl

add_over : add_interval ports (span 50 8500) ≡ ok (span 1 9000 ∷ [])
unfolding add_interval find_interval_left find_interval_right
add_over = refl

hole_inside :
    add_hole ports (span 8100 8200)
    ≡ span 1 80 ∷ span 443 443 ∷ span 8000 8099 ∷ span 8201 9000 ∷ []
unfolding add_hole minus
hole_inside = refl

add_interval-merge_in_example :
    add_interval ports (span 444 500) ≡ ok (merge_in (span 444 500) ports)
add_interval-merge_in_example =
    add_interval-merge_in 0 ports (span 444 500) ports-IsCanonical (omega arith)

add_interval-IsCanonical_example :
    (ys : IntervalSet) × (add_interval ports (span 444 500) ≡ ok ys)
    × IsCanonical ys
    × ((n : ℕ) → covers ys n ≡ (covers ports n || inside (span 444 500) n))
add_interval-IsCanonical_example =
    add_interval-IsCanonical ports (span 444 500) ports-IsCanonical (omega arith)

union-IsCanonical_example :
    (ys : IntervalSet) × (union ports others ≡ ok ys)
    × IsCanonical ys
    × ((n : ℕ) → covers ys n ≡ (covers ports n || covers others n))
union-IsCanonical_example = union-IsCanonical ports others ports-IsCanonical others-IsCanonical

intersection-IsCanonical_example :
    IsCanonical (intersection ports others)
    × ((n : ℕ) → covers (intersection ports others) n ≡ (covers ports n && covers others n))
intersection-IsCanonical_example =
    intersection-IsCanonical ports others ports-IsCanonical others-IsCanonical

difference-IsCanonical_example :
    IsCanonical (difference ports others)
    × ((n : ℕ) → covers (difference ports others) n ≡ (covers ports n && not (covers others n)))
difference-IsCanonical_example =
    difference-IsCanonical ports others ports-IsCanonical others-IsCanonical

add_hole-IsCanonical_example :
    IsCanonical (add_hole ports (span 60 8100))
    × ((n : ℕ)
        → covers (add_hole ports (span 60 8100)) n
          ≡ (covers ports n && not (inside (span 60 8100) n)))
add_hole-IsCanonical_example =
    add_hole-IsCanonical ports (span 60 8100) ports-IsCanonical (omega arith)

set_eq_iff_SamePoints_example : (set_eq ports others ≡ true) ↔ SamePoints ports others
set_eq_iff_SamePoints_example =
    set_eq_iff_SamePoints ports others ports-IsCanonical others-IsCanonical

contained_in_iff_example :
    (b : Bool) × (contained_in others ports ≡ ok b) × ((b ≡ true) ↔ IsWithin others ports)
contained_in_iff_example = contained_in_iff others ports others-IsCanonical ports-IsCanonical

overlaps_iff_example :
    (overlaps ports others ≡ true) ↔ ((n : ℕ) × ((covers ports n && covers others n) ≡ true))
overlaps_iff_example = overlaps_iff ports others ports-IsCanonical others-IsCanonical

find_interval_left-before_example :
    find_interval_left ports (span 445 500) ≡ ok (before (lower_count ports (span 445 500)))
find_interval_left-before_example =
    find_interval_left-before 0 ports (span 445 500) ports-IsCanonical

covers-minus_example :
    covers (minus (span 1 9) (span 4 5)) 5 ≡ (inside (span 1 9) 5 && not (inside (span 4 5) 5))
covers-minus_example = covers-minus (span 1 9) (span 4 5) 5
