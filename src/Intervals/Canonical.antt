-- ===== src/Intervals/Canonical.antt =====
-- The class invariant of CanonicalIntervalSet and the set of points that a list of intervals holds.
-- An object of the class has one attribute, `interval_set`, so it is that list.
use network_config_analyzer.Prelude.{ℕ, ◌+◌, ◌≤◌, ◌≡◌, Bool, false, ◌||◌, List, [], ◌∷◌}
use network_config_analyzer.Intervals.Interval.{Interval, inside}

abbrev pub IntervalSet : Type 0
IntervalSet = List Interval

-- A point lies in one of the intervals.
abbrev pub covers : IntervalSet → ℕ → Bool
covers [] n = false
covers (i ∷ xs) n = inside i n || covers xs n

abbrev pub IsProper : Interval → Type 0
IsProper i = i.start ≤ i.end

-- Proper intervals in ascending order from `low` up, with a gap between neighbours: e1 + 1 < s2.
abbrev pub Chain : ℕ → IntervalSet → Type 0
Chain low [] = Unit {0}
Chain low (i ∷ xs) = (low ≤ i.start) × IsProper i × Chain (i.end + 2) xs

abbrev pub IsCanonical : IntervalSet → Type 0
IsCanonical xs = Chain 0 xs

-- Two sets hold the same points.
abbrev pub SamePoints : IntervalSet → IntervalSet → Type 0
SamePoints xs ys = (n : ℕ) → covers xs n ≡ covers ys n
