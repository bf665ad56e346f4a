-- ===== src/Intervals/Interval.antt =====
-- CanonicalIntervalSet.Interval. Points are natural numbers, so `-` stops at 0: the source writes
-- `other.start - 1` only where `self.start < other.start`, hence never below 0.
pub mod Points
use network_config_analyzer.Prelude.{
  ℕ, ◌+◌, ◌-◌, min, max, Bool, false, ◌&&◌, ◌||◌, List, [], ◌∷◌, ltb, leb, ◌==◌, if◌then◌else◌,
}

pub record Interval : Type 0 where
  pub start : ℕ
  pub end : ℕ

-- `self == other`
abbrev pub interval_eq : Interval → Interval → Bool
interval_eq i j = i.start == j.start && i.end == j.end

-- `self < other`
unfoldable pub interval_lt : Interval → Interval → Bool
interval_lt i j = ltb i.start j.start || i.start == j.start && ltb i.end j.end

-- `item in self`
abbrev pub inside : Interval → ℕ → Bool
inside i item = leb i.start item && leb item i.end

unfoldable pub overlaps : Interval → Interval → Bool
overlaps i j = leb i.start j.end && leb j.start i.end

unfoldable pub touches : Interval → Interval → Bool
touches i j =
    if ltb j.end i.start
    then i.start == j.end + 1
    else if ltb i.end j.start
    then j.start == i.end + 1
    else false

unfoldable pub is_subset : Interval → Interval → Bool
is_subset i j = leb j.start i.start && leb i.end j.end

unfoldable pub is_single_value : Interval → Bool
is_single_value i = i.start == i.end

unfoldable pub copy : Interval → Interval
copy i = record { start = i.start; end = i.end }

-- `self & other`
unfoldable pub meet : Interval → Interval → List Interval
meet i j =
    let max_start = max i.start j.start in
    let min_end = min i.end j.end in
    if ltb min_end max_start then [] else record { start = max_start; end = min_end } ∷ []

-- `self | other`
unfoldable pub join : Interval → Interval → List Interval
unfolding is_subset overlaps touches copy
join i j =
    if is_subset i j
    then copy j ∷ []
    else if is_subset j i
    then copy i ∷ []
    else if overlaps i j || touches i j
    then record { start = min i.start j.start; end = max i.end j.end } ∷ []
    else copy i ∷ copy j ∷ []

-- `self - other`
unfoldable pub minus : Interval → Interval → List Interval
unfolding is_subset overlaps
minus i j =
    if overlaps i j
    then (if is_subset i j
        then []
        else if ltb i.start j.start && ltb j.end i.end
        then record { start = i.start; end = j.start - 1 }
          ∷ record { start = j.end + 1; end = i.end }
          ∷ []
        else if ltb i.start j.start
        then record { start = i.start; end = min i.end (j.start - 1) } ∷ []
        else record { start = max i.start (j.end + 1); end = i.end } ∷ [])
    else i ∷ []
