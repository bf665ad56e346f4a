-- ===== src/Intervals/Sets.antt =====
-- The other operations of CanonicalIntervalSet: add_hole, `-`, `&`, containment, overlap, comparison.
pub mod Difference
pub mod Intersection
pub mod Containment
pub mod Equality
use network_config_analyzer.Prelude.{
  ℕ, suc, ◌+◌, Bool, true, false, ◌&&◌, ◌||◌, List, [], ◌∷◌, ◌++◌, ◌==◌, if◌then◌else◌, length, not,
}
use network_config_analyzer.Prelude.Outcome.{Outcome, ok, raised, Exn, ◌>>=◌, item, assert}
use network_config_analyzer.Intervals.Interval
use network_config_analyzer.Intervals.Interval.{
  Interval, meet, minus, is_subset, interval_eq, interval_lt,
}
use network_config_analyzer.Intervals.Canonical.{IntervalSet}
use network_config_analyzer.Intervals.Search.{find_interval_left}
use network_config_analyzer.Intervals.Add.{get_interval_set, copy_set, next_index}

-- `bool(self)`
unfoldable pub is_nonempty : IntervalSet → Bool
is_nonempty [] = false
is_nonempty (i ∷ xs) = true

-- `self == other`
unfoldable pub set_eq : IntervalSet → IntervalSet → Bool
set_eq [] [] = true
set_eq [] (j ∷ ys) = false
set_eq (i ∷ xs) [] = false
set_eq (i ∷ xs) (j ∷ ys) = interval_eq i j && set_eq xs ys

-- `self < other`: Python compares the lists item by item.
unfoldable pub set_lt : IntervalSet → IntervalSet → Bool
unfolding interval_lt
set_lt xs [] = false
set_lt [] (j ∷ ys) = true
set_lt (i ∷ xs) (j ∷ ys) =
    let rest = set_lt xs ys in if interval_eq i j then rest else interval_lt i j

unfoldable pub add_hole : IntervalSet → Interval → IntervalSet
add_hole [] hole = []
add_hole (i ∷ xs) hole = minus i hole ++ add_hole xs hole

-- `self -= other`
unfoldable pub difference_in_place : IntervalSet → IntervalSet → IntervalSet
unfolding add_hole
difference_in_place xs [] = xs
difference_in_place xs (i ∷ other) = difference_in_place (add_hole xs i) other

-- `self - other`
unfoldable pub difference : IntervalSet → IntervalSet → IntervalSet
unfolding difference_in_place copy_set
difference xs other = difference_in_place (copy_set xs) other

-- The inner loop of `&`.
meet_all : Interval → IntervalSet → IntervalSet
meet_all i [] = []
meet_all i (j ∷ other) = meet i j ++ meet_all i other

-- `self & other` and `self &= other`
unfoldable pub intersection : IntervalSet → IntervalSet → IntervalSet
unfolding meet_all
intersection [] other = []
intersection (i ∷ xs) other = meet_all i other ++ intersection xs other

-- The loop of contained_in.
contained_loop : IntervalSet → IntervalSet → Outcome Bool
unfolding next_index
contained_loop [] other = ok true
contained_loop (i ∷ xs) other =
    let rest = contained_loop xs other in
    find_interval_left other i >>= λ left.
    if next_index left == length other
    then ok false
    else (item other (next_index left) >>= λ j. if is_subset i j then rest else ok false)

unfoldable pub contained_in : IntervalSet → IntervalSet → Outcome Bool
unfolding contained_loop
contained_in xs other =
    if length xs == 1 && length other == 1
    then (item xs 0 >>= λ i. item other 0 >>= λ j. ok (is_subset i j))
    else contained_loop xs other

-- `item in self`
unfoldable pub contains : IntervalSet → ℕ → Outcome Bool
contains xs n = get_interval_set n n >>= λ single. contained_in single xs

-- The inner loop of overlaps.
overlaps_any : Interval → IntervalSet → Bool
overlaps_any i [] = false
overlaps_any i (j ∷ other) =
    let rest = overlaps_any i other in if Interval.overlaps i j then true else rest

unfoldable pub overlaps : IntervalSet → IntervalSet → Bool
unfolding overlaps_any
overlaps [] other = false
overlaps (i ∷ xs) other =
    let rest = overlaps xs other in if overlaps_any i other then true else rest

-- The first point, which an empty set does not have.
unfoldable pub rep : IntervalSet → Outcome ℕ
rep xs = item xs 0 >>= λ i. ok i.start

unfoldable pub is_single_value : IntervalSet → Bool
unfolding Interval.is_single_value
is_single_value (i ∷ []) = Interval.is_single_value i
is_single_value _ = false

unfoldable pub validate_and_get_single_value : IntervalSet → Outcome ℕ
unfolding is_single_value
validate_and_get_single_value xs =
    assert (is_single_value xs) >>= λ _. item xs 0 >>= λ i. ok i.start
