-- ===== src/Intervals/Add.antt =====
-- add_interval, get_interval_set, `|=` and `|`. An index that the source keeps as `right`, with -1
-- for none, is kept here as `stop`, one more than it: the slice `[left:right + 1]` ends there, and
-- `interval_set[right]` is `before_item stop`, the last item when `right` is -1, as in Python.
pub mod Merge
pub mod Union
use network_config_analyzer.Prelude.{
  ℕ, zero, suc, ◌+◌, ◌-◌, min, max, Bool, true, false, ◌&&◌, ◌||◌, Option, none, some, List, [],
  ◌∷◌, ltb, ◌==◌, if◌then◌else◌, length, insert, delete, map,
}
use network_config_analyzer.Prelude.Outcome.{Outcome, ok, raised, Exn, ◌>>=◌, item}
use network_config_analyzer.Intervals.Interval.{Interval, overlaps, touches, copy}
use network_config_analyzer.Intervals.Canonical.{IntervalSet}
use network_config_analyzer.Intervals.Search.{find_interval_left, find_interval_right}

-- `left + 1`
unfoldable pub next_index : Option ℕ → ℕ
next_index none = 0
next_index (some k) = k + 1

before_item : IntervalSet → ℕ → Outcome Interval
before_item xs stop = if stop == 0 then item xs (length xs - 1) else item xs (stop - 1)

-- `left >= 0 and right >= 0 and right - left == 1`
is_between : Option ℕ → Option ℕ → Bool
is_between (some l) (some r) = r == l + 1
is_between _ _ = false

-- `left == -1 and right == 0`
is_first : Option ℕ → Option ℕ → Bool
is_first none (some r) = r == 0
is_first _ _ = false

-- `right == -1 and left == len(self.interval_set) - 1`
is_last : IntervalSet → Option ℕ → Option ℕ → Bool
is_last xs left none = next_index left == length xs
is_last xs left (some r) = false

-- `right - 1 if right >= 0 else len - 1`, plus one.
stop_index : IntervalSet → Option ℕ → ℕ
stop_index xs none = length xs
stop_index xs (some r) = r

-- The intervals from `left` up to `stop` are replaced by one that holds them and `q`.
merge_range : IntervalSet → Interval → ℕ → ℕ → Outcome IntervalSet
unfolding before_item overlaps touches
merge_range xs q left stop = item xs left >>= λ l. before_item xs stop >>= λ r.
    let left_overlaps = overlaps l q || touches l q in
    let right_overlaps = overlaps r q || touches r q in
    let new_interval : Interval = record {
      start = if left_overlaps then min q.start l.start else q.start;
      end = if right_overlaps then max q.end r.end else q.end;
    } in
    ok (insert (delete xs left stop) left new_interval)

add_at : IntervalSet → Interval → Option ℕ → Option ℕ → Outcome IntervalSet
unfolding next_index is_between is_first is_last stop_index merge_range
add_at xs q left right =
    if is_between left right
    then ok (insert xs (next_index left) q)
    else if is_first left right
    then ok (insert xs 0 q)
    else if is_last xs left right
    then ok (insert xs (length xs) q)
    else merge_range xs q (next_index left) (stop_index xs right)

unfoldable pub add_interval : IntervalSet → Interval → Outcome IntervalSet
unfolding add_at find_interval_left find_interval_right
add_interval [] q = ok (q ∷ [])
add_interval xs q =
    find_interval_left xs q >>= λ left. find_interval_right xs q >>= λ right. add_at xs q left right

unfoldable pub get_interval_set : ℕ → ℕ → Outcome IntervalSet
unfolding add_interval
get_interval_set start end = add_interval [] (record { start = start; end = end })

-- `self |= other`
unfoldable pub union_in_place : IntervalSet → IntervalSet → Outcome IntervalSet
unfolding add_interval
union_in_place xs [] = ok xs
union_in_place xs (i ∷ other) = add_interval xs i >>= λ ys. union_in_place ys other

-- `self.copy()`
unfoldable pub copy_set : IntervalSet → IntervalSet
unfolding copy
copy_set xs = map copy xs

-- `self | other`
unfoldable pub union : IntervalSet → IntervalSet → Outcome IntervalSet
unfolding union_in_place copy_set
union xs other = union_in_place (copy_set xs) other
