-- ===== src/Intervals/Search.antt =====
-- find_interval_left and find_interval_right. The source's -1 is `none`. Each `while low != high`
-- runs on fuel; every round but the last halves the range, and one more than the length is enough.
pub mod Position
use network_config_analyzer.Prelude.{
  ℕ, zero, suc, ◌+◌, ◌-◌, ◌/◌, Bool, true, Option, none, some, List, [], ◌∷◌, ltb, leb, ◌==◌,
  if◌then◌else◌, length,
}
use network_config_analyzer.Prelude.Outcome.{Outcome, ok, raised, Exn, ◌>>=◌, item}
use network_config_analyzer.Intervals.Interval.{Interval}
use network_config_analyzer.Intervals.Canonical.{IntervalSet}

-- `mid == len - 1 or interval_set[mid + 1].end >= interval.start - 1`
last_lower : IntervalSet → Interval → ℕ → Outcome Bool
last_lower xs q mid =
    if mid == length xs - 1
    then ok true
    else item xs (mid + 1) >>= λ next. ok (leb (q.start - 1) next.end)

-- What follows the loop: `low` is clipped to the last index and tested again.
left_exit : IntervalSet → Interval → ℕ → Outcome (Option ℕ)
left_exit xs q low =
    let last = if low == length xs then low - 1 else low in
    item xs last >>= λ i. ok (if leb (q.start - 1) i.end then none else some last)

left_loop : ℕ → IntervalSet → Interval → ℕ → ℕ → Outcome (Option ℕ)
unfolding last_lower left_exit
left_loop zero xs q low high = raised Exn.out_of_fuel
left_loop (suc fuel) xs q low high =
    let mid = (low + high) / 2 in
    let up = left_loop fuel xs q (mid + 1) high in
    let down = left_loop fuel xs q low mid in
    if low == high
    then left_exit xs q low
    else (item xs mid >>= λ i.
        if ltb i.end (q.start - 1)
        then (last_lower xs q mid >>= λ found. if found then ok (some mid) else up)
        else down)

unfoldable pub find_interval_left : IntervalSet → Interval → Outcome (Option ℕ)
unfolding left_loop
find_interval_left [] q = ok none
find_interval_left (i ∷ xs) q = left_loop (suc (length (i ∷ xs))) (i ∷ xs) q 0 (length (i ∷ xs))

-- `mid == 0 or interval_set[mid - 1].start <= interval.end + 1`
first_higher : IntervalSet → Interval → ℕ → Outcome Bool
first_higher xs q mid =
    if mid == 0 then ok true else item xs (mid - 1) >>= λ prev. ok (leb prev.start (q.end + 1))

right_exit : IntervalSet → Interval → ℕ → Outcome (Option ℕ)
right_exit xs q low =
    let last = if low == length xs then low - 1 else low in
    item xs last >>= λ i. ok (if leb i.start (q.end + 1) then none else some last)

right_loop : ℕ → IntervalSet → Interval → ℕ → ℕ → Outcome (Option ℕ)
unfolding first_higher right_exit
right_loop zero xs q low high = raised Exn.out_of_fuel
right_loop (suc fuel) xs q low high =
    let mid = (low + high) / 2 in
    let down = right_loop fuel xs q low mid in
    let up = right_loop fuel xs q (mid + 1) high in
    if low == high
    then right_exit xs q low
    else (item xs mid >>= λ i.
        if ltb (q.end + 1) i.start
        then (first_higher xs q mid >>= λ found. if found then ok (some mid) else down)
        else up)

unfoldable pub find_interval_right : IntervalSet → Interval → Outcome (Option ℕ)
unfolding right_loop
find_interval_right [] q = ok none
find_interval_right (i ∷ xs) q = right_loop (suc (length (i ∷ xs))) (i ∷ xs) q 0 (length (i ∷ xs))
