-- ===== src/Intervals/Search/Position.antt =====
-- What the two binary searches return on a canonical set.
use network_config_analyzer.Prelude.{
  ℕ, zero, suc, ◌+◌, ◌-◌, ◌/◌, ◌≤◌, ◌<◌, ◌≡◌, ◌⊎◌, inl, refl, Option, none, some, [], ◌∷◌, ltb, leb,
  if◌then◌else◌, length, get_or, arith, ◌==◌,
}
use network_config_analyzer.Prelude.Outcome.{ok, item-get_or}
use network_config_analyzer.Intervals.Interval.{Interval}
use network_config_analyzer.Intervals.Canonical.{IntervalSet, Chain}
use network_config_analyzer.Intervals.Search.{
  left_loop, left_exit, last_lower, right_loop, right_exit, first_higher, find_interval_left,
  find_interval_right,
}

-- How many intervals lie below `q` without touching it.
unfoldable pub lower_count : IntervalSet → Interval → ℕ
lower_count [] q = 0
lower_count (i ∷ xs) q = if ltb i.end (q.start - 1) then suc (lower_count xs q) else 0

abbrev pub no_interval : Interval
no_interval = record { start = 0; end = 0 }

lower_count_zero :
    (low : ℕ) (xs : IntervalSet) (q : Interval)
    → Chain low xs
    → q.start ≤ low + 1
    → lower_count xs q ≡ 0
unfolding lower_count
lower_count_zero low [] q c h = refl
lower_count_zero low (i ∷ xs) q c h = ground arith

pub lower_count-le : (xs : IntervalSet) (q : Interval) → lower_count xs q ≤ length xs
unfolding lower_count
lower_count-le [] q = omega arith
lower_count-le (i ∷ xs) q = ground (arith, lower_count-le xs q)

-- The test of the loop at an index tells on which side of `lower_count` it is.
pub is_lower_at :
    (low : ℕ) (xs : IntervalSet) (q : Interval) (k : ℕ)
    → Chain low xs
    → k < length xs
    → ltb (get_or xs k no_interval).end (q.start - 1) ≡ ltb k (lower_count xs q)
unfolding lower_count
is_lower_at low [] q k c h = absurd (omega arith)
is_lower_at low (i ∷ xs) q zero c h = ground arith
is_lower_at low (i ∷ xs) q (suc k) c h =
    ground (arith, is_lower_at (i.end + 2) xs q k, lower_count_zero (i.end + 2) xs q)

-- The position before `count`: `none` stands for -1.
abbrev pub before : ℕ → Option ℕ
before zero = none
before (suc k) = some k

module _ (xs : IntervalSet) (q : Interval) (low₀ : ℕ) (canonical : Chain low₀ xs) where
  last_lower_lem :
      (mid : ℕ) → mid < lower_count xs q → last_lower xs q mid ≡ ok (lower_count xs q == mid + 1)
  unfolding last_lower
  last_lower_lem mid h = ground (
    arith,
    lower_count-le xs q,
    item-get_or xs (mid + 1) no_interval,
    is_lower_at low₀ xs q (mid + 1) canonical,
  )

  left_exit_lem : 0 < length xs → lower_count xs q ≡ 0 → left_exit xs q 0 ≡ ok none
  unfolding left_exit
  left_exit_lem h e =
      ground (arith, item-get_or xs 0 no_interval, is_lower_at low₀ xs q 0 canonical)

  left_loop_lem :
      (fuel low high : ℕ)
      → 0 < length xs
      → low ≤ high
      → high ≤ length xs
      → high - low < fuel
      → (low ≡ 0) ⊎ (low < lower_count xs q)
      → lower_count xs q ≤ high
      → left_loop fuel xs q low high ≡ ok (before (lower_count xs q))
  unfolding left_loop
  left_loop_lem zero low high p a b f l h = absurd (omega arith)
  left_loop_lem (suc fuel) low high p a b f l h = ground (
    arith,
    item-get_or xs ((low + high) / 2) no_interval,
    is_lower_at low₀ xs q ((low + high) / 2) canonical,
    last_lower_lem ((low + high) / 2),
    left_exit_lem,
    left_loop_lem fuel ((low + high) / 2 + 1) high,
    left_loop_lem fuel low ((low + high) / 2),
  )

-- On a canonical set find_interval_left returns the position of the last interval that ends below
-- `q.start - 1`, as a scan from the left counts it, and -1 if the first one does not.
pub find_interval_left-before :
    (low : ℕ) (xs : IntervalSet) (q : Interval)
    → Chain low xs
    → find_interval_left xs q ≡ ok (before (lower_count xs q))
unfolding find_interval_left lower_count
find_interval_left-before low [] q c = refl
find_interval_left-before low (i ∷ xs) q c =
    left_loop_lem (i ∷ xs) q low c (suc (length (i ∷ xs))) 0 (length (i ∷ xs)) (omega arith)
      (omega arith) (omega arith) (omega arith) (inl refl) (lower_count-le (i ∷ xs) q)

-- How many intervals do not lie above `q`, or touch it.
unfoldable pub reach_count : IntervalSet → Interval → ℕ
reach_count [] q = 0
reach_count (i ∷ xs) q = if ltb (q.end + 1) i.start then 0 else suc (reach_count xs q)

reach_count_zero :
    (low : ℕ) (xs : IntervalSet) (q : Interval)
    → Chain low xs
    → q.end + 1 < low
    → reach_count xs q ≡ 0
unfolding reach_count
reach_count_zero low [] q c h = refl
reach_count_zero low (i ∷ xs) q c h = ground arith

pub reach_count-le : (xs : IntervalSet) (q : Interval) → reach_count xs q ≤ length xs
unfolding reach_count
reach_count-le [] q = omega arith
reach_count-le (i ∷ xs) q = ground (arith, reach_count-le xs q)

pub is_higher_at :
    (low : ℕ) (xs : IntervalSet) (q : Interval) (k : ℕ)
    → Chain low xs
    → k < length xs
    → ltb (q.end + 1) (get_or xs k no_interval).start ≡ leb (reach_count xs q) k
unfolding reach_count
is_higher_at low [] q k c h = absurd (omega arith)
is_higher_at low (i ∷ xs) q zero c h = ground arith
is_higher_at low (i ∷ xs) q (suc k) c h =
    ground (arith, is_higher_at (i.end + 2) xs q k, reach_count_zero (i.end + 2) xs q)

-- A position, or `none` for -1 past the end.
abbrev pub within : ℕ → ℕ → Option ℕ
within size k = if ltb k size then some k else none

module _ (xs : IntervalSet) (q : Interval) (low₀ : ℕ) (canonical : Chain low₀ xs) where
  first_higher_lem :
      (mid : ℕ)
      → mid < length xs
      → reach_count xs q ≤ mid
      → first_higher xs q mid ≡ ok (reach_count xs q == mid)
  unfolding first_higher
  first_higher_lem mid h k =
      ground
        (arith, item-get_or xs (mid - 1) no_interval, is_higher_at low₀ xs q (mid - 1) canonical)

  right_exit_lem :
      0 < length xs → reach_count xs q ≡ length xs → right_exit xs q (length xs) ≡ ok none
  unfolding right_exit
  right_exit_lem h e = ground (
    arith,
    item-get_or xs (length xs - 1) no_interval,
    is_higher_at low₀ xs q (length xs - 1) canonical,
  )

  right_loop_lem :
      (fuel low high : ℕ)
      → 0 < length xs
      → low ≤ high
      → high ≤ length xs
      → high - low < fuel
      → (high ≡ length xs) ⊎ (reach_count xs q < high)
      → low ≤ reach_count xs q
      → right_loop fuel xs q low high ≡ ok (within (length xs) (reach_count xs q))
  unfolding right_loop
  right_loop_lem zero low high p a b f l h = absurd (omega arith)
  right_loop_lem (suc fuel) low high p a b f l h = ground (
    arith,
    item-get_or xs ((low + high) / 2) no_interval,
    is_higher_at low₀ xs q ((low + high) / 2) canonical,
    first_higher_lem ((low + high) / 2),
    right_exit_lem,
    reach_count-le xs q,
    right_loop_lem fuel ((low + high) / 2 + 1) high,
    right_loop_lem fuel low ((low + high) / 2),
  )

-- On a canonical set find_interval_right returns the position of the first interval that starts
-- above `q.end + 1`, as a scan from the left counts it, and -1 if there is none.
pub find_interval_right-within :
    (low : ℕ) (xs : IntervalSet) (q : Interval)
    → Chain low xs
    → find_interval_right xs q ≡ ok (within (length xs) (reach_count xs q))
unfolding find_interval_right reach_count
find_interval_right-within low [] q c = refl
find_interval_right-within low (i ∷ xs) q c =
    right_loop_lem (i ∷ xs) q low c (suc (length (i ∷ xs))) 0 (length (i ∷ xs)) (omega arith)
      (omega arith) (omega arith) (omega arith) (inl refl) (omega arith)
