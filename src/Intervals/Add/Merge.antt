-- ===== src/Intervals/Add/Merge.antt =====
-- add_interval does what a single pass over the set does.
use network_config_analyzer.Prelude.{
  ℕ, zero, suc, ◌+◌, ◌-◌, ◌≤◌, ◌<◌, ◌≡◌, refl, ap, ◌∙◌, inl, inr, Bool-cases, min, max, true, false,
  ◌||◌, [], ◌∷◌, ltb, if◌then◌else◌, length, insert, delete, arith, get_or, drop,
}
use network_config_analyzer.Prelude.Outcome.{ok, ◌>>=◌, item-get_or}
use network_config_analyzer.Intervals.Interval.{Interval, overlaps, touches}
use network_config_analyzer.Intervals.Canonical.{IntervalSet, Chain, IsProper}
use network_config_analyzer.Intervals.Search.Position.{
  lower_count, reach_count, before, within, find_interval_left-before, find_interval_right-within,
  is_lower_at, is_higher_at, reach_count-le,
}
use network_config_analyzer.Intervals.Add.{add_interval, add_at, merge_range}

-- `q` with every interval that it reaches, then the rest.
unfoldable pub absorb : Interval → IntervalSet → IntervalSet
absorb q [] = q ∷ []
absorb q (i ∷ xs) =
    if ltb (q.end + 1) i.start
    then q ∷ i ∷ xs
    else absorb (record { start = min q.start i.start; end = max q.end i.end }) xs

-- The intervals below `q` stay, and `q` absorbs.
unfoldable pub merge_in : Interval → IntervalSet → IntervalSet
merge_in q [] = q ∷ []
merge_in q (i ∷ xs) = if ltb i.end (q.start - 1) then i ∷ merge_in q xs else absorb q (i ∷ xs)

-- The intervals from `left` up to `stop` replaced by one.
splice : IntervalSet → Interval → ℕ → ℕ → IntervalSet
splice xs m left stop = insert (delete xs left stop) left m

abbrev no_interval : Interval
no_interval = record { start = 0; end = 0 }

-- The one interval that add_interval makes of `q` and the intervals from `left` up to `stop`.
merged : IntervalSet → Interval → ℕ → ℕ → Interval
merged xs q left stop =
    if ltb left stop
    then record {
      start = min q.start (get_or xs left no_interval).start;
      end = max q.end (get_or xs (stop - 1) no_interval).end;
    }
    else q

delete_zero : (xs : IntervalSet) (k : ℕ) → delete xs 0 k ≡ drop k xs
delete_zero [] zero = refl
delete_zero [] (suc k) = refl
delete_zero (x ∷ xs) zero = refl
delete_zero (x ∷ xs) (suc k) = delete_zero xs k

-- Past `q`, no interval is reached.
reach_count_past :
    (low : ℕ) (xs : IntervalSet) (q : Interval)
    → Chain low xs
    → q.end + 1 < low
    → reach_count xs q ≡ 0
unfolding reach_count
reach_count_past low [] q c h = refl
reach_count_past low (i ∷ xs) q c h = ground arith

last_end_above :
    (low : ℕ) (xs : IntervalSet) (k : ℕ)
    → Chain low xs
    → k < length xs
    → low ≤ (get_or xs k no_interval).end
last_end_above low [] k c h = absurd (omega arith)
last_end_above low (i ∷ xs) zero c h = omega arith
last_end_above low (i ∷ xs) (suc k) c h = omega (arith, last_end_above (i.end + 2) xs k)

first_start_above :
    (low : ℕ) (xs : IntervalSet)
    → Chain low xs
    → 0 < length xs
    → low ≤ (get_or xs 0 no_interval).start
first_start_above low [] c h = absurd (omega arith)
first_start_above low (i ∷ xs) c h = omega arith

reach_count-end :
    (xs : IntervalSet) (p q : Interval) → p.end ≡ q.end → reach_count xs p ≡ reach_count xs q
unfolding reach_count
reach_count-end [] p q e = refl
reach_count-end (i ∷ xs) p q e = ground (arith, reach_count-end xs p q)

abbrev pub hull : Interval → Interval → Interval
hull q i = record { start = min q.start i.start; end = max q.end i.end }

reach_count-hull :
    (i : Interval) (xs : IntervalSet) (q : Interval)
    → Chain (i.end + 2) xs
    → reach_count xs (hull q i) ≡ reach_count xs q
reach_count-hull i xs q c = ground (
  arith,
  reach_count-end xs (hull q i) q,
  reach_count_past (i.end + 2) xs q c,
  reach_count_past (i.end + 2) xs (hull q i) c,
)

merged-hull :
    (i : Interval) (xs : IntervalSet) (q : Interval) (d : ℕ)
    → IsProper i
    → Chain (i.end + 2) xs
    → d ≤ length xs
    → merged xs (hull q i) 0 d ≡ merged (i ∷ xs) q 0 (suc d)
unfolding merged
merged-hull i xs q zero p c h = ground arith
merged-hull i xs q (suc d) p c h =
    ground (arith, last_end_above (i.end + 2) xs d c, first_start_above (i.end + 2) xs c)

merged_none : (xs : IntervalSet) (q : Interval) (k : ℕ) → merged xs q k k ≡ q
unfolding merged
merged_none xs q k = ground arith

absorb-merged :
    (low : ℕ) (xs : IntervalSet) (q : Interval)
    → Chain low xs
    → absorb q xs ≡ merged xs q 0 (reach_count xs q) ∷ drop (reach_count xs q) xs
unfolding absorb reach_count
absorb-merged low [] q c = rw (merged_none [] q 0)
absorb-merged low (i ∷ xs) q c = ground (
  arith,
  merged-hull i xs q (reach_count xs q),
  absorb-merged (i.end + 2) xs (hull q i),
  reach_count-hull i xs q,
  reach_count-le xs q,
  merged_none (i ∷ xs) q 0,
)

merged-cons :
    (i : Interval) (xs : IntervalSet) (q : Interval) (c d : ℕ)
    → c ≤ d
    → merged (i ∷ xs) q (suc c) (suc d) ≡ merged xs q c d
unfolding merged
merged-cons i xs q c zero h = ground arith
merged-cons i xs q c (suc d) h = ground arith

pub lower_count-le-reach_count :
    (low : ℕ) (xs : IntervalSet) (q : Interval)
    → Chain low xs
    → IsProper q
    → lower_count xs q ≤ reach_count xs q
unfolding lower_count reach_count
lower_count-le-reach_count low [] q c p = omega arith
lower_count-le-reach_count low (i ∷ xs) q c p =
    ground (arith, lower_count-le-reach_count (i.end + 2) xs q)

splice-merge_in :
    (low : ℕ) (xs : IntervalSet) (q : Interval)
    → Chain low xs
    → IsProper q
    → splice xs
        (merged xs q (lower_count xs q) (reach_count xs q))
        (lower_count xs q)
        (reach_count xs q)
      ≡ merge_in q xs
unfolding splice merge_in lower_count reach_count
splice-merge_in low [] q c p = rw (merged_none [] q 0)
splice-merge_in low (i ∷ xs) q c p = elim (Bool-cases (ltb i.end (q.start - 1))) [
  | inl lower ↦ ground (
    arith,
    merged-cons i xs q (lower_count xs q) (reach_count xs q),
    lower_count-le-reach_count (i.end + 2) xs q,
    splice-merge_in (i.end + 2) xs q,
  )
  | inr other ↦ ground (arith, unfold_absorb, delete_zero (i ∷ xs) (reach_count (i ∷ xs) q))
]
  where
    unfold_absorb :
        absorb q (i ∷ xs)
        ≡ merged (i ∷ xs) q 0 (reach_count (i ∷ xs) q) ∷ drop (reach_count (i ∷ xs) q) (i ∷ xs)
    unfold_absorb = absorb-merged low (i ∷ xs) q c

delete_none : (xs : IntervalSet) (k : ℕ) → delete xs k k ≡ xs
delete_none [] k = refl
delete_none (x ∷ xs) zero = refl
delete_none (x ∷ xs) (suc k) = ap (◌∷◌ x) (delete_none xs k)

-- An interval that is neither below nor above `q` overlaps or touches it.
meets-of_reached :
    (i q : Interval)
    → IsProper i
    → IsProper q
    → ltb i.end (q.start - 1) ≡ false
    → ltb (q.end + 1) i.start ≡ false
    → (overlaps i q || touches i q) ≡ true
unfolding overlaps touches
meets-of_reached i q h p l r = ground arith

IsProper-at :
    (low : ℕ) (xs : IntervalSet) (k : ℕ) → Chain low xs → IsProper (get_or xs k no_interval)
IsProper-at low [] k c = omega arith
IsProper-at low (i ∷ xs) zero c = omega arith
IsProper-at low (i ∷ xs) (suc k) c = IsProper-at (i.end + 2) xs k c.2

module _ (low₀ : ℕ) (xs : IntervalSet) (q : Interval) (canonical : Chain low₀ xs)
    (proper : IsProper q) where
  meets_at :
      (k : ℕ)
      → lower_count xs q ≤ k
      → k < reach_count xs q
      → (overlaps (get_or xs k no_interval) q || touches (get_or xs k no_interval) q) ≡ true
  meets_at k l r =
      meets-of_reached (get_or xs k no_interval) q (IsProper-at low₀ xs k canonical) proper
        (ground (arith, reach_count-le xs q, is_lower_at low₀ xs q k canonical))
        (ground (arith, reach_count-le xs q, is_higher_at low₀ xs q k canonical))

  merge_range-splice :
      (c d : ℕ)
      → lower_count xs q ≡ c
      → reach_count xs q ≡ d
      → c < d
      → merge_range xs q c d ≡ ok (splice xs (merged xs q c d) c d)
  unfolding merge_range splice merged
  merge_range-splice c d e f h = ground (
    arith,
    meets_at c,
    meets_at (d - 1),
    item-get_or xs c no_interval,
    item-get_or xs (d - 1) no_interval,
    reach_count-le xs q,
  )

  add_at-splice :
      (c d : ℕ)
      → lower_count xs q ≡ c
      → reach_count xs q ≡ d
      → 0 < length xs
      → add_at xs q (before c) (within (length xs) d) ≡ ok (splice xs (merged xs q c d) c d)
  unfolding add_at splice
  add_at-splice zero d e f h =
      ground
        (arith, merge_range-splice 0 d, merged_none xs q 0, delete_none xs 0, reach_count-le xs q)
  add_at-splice (suc c) d e f h = ground (
    arith,
    merge_range-splice (suc c) d,
    merged_none xs q (suc c),
    delete_none xs (suc c),
    reach_count-le xs q,
    lower_count-le-reach_count low₀ xs q,
  )

-- On a canonical set add_interval returns what one pass over the set gives, `merge_in`: the
-- intervals below the new one, then the new one with all that it overlaps or touches, then the rest.
pub add_interval-merge_in :
    (low : ℕ) (xs : IntervalSet) (q : Interval)
    → Chain low xs
    → IsProper q
    → add_interval xs q ≡ ok (merge_in q xs)
unfolding add_interval
add_interval-merge_in low [] q c p = unfold merge_in in refl
add_interval-merge_in low (i ∷ xs) q c p =
    rw
      (
        find_interval_left-before low (i ∷ xs) q c,
        find_interval_right-within low (i ∷ xs) q c,
        ◌>>=◌,
      )
      (add_at-splice low (i ∷ xs) q c p _ _ refl refl (omega arith)
        ∙ ap ok (splice-merge_in low (i ∷ xs) q c p))
