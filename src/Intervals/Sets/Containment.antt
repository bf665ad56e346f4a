-- ===== src/Intervals/Sets/Containment.antt =====
-- contained_in and `in` on canonical sets.
use network_config_analyzer.Prelude.{
  ℕ, zero, suc, ◌+◌, ◌-◌, ◌<◌, ◌≡◌, refl, ap, ◌∙◌, ◌↔◌, inl, inr, Bool, true, false, [], ◌∷◌, ltb,
  leb, ◌==◌, if◌then◌else◌, length, arith, Bool-cases, max,
}
use network_config_analyzer.Prelude.Outcome.{Outcome, ok, ◌>>=◌, item}
use network_config_analyzer.Intervals.Interval.{Interval, inside, is_subset}
use network_config_analyzer.Intervals.Canonical.{IntervalSet, Chain, IsProper, covers, IsCanonical}
use network_config_analyzer.Intervals.Search.Position.{
  lower_count, before, find_interval_left-before,
}
use network_config_analyzer.Intervals.Add.{next_index, get_interval_set}
use network_config_analyzer.Intervals.Sets.{contained_loop, contained_in, contains}

-- The test that one interval has to pass, as a scan from the left.
fits : Interval → IntervalSet → Bool
fits i [] = false
fits i (j ∷ ys) = if ltb j.end (i.start - 1) then fits i ys else is_subset i j

all_fit : IntervalSet → IntervalSet → Bool
unfolding fits
all_fit [] ys = true
all_fit (i ∷ xs) ys = if fits i ys then all_fit xs ys else false

pub covers_below :
    (low : ℕ) (xs : IntervalSet) (n : ℕ) → Chain low xs → n < low → covers xs n ≡ false
covers_below low [] n c h = refl
covers_below low (i ∷ xs) n c h = ground (arith, covers_below (i.end + 2) xs n)

fits_sound :
    (i : Interval) (ys : IntervalSet) (n : ℕ)
    → fits i ys ≡ true
    → inside i n ≡ true
    → covers ys n ≡ true
unfolding fits is_subset
fits_sound i [] n e h = cc
fits_sound i (j ∷ ys) n e h = ground (arith, fits_sound i ys n)

fits-point :
    (low : ℕ) (i : Interval) (ys : IntervalSet)
    → IsProper i
    → Chain low ys
    → fits i ys ≡ false
    → (n : ℕ) × (inside i n ≡ true) × (covers ys n ≡ false)
unfolding fits is_subset
fits-point low i [] p c e = (i.start, ground arith, refl)
fits-point low i (j ∷ ys) p c e = elim (Bool-cases (ltb j.end (i.start - 1))) [
  | inl l ↦ let (n, h, k) = fits-point (j.end + 2) i ys p c.2 (ground arith) in (n, h, ground arith)
  | inr l ↦ elim (Bool-cases (leb j.start i.start)) [
    | inl s ↦ (
      max i.start (j.end + 1),
      ground arith,
      ground (arith, covers_below (j.end + 2) ys (max i.start (j.end + 1)) c.2),
    )
    | inr s ↦ (i.start, ground arith, ground (arith, covers_below (j.end + 2) ys i.start c.2))
  ]
]

all_fit_sound :
    (xs ys : IntervalSet) (n : ℕ) → all_fit xs ys ≡ true → covers xs n ≡ true → covers ys n ≡ true
unfolding all_fit
all_fit_sound [] ys n e h = cc
all_fit_sound (i ∷ xs) ys n e h = ground (arith, fits_sound i ys n, all_fit_sound xs ys n)

all_fit-point :
    (low high : ℕ) (xs ys : IntervalSet)
    → Chain low xs
    → Chain high ys
    → all_fit xs ys ≡ false
    → (n : ℕ) × (covers xs n ≡ true) × (covers ys n ≡ false)
unfolding all_fit
all_fit-point low high [] ys c d e = cc
all_fit-point low high (i ∷ xs) ys c d e = elim (Bool-cases (fits i ys)) [
  | inl f ↦
      let (n, h, k) = all_fit-point (i.end + 2) high xs ys c.2 d (ground arith) in
      (n, ground arith, k)
  | inr f ↦ let (n, h, k) = fits-point high i ys c.1 d f in (n, ground arith, k)
]

-- The test at the index that the search gives.
fits_at : Interval → IntervalSet → ℕ → Outcome Bool → Outcome Bool
fits_at i ys k rest =
    if k == length ys
    then ok false
    else (item ys k >>= λ j. if is_subset i j then rest else ok false)

fits_at-fits :
    (i : Interval) (ys : IntervalSet) (rest : Outcome Bool)
    → fits_at i ys (lower_count ys i) rest ≡ (if fits i ys then rest else ok false)
unfolding fits_at fits lower_count
fits_at-fits i [] rest = refl
fits_at-fits i (j ∷ ys) rest = ground (arith, fits_at-fits i ys rest)

next_index-before : (c : ℕ) → next_index (before c) ≡ c
unfolding next_index
next_index-before zero = refl
next_index-before (suc c) = omega arith

contained_loop-all_fit :
    (high : ℕ) (xs ys : IntervalSet) → Chain high ys → contained_loop xs ys ≡ ok (all_fit xs ys)
unfolding contained_loop all_fit fits_at
contained_loop-all_fit high [] ys d = refl
contained_loop-all_fit high (i ∷ xs) ys d =
    rw (find_interval_left-before high ys i d, ◌>>=◌, next_index-before (lower_count ys i))
      (fits_at-fits i ys (contained_loop xs ys)
        ∙ ground (arith, contained_loop-all_fit high xs ys d))

contained_in-all_fit :
    (low high : ℕ) (xs ys : IntervalSet)
    → Chain low xs
    → Chain high ys
    → contained_in xs ys ≡ ok (all_fit xs ys)
unfolding contained_in
contained_in-all_fit low high [] ys c d = contained_loop-all_fit high [] ys d
contained_in-all_fit low high (i ∷ []) (j ∷ []) c d = unfold all_fit is_subset in ground arith
contained_in-all_fit low high (i ∷ xs) [] c d =
    ground (arith, contained_loop-all_fit high (i ∷ xs) [] d)
contained_in-all_fit low high (i ∷ xs) ys c d =
    ground (arith, contained_loop-all_fit high (i ∷ xs) ys d)

-- Every point of the first set is in the second.
abbrev pub IsWithin : IntervalSet → IntervalSet → Type 0
IsWithin xs ys = (n : ℕ) → covers xs n ≡ true → covers ys n ≡ true

-- On canonical sets contained_in returns a truth value, true exactly when every point of the
-- first set is in the second.
pub contained_in_iff :
    (xs ys : IntervalSet)
    → IsCanonical xs
    → IsCanonical ys
    → (b : Bool) × (contained_in xs ys ≡ ok b) × ((b ≡ true) ↔ IsWithin xs ys)
contained_in_iff xs ys c d = (
  all_fit xs ys,
  contained_in-all_fit 0 0 xs ys c d,
  (
    (λ e n h. all_fit_sound xs ys n e h),
    λ within. elim (Bool-cases (all_fit xs ys)) [
      | inl e ↦ e
      | inr e ↦ let (n, h, k) = all_fit-point 0 0 xs ys c d e in absurd (ground (arith, within n))
    ],
  ),
)

-- The one-point interval fits where the point is.
fits-covers :
    (low : ℕ) (xs : IntervalSet) (n : ℕ)
    → Chain low xs
    → fits (record { start = n; end = n }) xs ≡ covers xs n
unfolding fits is_subset
fits-covers low [] n c = refl
fits-covers low (i ∷ xs) n c =
    ground (arith, fits-covers (i.end + 2) xs n, covers_below (i.end + 2) xs n)

-- `n in self` on a canonical set returns whether one of its intervals holds the point.
pub contains-covers : (xs : IntervalSet) (n : ℕ) → IsCanonical xs → contains xs n ≡ ok (covers xs n)
unfolding contains get_interval_set all_fit
contains-covers xs n c =
    contained_in-all_fit 0 0 (record { start = n; end = n } ∷ []) xs (omega arith, omega arith, tt)
      c
    ∙ ap ok (ground (arith, fits-covers 0 xs n))
