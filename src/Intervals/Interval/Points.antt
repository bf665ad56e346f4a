-- ===== src/Intervals/Interval/Points.antt =====
-- The operators `&`, `|` and `-` of Interval, on the points that the intervals hold.
use network_config_analyzer.Prelude.{ℕ, ◌≡◌, not, ◌&&◌, ◌||◌, arith}
use network_config_analyzer.Intervals.Interval.{Interval, inside, meet, join, minus}
use network_config_analyzer.Intervals.Canonical.{covers, IsProper}

pub covers-meet : (i j : Interval) (n : ℕ) → covers (meet i j) n ≡ (inside i n && inside j n)
unfolding meet
covers-meet i j n = ground arith

-- `self | other` on proper intervals gives intervals that hold exactly the points of both.
pub covers-join :
    (i j : Interval) (n : ℕ)
    → IsProper i
    → IsProper j
    → covers (join i j) n ≡ (inside i n || inside j n)
unfolding join
covers-join i j n h k = ground arith

pub covers-minus :
    (i j : Interval) (n : ℕ) → covers (minus i j) n ≡ (inside i n && not (inside j n))
unfolding minus
covers-minus i j n = ground arith
