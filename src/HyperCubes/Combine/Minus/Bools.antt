-- ===== src/HyperCubes/Combine/Minus/Bools.antt =====
-- Facts about truth values for one round, one layer and the whole of the operator.
use network_config_analyzer.Prelude.{◌≡◌, Bool, true, false, not, ◌&&◌, ◌||◌, arith}

pub points_round :
    (e f s t k m : Bool)
    → (f ≡ true → k ≡ false)
    → (k ≡ false → m ≡ false)
    → ((e && f) && (s && not t) || ((e && s) && k) && not m)
      ≡ (((e && s) && (f || k)) && not (f && t || m))
points_round e f s t k m h g = ground arith

pub upper_whole : (e k x : Bool) → x ≡ (e && not (e && k)) → (e && k || x) ≡ true → e ≡ true
upper_whole e k x q h = ground arith

pub and_true : (a : Bool) → (a && not false) ≡ a
and_true a = ground arith

pub points_whole :
    (e s k x m : Bool)
    → x ≡ (e && not (e && k))
    → (k ≡ false → m ≡ false)
    → ((((e && s) && k) && not m) || x && s) ≡ ((e && s) && not m)
points_whole e s k x m q h = ground arith

pub points_next : (e s l m : Bool) → ((e && s) && not m || l && not m) ≡ ((e && s || l) && not m)
points_next e s l m = ground arith
