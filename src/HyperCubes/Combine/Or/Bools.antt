-- ===== src/HyperCubes/Combine/Or/Bools.antt =====
-- Facts about truth values for one round, one layer and the whole of the operator.
use network_config_analyzer.Prelude.{◌≡◌, Bool, true, false, not, ◌&&◌, ◌||◌, arith}

pub keys_round : (e f m : Bool) → (e && f || e && m) ≡ (e && (f || m))
keys_round e f m = ground arith

pub points_round :
    (e f s t k m : Bool)
    → ((e && f) && (s || t) || e && (k && s || m)) ≡ (e && ((f || k) && s || (f && t || m)))
points_round e f s t k m = ground arith

pub other_round :
    (g g' f p e : Bool) → g ≡ (f && not p) → g' ≡ (g && not (e && f)) → g' ≡ (f && not (p || e))
other_round g g' f p e h k = ground arith

pub whole_keys : (e k x : Bool) → x ≡ (e && not (e && k)) → (e && k || x) ≡ e
whole_keys e k x q = ground arith

pub points_whole :
    (e s k x m : Bool)
    → x ≡ (e && not (e && k))
    → (e && (k && s || m) || x && s) ≡ (e && s || e && m)
points_whole e s k x m q = ground arith

pub points_next :
    (e s k l m : Bool) → ((e && s || e && m) || (l || k && m)) ≡ ((e && s || l) || (e || k) && m)
points_next e s k l m = ground arith

pub or_swap : (a b c : Bool) → ((a || b) || c) ≡ (a || (b || c))
or_swap a b c = ground arith

-- In the last loop: `p` tells which values `self` has keys for.
pub rest_fresh :
    (g f p m r : Bool)
    → g ≡ true
    → g ≡ (f && not p)
    → (((f || m) && not p) ≡ true → r ≡ false)
    → r ≡ false
rest_fresh g f p m r h q fr = ground arith

pub rest_next :
    (g f p m r r' : Bool)
    → (m && not p) ≡ true
    → g ≡ (f && not p)
    → (((f || m) && not p) ≡ true → r ≡ false)
    → (f ≡ true → m ≡ false)
    → (r' ≡ true → (r || g) ≡ true)
    → r' ≡ false
rest_next g f p m r r' h q fr d up = ground arith

pub rest_keys : (g f p m : Bool) → g ≡ (f && not p) → (g || m && not p) ≡ ((f || m) && not p)
rest_keys g f p m q = ground arith

pub rest_points :
    (g f t p m : Bool) → g ≡ (f && not p) → (g && t || m && not p) ≡ ((f && t || m) && not p)
rest_points g f t p m q = ground arith

pub points_all : (l k m : Bool) → ((l || k && m) || m && not k) ≡ (l || m)
points_all l k m = ground arith

pub not_key : (a k r : Bool) → (a && not k) ≡ true → (r ≡ true → k ≡ true) → r ≡ false
not_key a k r h f = ground arith

pub rest_nothing : (f p : Bool) → p ≡ false → f ≡ (f && not p)
rest_nothing f p h = ground arith
