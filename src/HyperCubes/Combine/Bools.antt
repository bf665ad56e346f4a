-- ===== src/HyperCubes/Combine/Bools.antt =====
-- Facts about truth values that the operators share: `e` and `f` are layers, `m` and `l` the rest
-- of the dicts, `r` the dict that is built.
use network_config_analyzer.Prelude.{◌≡◌, Bool, true, false, not, ◌&&◌, ◌||◌, arith}

pub wider : (a b c : Bool) → (a && b) ≡ true → (a && (b || c)) ≡ true
wider a b c h = ground arith

pub upper_round : (e f m : Bool) → (e && f || e && m) ≡ true → (e && (f || m)) ≡ true
upper_round e f m h = ground arith

-- The keys that a round adds are out of reach of the rounds to come.
pub avoids :
    (e f m r r' : Bool)
    → (e && m) ≡ true
    → ((e && (f || m)) ≡ true → r ≡ false)
    → (r' ≡ true → (r || e && f) ≡ true)
    → (f ≡ true → m ≡ false)
    → r' ≡ false
avoids e f m r r' h fresh up disjoint = ground arith

pub layer_fresh : (e m r : Bool) → (e && m) ≡ true → (e ≡ true → r ≡ false) → r ≡ false
layer_fresh e m r h f = ground arith

pub rest_round :
    (x y z e f k : Bool)
    → y ≡ (x && not (e && f))
    → z ≡ (y && not (e && k))
    → z ≡ (x && not (e && (f || k)))
rest_round x y z e f k h g = ground arith

pub rest_avoids :
    (e k x r r' : Bool)
    → x ≡ true
    → x ≡ (e && not (e && k))
    → (e ≡ true → r ≡ false)
    → (r' ≡ true → (r || e && k) ≡ true)
    → r' ≡ false
rest_avoids e k x r r' h q f up = ground arith

pub tail_fresh :
    (e l r r' : Bool)
    → l ≡ true
    → ((e || l) ≡ true → r ≡ false)
    → (e ≡ true → l ≡ false)
    → (r' ≡ true → (r || e) ≡ true)
    → r' ≡ false
tail_fresh e l r r' h f d up = ground arith
