-- ===== src/HyperCubes/Combine/And/Bools.antt =====
-- Facts about truth values for one round, one layer and the whole of the operator.
use network_config_analyzer.Prelude.{◌≡◌, Bool, true, false, ◌&&◌, ◌||◌, arith}

pub points_round :
    (e f s t m : Bool) → ((e && f) && (s && t) || (e && s) && m) ≡ ((e && s) && (f && t || m))
points_round e f s t m = ground arith

pub layer_fresh :
    (e l m r : Bool) → (e && m) ≡ true → (((e || l) && m) ≡ true → r ≡ false) → r ≡ false
layer_fresh e l m r h f = ground arith

pub layers_avoid :
    (e l m r r' : Bool)
    → (l && m) ≡ true
    → (((e || l) && m) ≡ true → r ≡ false)
    → (r' ≡ true → (r || e && m) ≡ true)
    → (e ≡ true → l ≡ false)
    → r' ≡ false
layers_avoid e l m r r' h fresh up disjoint = ground arith

pub upper_layer : (e l m : Bool) → (e && m || l && m) ≡ true → ((e || l) && m) ≡ true
upper_layer e l m h = ground arith

pub points_layer : (e s l m : Bool) → ((e && s) && m || l && m) ≡ ((e && s || l) && m)
points_layer e s l m = ground arith
