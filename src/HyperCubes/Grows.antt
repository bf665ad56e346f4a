-- ===== src/HyperCubes/Grows.antt =====
-- How the loops of the operators extend the dict that they build: which values its keys come to
-- hold, and which points it comes to have.
use Prim.Native.String.{String}
use network_config_analyzer.Prelude.{
  ◌≡◌, refl, sym, ap, ◌∙◌, Bool, true, false, ◌&&◌, ◌||◌, List, [], ◌∷◌, arith, or_nothing,
  or_intro,
}
use network_config_analyzer.HyperCubes.Elem.{LayerElem, ElemLaws}
use network_config_analyzer.HyperCubes.Layers.{
  Cubes, Dict, nil, layer, cubes, empty_interval, put, is_true,
}
use network_config_analyzer.HyperCubes.Points.{
  Point, sat, sat_layers, keys_hold, IsWell, AreWell, has_cubes, Fresh, keys_hold-put,
  sat_layers-put, put-AreWell,
}

lower_step :
    (a b c d e : Bool)
    → ((a || b) ≡ true → c ≡ true)
    → ((c || d) ≡ true → e ≡ true)
    → (a || (b || d)) ≡ true
    → e ≡ true
lower_step a b c d e f g h = ground arith

upper_step :
    (a b c d e : Bool)
    → (c ≡ true → (a || b) ≡ true)
    → (e ≡ true → (c || d) ≡ true)
    → e ≡ true
    → (a || (b || d)) ≡ true
upper_step a b c d e f g h = ground arith

points_step : (a b c d e : Bool) → c ≡ (a || b) → e ≡ (c || d) → e ≡ (a || (b || d))
points_step a b c d e f g = ground arith

lower_false : (a : Bool) → (a || false) ≡ true → a ≡ true
lower_false a h = ground arith

or_mono : (a b c : Bool) → (b ≡ true → c ≡ true) → (a || b) ≡ true → (a || c) ≡ true
or_mono a b c f h = ground arith

nil_not_cons : {d : String} {ds : List String} → [] ≡ d ∷ ds → ⊥
nil_not_cons h = cc

module _ (o : LayerElem) (laws : ElemLaws o) (act : List String) where
  open o use {Elem, Value, nonempty}
  open laws use {IsValid, holds}

  -- `r'` has the keys and points of `r`, at least the values `low` and at most the values `high`
  -- more in its keys, and the points `more`.
  pub record Grows (r r' : Dict o) (low high : Value → Bool) (more : Point o laws → Value → Bool)
      : Type 0 where
    pub well : AreWell o laws act r'
    pub lower : (v : Value) → (keys_hold o laws r v || low v) ≡ true → keys_hold o laws r' v ≡ true
    pub upper : (v : Value) → keys_hold o laws r' v ≡ true → (keys_hold o laws r v || high v) ≡ true
    pub points :
        (at : Point o laws) (v : Value)
        → sat_layers o laws at v r' ≡ (sat_layers o laws at v r || more at v)

  pub Grows-refl :
      (r : Dict o) → AreWell o laws act r → Grows r r (λ v. false) (λ v. false) (λ at v. false)
  Grows-refl r w = record {
    well = w;
    lower = λ v h. lower_false _ h;
    upper = λ v h. or_intro _ _ h;
    points = λ at v. or_nothing _;
  }

  pub Grows-trans :
      (r r' r'' : Dict o) (low high low' high' : Value → Bool)
      (more more' : Point o laws → Value → Bool)
      → Grows r r' low high more
      → Grows r' r'' low' high' more'
      → Grows r r''
          (λ v. low v || low' v)
          (λ v. high v || high' v)
          (λ at v. more at v || more' at v)
  Grows-trans r r' r'' low high low' high' more more' g h = record {
    well = h.well;
    lower = λ v. lower_step _ (low v) _ (low' v) _ (g.lower v) (h.lower v);
    upper = λ v. upper_step _ (high v) _ (high' v) _ (g.upper v) (h.upper v);
    points = λ at v. points_step _ (more at v) _ (more' at v) _ (g.points at v) (h.points at v);
  }

  pub Grows-change :
      (r r' : Dict o) (low high low' high' : Value → Bool)
      (more more' : Point o laws → Value → Bool)
      → Grows r r' low high more
      → ((v : Value) → low' v ≡ true → low v ≡ true)
      → ((v : Value) → high v ≡ true → high' v ≡ true)
      → ((at : Point o laws) (v : Value) → more at v ≡ more' at v)
      → Grows r r' low' high' more'
  Grows-change r r' low high low' high' more more' g a b c = record {
    well = g.well;
    lower = λ v h. g.lower v (or_mono _ (low' v) (low v) (a v) h);
    upper = λ v h. or_mono _ (high v) (high' v) (b v) (g.upper v h);
    points = λ at v. g.points at v ∙ ap (λ (x : Bool). sat_layers o laws at v r || x) (c at v);
  }

  pub Grows-put :
      (e : Elem) (s : Cubes o) (r : Dict o)
      → IsValid e
      → nonempty e ≡ true
      → Fresh o laws e r
      → IsWell o laws act s
      → has_cubes s ≡ true
      → AreWell o laws act r
      → Grows r (put o e s r) (holds e) (holds e) (λ at v. holds e v && sat o laws at s)
  Grows-put e s r h n f k c w = record {
    well = put-AreWell o laws act e s r h n f k c w;
    lower = λ v p. keys_hold-put o laws e s r v h n f ∙ p;
    upper = λ v p. sym (keys_hold-put o laws e s r v h n f) ∙ p;
    points = λ at v. sat_layers-put o laws e s r at v h n f;
  }

module _ (o : LayerElem) (laws : ElemLaws o) where
  -- Under a dimension, `bool` of an object tells whether it has a layer.
  pub is_true-has_cubes :
      (d : String) (act : List String) (n : Cubes o)
      → IsWell o laws (d ∷ act) n
      → is_true o n ≡ has_cubes n
  unfolding is_true
  is_true-has_cubes d act empty_interval w = elim w [ ]
  is_true-has_cubes d act (cubes [] nil) w = absurd (nil_not_cons w.0)
  is_true-has_cubes d act (cubes [] (layer e s l)) w = refl
  is_true-has_cubes d act (cubes (c ∷ ds) nil) w = refl
  is_true-has_cubes d act (cubes (c ∷ ds) (layer e s l)) w = refl

  pub sat_of_no_cubes :
      (act : List String) (n : Cubes o) (at : Point o laws)
      → IsWell o laws act n
      → has_cubes n ≡ false
      → sat o laws at n ≡ false
  sat_of_no_cubes [] empty_interval at w h = cc
  sat_of_no_cubes [] (cubes ds l) at w h = elim w [ ]
  sat_of_no_cubes (d ∷ act) empty_interval at w h = elim w [ ]
  sat_of_no_cubes (d ∷ act) (cubes ds nil) at w h = rw (w.0)
  sat_of_no_cubes (d ∷ act) (cubes ds (layer e s l)) at w h = cc

  pub has_cubes_of_key :
      (ds : List String) (l : Dict o) (v : o.Value)
      → keys_hold o laws l v ≡ true
      → has_cubes (cubes ds l) ≡ true
  has_cubes_of_key ds nil v h = cc
  has_cubes_of_key ds (layer e s l) v h = refl
