-- ===== src/HyperCubes/InPlace/Ending.antt =====
-- What `&=`, `|=` and `-=` share: sets as they leave them, and the computation they end with.
use Prim.Native.String.{String}
use network_config_analyzer.Prelude.{
  ◌≡◌, refl, sym, subst, ap₂, ◌∙◌, Bool, true, false, List, [], ◌∷◌, ◌++◌,
}
use network_config_analyzer.Prelude.Outcome.{Outcome, ok, ◌>>=◌}
use network_config_analyzer.HyperCubes.Elem.{LayerElem, ElemLaws}
use network_config_analyzer.HyperCubes.Layers.{
  Cubes, Dict, nil, layer, cubes, empty_interval, is_true,
}
use network_config_analyzer.HyperCubes.Points.{Point, sat, IsWell, AreWell, has_cubes}
use network_config_analyzer.HyperCubes.Dimensions.{in_dims, by_order}
use network_config_analyzer.HyperCubes.Dimensions.Build.{IsPart, AreDomains, InDomains}
use network_config_analyzer.HyperCubes.Dimensions.Order.{
  IsDistinct, IsPart-by_order, IsPart-in_dims, in_dims-by_order,
}
use network_config_analyzer.HyperCubes.Operators.{is_all, clear, active}
use network_config_analyzer.HyperCubes.Operators.Active.{
  IsActive, prepare_common_active_dimensions-ok,
}
use network_config_analyzer.HyperCubes.Operators.Lists.{in_right}
use network_config_analyzer.HyperCubes.Reduce.{reduce_active_dimensions}
use network_config_analyzer.HyperCubes.Reduce.Whole.{in_self, IsPart-self}
use network_config_analyzer.HyperCubes.Reduce.Result.{reduce_active_dimensions-ok}
use network_config_analyzer.HyperCubes.InPlace.{combine}

has_head :
    (ds : List String) (x : String)
    → in_dims x ds ≡ true
    → (d : String) × (es : List String) × (ds ≡ d ∷ es)
unfolding in_dims
has_head [] x h = cc
has_head (d ∷ ds) x h = (d, ds, refl)

module _ (o : LayerElem) (laws : ElemLaws o) (domain : String → o.Elem) (all : List String) where
  -- A set as the operators leave it: active dimensions in the order of all, keys valid, not empty and
  -- disjoint, no sub-cube empty. It may be empty itself.
  abbrev IsContent : Cubes o → Type 0
  IsContent empty_interval = ⊥
  IsContent (cubes [] l) = Unit {0}
  IsContent (cubes (d ∷ ds) l) = AreWell o laws ds l

  abbrev pub IsCubeSet : Cubes o → Type 0
  IsCubeSet s = IsPart (active o s) all × IsContent s

  pub active-IsContent : (s : Cubes o) → IsActive o laws domain all (active o s) s → IsContent s
  unfolding active
  active-IsContent empty_interval h = h
  active-IsContent (cubes [] l) h = tt
  active-IsContent (cubes (d ∷ ds) l) h = h.0.1

  content-IsActive :
      (s : Cubes o) → IsContent s → is_true o s ≡ true → IsActive o laws domain all (active o s) s
  unfolding active is_true
  content-IsActive empty_interval h k = elim h [ ]
  content-IsActive (cubes [] l) h k = refl
  content-IsActive (cubes (d ∷ ds) nil) h k = cc
  content-IsActive (cubes (d ∷ ds) (layer e s l)) h k = ((refl, h), refl)

  -- The result of an operator, point by point within the domains.
  abbrev pub Computes : (Bool → Bool → Bool) → Cubes o → Cubes o → Outcome (Cubes o) → Type 0
  Computes f s t result =
      (r : Cubes o) × (result ≡ ok r)
      × IsCubeSet r
      × ((at : Point o laws)
          → InDomains o laws domain at all
          → sat o laws at r ≡ f (sat o laws at s) (sat o laws at t))

  pub clear_of :
      (list : List String) (d : String) (ds : List String)
      → IsPart (d ∷ ds) list
      → IsPart list list
        × IsContent (cubes list nil)
        × ((at : Point o laws) → sat o laws at (cubes list nil) ≡ false)
  clear_of [] d ds h = elim h [ ]
  clear_of (n ∷ list) d ds h = (IsPart-self (n ∷ list), tt, λ at. refl)

  module _ (dom : AreDomains o laws domain) (distinct : IsDistinct all) where
    abbrev Reduced : Cubes o → Type 0
    Reduced s =
        (r : Cubes o) × (reduce_active_dimensions o domain all s ≡ ok r)
        × IsCubeSet r
        × ((at : Point o laws) → InDomains o laws domain at all → sat o laws at r ≡ sat o laws at s)

    -- reduce_active_dimensions on a set that may be empty.
    reduce_cubes-ok :
        (d : String) (act : List String) (l : Dict o)
        → IsPart (d ∷ act) all
        → AreWell o laws act l
        → Reduced (cubes (d ∷ act) l)
    unfolding reduce_active_dimensions is_true active
    reduce_cubes-ok d act nil part w = (cubes (d ∷ act) nil, refl, (part, tt), λ at i. refl)
    reduce_cubes-ok d act (layer e s l) part w =
        let (r, p, reduced) =
          reduce_active_dimensions-ok o laws domain all distinct (cubes (d ∷ act) (layer e s l))
            part ((refl, w), refl) in
        (r, p, (reduced.0, active-IsContent r reduced.1), reduced.3)

    reduce_any-ok :
        (d : String) (act : List String) (s : Cubes o)
        → IsPart (d ∷ act) all
        → IsWell o laws (d ∷ act) s
        → Reduced s
    reduce_any-ok d act empty_interval part w = elim w [ ]
    reduce_any-ok d act (cubes ds l) part w =
        subst (λ z. Reduced (cubes z l)) (sym w.0) (reduce_cubes-ok d act l part w.1)

    common_head :
        (s t : Cubes o)
        → IsCubeSet t
        → is_all o t ≡ false
        → (d : String) × (act : List String) × (by_order all (active o s ++ active o t) ≡ d ∷ act)
    unfolding active is_all
    common_head s empty_interval h k = elim h.1 [ ]
    common_head s (cubes [] l) h k = cc
    common_head s (cubes (d ∷ ds) l) h k = has_head (by_order all (active o s ++ (d ∷ ds))) d (
        in_dims-by_order all (active o s ++ (d ∷ ds)) d
          (IsPart-in_dims (d ∷ ds) all d h.0 (in_self d ds))
          (in_right d (active o s) (d ∷ ds) (in_self d ds)))

    active-IsWell :
        (d : String) (act : List String) (s : Cubes o)
        → IsActive o laws domain all (d ∷ act) s
        → IsWell o laws (d ∷ act) s × (has_cubes s ≡ true)
    active-IsWell d act empty_interval h = elim h [ ]
    active-IsWell d act (cubes ds l) h = h

    -- The end of an operator, on sets with points of which the second is not the entire space.
    pub combine-ok :
        (f : Bool → Bool → Bool) (aux : Cubes o → Cubes o → Outcome (Cubes o)) (s t : Cubes o)
        → ((d : String) (act : List String) (s t : Cubes o)
            → IsWell o laws (d ∷ act) s
            → IsWell o laws (d ∷ act) t
            → has_cubes s ≡ true
            → (n : Cubes o) × (aux s t ≡ ok n)
              × IsWell o laws (d ∷ act) n
              × ((at : Point o laws) → sat o laws at n ≡ f (sat o laws at s) (sat o laws at t)))
        → IsCubeSet s
        → IsCubeSet t
        → is_true o s ≡ true
        → is_true o t ≡ true
        → is_all o t ≡ false
        → Computes f s t (combine o domain all aux s t)
    unfolding combine
    combine-ok f aux s t aux-ok hs ht ks kt more =
        let (s', t', p, bs, bt) =
          prepare_common_active_dimensions-ok o laws domain all dom distinct s t hs.0 ht.0
            (content-IsActive s hs.1 ks) (content-IsActive t ht.1 kt) in
        let (d, act, e) = common_head s t ht more in
        let s_well = active-IsWell d act s' (subst (λ z. IsActive o laws domain all z s') e bs.0) in
        let t_well = active-IsWell d act t' (subst (λ z. IsActive o laws domain all z t') e bt.0) in
        let (n, q, w, points) = aux-ok d act s' t' s_well.0 t_well.0 s_well.1 in
        let part = subst (λ z. IsPart z all) e (IsPart-by_order all (active o s ++ active o t)) in
        let (r, z, set, same) = reduce_any-ok d act n part w in
        (
          r,
          rw (p, ◌>>=◌, q, ◌>>=◌) z,
          set,
          λ at i. same at i ∙ points at ∙ ap₂ f (bs.1 at i) (bt.1 at i),
        )

    pub first_empty :
        (s : Cubes o)
        → IsContent s
        → is_true o s ≡ false
        → (at : Point o laws) → sat o laws at s ≡ false
    unfolding is_true
    first_empty empty_interval h k at = elim h [ ]
    first_empty (cubes [] l) h k at = cc
    first_empty (cubes (d ∷ ds) nil) h k at = refl
    first_empty (cubes (d ∷ ds) (layer e s l)) h k at = cc

    pub all_sat : (s : Cubes o) → is_all o s ≡ true → (at : Point o laws) → sat o laws at s ≡ true
    unfolding is_all
    all_sat empty_interval k at = refl
    all_sat (cubes [] l) k at = refl
    all_sat (cubes (d ∷ ds) l) k at = cc

    all_true : (s : Cubes o) → is_all o s ≡ true → is_true o s ≡ true
    unfolding is_all is_true
    all_true empty_interval k = cc
    all_true (cubes [] l) k = refl
    all_true (cubes (d ∷ ds) l) k = cc

    -- An empty set: there are dimensions, so that clear() makes one of them active.
    pub cleared :
        (s : Cubes o)
        → IsCubeSet s
        → is_true o s ≡ false
        → IsCubeSet (clear o all) × ((at : Point o laws) → sat o laws at (clear o all) ≡ false)
    unfolding clear active is_true
    cleared empty_interval h k = elim h.1 [ ]
    cleared (cubes [] l) h k = cc
    cleared (cubes (d ∷ ds) (layer e s l)) h k = cc
    cleared (cubes (d ∷ ds) nil) h k =
        let (part, content, none) = clear_of all d ds h.0 in ((part, content), none)
