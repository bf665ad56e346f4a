-- ===== src/HyperCubes/SingleCube/Points.antt =====
-- create_from_cube and add_cube on valid values: the points of the cube.
use Prim.Native.String.{String}
use text.Mathlib.Text.{◌==◌ as str_eq}
use text.Mathlib.TextEquality.{eq_iff}
use network_config_analyzer.Prelude.{
  ◌≡◌, refl, sym, subst, ap, ◌∙◌, Bool, true, false, ◌&&◌, ◌||◌, Option, none, some, List, [], ◌∷◌,
  length, arith, ◌==◌, Bool-cases, inl, inr,
}
use network_config_analyzer.Prelude.Outcome.{ok, ◌>>=◌}
use network_config_analyzer.HyperCubes.Elem.{LayerElem, ElemLaws}
use network_config_analyzer.HyperCubes.Layers.{Cubes, nil, layer, cubes, empty_interval}
use network_config_analyzer.HyperCubes.Points.{Point, sat, IsWell, has_cubes}
use network_config_analyzer.HyperCubes.Dimensions.{create_from_cube_aux}
use network_config_analyzer.HyperCubes.Dimensions.Build.{AreDomains, IsPart, InDomains}
use network_config_analyzer.HyperCubes.Dimensions.Order.{IsDistinct, IsPart-cons}
use network_config_analyzer.HyperCubes.Operators.{active, clear, set_all}
use network_config_analyzer.HyperCubes.Operators.Active.{IsActive, of_cubes, active-IsActive}
use network_config_analyzer.HyperCubes.Reduce.Result.{part_domains}
use network_config_analyzer.HyperCubes.InPlace.Ending.{IsCubeSet, active-IsContent, clear_of}
use network_config_analyzer.HyperCubes.InPlace.Points.{or_set-ok}
use network_config_analyzer.HyperCubes.SingleCube.{
  keep_value, reduce_cube, create_reduced, create_from_cube, all_nonempty, dims_or_first, add_cube,
}

IsPart-trans : (a b c : List String) → IsPart a b → IsPart b c → IsPart a c
IsPart-trans [] b c h k = tt
IsPart-trans (x ∷ a) [] c h k = elim h [ ]
IsPart-trans (x ∷ a) (y ∷ b) [] h k = elim k [ ]
IsPart-trans (x ∷ a) (y ∷ b) (z ∷ c) h k = elim (Bool-cases (str_eq y z)) [
  | inl same ↦
      let e : y ≡ z = (eq_iff y z).0 same in
      let k' : IsPart b c = rw same at k in
      elim (Bool-cases (str_eq x y)) [
        | inl first ↦
            let i : str_eq x z ≡ true = subst (λ w. str_eq x w ≡ true) e first in
            rw i (IsPart-trans a b c (rw first at h) k')
        | inr other ↦
            let i : str_eq x z ≡ false = subst (λ w. str_eq x w ≡ false) e other in
            rw i (IsPart-trans (x ∷ a) b c (rw other at h) k')
      ]
  | inr other ↦ IsPart-cons z (x ∷ a) c (IsPart-trans (x ∷ a) (y ∷ b) c h (rw other at k))
]

some_values : {A : Type 0} → (e : A) (es : List A) → (length (e ∷ es) == 0) ≡ false
some_values e es = ground arith

last_or : (a b c : Bool) → b ≡ c → (a && b || false) ≡ (a && c)
last_or a b c h = ground arith

or_none : (a b : Bool) → b ≡ false → a ≡ (a || b)
or_none a b h = ground arith

whole_value : (a b : Bool) → a ≡ true → b ≡ (a && b)
whole_value a b h = ground arith

module _ (o : LayerElem) (laws : ElemLaws o) (domain : String → o.Elem) where
  open o use {Elem, nonempty, elem_eq}
  open laws use {IsValid, holds}

  -- The point lies in each value of the cube.
  abbrev pub cube_holds : Point o laws → List Elem → List String → Bool
  cube_holds at [] ds = true
  cube_holds at (e ∷ es) [] = true
  cube_holds at (e ∷ es) (d ∷ ds) = holds e (at d) && cube_holds at es ds

  -- As many values as dimensions, each valid.
  abbrev pub IsCube : List Elem → List String → Type 0
  IsCube [] [] = Unit {0}
  IsCube [] (d ∷ ds) = ⊥
  IsCube (e ∷ es) [] = ⊥
  IsCube (e ∷ es) (d ∷ ds) = IsValid e × IsCube es ds

  abbrev AreNonempty : List Elem → Type 0
  AreNonempty [] = Unit {0}
  AreNonempty (e ∷ es) = (nonempty e ≡ true) × AreNonempty es

  create_from_cube_aux-ok :
      (e : Elem) (es : List Elem) (d : String) (ds : List String)
      → IsCube (e ∷ es) (d ∷ ds)
      → AreNonempty (e ∷ es)
      → (r : Cubes o) × (create_from_cube_aux o (e ∷ es) (d ∷ ds) ≡ ok r)
        × IsWell o laws (d ∷ ds) r
        × (has_cubes r ≡ true)
        × ((at : Point o laws) → sat o laws at r ≡ cube_holds at (e ∷ es) (d ∷ ds))
  unfolding create_from_cube_aux
  create_from_cube_aux-ok e [] d [] v n = (
    cubes (d ∷ []) (layer e empty_interval nil),
    refl,
    (refl, (v.0, n.0, tt, refl, (λ x k. refl), tt)),
    refl,
    λ at. last_or _ true true refl,
  )
  create_from_cube_aux-ok e [] d (c ∷ ds) v n = elim v.1 [ ]
  create_from_cube_aux-ok e (f ∷ es) d [] v n = elim v.1 [ ]
  create_from_cube_aux-ok e (f ∷ es) d (c ∷ ds) v n =
      let (r, p, w, h, points) = create_from_cube_aux-ok f es c ds v.1 n.1 in
      (
        cubes (d ∷ c ∷ ds) (layer e r nil),
        rw (p, ◌>>=◌) refl,
        (refl, (v.0, n.0, w, h, (λ x k. refl), tt)),
        refl,
        λ at. last_or _ _ _ (points at),
      )

  -- What _reduce_cube promises.
  abbrev Keeps : List Elem → List String → Option (List Elem × List String) → Type 0
  Keeps es ds none = (at : Point o laws) → cube_holds at es ds ≡ false
  Keeps es ds (some (fs, cs)) =
      IsCube fs cs
      × AreNonempty fs
      × IsPart cs ds
      × ((at : Point o laws)
          → InDomains o laws domain at ds
          → cube_holds at fs cs ≡ cube_holds at es ds)

  keep_value-ok :
      (e : Elem) (es : List Elem) (d : String) (ds : List String)
      (r : Option (List Elem × List String))
      → IsValid e
      → nonempty e ≡ true
      → Keeps es ds r
      → Keeps (e ∷ es) (d ∷ ds) (keep_value o domain e d r)
  unfolding keep_value
  keep_value-ok e es d ds none v n k = λ at. ground (arith, k at)
  keep_value-ok e es d ds (some (fs, cs)) v n k = elim (Bool-cases (elem_eq (domain d) e)) [
    | inl whole ↦
        let p : domain d ≡ e = (laws.eq_iff (domain d) e).0 whole in
        rw whole (
          k.0,
          k.1,
          IsPart-cons d cs ds k.2,
          λ at i.
              k.3 at i.1
              ∙ whole_value (holds e (at d)) (cube_holds at es ds)
                  (subst (λ z. holds z (at d) ≡ true) p i.0),
        )
    | inr part ↦ rw part (
      (v, k.0),
      (n, k.1),
      rw ((eq_iff d d).1 refl) k.2,
      λ at i. ap (λ b. holds e (at d) && b) (k.3 at i.1),
    )
  ]

  reduce_cube-ok :
      (es : List Elem) (ds : List String)
      → IsCube es ds
      → (r : Option (List Elem × List String)) × (reduce_cube o domain es ds ≡ ok r) × Keeps es ds r
  unfolding reduce_cube
  reduce_cube-ok [] [] v = (some ([], []), refl, (tt, tt, tt, λ at i. refl))
  reduce_cube-ok [] (d ∷ ds) v = elim v [ ]
  reduce_cube-ok (e ∷ es) [] v = elim v [ ]
  reduce_cube-ok (e ∷ es) (d ∷ ds) v = elim (Bool-cases (nonempty e)) [
    | inl some_value ↦
        let (r, p, k) = reduce_cube-ok es ds v.1 in
        (
          keep_value o domain e d r,
          rw (some_value, p, ◌>>=◌) refl,
          keep_value-ok e es d ds r v.0 some_value k,
        )
    | inr no_value ↦
        (none, rw no_value refl, λ at. ground (arith, laws.empty-holds e (at d) no_value))
  ]

  module _ (all : List String) (distinct : IsDistinct all) where
    well_set :
        (d : String) (act : List String) (r : Cubes o)
        → IsPart (d ∷ act) all
        → IsWell o laws (d ∷ act) r
        → has_cubes r ≡ true
        → IsCubeSet o laws domain all r
    well_set d act r part w h =
        let a = of_cubes o laws domain all d act r w h in
        let e : d ∷ act ≡ active o r = sym (active-IsActive o laws domain all (d ∷ act) r a) in
        (
          subst (λ z. IsPart z all) e part,
          active-IsContent o laws domain all r (subst (λ z. IsActive o laws domain all z r) e a),
        )

    -- The set that holds the points of a cube within the domains.
    abbrev pub IsCubeOf : List Elem → List String → Cubes o → Type 0
    IsCubeOf es ds r =
        IsCubeSet o laws domain all r
        × ((at : Point o laws)
            → InDomains o laws domain at all
            → sat o laws at r ≡ cube_holds at es ds)

    create_reduced-ok :
        (es : List Elem) (d : String) (ds : List String) (x : Option (List Elem × List String))
        → IsPart (d ∷ ds) all
        → Keeps es (d ∷ ds) x
        → (r : Cubes o) × (create_reduced o domain all x ≡ ok r) × IsCubeOf es (d ∷ ds) r
    unfolding create_reduced clear set_all active
    create_reduced-ok es d ds none part k =
        let (whole, content, no_point) = clear_of o laws domain all all d ds part in
        (cubes all nil, refl, ((whole, content), λ at i. no_point at ∙ sym (k at)))
    create_reduced-ok es d ds (some ([], cs)) part k = (
      cubes [] nil,
      refl,
      ((tt, tt), λ at i. k.3 at (part_domains o laws domain all distinct (d ∷ ds) at part i)),
    )
    create_reduced-ok es d ds (some (f ∷ fs, [])) part k = elim k.0 [ ]
    create_reduced-ok es d ds (some (f ∷ fs, c ∷ cs)) part k =
        let (r, p, w, h, points) = create_from_cube_aux-ok f fs c cs k.0 k.1 in
        (
          r,
          p,
          (
            well_set c cs r (IsPart-trans (c ∷ cs) (d ∷ ds) all k.2 part) w h,
            λ at i. points at ∙ k.3 at (part_domains o laws domain all distinct (d ∷ ds) at part i),
          ),
        )

    IsCube-length :
        (es : List Elem) (ds : List String) → IsCube es ds → (length es == length ds) ≡ true
    IsCube-length [] [] v = refl
    IsCube-length [] (d ∷ ds) v = elim v [ ]
    IsCube-length (e ∷ es) [] v = elim v [ ]
    IsCube-length (e ∷ es) (d ∷ ds) v = ground (arith, IsCube-length es ds v.1)

    -- create_from_cube, on one valid value for each of some dimensions in the order of all, returns; the
    -- result is a set as the operators keep it, and within the domains it has exactly the points of the
    -- cube, also when a value is empty or a whole domain.
    pub create_from_cube-ok :
        (e : Elem) (es : List Elem) (d : String) (ds : List String)
        → IsCube (e ∷ es) (d ∷ ds)
        → IsPart (d ∷ ds) all
        → (r : Cubes o) × (create_from_cube o domain all (e ∷ es) (d ∷ ds) ≡ ok r)
          × IsCubeOf (e ∷ es) (d ∷ ds) r
    unfolding create_from_cube
    create_from_cube-ok e es d ds v part =
        let (x, p, k) = reduce_cube-ok (e ∷ es) (d ∷ ds) v in
        let (r, q, of_cube) = create_reduced-ok (e ∷ es) d ds x part k in
        (r, rw (some_values e es, IsCube-length (e ∷ es) (d ∷ ds) v, p, ◌>>=◌) q, of_cube)

    all_or_empty :
        (es : List Elem) (ds : List String)
        → IsCube es ds
        → all_nonempty o domain es ≡ false
        → (at : Point o laws) → cube_holds at es ds ≡ false
    unfolding all_nonempty
    all_or_empty [] ds v h at = cc
    all_or_empty (e ∷ es) [] v h at = elim v [ ]
    all_or_empty (e ∷ es) (d ∷ ds) v h at = elim (Bool-cases (nonempty e)) [
      | inl k ↦ ground (arith, all_or_empty es ds v.1 (rw k at h) at)
      | inr k ↦ ground (arith, laws.empty-holds e (at d) k)
    ]

    -- add_cube, on a set and one valid value for each of some dimensions in the order of all, returns;
    -- the result is a set as the operators keep it, and within the domains it has exactly the points of
    -- the set and of the cube, also when a value of the cube is empty.
    pub add_cube-ok :
        AreDomains o laws domain
        → (s : Cubes o) (e : Elem) (es : List Elem) (given : Option (List String)) (d : String)
          (ds : List String)
        → IsCubeSet o laws domain all s
        → dims_or_first o domain all (e ∷ es) given ≡ d ∷ ds
        → IsCube (e ∷ es) (d ∷ ds)
        → IsPart (d ∷ ds) all
        → (r : Cubes o) × (add_cube o domain all s (e ∷ es) given ≡ ok r)
          × IsCubeSet o laws domain all r
          × ((at : Point o laws)
              → InDomains o laws domain at all
              → sat o laws at r ≡ (sat o laws at s || cube_holds at (e ∷ es) (d ∷ ds)))
    unfolding add_cube
    add_cube-ok dom s e es given d ds hs f v part =
        elim (Bool-cases (all_nonempty o domain (e ∷ es))) [
          | inl full ↦
              let (c, p, of_cube) = create_from_cube-ok e es d ds v part in
              let (r, q, hr, both) = or_set-ok o laws domain all dom distinct s c hs of_cube.0 in
              (
                r,
                rw (some_values e es, full, f, p, ◌>>=◌) q,
                hr,
                λ at i. both at i ∙ ap (λ b. sat o laws at s || b) (of_cube.1 at i),
              )
          | inr some_empty ↦ (
            s,
            rw (some_values e es, some_empty) refl,
            hs,
            λ at i. or_none _ _ (all_or_empty (e ∷ es) (d ∷ ds) v some_empty at),
          )
        ]
