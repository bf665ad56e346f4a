-- ===== src/HyperCubes/Points.antt =====
-- The points of a hyper-cube set, and what holds of the keys of its layers. A point gives each
-- dimension a value; an inactive dimension allows every value.
use Prim.Native.String.{String}
use network_config_analyzer.Prelude.{
  ◌≡◌, refl, Bool, true, false, ◌&&◌, ◌||◌, List, [], ◌∷◌, arith, Bool-cases, inl, inr,
}
use network_config_analyzer.HyperCubes.Elem.{LayerElem, ElemLaws}
use network_config_analyzer.HyperCubes.Layers.{
  Sub, Cubes, Dict, nil, layer, cubes, empty_interval, put,
}

-- There is a cube below: always so under the last dimension.
abbrev pub has_cubes : {E : Type 0} → Sub E → Bool
has_cubes empty_interval = true
has_cubes (cubes ds nil) = false
has_cubes (cubes ds (layer e s l)) = true

module _ (o : LayerElem) (laws : ElemLaws o) where
  open o use {Elem, Value, nonempty, elem_eq}
  open laws use {IsValid, holds}

  abbrev pub Point : Type 0
  Point = String → Value

  abbrev mutual
    pub sat : Point → Cubes o → Bool
    sat at empty_interval = true
    sat at (cubes [] l) = true
    sat at (cubes (d ∷ ds) l) = sat_layers at (at d) l

    pub sat_layers : Point → Value → Dict o → Bool
    sat_layers at v nil = false
    sat_layers at v (layer e s l) = (holds e v && sat at s) || sat_layers at v l

  -- Some key of the dict holds the value.
  abbrev pub keys_hold : Dict o → Value → Bool
  keys_hold nil v = false
  keys_hold (layer e s l) v = holds e v || keys_hold l v

  -- The element shares no value with the keys of the dict.
  abbrev pub Fresh : Elem → Dict o → Type 0
  Fresh e l = (v : Value) → holds e v ≡ true → keys_hold l v ≡ false

  -- An object over the given active dimensions: keys valid, not empty and disjoint, and sub-cubes of
  -- the same kind over the remaining dimensions. The class also promises that no two pairs have the
  -- same sub-cube and that no active dimension could be left out, which is not asked for here.
  abbrev mutual
    pub IsWell : List String → Cubes o → Type 0
    IsWell [] empty_interval = Unit {0}
    IsWell [] (cubes ds l) = ⊥
    IsWell (d ∷ act) empty_interval = ⊥
    IsWell (d ∷ act) (cubes ds l) = (ds ≡ d ∷ act) × AreWell act l

    pub AreWell : List String → Dict o → Type 0
    AreWell act nil = Unit {0}
    AreWell act (layer e s l) =
        IsValid e
        × (nonempty e ≡ true)
        × IsWell act s
        × (has_cubes s ≡ true)
        × Fresh e l
        × AreWell act l

  eq_of_key : (e f : Elem) → elem_eq e f ≡ true → e ≡ f
  eq_of_key e f = (laws.eq_iff e f).0

  -- A key that shares no value with the dict is new, and goes last.
  pub keys_hold-put :
      (e : Elem) (s : Cubes o) (l : Dict o) (v : Value)
      → IsValid e
      → nonempty e ≡ true
      → Fresh e l
      → keys_hold (put o e s l) v ≡ (keys_hold l v || holds e v)
  unfolding put
  keys_hold-put e s nil v h n f = ground arith
  keys_hold-put e s (layer k t l) v h n f = elim (Bool-cases (elem_eq k e)) [
    | inl same ↦
        let (w, p) = laws.nonempty-value e h n in absurd (ground (arith, f w, eq_of_key k e same))
    | inr other ↦ ground (arith, keys_hold-put e s l v h n (λ w p. ground (arith, f w p)))
  ]

  pub sat_layers-put :
      (e : Elem) (s : Cubes o) (l : Dict o) (at : Point) (v : Value)
      → IsValid e
      → nonempty e ≡ true
      → Fresh e l
      → sat_layers at v (put o e s l) ≡ (sat_layers at v l || holds e v && sat at s)
  unfolding put
  sat_layers-put e s nil at v h n f = ground arith
  sat_layers-put e s (layer k t l) at v h n f = elim (Bool-cases (elem_eq k e)) [
    | inl same ↦
        let (w, p) = laws.nonempty-value e h n in absurd (ground (arith, f w, eq_of_key k e same))
    | inr other ↦ ground (arith, sat_layers-put e s l at v h n (λ w p. ground (arith, f w p)))
  ]

  pub put-AreWell :
      (act : List String) (e : Elem) (s : Cubes o) (l : Dict o)
      → IsValid e
      → nonempty e ≡ true
      → Fresh e l
      → IsWell act s
      → has_cubes s ≡ true
      → AreWell act l
      → AreWell act (put o e s l)
  unfolding put
  put-AreWell act e s nil h n f k c w = (h, n, k, c, (λ v p. refl), tt)
  put-AreWell act e s (layer g t l) h n f k c w = elim (Bool-cases (elem_eq g e)) [
    | inl same ↦
        let (x, p) = laws.nonempty-value e h n in absurd (ground (arith, f x, eq_of_key g e same))
    | inr other ↦
        let fl : Fresh e l = λ x p. ground (arith, f x p) in
        rw (other) (
          w.0,
          w.1,
          w.2,
          w.3,
          (λ x p. ground (arith, keys_hold-put e s l x h n fl, w.4 x p, f x)),
          put-AreWell act e s l h n fl k c w.5,
        )
  ]
