-- ===== src/HyperCubes/Layers/Equality.antt =====
-- Objects that `==` takes for equal have the same points.
use Prim.Native.String.{String}
use text.Mathlib.TextEquality.{eq_iff}
use network_config_analyzer.Prelude.{
  ◌≡◌, refl, sym, ◌∙◌, Bool, true, false, not, ◌&&◌, List, [], ◌∷◌, arith, Bool-cases, or_shut,
  or_skip, and_left, and_right, or_other, inl, inr,
}
use network_config_analyzer.HyperCubes.Elem.{LayerElem, ElemLaws}
use network_config_analyzer.HyperCubes.Layers.{
  Cubes, Dict, nil, layer, cubes, empty_interval, is_true, sub_eq, layers_in, keys_in, has_key,
  value_passes, dims_eq,
}
use network_config_analyzer.HyperCubes.Points.{Point, sat, sat_layers, keys_hold, IsWell, AreWell}

pub dims_eq→eq : (ds es : List String) → dims_eq ds es ≡ true → ds ≡ es
unfolding dims_eq
dims_eq→eq [] [] h = refl
dims_eq→eq [] (e ∷ es) h = cc
dims_eq→eq (d ∷ ds) [] h = cc
dims_eq→eq (d ∷ ds) (e ∷ es) h = ground (arith, eq_iff d e, dims_eq→eq ds es)

pub dims_eq_refl : (ds : List String) → dims_eq ds ds ≡ true
unfolding dims_eq
dims_eq_refl [] = refl
dims_eq_refl (d ∷ ds) = ground (arith, eq_iff d d, dims_eq_refl ds)

module _ (o : LayerElem) (laws : ElemLaws o) where
  open o use {Elem, Value, elem_eq}
  open laws use {IsValid, holds}

  pub sat_layers-of_no_key :
      (at : Point o laws) (v : Value) (l : Dict o)
      → keys_hold o laws l v ≡ false
      → sat_layers o laws at v l ≡ false
  sat_layers-of_no_key at v nil h = refl
  sat_layers-of_no_key at v (layer e s l) h = ground (arith, sat_layers-of_no_key at v l)

  pub has_key-holds :
      (e : Elem) (m : Dict o) (v : Value)
      → has_key o e m ≡ true
      → holds e v ≡ true
      → keys_hold o laws m v ≡ true
  unfolding has_key
  has_key-holds e nil v k h = cc
  has_key-holds e (layer f t m) v k h = elim (Bool-cases (elem_eq f e)) [
    | inl same ↦ ground (arith, (laws.eq_iff f e).0 same)
    | inr other ↦ ground (arith, has_key-holds e m v)
  ]

  keys_in-holds :
      (m l : Dict o) (v : Value)
      → keys_in o m l ≡ true
      → keys_hold o laws l v ≡ false
      → keys_hold o laws m v ≡ false
  unfolding keys_in
  keys_in-holds nil l v k h = refl
  keys_in-holds (layer f t m) l v k h = ground (arith, has_key-holds f l v, keys_in-holds m l v)

  -- The value under a key that holds `v` decides whether the dict has the point.
  value_passes-sat :
      (act : List String) (e : Elem) (test : Cubes o → Bool) (m : Dict o) (at : Point o laws)
      (v : Value)
      → AreWell o laws act m
      → holds e v ≡ true
      → value_passes o e test m ≡ true
      → (t : Cubes o) × (test t ≡ true)
        × IsWell o laws act t
        × (sat_layers o laws at v m ≡ sat o laws at t)
        × (keys_hold o laws m v ≡ true)
  unfolding value_passes
  value_passes-sat act e test nil at v w h p = cc
  value_passes-sat act e test (layer f t m) at v w h p = elim (Bool-cases (elem_eq f e)) [
    | inl same ↦
        let fv : holds f v ≡ true = rw ((laws.eq_iff f e).0 same) h in
        (
          t,
          rw same at p,
          w.2,
          or_shut (holds f v) _ _ fv (sat_layers-of_no_key at v m (w.4 v fv)),
          ground arith,
        )
    | inr other ↦
        let p' : value_passes o e test m ≡ true = rw other at p in
        let (u, q, k, s, hm) = value_passes-sat act e test m at v w.5 h p' in
        let out : holds f v ≡ false = ground (arith, w.4 v) in
        (u, q, k, or_skip (holds f v) _ _ out ∙ s, ground arith)
  ]

  layers_eq-sat :
      (l m : Dict o) (at : Point o laws) (v : Value)
      → (keys_hold o laws l v ≡ true → sat_layers o laws at v l ≡ sat_layers o laws at v m)
      → keys_in o m l ≡ true
      → sat_layers o laws at v l ≡ sat_layers o laws at v m
  layers_eq-sat l m at v same k = elim (Bool-cases (keys_hold o laws l v)) [
    | inl h ↦ same h
    | inr h ↦
        sat_layers-of_no_key at v l h ∙ sym (sat_layers-of_no_key at v m (keys_in-holds m l v k h))
  ]

  pub sat_of_false :
      (at : Point o laws) (ds : List String) (l : Dict o)
      → is_true o (cubes ds l) ≡ false
      → sat o laws at (cubes ds l) ≡ false
  unfolding is_true
  sat_of_false at [] l h = cc
  sat_of_false at (d ∷ ds) nil h = refl
  sat_of_false at (d ∷ ds) (layer e s l) h = cc

  pub sat_at :
      (at : Point o laws) (d : String) (a ds : List String) (l : Dict o)
      → ds ≡ d ∷ a
      → sat o laws at (cubes ds l) ≡ sat_layers o laws at (at d) l
  sat_at at d a ds l e = rw e

  mutual
    unfolding sub_eq

    cubes_eq-sat :
        (s t : Cubes o) (a b : List String) (at : Point o laws)
        → IsWell o laws a s
        → IsWell o laws b t
        → sub_eq o s t ≡ true
        → sat o laws at s ≡ sat o laws at t
    cubes_eq-sat empty_interval empty_interval a b at w x e = refl
    cubes_eq-sat empty_interval (cubes es m) a b at w x e = cc
    cubes_eq-sat (cubes ds l) empty_interval a b at w x e = cc
    cubes_eq-sat (cubes ds l) (cubes es m) [] b at w x e = elim w [ ]
    cubes_eq-sat (cubes ds l) (cubes es m) (d ∷ a) [] at w x e = elim x [ ]
    cubes_eq-sat (cubes ds l) (cubes es m) (d ∷ a) (c ∷ b) at w x e =
        elim (Bool-cases (not (is_true o (cubes ds l)) && not (is_true o (cubes es m)))) [
          | inl none ↦
              sat_of_false at ds l (ground arith) ∙ sym (sat_of_false at es m (ground arith))
          | inr more ↦
              let same : (dims_eq ds es && (layers_in o l m && keys_in o m l)) ≡ true =
                rw more at e in
              let inner = and_right (dims_eq ds es) _ same in
              let dims : es ≡ d ∷ a =
                sym (dims_eq→eq ds es (and_left (dims_eq ds es) _ same)) ∙ w.0 in
              sat_at at d a ds l w.0
              ∙ layers_eq-sat l m at (at d)
                  (layers_in-sat l m a b at (at d) w.1 x.1 (and_left _ _ inner))
                  (and_right _ _ inner)
              ∙ sym (sat_at at d a es m dims)
        ]

    layers_in-sat :
        (l m : Dict o) (a b : List String) (at : Point o laws) (v : Value)
        → AreWell o laws a l
        → AreWell o laws b m
        → layers_in o l m ≡ true
        → keys_hold o laws l v ≡ true
        → sat_layers o laws at v l ≡ sat_layers o laws at v m
    layers_in-sat nil m a b at v w x e h = cc
    layers_in-sat (layer f s l) m a b at v w x e h = elim (Bool-cases (holds f v)) [
      | inl fv ↦
          let (t, q, k, p, hm) = value_passes-sat b f (sub_eq o s) m at v x fv (and_left _ _ e) in
          or_shut (holds f v) _ _ fv (sat_layers-of_no_key at v l (w.4 v fv))
          ∙ cubes_eq-sat s t a b at w.2 k q
          ∙ sym p
      | inr fv ↦
          or_skip (holds f v) _ _ fv
          ∙ layers_in-sat l m a b at v w.5 x (and_right _ _ e) (or_other _ _ h fv)
    ]

  -- `==` on two well-formed objects is true only of objects with the same points.
  pub sub_eq-sat :
      (s t : Cubes o) (a b : List String) (at : Point o laws)
      → IsWell o laws a s
      → IsWell o laws b t
      → sub_eq o s t ≡ true
      → sat o laws at s ≡ sat o laws at t
  sub_eq-sat = cubes_eq-sat
