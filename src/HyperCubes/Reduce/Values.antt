-- ===== src/HyperCubes/Reduce/Values.antt =====
-- _get_values_sets_per_active_dimension collects every key of every dimension.
use Prim.Native.String.{String}
use text.Mathlib.Text.{◌==◌ as str_eq}
use text.Mathlib.TextEquality.{eq_iff}
use network_config_analyzer.Prelude.{
  ◌≡◌, refl, sym, subst, ◌∙◌, Bool, false, ◌||◌, List, [], ◌∷◌, ◌++◌, arith, Bool-cases, inl, inr,
}
use network_config_analyzer.Prelude.Outcome.{ok, ◌>>=◌}
use network_config_analyzer.HyperCubes.Elem.{LayerElem, ElemLaws}
use network_config_analyzer.HyperCubes.Layers.{Cubes, Dict, nil, layer, cubes, empty_interval}
use network_config_analyzer.HyperCubes.Points.{IsWell, AreWell}
use network_config_analyzer.HyperCubes.Combine.{keys}
use network_config_analyzer.HyperCubes.Combine.And.Round.{is_last_cons}
use network_config_analyzer.HyperCubes.Dimensions.{in_dims}
use network_config_analyzer.HyperCubes.Dimensions.Order.{str_eq_comm}
use network_config_analyzer.HyperCubes.Reduce.{
  add_values, merge_values, values_of, values_of_layers,
}

or_again : (a b : Bool) → (a || b) ≡ ((a || b) || a)
or_again a b = ground arith

both_false : (a b : Bool) → a ≡ false → b ≡ false → (a || b) ≡ false
both_false a b h k = ground arith

module _ (o : LayerElem) where
  open o use {Elem}

  abbrev pub AllOf : (String → Elem → Type 0) → String → List Elem → Type 0
  AllOf Q d [] = Unit {0}
  AllOf Q d (f ∷ fs) = Q d f × AllOf Q d fs

  -- The predicate holds of each dimension and each of its values.
  abbrev pub AllValues : (String → Elem → Type 0) → List (String × List Elem) → Type 0
  AllValues Q [] = Unit {0}
  AllValues Q ((d, fs) ∷ vs) = AllOf Q d fs × AllValues Q vs

  abbrev pub value_dims : List (String × List Elem) → List String
  value_dims [] = []
  value_dims ((d, fs) ∷ vs) = d ∷ value_dims vs

  -- No dimension stands twice, as in a dict.
  abbrev pub AreDistinct : List (String × List Elem) → Type 0
  AreDistinct [] = Unit {0}
  AreDistinct ((d, fs) ∷ vs) = (in_dims d (value_dims vs) ≡ false) × AreDistinct vs

  -- The predicate holds of each dimension and each of its keys.
  abbrev mutual
    pub KeysAt : (String → Elem → Type 0) → Cubes o → Type 0
    KeysAt Q empty_interval = Unit {0}
    KeysAt Q (cubes [] l) = Unit {0}
    KeysAt Q (cubes (d ∷ ds) l) = LayersAt Q d l

    pub LayersAt : (String → Elem → Type 0) → String → Dict o → Type 0
    LayersAt Q d nil = Unit {0}
    LayersAt Q d (layer e s l) = Q d e × KeysAt Q s × LayersAt Q d l

  abbrev SubsAt : (String → Elem → Type 0) → Dict o → Type 0
  SubsAt Q nil = Unit {0}
  SubsAt Q (layer e s l) = KeysAt Q s × SubsAt Q l

  LayersAt-join :
      (Q : String → Elem → Type 0) (d : String) (l : Dict o)
      → AllOf Q d (keys o l)
      → SubsAt Q l
      → LayersAt Q d l
  unfolding keys
  LayersAt-join Q d nil a b = tt
  LayersAt-join Q d (layer e s l) a b = (a.0, b.0, LayersAt-join Q d l a.1 b.1)

  LayersAt-split :
      (Q : String → Elem → Type 0) (d : String) (l : Dict o)
      → LayersAt Q d l
      → AllOf Q d (keys o l) × SubsAt Q l
  unfolding keys
  LayersAt-split Q d nil h = (tt, tt)
  LayersAt-split Q d (layer e s l) h = let (a, b) = LayersAt-split Q d l h.2 in ((h.0, a), (h.1, b))

  AllOf-both :
      (Q : String → Elem → Type 0) (d : String) (es fs : List Elem)
      → AllOf Q d es
      → AllOf Q d fs
      → AllOf Q d (es ++ fs)
  AllOf-both Q d [] fs h k = k
  AllOf-both Q d (e ∷ es) fs h k = (h.0, AllOf-both Q d es fs h.1 k)

  AllValues-added :
      (Q : String → Elem → Type 0) (d : String) (es : List Elem) (vs : List (String × List Elem))
      → AllOf Q d es
      → AllValues Q vs
      → AllValues Q (add_values o d es vs)
  unfolding add_values
  AllValues-added Q d es [] h k = (h, tt)
  AllValues-added Q d es ((c, fs) ∷ vs) h k = elim (Bool-cases (str_eq c d)) [
    | inl same ↦
        let h' : AllOf Q c es = subst (λ z. AllOf Q z es) (sym ((eq_iff c d).0 same)) h in
        rw same (AllOf-both Q c fs es k.0 h', k.1)
    | inr other ↦ rw other (k.0, AllValues-added Q d es vs h k.1)
  ]

  AllValues-merged :
      (Q : String → Elem → Type 0) (vs sub : List (String × List Elem))
      → AllValues Q vs
      → AllValues Q sub
      → AllValues Q (merge_values o vs sub)
  unfolding merge_values
  AllValues-merged Q vs [] h k = h
  AllValues-merged Q vs ((d, es) ∷ sub) h k =
      AllValues-merged Q (add_values o d es vs) sub (AllValues-added Q d es vs k.0 h) k.1

  AllOf-append :
      (Q : String → Elem → Type 0) (d : String) (es fs : List Elem)
      → AllOf Q d (es ++ fs)
      → AllOf Q d es × AllOf Q d fs
  AllOf-append Q d [] fs h = (tt, h)
  AllOf-append Q d (e ∷ es) fs h = let (a, b) = AllOf-append Q d es fs h.1 in ((h.0, a), b)

  AllValues-add :
      (Q : String → Elem → Type 0) (d : String) (es : List Elem) (vs : List (String × List Elem))
      → AllValues Q (add_values o d es vs)
      → AllOf Q d es × AllValues Q vs
  unfolding add_values
  AllValues-add Q d es [] h = (h.0, tt)
  AllValues-add Q d es ((c, fs) ∷ vs) h = elim (Bool-cases (str_eq c d)) [
    | inl same ↦
        let h' : AllOf Q c (fs ++ es) × AllValues Q vs = rw same at h in
        let (a, b) = AllOf-append Q c fs es h'.0 in
        (subst (λ z. AllOf Q z es) ((eq_iff c d).0 same) b, (a, h'.1))
    | inr other ↦
        let h' : AllOf Q c fs × AllValues Q (add_values o d es vs) = rw other at h in
        let (a, b) = AllValues-add Q d es vs h'.1 in (a, (h'.0, b))
  ]

  AllValues-merge :
      (Q : String → Elem → Type 0) (vs sub : List (String × List Elem))
      → AllValues Q (merge_values o vs sub)
      → AllValues Q vs × AllValues Q sub
  unfolding merge_values
  AllValues-merge Q vs [] h = (h, tt)
  AllValues-merge Q vs ((d, es) ∷ sub) h =
      let (a, b) = AllValues-merge Q (add_values o d es vs) sub h in
      let (c, e) = AllValues-add Q d es vs a in (e, (c, b))

  value_dims-add :
      (x d : String) (es : List Elem) (vs : List (String × List Elem))
      → in_dims x (value_dims (add_values o d es vs)) ≡ (in_dims x (value_dims vs) || str_eq d x)
  unfolding add_values in_dims
  value_dims-add x d es [] = ground arith
  value_dims-add x d es ((c, fs) ∷ vs) = elim (Bool-cases (str_eq c d)) [
    | inl same ↦
        let e : c ≡ d = (eq_iff c d).0 same in
        rw same (rw e (or_again (str_eq d x) (in_dims x (value_dims vs))))
    | inr other ↦ rw other (ground (arith, value_dims-add x d es vs))
  ]

  AreDistinct-add :
      (d : String) (es : List Elem) (vs : List (String × List Elem))
      → AreDistinct vs
      → AreDistinct (add_values o d es vs)
  unfolding add_values in_dims
  AreDistinct-add d es [] h = (refl, tt)
  AreDistinct-add d es ((c, fs) ∷ vs) h = elim (Bool-cases (str_eq c d)) [
    | inl same ↦ rw same h
    | inr other ↦ rw other (
      value_dims-add c d es vs ∙ both_false _ _ h.0 (str_eq_comm c d false other),
      AreDistinct-add d es vs h.1,
    )
  ]

  AreDistinct-merge :
      (vs sub : List (String × List Elem)) → AreDistinct vs → AreDistinct (merge_values o vs sub)
  unfolding merge_values
  AreDistinct-merge vs [] h = h
  AreDistinct-merge vs ((d, es) ∷ sub) h =
      AreDistinct-merge (add_values o d es vs) sub (AreDistinct-add d es vs h)

  -- What the collected values promise of a part of an object.
  abbrev Collected : ((String → Elem → Type 0) → Type 0) → List (String × List Elem) → Type 1
  Collected At vs = (Q : String → Elem → Type 0) → (AllValues Q vs → At Q) × (At Q → AllValues Q vs)

module _ (o : LayerElem) (laws : ElemLaws o) where
  open o use {Elem}

  below_last : (Q : String → Elem → Type 0) (l : Dict o) → AreWell o laws [] l → SubsAt o Q l
  below_last Q nil w = tt
  below_last Q (layer e empty_interval l) w = (tt, below_last Q l w.5)
  below_last Q (layer e (cubes ds m) l) w = elim w.2 [ ]

  values_of_layers-ok :
      (act : List String) (l : Dict o) (res : List (String × List Elem))
      → ((s : Cubes o)
          → IsWell o laws act s
          → (vs : List (String × List Elem)) × (values_of o s ≡ ok vs)
            × AreDistinct o vs
            × Collected o (λ Q. KeysAt o Q s) vs)
      → AreWell o laws act l
      → AreDistinct o res
      → (vs : List (String × List Elem)) × (values_of_layers o l res ≡ ok vs)
        × AreDistinct o vs
        × Collected o (λ Q. AllValues o Q res × SubsAt o Q l) vs
  unfolding values_of_layers
  values_of_layers-ok act nil res f w h = (res, refl, h, λ Q. ((λ a. (a, tt)), (λ a. a.0)))
  values_of_layers-ok act (layer e s l) res f w h =
      let (sub, p, distinct, collected) = f s w.2 in
      let (vs, q, distinct', collected') =
        values_of_layers-ok act l (merge_values o res sub) f w.5 (AreDistinct-merge o res sub h) in
      (
        vs,
        rw (p, ◌>>=◌) q,
        distinct',
        λ Q. (
          (λ a.
              let (m, below) = (collected' Q).0 a in
              let (r, b) = AllValues-merge o Q res sub m in (r, ((collected Q).0 b, below))),
          (λ a. (collected' Q).1 (AllValues-merged o Q res sub a.0 ((collected Q).1 a.1.0), a.1.1)),
        ),
      )

  -- _get_values_sets_per_active_dimension returns on a well-formed object, with each dimension
  -- once, and a predicate holds of all it collects if and only if it holds of all keys.
  pub values_of-ok :
      (act : List String) (d : String) (s : Cubes o)
      → IsWell o laws (d ∷ act) s
      → (vs : List (String × List Elem)) × (values_of o s ≡ ok vs)
        × AreDistinct o vs
        × Collected o (λ Q. KeysAt o Q s) vs
  unfolding values_of in_dims
  values_of-ok act d empty_interval w = elim w [ ]
  values_of-ok [] d (cubes ds l) w = (
    (d, keys o l) ∷ [],
    rw w.0 refl,
    (refl, tt),
    λ Q. (
      (λ a. rw w.0 (LayersAt-join o Q d l a.0 (below_last Q l w.1))),
      (λ a. let h : LayersAt o Q d l = rw w.0 at a in ((LayersAt-split o Q d l h).0, tt)),
    ),
  )
  values_of-ok (c ∷ act) d (cubes ds l) w =
      let (vs, p, distinct, collected) =
        values_of_layers-ok (c ∷ act) l ((d, keys o l) ∷ []) (values_of-ok act c) w.1 (refl, tt) in
      (
        vs,
        rw (w.0, is_last_cons d c act) p,
        distinct,
        λ Q. (
          (λ a. let (r, below) = (collected Q).0 a in rw w.0 (LayersAt-join o Q d l r.0 below)),
          (λ a.
              let h : LayersAt o Q d l = rw w.0 at a in
              let (b, below) = LayersAt-split o Q d l h in (collected Q).1 ((b, tt), below)),
        ),
      )
