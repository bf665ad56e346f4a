-- ===== src/HyperCubes/Reduce/Remove.antt =====
-- _remove_some_active_dimensions on an object whose removed dimensions are whole.
use Prim.Native.String.{String}
use text.Mathlib.Text.{◌==◌ as str_eq}
use text.Mathlib.TextEquality.{eq_iff}
use network_config_analyzer.Prelude.{
  ℕ, zero, suc, ◌≤◌, ◌≡◌, refl, sym, subst, ap, ◌∙◌, true, false, List, [], ◌∷◌, length, arith,
  ◌==◌, Bool-cases, inl, inr,
}
use network_config_analyzer.Prelude.Outcome.{ok, ◌>>=◌}
use network_config_analyzer.HyperCubes.Elem.{LayerElem, ElemLaws}
use network_config_analyzer.HyperCubes.Layers.{
  Cubes, Dict, nil, layer, cubes, empty_interval, dims_eq,
}
use network_config_analyzer.HyperCubes.Layers.Equality.{dims_eq→eq, sat_at}
use network_config_analyzer.HyperCubes.Points.{sat, sat_layers, IsWell, AreWell, has_cubes}
use network_config_analyzer.HyperCubes.Dimensions.{dims_subset, set_layers}
use network_config_analyzer.HyperCubes.Dimensions.Build.{IsPart, IsPart-subset}
use network_config_analyzer.HyperCubes.Dimensions.Order.{str_eq_comm}
use network_config_analyzer.HyperCubes.Reduce.{update_all, remove_some_active_dimensions}
use network_config_analyzer.HyperCubes.Reduce.Update.{update-nil}
use network_config_analyzer.HyperCubes.Reduce.Values.{LayersAt}
use network_config_analyzer.HyperCubes.Reduce.Free.{
  in_domain, IsFull, AllKeys, IsFree, AreFree, Shrinks, each-ok, last-ok, one_key,
}

pub some_left : (y : String) (new : List String) → (length (y ∷ new) == 0) ≡ false
some_left y new = ground arith

module _ (o : LayerElem) (laws : ElemLaws o) (domain : String → o.Elem) where
  open o use {Elem, Value, nonempty}
  open laws use {IsValid, holds}

  abbrev pub Removes : ℕ → List String → List String → Cubes o → Type 0
  Removes n act new s =
      (r : Cubes o) × (remove_some_active_dimensions o n new s ≡ ok r)
      × Shrinks o laws domain act new s r

  remove-same :
      (n : ℕ) (d x : String) (act new ds : List String) (l : Dict o)
      → ds ≡ d ∷ act
      → dims_eq (d ∷ act) (x ∷ new) ≡ true
      → dims_subset (x ∷ new) (d ∷ act) ≡ true
      → AreWell o laws act l
      → has_cubes (cubes ds l) ≡ true
      → Removes (suc n) (d ∷ act) (x ∷ new) (cubes ds l)
  unfolding remove_some_active_dimensions
  remove-same n d x act new ds l e same sub w h = (
    cubes ds l,
    rw (e, sub, same),
    (
      subst (λ z. IsWell o laws z (cubes ds l)) (dims_eq→eq (d ∷ act) (x ∷ new) same) (e, w),
      h,
      (λ at i. refl),
      λ y b. b,
    ),
  )

  remove-last :
      (n : ℕ) (d x : String) (act ds : List String) (l : Dict o)
      → ds ≡ d ∷ act
      → dims_eq (d ∷ act) (x ∷ []) ≡ false
      → dims_subset (x ∷ []) (d ∷ act) ≡ true
      → str_eq d x ≡ true
      → AreWell o laws act l
      → has_cubes (cubes ds l) ≡ true
      → AreFree o laws domain act [] l
      → Removes (suc n) (d ∷ act) (x ∷ []) (cubes ds l)
  unfolding remove_some_active_dimensions
  remove-last n d x act ds l e differ sub same w h f =
      let (w', k, hl, points, keep) = last-ok o laws domain act l w f in
      (
        cubes (x ∷ []) (set_layers o empty_interval l),
        rw (e, sub, differ, same),
        (
          (refl, w'),
          hl ds (x ∷ []) ∙ h,
          (λ at i.
              points at (at x) i.1
              ∙ ap (λ z. sat_layers o laws at (at z) l) (sym ((eq_iff d x).0 same))
              ∙ sym (sat_at o laws at d act ds l e)),
          (λ y b. rw e (
              subst (λ z. LayersAt o (IsFull o laws domain y) z l) (sym ((eq_iff d x).0 same))
                (keep y x b))),
        ),
      )

  remove-layers :
      (n : ℕ) (d x y : String) (act new ds : List String) (l : Dict o)
      → ds ≡ d ∷ act
      → dims_eq (d ∷ act) (x ∷ y ∷ new) ≡ false
      → dims_subset (x ∷ y ∷ new) (d ∷ act) ≡ true
      → str_eq d x ≡ true
      → AreWell o laws act l
      → has_cubes (cubes ds l) ≡ true
      → AreFree o laws domain act (y ∷ new) l
      → ((s : Cubes o)
          → IsWell o laws act s
          → has_cubes s ≡ true
          → IsFree o laws domain act (y ∷ new) s
          → Removes n act (y ∷ new) s)
      → Removes (suc n) (d ∷ act) (x ∷ y ∷ new) (cubes ds l)
  unfolding remove_some_active_dimensions
  remove-layers n d x y act new ds l e differ sub same w h f each =
      let (l', p, w', k, hl, points, keep) =
        each-ok o laws domain act (y ∷ new) (remove_some_active_dimensions o n (y ∷ new)) l each w
          f in
      (
        cubes (x ∷ y ∷ new) l',
        rw (e, sub, differ, same, some_left y new, p, ◌>>=◌),
        (
          (refl, w'),
          hl ds (x ∷ y ∷ new) ∙ h,
          (λ at i.
              points at (at x) i.1
              ∙ ap (λ z. sat_layers o laws at (at z) l) (sym ((eq_iff d x).0 same))
              ∙ sym (sat_at o laws at d act ds l e)),
          (λ y b. rw e (
              subst (λ z. LayersAt o (IsFull o laws domain y) z l) (sym ((eq_iff d x).0 same))
                (keep y x b))),
        ),
      )

  remove-head :
      (n : ℕ) (d x : String) (act new ds : List String) (l : Dict o)
      → ds ≡ d ∷ act
      → dims_eq (d ∷ act) (x ∷ new) ≡ false
      → dims_subset (x ∷ new) (d ∷ act) ≡ true
      → str_eq d x ≡ true
      → AreWell o laws act l
      → has_cubes (cubes ds l) ≡ true
      → AreFree o laws domain act new l
      → ((y : String) (more : List String)
          → new ≡ y ∷ more
          → (s : Cubes o) → IsWell o laws act s
          → has_cubes s ≡ true
          → IsFree o laws domain act (y ∷ more) s
          → Removes n act (y ∷ more) s)
      → Removes (suc n) (d ∷ act) (x ∷ new) (cubes ds l)
  remove-head n d x act [] ds l e differ sub same w h f each =
      remove-last n d x act ds l e differ sub same w h f
  remove-head n d x act (y ∷ new) ds l e differ sub same w h f each =
      remove-layers n d x y act new ds l e differ sub same w h f (each y new refl)

  remove-below :
      (n : ℕ) (d x c : String) (act new ds es : List String) (g : Elem) (m : Dict o)
      → ds ≡ d ∷ c ∷ act
      → es ≡ c ∷ act
      → g ≡ domain d
      → dims_eq (d ∷ c ∷ act) (x ∷ new) ≡ false
      → dims_subset (x ∷ new) (d ∷ c ∷ act) ≡ true
      → str_eq d x ≡ false
      → AreWell o laws act m
      → Removes n (c ∷ act) (x ∷ new) (cubes es m)
      → Removes (suc n) (d ∷ c ∷ act) (x ∷ new) (cubes ds (layer g (cubes es m) nil))
  unfolding remove_some_active_dimensions update_all
  remove-below n d x c act new ds es g m e e' k differ sub other w below =
      let (r, p, shrunk) = below in
      let p' : remove_some_active_dimensions o n (x ∷ new) (cubes (c ∷ act) m) ≡ ok r =
        rw e' at p in
      (
        r,
        rw (e, sub, differ, other, update-nil o laws act m w, ◌>>=◌) p',
        (
          shrunk.0,
          shrunk.1,
          (λ at i.
              shrunk.2 at i.1
              ∙ sym (
                  sat_at o laws at d (c ∷ act) ds (layer g (cubes es m) nil) e
                  ∙ in_domain (holds g (at d)) (sat o laws at (cubes es m)) (rw k i.0))),
          λ y b. rw e ((λ same. k), shrunk.3 y b, tt),
        ),
      )

  remove-below_part :
      (n : ℕ) (d x : String) (act new ds : List String) (l : Dict o)
      → IsPart (x ∷ new) act
      → ds ≡ d ∷ act
      → dims_eq (d ∷ act) (x ∷ new) ≡ false
      → dims_subset (x ∷ new) (d ∷ act) ≡ true
      → str_eq d x ≡ false
      → AreWell o laws act l
      → has_cubes (cubes ds l) ≡ true
      → AllKeys o laws domain (domain d) l
      → AreFree o laws domain act (x ∷ new) l
      → ((s : Cubes o)
          → IsWell o laws act s
          → has_cubes s ≡ true
          → IsFree o laws domain act (x ∷ new) s
          → Removes n act (x ∷ new) s)
      → Removes (suc n) (d ∷ act) (x ∷ new) (cubes ds l)
  remove-below_part n d x [] new ds l part e differ sub other w h k f each = elim part [ ]
  remove-below_part n d x (c ∷ act) new ds nil part e differ sub other w h k f each = cc
  remove-below_part n d x (c ∷ act) new ds (layer g empty_interval l) part e differ sub other w h k
        f each =
      elim w.2 [ ]
  remove-below_part n d x (c ∷ act) new ds (layer g (cubes es m) l) part e differ sub other w h k f
        each =
      subst (λ z. Removes (suc n) (d ∷ c ∷ act) (x ∷ new) (cubes ds (layer g (cubes es m) z)))
        (sym (one_key o laws domain (c ∷ act) d g (cubes es m) l w k))
        (remove-below n d x c act new ds es g m e w.2.0 k.0 differ sub other w.2.1
          (each (cubes es m) w.2 w.3 f.0))

  -- _remove_some_active_dimensions on a well-formed object that is not empty, of which every dimension
  -- that goes has its whole domain as only key, returns when the fuel is the number of active
  -- dimensions; the result is well-formed with the dimensions that stay and has the same points
  -- within the domains. A dimension of which the result has only its whole domain as key is such a
  -- dimension of the object, too.
  pub remove_some_active_dimensions-ok :
      (n : ℕ) (act new : List String) (x : String) (s : Cubes o)
      → length act ≤ n
      → IsPart (x ∷ new) act
      → IsWell o laws act s
      → has_cubes s ≡ true
      → IsFree o laws domain act (x ∷ new) s
      → Removes n act (x ∷ new) s
  remove_some_active_dimensions-ok n [] new x s b part w h f = elim part [ ]
  remove_some_active_dimensions-ok zero (d ∷ act) new x s b part w h f = absurd (omega arith)
  remove_some_active_dimensions-ok (suc n) (d ∷ act) new x empty_interval b part w h f = elim w [ ]
  remove_some_active_dimensions-ok (suc n) (d ∷ act) new x (cubes ds l) b part w h f =
      let sub = IsPart-subset (x ∷ new) (d ∷ act) part in
      let bound : length act ≤ n = omega arith in
      elim (Bool-cases (dims_eq (d ∷ act) (x ∷ new))) [
        | inl same ↦ remove-same n d x act new ds l w.0 same sub w.1 h
        | inr differ ↦ elim (Bool-cases (str_eq d x)) [
          | inl same ↦
              remove-head n d x act new ds l w.0 differ sub same w.1 h (rw same at f) (λ y more e s.
                remove_some_active_dimensions-ok n act more y s bound
                  (rw (str_eq_comm d x true same, e) at part))
          | inr other ↦
              let f' : AllKeys o laws domain (domain d) l × AreFree o laws domain act (x ∷ new) l =
                rw other at f in
              let part' : IsPart (x ∷ new) act = rw (str_eq_comm d x false other) at part in
              remove-below_part n d x act new ds l part' w.0 differ sub other w.1 h f'.0 f'.1
                (λ s. remove_some_active_dimensions-ok n act new x s bound part')
        ]
      ]
