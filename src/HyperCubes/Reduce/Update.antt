-- ===== src/HyperCubes/Reduce/Update.antt =====
-- `dict.update` onto an empty dict of keys that share no value.
use Prim.Native.String.{String}
use network_config_analyzer.Prelude.{
  ◌≡◌, refl, sym, ap, ◌∙◌, true, false, ◌||◌, List, arith, Bool-cases, inl, inr,
}
use network_config_analyzer.HyperCubes.Elem.{LayerElem, ElemLaws}
use network_config_analyzer.HyperCubes.Layers.{Cubes, Dict, nil, layer, put}
use network_config_analyzer.HyperCubes.Points.{keys_hold, Fresh, AreWell}
use network_config_analyzer.HyperCubes.Reduce.{update}

module _ (o : LayerElem) (laws : ElemLaws o) where
  open o use {Elem, Value, nonempty, elem_eq}
  open laws use {IsValid, holds}

  abbrev joined : Dict o → Dict o → Dict o
  joined nil m = m
  joined (layer e s l) m = layer e s (joined l m)

  joined_nil : (l : Dict o) → joined l nil ≡ l
  joined_nil nil = refl
  joined_nil (layer e s l) = ap (layer e s) (joined_nil l)

  joined_assoc :
      (e : Elem) (s : Cubes o) (l m : Dict o)
      → joined (joined l (layer e s nil)) m ≡ joined l (layer e s m)
  joined_assoc e s nil m = refl
  joined_assoc e s (layer f t l) m = ap (layer f t) (joined_assoc e s l m)

  keys_hold-joined :
      (l m : Dict o) (v : Value)
      → keys_hold o laws (joined l m) v ≡ (keys_hold o laws l v || keys_hold o laws m v)
  keys_hold-joined nil m v = refl
  keys_hold-joined (layer e s l) m v = ground (arith, keys_hold-joined l m v)

  put_new :
      (e : Elem) (s : Cubes o) (l : Dict o) (w : Value)
      → holds e w ≡ true
      → Fresh o laws e l
      → put o e s l ≡ joined l (layer e s nil)
  unfolding put
  put_new e s nil w h f = refl
  put_new e s (layer g t l) w h f = elim (Bool-cases (elem_eq g e)) [
    | inl same ↦ absurd (ground (arith, f w h, (laws.eq_iff g e).0 same))
    | inr other ↦ rw other (ap (layer g t) (put_new e s l w h (λ v p. ground (arith, f v p))))
  ]

  update-joined :
      (list : List String) (r m : Dict o)
      → AreWell o laws list m
      → ((v : Value) → keys_hold o laws m v ≡ true → keys_hold o laws r v ≡ false)
      → update o r m ≡ joined r m
  unfolding update
  update-joined list r nil w f = sym (joined_nil r)
  update-joined list r (layer e s m) w f =
      let (v, h) = laws.nonempty-value e w.0 w.1 in
      let p = put_new e s r v h (λ x k. f x (ground (arith, k))) in
      let rest =
        update-joined list (joined r (layer e s nil)) m w.5
          (λ x k. keys_hold-joined r (layer e s nil) x ∙ ground (arith, f x, w.4 x)) in
      ap (λ z. update o z m) p ∙ rest ∙ joined_assoc e s r m

  -- Keys that share no value: the update of an empty dict is the dict itself.
  pub update-nil : (list : List String) (m : Dict o) → AreWell o laws list m → update o nil m ≡ m
  update-nil list m w = update-joined list nil m w (λ v k. refl)
