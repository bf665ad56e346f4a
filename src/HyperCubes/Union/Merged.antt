-- ===== src/HyperCubes/Union/Merged.antt =====
-- _apply_layer_elements_union leaves no two pairs with equal sub-cubes.
use network_config_analyzer.Prelude.{◌≡◌, false, [], ◌∷◌, if_intro, arith}
use network_config_analyzer.HyperCubes.Elem.{LayerElem}
use network_config_analyzer.HyperCubes.Layers.{Cubes, Dict, nil, layer, sub_eq, put, has_key}
use network_config_analyzer.HyperCubes.Union.{Classes, add_class, classes_of}

module _ (o : LayerElem) where
  open o use {Elem, elem_eq}

  -- No later sub-cube is equal to the given one.
  abbrev pub IsUnlike : Cubes o → Dict o → Type 0
  IsUnlike s nil = Unit {0}
  IsUnlike s (layer e t l) = (sub_eq o s t ≡ false) × IsUnlike s l

  -- No two pairs of the dict have equal sub-cubes.
  abbrev pub IsMerged : Dict o → Type 0
  IsMerged nil = Unit {0}
  IsMerged (layer e s l) = IsUnlike s l × IsMerged l

  -- No sub-cube of the dict is equal to the given one.
  abbrev pub AllUnlike : Dict o → Cubes o → Type 0
  AllUnlike nil s = Unit {0}
  AllUnlike (layer e t l) s = (sub_eq o t s ≡ false) × AllUnlike l s

  abbrev ClassesUnlike : Cubes o → Classes o → Type 0
  ClassesUnlike s [] = Unit {0}
  ClassesUnlike s ((t, es) ∷ cs) = (sub_eq o s t ≡ false) × ClassesUnlike s cs

  abbrev pub AreUnlike : Classes o → Type 0
  AreUnlike [] = Unit {0}
  AreUnlike ((s, es) ∷ cs) = ClassesUnlike s cs × AreUnlike cs

  -- No sub-cube of the dict is equal to that of a class.
  abbrev pub AreApart : Dict o → Classes o → Type 0
  AreApart r [] = Unit {0}
  AreApart r ((s, es) ∷ cs) = AllUnlike r s × AreApart r cs

  ClassesUnlike-add_class :
      (t s : Cubes o) (e : Elem) (cs : Classes o)
      → sub_eq o t s ≡ false
      → ClassesUnlike t cs
      → ClassesUnlike t (add_class o s e cs)
  unfolding add_class
  ClassesUnlike-add_class t s e [] h k = (h, tt)
  ClassesUnlike-add_class t s e ((u, es) ∷ cs) h k =
      if_intro (ClassesUnlike t) (sub_eq o u s) (λ same. (k.0, k.1))
        (λ other. (k.0, ClassesUnlike-add_class t s e cs h k.1))

  AreUnlike-add_class :
      (s : Cubes o) (e : Elem) (cs : Classes o) → AreUnlike cs → AreUnlike (add_class o s e cs)
  unfolding add_class
  AreUnlike-add_class s e [] k = (tt, tt)
  AreUnlike-add_class s e ((u, es) ∷ cs) k =
      if_intro AreUnlike (sub_eq o u s) (λ same. (k.0, k.1))
        (λ other. (ClassesUnlike-add_class u s e cs other k.0, AreUnlike-add_class s e cs k.1))

  pub AreUnlike-classes_of :
      (l : Dict o) (cs : Classes o) → AreUnlike cs → AreUnlike (classes_of o l cs)
  unfolding classes_of
  AreUnlike-classes_of nil cs k = k
  AreUnlike-classes_of (layer e s l) cs k =
      AreUnlike-classes_of l (add_class o s e cs) (AreUnlike-add_class s e cs k)

  IsUnlike-put :
      (t : Cubes o) (e : Elem) (s : Cubes o) (l : Dict o)
      → sub_eq o t s ≡ false
      → IsUnlike t l
      → IsUnlike t (put o e s l)
  unfolding put
  IsUnlike-put t e s nil h k = (h, tt)
  IsUnlike-put t e s (layer f u l) h k =
      if_intro (IsUnlike t) (elem_eq f e) (λ same. (h, k.1))
        (λ other. (k.0, IsUnlike-put t e s l h k.1))

  AllUnlike-put :
      (e : Elem) (s t : Cubes o) (l : Dict o)
      → sub_eq o s t ≡ false
      → AllUnlike l t
      → AllUnlike (put o e s l) t
  unfolding put
  AllUnlike-put e s t nil h k = (h, tt)
  AllUnlike-put e s t (layer f u l) h k =
      if_intro (λ r. AllUnlike r t) (elem_eq f e) (λ same. (h, k.1))
        (λ other. (k.0, AllUnlike-put e s t l h k.1))

  pub AreApart-nil : (cs : Classes o) → AreApart nil cs
  AreApart-nil [] = tt
  AreApart-nil ((t, es) ∷ cs) = (tt, AreApart-nil cs)

  pub AreApart-put :
      (e : Elem) (s : Cubes o) (l : Dict o) (cs : Classes o)
      → ClassesUnlike s cs
      → AreApart l cs
      → AreApart (put o e s l) cs
  AreApart-put e s l [] h k = tt
  AreApart-put e s l ((t, es) ∷ cs) h k =
      (AllUnlike-put e s t l h.0 k.0, AreApart-put e s l cs h.1 k.1)

  -- A new key with a sub-cube unlike all others.
  pub IsMerged-put :
      (e : Elem) (s : Cubes o) (l : Dict o)
      → has_key o e l ≡ false
      → AllUnlike l s
      → IsMerged l
      → IsMerged (put o e s l)
  unfolding put has_key
  IsMerged-put e s nil n h k = (tt, tt)
  IsMerged-put e s (layer f u l) n h k =
      if_intro IsMerged (elem_eq f e) (λ same. absurd (ground arith))
        (λ other. (IsUnlike-put u e s l h.0 k.0, IsMerged-put e s l (ground arith) h.1 k.1))
