-- ===== src/HyperCubes/Union.antt =====
-- _apply_layer_elements_union.
pub mod Merged
pub mod Points
use network_config_analyzer.Prelude.{Bool, List, [], ◌∷◌, ◌++◌, if◌then◌else◌}
use network_config_analyzer.Prelude.Outcome.{Outcome, ok, raised, Exn, ◌>>=◌}
use network_config_analyzer.HyperCubes.Elem.{LayerElem}
use network_config_analyzer.HyperCubes.Layers.{Cubes, Dict, nil, layer, put, sub_eq}

module _ (o : LayerElem) where
  open o use {Elem, join}

  -- The dict `equiv_classes`: the elements that lead to equal sub-cubes.
  abbrev pub Classes : Type 0
  Classes = List (Cubes o × List Elem)

  unfoldable pub add_class : Cubes o → Elem → Classes → Classes
  add_class s e [] = (s, e ∷ []) ∷ []
  add_class s e ((t, es) ∷ cs) =
      if sub_eq o t s then (t, es ++ e ∷ []) ∷ cs else (t, es) ∷ add_class s e cs

  unfoldable pub classes_of : Dict o → Classes → Classes
  unfolding add_class
  classes_of nil cs = cs
  classes_of (layer e s l) cs = classes_of l (add_class s e cs)

  -- `for elem in layer_0_elem_list[1:]: layer_0_new_elem |= elem`
  unfoldable pub join_all : Elem → List Elem → Outcome Elem
  join_all e [] = ok e
  join_all e (f ∷ fs) = join e f >>= λ g. join_all g fs

  unfoldable pub class_elem : List Elem → Outcome Elem
  unfolding join_all
  class_elem [] = raised Exn.index_error
  class_elem (e ∷ es) = join_all e es

  unfoldable pub rebuild : Classes → Dict o → Outcome (Dict o)
  unfolding class_elem put
  rebuild [] r = ok r
  rebuild ((s, es) ∷ cs) r = class_elem es >>= λ e. rebuild cs (put o e s r)

  unfoldable pub apply_union : Dict o → Outcome (Dict o)
  unfolding classes_of rebuild
  apply_union l = rebuild (classes_of l []) nil
