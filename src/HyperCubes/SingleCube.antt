-- ===== src/HyperCubes/SingleCube.antt =====
-- _reduce_cube, create_from_cube, add_cube and add_hole. `elem_eq` stands for the comparison of a
-- value with its domain, which for a MinDFA is is_dfa_wll_words.
pub mod Points
use Prim.Native.String.{String}
use network_config_analyzer.Prelude.{
  ℕ, Bool, true, false, not, ◌&&◌, Option, none, some, List, [], ◌∷◌, length, take, if◌then◌else◌,
  ◌==◌,
}
use network_config_analyzer.Prelude.Outcome.{Outcome, ok, raised, Exn, ◌>>=◌, ◌>>◌, assert}
use network_config_analyzer.HyperCubes.Elem.{LayerElem}
use network_config_analyzer.HyperCubes.Layers.{Cubes}
use network_config_analyzer.HyperCubes.Dimensions.{create_from_cube_aux}
use network_config_analyzer.HyperCubes.Operators.{clear, set_all}
use network_config_analyzer.HyperCubes.InPlace.{or_set, sub_set}

module _ (o : LayerElem) (domain : String → o.Elem) where
  open o use {Elem, nonempty, elem_eq}

  -- One value of the cube, before those that follow; `none` is `is_empty`.
  unfoldable pub keep_value :
      Elem → String → Option (List Elem × List String) → Option (List Elem × List String)
  keep_value e d none = none
  keep_value e d (some (es, ds)) =
      if elem_eq (domain d) e then some (es, ds) else some (e ∷ es, d ∷ ds)

  -- _reduce_cube
  unfoldable pub reduce_cube : List Elem → List String → Outcome (Option (List Elem × List String))
  unfolding keep_value
  reduce_cube [] ds = ok (some ([], []))
  reduce_cube (e ∷ es) [] = raised Exn.index_error
  reduce_cube (e ∷ es) (d ∷ ds) =
      let rest = reduce_cube es ds in
      if nonempty e then (rest >>= λ r. ok (keep_value e d r)) else ok none

  unfoldable pub create_reduced : List String → Option (List Elem × List String) → Outcome (Cubes o)
  unfolding clear set_all create_from_cube_aux
  create_reduced all none = ok (clear o all)
  create_reduced all (some ([], ds)) = ok (set_all o)
  create_reduced all (some (e ∷ es, ds)) = create_from_cube_aux o (e ∷ es) ds

  unfoldable pub create_from_cube : List String → List Elem → List String → Outcome (Cubes o)
  unfolding reduce_cube create_reduced
  create_from_cube all es ds =
      assert (not (length es == 0))
      >> (assert (length es == length ds) >> (reduce_cube es ds >>= λ r. create_reduced all r))

  -- `for dim_value in cube: if not dim_value: return`
  unfoldable pub all_nonempty : List Elem → Bool
  all_nonempty [] = true
  all_nonempty (e ∷ es) = nonempty e && all_nonempty es

  -- The `cube_dimensions` that are not given are the first ones.
  unfoldable pub dims_or_first : List String → List Elem → Option (List String) → List String
  dims_or_first all es none = take (length es) all
  dims_or_first all es (some ds) = ds

  unfoldable pub add_cube :
      List String → Cubes o → List Elem → Option (List String) → Outcome (Cubes o)
  add_cube all s es given =
      if length es == 0
      then ok s
      else if not (all_nonempty es)
      then ok s
      else create_from_cube all es (dims_or_first all es given) >>= λ c. or_set o domain all s c

  unfoldable pub add_hole :
      List String → Cubes o → List Elem → Option (List String) → Outcome (Cubes o)
  add_hole all s es given =
      if length es == 0
      then ok s
      else if not (all_nonempty es)
      then ok s
      else create_from_cube all es (dims_or_first all es given) >>= λ c. sub_set o domain all s c
