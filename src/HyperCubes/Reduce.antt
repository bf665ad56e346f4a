-- ===== src/HyperCubes/Reduce.antt =====
-- Making dimensions inactive: reduce_active_dimensions, _set_inactive_dimensions,
-- _remove_some_active_dimensions, _get_values_sets_per_active_dimension. The recursion of
-- _remove_some_active_dimensions is on fuel: each call has one active dimension less.
pub mod Update
pub mod Free
pub mod Remove
pub mod Values
pub mod Whole
pub mod Minimal
pub mod Result
use Prim.Native.String.{String}
use text.Mathlib.Text.{◌==◌ as str_eq}
use network_config_analyzer.Prelude.{
  ℕ, zero, suc, ◌≡◌, Bool, true, false, not, ◌&&◌, ◌||◌, List, [], ◌∷◌, ◌++◌, length, if◌then◌else◌,
  ◌==◌,
}
use network_config_analyzer.Prelude.Outcome.{Outcome, ok, raised, Exn, ◌>>=◌, ◌>>◌, assert}
use network_config_analyzer.HyperCubes.Elem.{LayerElem}
use network_config_analyzer.HyperCubes.Layers.{
  Cubes, Dict, nil, layer, cubes, empty_interval, dims_eq, put, is_true,
}
use network_config_analyzer.HyperCubes.Combine.{is_last, keys}
use network_config_analyzer.HyperCubes.Dimensions.{
  in_dims, dims_subset, by_order, map_layers, set_layers,
}

-- `set(ds) - set(names)`
unfoldable pub dims_minus : List String → List String → List String
unfolding in_dims
dims_minus [] names = []
dims_minus (d ∷ ds) names = if in_dims d names then dims_minus ds names else d ∷ dims_minus ds names

module _ (o : LayerElem) where
  open o use {Elem, elem_eq}

  -- `new_layers.update(layers)`
  unfoldable pub update : Dict o → Dict o → Dict o
  unfolding put
  update r nil = r
  update r (layer e s l) = update (put o e s r) l

  -- `for sub_elem in self.layers.values(): new_layers.update(sub_elem.layers)`
  unfoldable pub update_all : Dict o → Dict o → Outcome (Dict o)
  unfolding update
  update_all r nil = ok r
  update_all r (layer e empty_interval l) = raised Exn.exception
  update_all r (layer e (cubes ds m) l) = update_all (update r m) l

  unfoldable pub remove_some_active_dimensions : ℕ → List String → Cubes o → Outcome (Cubes o)
  unfolding dims_subset dims_eq map_layers set_layers update_all
  remove_some_active_dimensions zero new s = raised Exn.out_of_fuel
  remove_some_active_dimensions (suc n) new empty_interval = raised Exn.exception
  remove_some_active_dimensions (suc n) [] (cubes ds l) = raised Exn.assertion_error
  remove_some_active_dimensions (suc n) (x ∷ new) (cubes [] l) = raised Exn.assertion_error
  remove_some_active_dimensions (suc n) (x ∷ new) (cubes (d ∷ ds) l) =
      let from_layers =
        map_layers o (remove_some_active_dimensions n new) l >>= λ l'. ok (cubes (x ∷ new) l') in
      let as_last = ok (cubes (x ∷ new) (set_layers o empty_interval l)) in
      let below =
        update_all nil l >>= λ l'. remove_some_active_dimensions n (x ∷ new) (cubes ds l') in
      assert (dims_subset (x ∷ new) (d ∷ ds))
      >> (if dims_eq (d ∷ ds) (x ∷ new)
          then ok (cubes (d ∷ ds) l)
          else if str_eq d x
          then (if length new == 0 then as_last else from_layers)
          else below)

  -- A map from dimension to set of values; a set is a list in which an item may stand twice.
  unfoldable pub add_values :
      String → List Elem → List (String × List Elem) → List (String × List Elem)
  add_values d es [] = (d, es) ∷ []
  add_values d es ((c, fs) ∷ vs) =
      if str_eq c d then (c, fs ++ es) ∷ vs else (c, fs) ∷ add_values d es vs

  -- `for (dim, dim_values) in sub_res.items(): …`
  unfoldable pub merge_values :
      List (String × List Elem) → List (String × List Elem) → List (String × List Elem)
  unfolding add_values
  merge_values res [] = res
  merge_values res ((d, es) ∷ sub) = merge_values (add_values d es res) sub

  unfoldable mutual
    unfolding merge_values is_last keys

    pub values_of : Cubes o → Outcome (List (String × List Elem))
    values_of empty_interval = raised Exn.exception
    values_of (cubes [] l) = raised Exn.index_error
    values_of (cubes (d ∷ ds) l) =
        let res = (d, keys o l) ∷ [] in
        let merged = values_of_layers l res in if is_last (d ∷ ds) then ok res else merged

    pub values_of_layers : Dict o → List (String × List Elem) → Outcome (List (String × List Elem))
    values_of_layers nil res = ok res
    values_of_layers (layer e s l) res =
        values_of s >>= λ sub. values_of_layers l (merge_values res sub)

  -- `{dim_domain} == values_set`
  unfoldable pub all_equal : Elem → List Elem → Bool
  all_equal e [] = true
  all_equal e (f ∷ fs) = elem_eq e f && all_equal e fs

  unfoldable pub is_only : Elem → List Elem → Bool
  unfolding all_equal
  is_only e fs = not (length fs == 0) && all_equal e fs

module _ (o : LayerElem) (domain : String → o.Elem) where
  open o use {Elem}

  unfoldable pub dims_to_reduce : List (String × List Elem) → List String
  unfolding is_only
  dims_to_reduce [] = []
  dims_to_reduce ((d, es) ∷ vs) =
      if is_only o (domain d) es then d ∷ dims_to_reduce vs else dims_to_reduce vs

module _ (o : LayerElem) (domain : String → o.Elem) (all : List String) where
  unfoldable pub set_inactive_dimensions : List String → Cubes o → Outcome (Cubes o)
  unfolding dims_minus by_order remove_some_active_dimensions
  set_inactive_dimensions names empty_interval = raised Exn.exception
  set_inactive_dimensions names (cubes ds l) =
      let new = by_order all (dims_minus ds names) in
      if length new == 0
      then ok (cubes [] nil)
      else remove_some_active_dimensions o (length ds) new (cubes ds l)

  unfoldable pub reduce_active_dimensions : Cubes o → Outcome (Cubes o)
  unfolding is_true values_of dims_to_reduce set_inactive_dimensions by_order
  reduce_active_dimensions empty_interval = raised Exn.exception
  reduce_active_dimensions (cubes ds l) =
      if not (is_true o (cubes ds l)) || length ds == 0
      then ok (cubes ds l)
      else values_of o (cubes ds l) >>= λ vs.
          set_inactive_dimensions (by_order all (dims_to_reduce o domain vs)) (cubes ds l)
