-- ===== src/HyperCubes/Dimensions.antt =====
-- The active dimensions of a hyper-cube set: build_new_active_dimensions,
-- _set_active_dimensions, _prepare_common_active_dimensions, reduce_active_dimensions. The domain of
-- each dimension, which the source asks of the DimensionsManager singleton, is a parameter here, and
-- so is `all_dimensions_list`.
pub mod Build
pub mod Order
use Prim.Native.String.{String}
use text.Mathlib.Text.{◌==◌ as str_eq}
use network_config_analyzer.Prelude.{
  ℕ, ◌≡◌, Bool, true, false, not, ◌&&◌, ◌||◌, List, [], ◌∷◌, ◌++◌, length, if◌then◌else◌, ◌==◌,
}
use network_config_analyzer.Prelude.Outcome.{Outcome, ok, raised, Exn, ◌>>=◌, ◌>>◌, assert}
use network_config_analyzer.HyperCubes.Elem.{LayerElem}
use network_config_analyzer.HyperCubes.Layers.{
  Cubes, Dict, nil, layer, cubes, empty_interval, put, is_true, dims_eq,
}
use network_config_analyzer.HyperCubes.Combine.{is_last}

-- `dim in dims`
unfoldable pub in_dims : String → List String → Bool
in_dims d [] = false
in_dims d (e ∷ es) = str_eq e d || in_dims d es

-- `set(ds).issubset(set(es))`
unfoldable pub dims_subset : List String → List String → Bool
unfolding in_dims
dims_subset [] es = true
dims_subset (d ∷ ds) es = in_dims d es && dims_subset ds es

-- `set(ds) == set(es)`
unfoldable pub same_dims : List String → List String → Bool
unfolding dims_subset
same_dims ds es = dims_subset ds es && dims_subset es ds

-- _get_dimensions_subset_by_order: those of the list that are in the set, in the order of the list.
unfoldable pub by_order : List String → List String → List String
unfolding in_dims
by_order [] ds = []
by_order (a ∷ all) ds = if in_dims a ds then a ∷ by_order all ds else by_order all ds

module _ (o : LayerElem) where
  open o use {Elem}

  -- _create_from_cube_aux
  unfoldable pub create_from_cube_aux : List Elem → List String → Outcome (Cubes o)
  create_from_cube_aux [] ds = raised Exn.index_error
  create_from_cube_aux (e ∷ []) ds = ok (cubes ds (layer e empty_interval nil))
  create_from_cube_aux (e ∷ f ∷ es) [] =
      create_from_cube_aux (f ∷ es) [] >>= λ s. ok (cubes [] (layer e s nil))
  create_from_cube_aux (e ∷ f ∷ es) (d ∷ ds) =
      create_from_cube_aux (f ∷ es) ds >>= λ s. ok (cubes (d ∷ ds) (layer e s nil))

  -- `for sub_elem in self.layers.values(): sub_elem.build(…)`
  unfoldable pub map_layers : (Cubes o → Outcome (Cubes o)) → Dict o → Outcome (Dict o)
  map_layers build nil = ok nil
  map_layers build (layer e s l) = build s >>= λ s'. map_layers build l >>= λ l'. ok (layer e s' l')

  -- `for layer_elem in self.layers: self.layers[layer_elem] = new_sub_elem`
  unfoldable pub set_layers : Cubes o → Dict o → Dict o
  set_layers s nil = nil
  set_layers s (layer e t l) = layer e s (set_layers s l)

module _ (o : LayerElem) (domain : String → o.Elem) where
  open o use {Elem}

  -- _get_entire_space_cube
  unfoldable pub entire_space_cube : List String → List Elem
  entire_space_cube [] = []
  entire_space_cube (d ∷ ds) = domain d ∷ entire_space_cube ds

  -- The sub-cube of the last dimension: all of `new_active_dimensions[1]`, then built further.
  unfoldable pub build_last : (Cubes o → Outcome (Cubes o)) → List String → Outcome (Cubes o)
  build_last build [] = raised Exn.index_error
  build_last build (b ∷ bs) = build (cubes (b ∷ []) (layer (domain b) empty_interval nil))

  unfoldable pub build_new_active_dimensions : List String → Cubes o → Outcome (Cubes o)
  unfolding dims_subset dims_eq is_last map_layers set_layers build_last
  build_new_active_dimensions [] empty_interval = raised Exn.exception
  build_new_active_dimensions [] (cubes ds l) =
      assert (dims_subset ds [])
      >> (if dims_eq ds [] then ok (cubes ds l) else raised Exn.index_error)
  build_new_active_dimensions (n ∷ new) empty_interval = raised Exn.exception
  build_new_active_dimensions (n ∷ new) (cubes [] l) = raised Exn.index_error
  build_new_active_dimensions (n ∷ new) (cubes (d ∷ ds) l) =
      let from_last = build_last (build_new_active_dimensions new) new >>= λ s.
      ok (cubes (n ∷ new) (set_layers o s l)) in
      let from_layers =
        map_layers o (build_new_active_dimensions new) l >>= λ l'. ok (cubes (n ∷ new) l') in
      let below = build_new_active_dimensions new (cubes (d ∷ ds) l) >>= λ s.
      ok (cubes (n ∷ new) (layer (domain n) s nil)) in
      assert (dims_subset (d ∷ ds) (n ∷ new))
      >> (if dims_eq (d ∷ ds) (n ∷ new)
          then ok (cubes (d ∷ ds) l)
          else if str_eq d n
          then (if is_last (d ∷ ds) then from_last else from_layers)
          else below)
