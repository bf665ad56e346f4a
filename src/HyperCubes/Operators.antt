-- ===== src/HyperCubes/Operators.antt =====
-- The top-level operators of CanonicalHyperCubeSet: is_all, set_all, clear, _set_active_dimensions,
-- _prepare_common_active_dimensions. `all` is all_dimensions_list.
pub mod Lists
pub mod Active
use Prim.Native.String.{String}
use network_config_analyzer.Prelude.{◌≡◌, Bool, true, false, List, [], ◌∷◌, ◌++◌, if◌then◌else◌}
use network_config_analyzer.Prelude.Outcome.{Outcome, ok, raised, Exn, ◌>>=◌}
use network_config_analyzer.HyperCubes.Elem.{LayerElem}
use network_config_analyzer.HyperCubes.Layers.{
  Cubes, Dict, nil, layer, cubes, empty_interval, dims_eq,
}
use network_config_analyzer.HyperCubes.Dimensions.{
  dims_subset, same_dims, by_order, create_from_cube_aux, entire_space_cube,
  build_new_active_dimensions,
}

module _ (o : LayerElem) where
  unfoldable pub is_all : Cubes o → Bool
  is_all empty_interval = false
  is_all (cubes [] l) = true
  is_all (cubes (d ∷ ds) l) = false

  unfoldable pub set_all : Cubes o
  set_all = cubes [] nil

  unfoldable pub clear : List String → Cubes o
  clear all = cubes all nil

  -- The dimensions a set has active.
  unfoldable pub active : Cubes o → List String
  active empty_interval = []
  active (cubes ds l) = ds

module _ (o : LayerElem) (domain : String → o.Elem) (all : List String) where
  -- The second half of _set_active_dimensions, with the new dimensions in order.
  unfoldable pub activate : List String → Cubes o → Outcome (Cubes o)
  unfolding by_order create_from_cube_aux entire_space_cube build_new_active_dimensions
  activate new empty_interval = raised Exn.exception
  activate new (cubes [] l) =
      create_from_cube_aux o (entire_space_cube o domain (by_order all new)) new
  activate new (cubes (d ∷ ds) l) = build_new_active_dimensions o domain new (cubes (d ∷ ds) l)

  unfoldable pub set_active_dimensions : List String → Cubes o → Outcome (Cubes o)
  unfolding activate same_dims dims_subset by_order
  set_active_dimensions names empty_interval = raised Exn.exception
  set_active_dimensions names (cubes ds l) =
      if same_dims names ds
      then ok (cubes ds l)
      else if dims_subset names ds
      then ok (cubes ds l)
      else activate (by_order all (ds ++ names)) (cubes ds l)

  -- _prepare_common_active_dimensions: `self` and `other` as they are afterwards.
  unfoldable pub prepare_common_active_dimensions : Cubes o → Cubes o → Outcome (Cubes o × Cubes o)
  unfolding active dims_eq same_dims set_active_dimensions
  prepare_common_active_dimensions s t =
      let required = active o s ++ active o t in
      if dims_eq (active o s) (active o t)
      then ok (s, t)
      else set_active_dimensions required s >>= λ s'.
          if same_dims (active o t) required
          then ok (s', t)
          else set_active_dimensions required t >>= λ t'. ok (s', t')
