-- ===== src/HyperCubes/Layers.antt =====
-- The data of a hyper-cube set: the dict `layers`, whose values are the sub-cubes.
pub mod Equality
use Prim.Native.String.{String}
use text.Mathlib.Text.{◌==◌ as str_eq}
use network_config_analyzer.Prelude.{
  ℕ, suc, Bool, true, false, ◌&&◌, ◌||◌, not, List, [], ◌∷◌, if◌then◌else◌, ◌==◌,
}
use network_config_analyzer.HyperCubes.Elem.{LayerElem}

mutual
  -- A value of `layers`: the constant `empty_interval` under the last dimension, or a
  -- CanonicalHyperCubeSet by its `active_dimensions` and `layers`.
  pub data Sub (E : Type 0) : Type 0 where
    empty_interval : Sub E
    cubes : List String → Layers E → Sub E

  -- The dict in the order of insertion.
  pub data Layers (E : Type 0) : Type 0 where
    nil : Layers E
    layer : E → Sub E → Layers E → Layers E

-- `active_dimensions == active_dimensions`
unfoldable pub dims_eq : List String → List String → Bool
dims_eq [] [] = true
dims_eq [] (e ∷ es) = false
dims_eq (d ∷ ds) [] = false
dims_eq (d ∷ ds) (e ∷ es) = str_eq d e && dims_eq ds es

module _ (o : LayerElem) where
  open o use {Elem, elem_eq}

  abbrev pub Cubes : Type 0
  Cubes = Sub Elem

  abbrev pub Dict : Type 0
  Dict = Layers Elem

  -- `bool(self)`
  unfoldable pub is_true : Cubes → Bool
  is_true empty_interval = false
  is_true (cubes [] l) = true
  is_true (cubes (d ∷ ds) nil) = false
  is_true (cubes (d ∷ ds) (layer e s l)) = true

  -- `layers[e] = s`: the value is replaced in place, a new key goes last.
  unfoldable pub put : Elem → Cubes → Dict → Dict
  put e s nil = layer e s nil
  put e s (layer f t l) = if elem_eq f e then layer f s l else layer f t (put e s l)

  -- `e in layers`
  unfoldable pub has_key : Elem → Dict → Bool
  has_key e nil = false
  has_key e (layer f t l) = elem_eq f e || has_key e l

  -- The first layer under the key passes the test.
  unfoldable pub value_passes : Elem → (Cubes → Bool) → Dict → Bool
  value_passes e test nil = false
  value_passes e test (layer f t l) = if elem_eq f e then test t else value_passes e test l

  unfoldable pub keys_in : Dict → Dict → Bool
  unfolding has_key
  keys_in nil m = true
  keys_in (layer e s l) m = has_key e m && keys_in l m

  -- `self == other`. Two dicts are equal when they have the same keys with equal values, in any
  -- order. All objects here have the same `all_dimensions_list`.
  unfoldable mutual
    unfolding is_true keys_in value_passes dims_eq

    pub sub_eq : Cubes → Cubes → Bool
    sub_eq empty_interval empty_interval = true
    sub_eq empty_interval (cubes ds m) = false
    sub_eq (cubes ds l) empty_interval = false
    sub_eq (cubes ds l) (cubes es m) =
        let same = layers_in l m in
        if not (is_true (cubes ds l)) && not (is_true (cubes es m))
        then true
        else dims_eq ds es && (same && keys_in m l)

    pub layers_in : Dict → Dict → Bool
    layers_in nil m = true
    layers_in (layer e s l) m = value_passes e (sub_eq s) m && layers_in l m
