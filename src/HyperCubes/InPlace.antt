-- ===== src/HyperCubes/InPlace.antt =====
-- `&=`, `|=` and `-=` of CanonicalHyperCubeSet. Objects are values here, so copy() is the thing
-- itself, and the result is what `self` is afterwards.
pub mod Ending
pub mod Points
use Prim.Native.String.{String}
use network_config_analyzer.Prelude.{Bool, true, false, not, ◌||◌, List, if◌then◌else◌}
use network_config_analyzer.Prelude.Outcome.{Outcome, ok, ◌>>=◌}
use network_config_analyzer.HyperCubes.Elem.{LayerElem}
use network_config_analyzer.HyperCubes.Layers.{Cubes, is_true}
use network_config_analyzer.HyperCubes.Combine.{and_aux, or_aux, sub_aux}
use network_config_analyzer.HyperCubes.Operators.{
  is_all, set_all, clear, prepare_common_active_dimensions,
}
use network_config_analyzer.HyperCubes.Reduce.{reduce_active_dimensions}

module _ (o : LayerElem) (domain : String → o.Elem) (all : List String) where
  -- What the three operators end with.
  unfoldable pub combine :
      (Cubes o → Cubes o → Outcome (Cubes o)) → Cubes o → Cubes o → Outcome (Cubes o)
  unfolding prepare_common_active_dimensions reduce_active_dimensions
  combine aux s t = prepare_common_active_dimensions o domain all s t >>= λ p.
      aux p.0 p.1 >>= λ r. reduce_active_dimensions o domain all r

  -- __iand__
  unfoldable pub and_set : Cubes o → Cubes o → Outcome (Cubes o)
  unfolding is_all is_true clear combine and_aux
  and_set s t =
      if is_all o t
      then ok s
      else if not (is_true o t) || not (is_true o s)
      then ok (clear o all)
      else if is_all o s
      then ok t
      else combine (and_aux o) s t

  -- __ior__
  unfoldable pub or_set : Cubes o → Cubes o → Outcome (Cubes o)
  unfolding is_all is_true set_all combine or_aux
  or_set s t =
      if is_all o t || is_all o s
      then ok (set_all o)
      else if not (is_true o t)
      then ok s
      else if not (is_true o s)
      then ok t
      else combine (or_aux o) s t

  -- __isub__
  unfoldable pub sub_set : Cubes o → Cubes o → Outcome (Cubes o)
  unfolding is_all is_true clear combine sub_aux
  sub_set s t =
      let cleared = if is_all o t then clear o all else s in
      if not (is_true o t) then ok cleared else combine (sub_aux o) cleared t
