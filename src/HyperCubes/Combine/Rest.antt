-- ===== src/HyperCubes/Combine/Rest.antt =====
-- What remains of a layer keeps its sub-cube, and what two layers share has a fresh key.
use Prim.Native.String.{String}
use network_config_analyzer.Prelude.{
  ◌≡◌, sym, ◌∙◌, true, false, ◌&&◌, List, Bool-cases, inl, inr, and_false_left,
}
use network_config_analyzer.HyperCubes.Elem.{LayerElem, ElemLaws}
use network_config_analyzer.HyperCubes.Layers.{Cubes, Dict}
use network_config_analyzer.HyperCubes.Points.{sat, IsWell, AreWell, has_cubes, Fresh}
use network_config_analyzer.HyperCubes.Grows.{Grows, Grows-refl, Grows-change, Grows-put}
use network_config_analyzer.HyperCubes.Combine.{keep_rest}

module _ (o : LayerElem) (laws : ElemLaws o) where
  open o use {Elem, Value, nonempty}
  open laws use {IsValid, holds}

  pub keep_rest-Grows :
      (act : List String) (e : Elem) (s : Cubes o) (r : Dict o)
      → IsValid e
      → Fresh o laws e r
      → IsWell o laws act s
      → has_cubes s ≡ true
      → AreWell o laws act r
      → Grows o laws act r
          (keep_rest o e s r)
          (holds e)
          (holds e)
          (λ at v. holds e v && sat o laws at s)
  unfolding keep_rest
  keep_rest-Grows act e s r h f w c wr = elim (Bool-cases (nonempty e)) [
    | inl n ↦ rw n (Grows-put o laws act e s r h n f w c wr)
    | inr z ↦ rw z (
        Grows-change o laws act r r (λ v. false) (λ v. false) _ _ (λ at v. false) _
          (Grows-refl o laws act r wr) (λ v p. sym (laws.empty-holds e v z) ∙ p) (λ v p. cc)
          (λ at v. sym (and_false_left _ _ (laws.empty-holds e v z))))
  ]
