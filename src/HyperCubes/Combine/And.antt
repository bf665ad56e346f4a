-- ===== src/HyperCubes/Combine/And.antt =====
-- _and_aux returns a well-formed object with the points of both.
mod Bools
pub mod Round
use Prim.Native.String.{String}
use network_config_analyzer.Prelude.{
  ◌≡◌, refl, sym, ap₂, ◌∙◌, Bool, true, false, ◌&&◌, ◌||◌, List, [], ◌∷◌, arith, Bool-cases, inl,
  inr, and_intro, and_false_left, and_false_right,
}
use network_config_analyzer.Prelude.Outcome.{Outcome, ok, ◌>>=◌, ◌>>◌, assert}
use network_config_analyzer.HyperCubes.Elem.{LayerElem, ElemLaws}
use network_config_analyzer.HyperCubes.Layers.{
  Cubes, Dict, nil, layer, cubes, empty_interval, put, is_true, dims_eq,
}
use network_config_analyzer.HyperCubes.Layers.Equality.{dims_eq_refl, sat_at}
use network_config_analyzer.HyperCubes.Points.{
  Point, sat, sat_layers, keys_hold, IsWell, AreWell, has_cubes,
}
use network_config_analyzer.HyperCubes.Grows.{
  Grows, Grows-refl, Grows-trans, Grows-change, Grows-put, is_true-has_cubes, sat_of_no_cubes,
}
use network_config_analyzer.HyperCubes.Union.Points.{apply_union-ok}
use network_config_analyzer.HyperCubes.Union.{apply_union}
use network_config_analyzer.HyperCubes.Combine.{is_last, and_step, and_inner, and_aux, and_layers}
use network_config_analyzer.HyperCubes.Combine.Bools.{wider, upper_round, avoids}
use network_config_analyzer.HyperCubes.Combine.And.Bools.{
  points_round, layer_fresh, layers_avoid, upper_layer, points_layer,
}
use network_config_analyzer.HyperCubes.Combine.And.Round.{SubAnd, and_inner-ok}

module _ (o : LayerElem) (laws : ElemLaws o) where
  open o use {Elem, Value, nonempty, meet}
  open laws use {IsValid, holds}

  -- What the two loops together do from an empty dict or a longer one.
  abbrev LoopsAnd : String → List String → Dict o → Dict o → Dict o → Type 0
  LoopsAnd d act l m r =
      (r' : Dict o) × (and_layers o (is_last (d ∷ act)) l m r ≡ ok r')
      × Grows o laws act r r' (λ v. false) (λ v. keys_hold o laws l v && keys_hold o laws m v)
          (λ at v. sat_layers o laws at v l && sat_layers o laws at v m)

  and_aux_cubes :
      (ds es : List String) (l m : Dict o)
      → and_aux o (cubes ds l) (cubes es m) ≡ (
          assert (dims_eq ds es)
          >> (and_layers o (is_last ds) l m nil >>= λ r.
              apply_union o r >>= λ r'. ok (cubes ds r')))
  unfolding and_aux
  and_aux_cubes ds es l m = refl

  -- One object with another, from what the loops do.
  and_cubes-ok :
      (d : String) (act ds : List String) (l : Dict o)
      → ds ≡ d ∷ act
      → ((m : Dict o) → AreWell o laws act m → LoopsAnd d act l m nil)
      → SubAnd o laws (d ∷ act) (cubes ds l) (and_aux o (cubes ds l))
  and_cubes-ok d act ds l e loops empty_interval wt = elim wt [ ]
  and_cubes-ok d act ds l e loops (cubes es m) wt =
      let (r, p, g) = loops m wt.1 in
      let (r', p', w', k, same, merged) = apply_union-ok o laws act r g.well in
      (
        cubes ds r',
        and_aux_cubes ds es l m ∙ rw (wt.0, e, dims_eq_refl (d ∷ act), p, ◌>>=◌) (rw (p', ◌>>=◌)),
        (e, w'),
        λ at.
            sat_at o laws at d act ds r' e
            ∙ same at (at d)
            ∙ g.points at (at d)
            ∙ sym (ap₂ ◌&&◌ (sat_at o laws at d act ds l e) (sat_at o laws at d act es m wt.0)),
      )

  mutual
    unfolding and_aux

    SubAnd-ok :
        (s : Cubes o) (act : List String) → IsWell o laws act s → SubAnd o laws act s (and_aux o s)
    SubAnd-ok empty_interval [] w = tt
    SubAnd-ok empty_interval (d ∷ act) w = elim w [ ]
    SubAnd-ok (cubes ds l) [] w = tt
    SubAnd-ok (cubes ds l) (d ∷ act) w =
        and_cubes-ok d act ds l w.0 (λ m wm. and_layers-ok l d act m nil w.1 wm (λ v h. refl) tt)

    and_layers-ok :
        (l : Dict o) (d : String) (act : List String) (m r : Dict o)
        → AreWell o laws act l
        → AreWell o laws act m
        → ((v : Value)
            → (keys_hold o laws l v && keys_hold o laws m v) ≡ true
            → keys_hold o laws r v ≡ false)
        → AreWell o laws act r
        → LoopsAnd d act l m r
    and_layers-ok nil d act m r wl wm fresh wr = (
      r,
      refl,
      Grows-change o laws act r r (λ v. false) (λ v. false) _ _ (λ at v. false) _
          (Grows-refl o laws act r wr) (λ v p. p) (λ v p. cc) (λ at v. refl),
    )
    and_layers-ok (layer e s l) d act m r wl wm fresh wr =
        let (r', p, g) =
          and_inner-ok o laws e s (and_aux o s) wl.0 d act m r wl.2 (SubAnd-ok s act wl.2) wm
            (λ v h.
              layer_fresh (holds e v) (keys_hold o laws l v) (keys_hold o laws m v) _ h (fresh v))
            wr in
        let (r'', p', g') =
          and_layers-ok l d act m r' wl.5 wm
            (λ v h.
              layers_avoid (holds e v) (keys_hold o laws l v) (keys_hold o laws m v)
                (keys_hold o laws r v) _ h (fresh v) (g.upper v) (wl.4 v))
            g.well in
        (
          r'',
          rw (p, ◌>>=◌) p',
          Grows-change o laws act r r'' (λ v. false || false) _ _ _ _ _
              (Grows-trans o laws act r r' r'' (λ v. false) _ (λ v. false) _ _ _ g g') (λ v q. q)
              (λ v q. upper_layer (holds e v) (keys_hold o laws l v) (keys_hold o laws m v) q)
              (λ at v.
                points_layer (holds e v) (sat o laws at s) (sat_layers o laws at v l)
                  (sat_layers o laws at v m)),
        )

  -- _and_aux on two well-formed objects with the same active dimensions returns, and the result
  -- is well-formed, with these active dimensions and exactly the points that are in both.
  pub and_aux-ok :
      (d : String) (act : List String) (s t : Cubes o)
      → IsWell o laws (d ∷ act) s
      → IsWell o laws (d ∷ act) t
      → (n : Cubes o) × (and_aux o s t ≡ ok n)
        × IsWell o laws (d ∷ act) n
        × ((at : Point o laws) → sat o laws at n ≡ (sat o laws at s && sat o laws at t))
  and_aux-ok d act s t ws wt = SubAnd-ok s (d ∷ act) ws t wt
