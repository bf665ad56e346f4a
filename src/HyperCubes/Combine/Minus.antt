-- ===== src/HyperCubes/Combine/Minus.antt =====
-- sub_aux returns a well-formed object with the points of the first that are not in the second.
pub mod Bools
pub mod Round
use Prim.Native.String.{String}
use network_config_analyzer.Prelude.{
  ◌≡◌, refl, sym, ap, ap₂, ◌∙◌, Bool, true, false, not, ◌&&◌, ◌||◌, List, [], ◌∷◌, arith,
  Bool-cases, inl, inr, or_intro, and_false_left, and_false_right,
}
use network_config_analyzer.Prelude.Outcome.{Outcome, ok, ◌>>=◌, ◌>>◌, assert}
use network_config_analyzer.HyperCubes.Elem.{LayerElem, ElemLaws}
use network_config_analyzer.HyperCubes.Layers.{
  Cubes, Dict, nil, layer, cubes, empty_interval, put, is_true, dims_eq,
}
use network_config_analyzer.HyperCubes.Layers.Equality.{dims_eq_refl, sat_at, sat_layers-of_no_key}
use network_config_analyzer.HyperCubes.Points.{
  Point, sat, sat_layers, keys_hold, IsWell, AreWell, has_cubes,
}
use network_config_analyzer.HyperCubes.Grows.{
  Grows, Grows-refl, Grows-trans, Grows-change, Grows-put, is_true-has_cubes, sat_of_no_cubes,
}
use network_config_analyzer.HyperCubes.Union.Points.{apply_union-ok}
use network_config_analyzer.HyperCubes.Union.{apply_union}
use network_config_analyzer.HyperCubes.Combine.{
  is_last, OrState, sub_step, sub_inner, sub_aux, sub_layers, keep_rest,
}
use network_config_analyzer.HyperCubes.Combine.And.Round.{
  is_last_cons, holds-meet_true, holds_of_empty_meet, sat_last,
}
use network_config_analyzer.HyperCubes.Combine.Rest.{keep_rest-Grows}
use network_config_analyzer.HyperCubes.Combine.Bools.{
  wider, upper_round, avoids, layer_fresh, rest_round, rest_avoids, tail_fresh,
}
use network_config_analyzer.HyperCubes.Combine.Minus.Bools.{
  points_round, upper_whole, and_true, points_whole, points_next,
}
use network_config_analyzer.HyperCubes.Combine.Minus.Round.{SubMinus, sub_inner-ok}

module _ (o : LayerElem) (laws : ElemLaws o) where
  open o use {Elem, Value, nonempty, meet, minus}
  open laws use {IsValid, holds}

  sub_aux_cubes :
      (ds es : List String) (l m : Dict o)
      → sub_aux o (cubes ds l) (cubes es m) ≡ (
          assert (dims_eq ds es)
          >> (sub_layers o (is_last ds) l m nil >>= λ r.
              apply_union o r >>= λ r'. ok (cubes ds r')))
  unfolding sub_aux
  sub_aux_cubes ds es l m = refl

  -- What the two loops together do.
  abbrev LoopsMinus : String → List String → Dict o → Dict o → Dict o → Type 0
  LoopsMinus d act l m r =
      (r' : Dict o) × (sub_layers o (is_last (d ∷ act)) l m r ≡ ok r')
      × Grows o laws act r r' (λ v. false) (keys_hold o laws l)
          (λ at v. sat_layers o laws at v l && not (sat_layers o laws at v m))

  minus_cubes-ok :
      (d : String) (act ds : List String) (l : Dict o)
      → ds ≡ d ∷ act
      → ((m : Dict o) → AreWell o laws act m → LoopsMinus d act l m nil)
      → SubMinus o laws (d ∷ act) (cubes ds l) (sub_aux o (cubes ds l))
  minus_cubes-ok d act ds l e loops empty_interval wt = elim wt [ ]
  minus_cubes-ok d act ds l e loops (cubes es m) wt =
      let (r, p, g) = loops m wt.1 in
      let (r', p', w', k, same, merged) = apply_union-ok o laws act r g.well in
      (
        cubes ds r',
        sub_aux_cubes ds es l m ∙ rw (wt.0, e, dims_eq_refl (d ∷ act), p, ◌>>=◌) (rw (p', ◌>>=◌)),
        (e, w'),
        λ at.
            sat_at o laws at d act ds r' e
            ∙ same at (at d)
            ∙ g.points at (at d)
            ∙ sym (
                ap₂ (λ (x y : Bool). x && not y) (sat_at o laws at d act ds l e)
                  (sat_at o laws at d act es m wt.0)),
      )

  -- One layer of `self` with all layers of the other, and what remains of it.
  minus_layer-ok :
      (e : Elem) (s : Cubes o) (d : String) (act : List String) (m r : Dict o)
      → IsValid e
      → IsWell o laws act s
      → has_cubes s ≡ true
      → SubMinus o laws act s (sub_aux o s)
      → AreWell o laws act m
      → ((v : Value) → holds e v ≡ true → keys_hold o laws r v ≡ false)
      → AreWell o laws act r
      → (st : OrState o) × (sub_inner o
            (is_last (d ∷ act))
            e
            (sub_aux o s)
            m
            (record { remaining = e; layers = r })
          ≡ ok st)
        × Grows o laws act r
            (keep_rest o st.remaining s st.layers)
            (λ v. false)
            (holds e)
            (λ at v. (holds e v && sat o laws at s) && not (sat_layers o laws at v m))
  minus_layer-ok e s d act m r ve ws hs call wm fresh wr =
      let (st, p, g, vr, same) =
        sub_inner-ok o laws e s (sub_aux o s) ve d act m (record { remaining = e; layers = r }) ws
          call wm ve (λ v h. layer_fresh (holds e v) _ _ h (fresh v)) wr in
      let rest =
        keep_rest-Grows o laws act st.remaining s st.layers vr
          (λ v h.
            rest_avoids (holds e v) (keys_hold o laws m v) _ (keys_hold o laws r v) _ h (same v)
              (fresh v) (g.upper v))
          ws hs g.well in
      (
        st,
        p,
        Grows-change o laws act r _ (λ v. false || holds st.remaining v) _ _ _ _ _
            (Grows-trans o laws act r st.layers _ (λ v. false) _ (holds st.remaining) _ _ _ g rest)
            (λ v q. cc) (λ v q. upper_whole (holds e v) (keys_hold o laws m v) _ (same v) q)
            (λ at v.
              points_whole (holds e v) (sat o laws at s) (keys_hold o laws m v) _
                (sat_layers o laws at v m) (same v) (sat_layers-of_no_key o laws at v m)),
      )

  sub_layers_nil : (last : Bool) (m r : Dict o) → sub_layers o last nil m r ≡ ok r
  unfolding sub_aux
  sub_layers_nil last m r = refl

  sub_layers_layer :
      (last : Bool) (e : Elem) (s : Cubes o) (l m r : Dict o)
      → sub_layers o last (layer e s l) m r ≡ (
          sub_inner o last e (sub_aux o s) m (record { remaining = e; layers = r }) >>= λ st.
          sub_layers o last l m (keep_rest o st.remaining s st.layers))
  unfolding sub_aux
  sub_layers_layer last e s l m r = refl

  mutual
    SubMinus-ok :
        (s : Cubes o) (act : List String)
        → IsWell o laws act s
        → SubMinus o laws act s (sub_aux o s)
    SubMinus-ok empty_interval [] w = tt
    SubMinus-ok empty_interval (d ∷ act) w = elim w [ ]
    SubMinus-ok (cubes ds l) [] w = tt
    SubMinus-ok (cubes ds l) (d ∷ act) w =
        minus_cubes-ok d act ds l w.0 (λ m wm. sub_layers-ok l d act m nil w.1 wm (λ v h. refl) tt)

    sub_layers-ok :
        (l : Dict o) (d : String) (act : List String) (m r : Dict o)
        → AreWell o laws act l
        → AreWell o laws act m
        → ((v : Value) → keys_hold o laws l v ≡ true → keys_hold o laws r v ≡ false)
        → AreWell o laws act r
        → LoopsMinus d act l m r
    sub_layers-ok nil d act m r wl wm fresh wr = (
      r,
      sub_layers_nil (is_last (d ∷ act)) m r,
      Grows-change o laws act r r (λ v. false) (λ v. false) _ _ (λ at v. false) _
          (Grows-refl o laws act r wr) (λ v p. p) (λ v p. cc) (λ at v. refl),
    )
    sub_layers-ok (layer e s l) d act m r wl wm fresh wr =
        let (st, p, g) =
          minus_layer-ok e s d act m r wl.0 wl.2 wl.3 (SubMinus-ok s act wl.2) wm
            (λ v h. fresh v (or_intro _ _ h)) wr in
        let (r'', p', g') =
          sub_layers-ok l d act m (keep_rest o st.remaining s st.layers) wl.5 wm
            (λ v h.
              tail_fresh (holds e v) (keys_hold o laws l v) (keys_hold o laws r v) _ h (fresh v)
                (wl.4 v) (g.upper v))
            g.well in
        (
          r'',
          sub_layers_layer (is_last (d ∷ act)) e s l m r ∙ rw (p, ◌>>=◌) p',
          Grows-change o laws act r r'' (λ v. false || false) _ _ _ _ _
              (Grows-trans o laws act r _ r'' (λ v. false) _ (λ v. false) _ _ _ g g') (λ v q. q)
              (λ v q. q)
              (λ at v.
                points_next (holds e v) (sat o laws at s) (sat_layers o laws at v l)
                  (sat_layers o laws at v m)),
        )

  -- sub_aux on two well-formed objects with the same active dimensions returns, and the result is
  -- well-formed, with these active dimensions and exactly the points of the first that are not
  -- in the second.
  pub sub_aux-ok :
      (d : String) (act : List String) (s t : Cubes o)
      → IsWell o laws (d ∷ act) s
      → IsWell o laws (d ∷ act) t
      → (n : Cubes o) × (sub_aux o s t ≡ ok n)
        × IsWell o laws (d ∷ act) n
        × ((at : Point o laws) → sat o laws at n ≡ (sat o laws at s && not (sat o laws at t)))
  sub_aux-ok d act s t ws wt = SubMinus-ok s (d ∷ act) ws t wt
