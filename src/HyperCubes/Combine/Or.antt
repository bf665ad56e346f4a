-- ===== src/HyperCubes/Combine/Or.antt =====
-- or_aux returns a well-formed object with the points of both.
mod Bools
pub mod Round
use Prim.Native.String.{String}
use network_config_analyzer.Prelude.{
  ◌≡◌, refl, sym, ap, ap₂, ◌∙◌, Bool, true, false, not, ◌&&◌, ◌||◌, List, [], ◌∷◌, arith,
  Bool-cases, inl, inr, or_nothing, or_intro, and_false_left, and_false_right,
}
use network_config_analyzer.Prelude.Outcome.{Outcome, ok, ◌>>=◌, ◌>>◌, assert}
use network_config_analyzer.HyperCubes.Elem.{LayerElem, ElemLaws}
use network_config_analyzer.HyperCubes.Layers.{
  Cubes, Dict, nil, layer, cubes, empty_interval, put, dims_eq,
}
use network_config_analyzer.HyperCubes.Layers.Equality.{dims_eq_refl, sat_at}
use network_config_analyzer.HyperCubes.Points.{
  Point, sat, sat_layers, keys_hold, IsWell, AreWell, has_cubes,
}
use network_config_analyzer.HyperCubes.Grows.{
  Grows, Grows-refl, Grows-trans, Grows-change, Grows-put, has_cubes_of_key,
}
use network_config_analyzer.HyperCubes.Union.Points.{apply_union-ok}
use network_config_analyzer.HyperCubes.Union.{apply_union}
use network_config_analyzer.HyperCubes.Combine.{
  is_last, OrState, or_step, or_inner, or_rest, keys, or_aux, or_layers, keep_rest,
}
use network_config_analyzer.HyperCubes.Combine.And.Round.{
  is_last_cons, holds-meet_true, holds_of_empty_meet, sat_last,
}
use network_config_analyzer.HyperCubes.Combine.Minus.Round.{holds-minus_meet}
use network_config_analyzer.HyperCubes.Combine.Minus.Bools.{and_true}
use network_config_analyzer.HyperCubes.Combine.Rest.{keep_rest-Grows}
use network_config_analyzer.HyperCubes.Combine.Bools.{
  wider, avoids, layer_fresh, rest_round, rest_avoids, tail_fresh,
}
use network_config_analyzer.HyperCubes.Combine.Or.Bools.{
  keys_round, points_round, other_round, whole_keys, points_whole, points_next, or_swap, rest_fresh,
  rest_next, rest_keys, rest_points, points_all, not_key, rest_nothing,
}
use network_config_analyzer.HyperCubes.Combine.Or.Round.{Rests, SubOr, or_inner-ok}

module _ (o : LayerElem) (laws : ElemLaws o) where
  open o use {Elem, Value, nonempty, meet, minus}
  open laws use {IsValid, holds}

  -- The last loop: each layer of the other that remains keeps its sub-cube.
  or_rest-ok :
      (act : List String) (m : Dict o) (gs : List Elem) (r : Dict o) (p : Value → Bool)
      → AreWell o laws act m
      → Rests o laws m gs p
      → ((v : Value) → (keys_hold o laws m v && not (p v)) ≡ true → keys_hold o laws r v ≡ false)
      → AreWell o laws act r
      → (r' : Dict o) × (or_rest o m gs r ≡ ok r')
        × Grows o laws act r r'
            (λ v. keys_hold o laws m v && not (p v))
            (λ v. keys_hold o laws m v && not (p v))
            (λ at v. sat_layers o laws at v m && not (p v))
  unfolding or_rest
  or_rest-ok act nil gs r p wm rs fresh wr = (r, refl, Grows-refl o laws act r wr)
  or_rest-ok act (layer f t m) [] r p wm rs fresh wr = elim rs [ ]
  or_rest-ok act (layer f t m) (g ∷ gs) r p wm rs fresh wr =
      let grown =
        keep_rest-Grows o laws act g t r rs.0
          (λ v h.
            rest_fresh (holds g v) (holds f v) (p v) (keys_hold o laws m v) _ h (rs.1 v) (fresh v))
          wm.2 wm.3 wr in
      let (r', q, grown') =
        or_rest-ok act m gs (keep_rest o g t r) p wm.5 rs.2
          (λ v h.
            rest_next (holds g v) (holds f v) (p v) (keys_hold o laws m v) (keys_hold o laws r v) _
              h (rs.1 v) (fresh v) (wm.4 v) (grown.upper v))
          grown.well in
      (
        r',
        q,
        Grows-change o laws act r r' _ _ _ _ _ _
            (Grows-trans o laws act r (keep_rest o g t r) r' _ _ _ _ _ _ grown grown')
            (λ v h. rest_keys (holds g v) (holds f v) (p v) (keys_hold o laws m v) (rs.1 v) ∙ h)
            (λ v h.
              sym (rest_keys (holds g v) (holds f v) (p v) (keys_hold o laws m v) (rs.1 v)) ∙ h)
            (λ at v.
              rest_points (holds g v) (holds f v) (sat o laws at t) (p v) (sat_layers o laws at v m)
                (rs.1 v)),
      )

  keys-Rests :
      (act : List String) (m : Dict o) (p : Value → Bool)
      → AreWell o laws act m
      → ((v : Value) → p v ≡ false)
      → Rests o laws m (keys o m) p
  unfolding keys
  keys-Rests act nil p w z = tt
  keys-Rests act (layer f t m) p w z =
      (w.0, (λ v. rest_nothing _ _ (z v)), keys-Rests act m p w.5 z)

  Rests-change :
      (m : Dict o) (gs : List Elem) (p p' : Value → Bool)
      → ((v : Value) → p v ≡ p' v)
      → Rests o laws m gs p
      → Rests o laws m gs p'
  Rests-change nil gs p p' e r = tt
  Rests-change (layer f t m) [] p p' e r = elim r [ ]
  Rests-change (layer f t m) (g ∷ gs) p p' e r = (
    r.0,
    (λ v. r.1 v ∙ ap (λ (b : Bool). holds f v && not b) (e v)),
    Rests-change m gs p p' e r.2,
  )

  or_aux_cubes :
      (ds es : List String) (l m : Dict o)
      → or_aux o (cubes ds l) (cubes es m) ≡ (
          assert (dims_eq ds es)
          >> (or_layers o (is_last ds) l m (keys o m) nil >>= λ p.
              or_rest o m p.0 p.1 >>= λ r. apply_union o r >>= λ r'. ok (cubes ds r')))
  unfolding or_aux
  or_aux_cubes ds es l m = refl

  or_layers_nil :
      (last : Bool) (m : Dict o) (gs : List Elem) (r : Dict o)
      → or_layers o last nil m gs r ≡ ok (gs, r)
  unfolding or_aux
  or_layers_nil last m gs r = refl

  or_layers_layer :
      (last : Bool) (e : Elem) (s : Cubes o) (l m : Dict o) (gs : List Elem) (r : Dict o)
      → or_layers o last (layer e s l) m gs r ≡ (
          or_inner o last e (or_aux o s) m gs (record { remaining = e; layers = r }) >>= λ p.
          or_layers o last l m p.0 (keep_rest o p.1.remaining s p.1.layers))
  unfolding or_aux
  or_layers_layer last e s l m gs r = refl

  -- What the two loops together do.
  abbrev LoopsOr :
      String → List String → Dict o → Dict o → List Elem → Dict o → (Value → Bool) → Type 0
  LoopsOr d act l m gs r p =
      (gs' : List Elem) × (r' : Dict o) × (or_layers o (is_last (d ∷ act)) l m gs r ≡ ok (gs', r'))
      × Grows o laws act r r' (keys_hold o laws l) (keys_hold o laws l)
          (λ at v. sat_layers o laws at v l || keys_hold o laws l v && sat_layers o laws at v m)
      × Rests o laws m gs' (λ v. p v || keys_hold o laws l v)

  -- One layer of `self` with all layers of the other, and what remains of it.
  or_layer-ok :
      (e : Elem) (s : Cubes o) (d : String) (act : List String) (m : Dict o) (gs : List Elem)
      (r : Dict o) (p : Value → Bool)
      → IsValid e
      → IsWell o laws act s
      → has_cubes s ≡ true
      → SubOr o laws act s (or_aux o s)
      → AreWell o laws act m
      → Rests o laws m gs p
      → ((v : Value) → holds e v ≡ true → keys_hold o laws r v ≡ false)
      → AreWell o laws act r
      → (gs' : List Elem) × (st : OrState o) × (or_inner o
            (is_last (d ∷ act))
            e
            (or_aux o s)
            m
            gs
            (record { remaining = e; layers = r })
          ≡ ok (gs', st))
        × Grows o laws act r
            (keep_rest o st.remaining s st.layers)
            (holds e)
            (holds e)
            (λ at v. holds e v && sat o laws at s || holds e v && sat_layers o laws at v m)
        × Rests o laws m gs' (λ v. p v || holds e v)
  or_layer-ok e s d act m gs r p ve ws hs call wm rs fresh wr =
      let (gs', st, q, g, vr, same, rs') =
        or_inner-ok o laws e s (or_aux o s) ve d act m gs (record { remaining = e; layers = r }) p
          ws call wm rs ve (λ v h. layer_fresh (holds e v) _ _ h (fresh v)) wr in
      let rest =
        keep_rest-Grows o laws act st.remaining s st.layers vr
          (λ v h.
            rest_avoids (holds e v) (keys_hold o laws m v) _ (keys_hold o laws r v) _ h (same v)
              (fresh v) (g.upper v))
          ws hs g.well in
      (
        gs',
        st,
        q,
        Grows-change o laws act r _ _ _ _ _ _ _
            (Grows-trans o laws act r st.layers _ _ _ (holds st.remaining) _ _ _ g rest)
            (λ v h. whole_keys (holds e v) (keys_hold o laws m v) _ (same v) ∙ h)
            (λ v h. sym (whole_keys (holds e v) (keys_hold o laws m v) _ (same v)) ∙ h)
            (λ at v.
              points_whole (holds e v) (sat o laws at s) (keys_hold o laws m v) _
                (sat_layers o laws at v m) (same v)),
        rs',
      )

  or_cubes-ok :
      (d : String) (act ds : List String) (l : Dict o)
      → ds ≡ d ∷ act
      → has_cubes (cubes ds l) ≡ true
      → AreWell o laws act l
      → ((m : Dict o) → AreWell o laws act m → LoopsOr d act l m (keys o m) nil (λ v. false))
      → SubOr o laws (d ∷ act) (cubes ds l) (or_aux o (cubes ds l))
  or_cubes-ok d act ds l e hl wl loops empty_interval wt = elim wt [ ]
  or_cubes-ok d act ds nil e hl wl loops (cubes es m) wt = cc
  or_cubes-ok d act ds (layer k s l) e hl wl loops (cubes es m) wt =
      let (gs, r, p, g, rs) = loops m wt.1 in
      let (r', p', g') =
        or_rest-ok act m gs r (keys_hold o laws (layer k s l)) wt.1 rs
          (λ v h. not_key _ _ _ h (g.upper v)) g.well in
      let (r'', p'', w'', same_keys, same, merged) = apply_union-ok o laws act r' g'.well in
      let (x, hx) = laws.nonempty-value k wl.0 wl.1 in
      (
        cubes ds r'',
        or_aux_cubes ds es (layer k s l) m
            ∙ rw (wt.0, e, dims_eq_refl (d ∷ act), p, ◌>>=◌) (rw (p', ◌>>=◌) (rw (p'', ◌>>=◌))),
        (e, w''),
        has_cubes_of_key o laws ds r'' x
            (same_keys x ∙ g'.lower x (or_intro _ _ (g.lower x (or_intro _ _ hx)))),
        λ at.
            sat_at o laws at d act ds r'' e
            ∙ same at (at d)
            ∙ g'.points at (at d)
            ∙ ap
                (λ (b : Bool).
                  b || sat_layers o laws at (at d) m && not (keys_hold o laws (layer k s l) (at d)))
                (g.points at (at d))
            ∙ points_all (sat_layers o laws at (at d) (layer k s l))
                (keys_hold o laws (layer k s l) (at d)) (sat_layers o laws at (at d) m)
            ∙ sym (
                ap₂ ◌||◌ (sat_at o laws at d act ds (layer k s l) e)
                  (sat_at o laws at d act es m wt.0)),
      )

  mutual
    SubOr-ok :
        (s : Cubes o) (act : List String)
        → IsWell o laws act s
        → has_cubes s ≡ true
        → SubOr o laws act s (or_aux o s)
    SubOr-ok empty_interval [] w h = tt
    SubOr-ok empty_interval (d ∷ act) w h = elim w [ ]
    SubOr-ok (cubes ds l) [] w h = tt
    SubOr-ok (cubes ds l) (d ∷ act) w h = or_cubes-ok d act ds l w.0 h w.1 (λ m wm.
        or_layers-ok l d act m (keys o m) nil (λ v. false) w.1 wm
          (keys-Rests act m _ wm (λ v. refl)) (λ v h. refl) tt)

    or_layers-ok :
        (l : Dict o) (d : String) (act : List String) (m : Dict o) (gs : List Elem) (r : Dict o)
        (p : Value → Bool)
        → AreWell o laws act l
        → AreWell o laws act m
        → Rests o laws m gs p
        → ((v : Value) → keys_hold o laws l v ≡ true → keys_hold o laws r v ≡ false)
        → AreWell o laws act r
        → LoopsOr d act l m gs r p
    or_layers-ok nil d act m gs r p wl wm rs fresh wr = (
      gs,
      r,
      or_layers_nil (is_last (d ∷ act)) m gs r,
      Grows-refl o laws act r wr,
      Rests-change m gs p _ (λ v. or_nothing (p v)) rs,
    )
    or_layers-ok (layer e s l) d act m gs r p wl wm rs fresh wr =
        let (gs', st, q, g, rs') =
          or_layer-ok e s d act m gs r p wl.0 wl.2 wl.3 (SubOr-ok s act wl.2 wl.3) wm rs
            (λ v h. fresh v (or_intro _ _ h)) wr in
        let (gs'', r'', q', g', rs'') =
          or_layers-ok l d act m gs' (keep_rest o st.remaining s st.layers) (λ v. p v || holds e v)
            wl.5 wm rs'
            (λ v h.
              tail_fresh (holds e v) (keys_hold o laws l v) (keys_hold o laws r v) _ h (fresh v)
                (wl.4 v) (g.upper v))
            g.well in
        (
          gs'',
          r'',
          or_layers_layer (is_last (d ∷ act)) e s l m gs r ∙ rw (q, ◌>>=◌) q',
          Grows-change o laws act r r'' _ _ _ _ _ _
              (Grows-trans o laws act r _ r'' _ _ _ _ _ _ g g') (λ v h. h) (λ v h. h)
              (λ at v.
                points_next (holds e v) (sat o laws at s) (keys_hold o laws l v)
                  (sat_layers o laws at v l) (sat_layers o laws at v m)),
          Rests-change m gs'' _ _ (λ v. or_swap (p v) (holds e v) (keys_hold o laws l v)) rs'',
        )

  -- or_aux on two well-formed objects with the same active dimensions, the first not empty,
  -- returns, and the result is well-formed, with these active dimensions, not empty, and has
  -- exactly the points that are in one of the two.
  pub or_aux-ok :
      (d : String) (act : List String) (s t : Cubes o)
      → IsWell o laws (d ∷ act) s
      → IsWell o laws (d ∷ act) t
      → has_cubes s ≡ true
      → (n : Cubes o) × (or_aux o s t ≡ ok n)
        × IsWell o laws (d ∷ act) n
        × (has_cubes n ≡ true)
        × ((at : Point o laws) → sat o laws at n ≡ (sat o laws at s || sat o laws at t))
  or_aux-ok d act s t ws wt h = SubOr-ok s (d ∷ act) ws h t wt
