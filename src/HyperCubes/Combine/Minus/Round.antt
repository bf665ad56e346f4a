-- ===== src/HyperCubes/Combine/Minus/Round.antt =====
-- One round of the inner loop, and the inner loop.
use Prim.Native.String.{String}
use network_config_analyzer.Prelude.{
  ◌≡◌, refl, sym, ap, ap₂, ◌∙◌, Bool, true, false, not, ◌&&◌, ◌||◌, List, [], ◌∷◌, Bool-cases, inl,
  inr, and_false_left, and_false_right,
}
use network_config_analyzer.Prelude.Outcome.{Outcome, ok, ◌>>=◌}
use network_config_analyzer.HyperCubes.Elem.{LayerElem, ElemLaws}
use network_config_analyzer.HyperCubes.Layers.{Cubes, Dict, nil, layer, put, is_true}
use network_config_analyzer.HyperCubes.Layers.Equality.{sat_layers-of_no_key}
use network_config_analyzer.HyperCubes.Points.{
  Point, sat, sat_layers, keys_hold, IsWell, AreWell, has_cubes,
}
use network_config_analyzer.HyperCubes.Grows.{
  Grows, Grows-refl, Grows-trans, Grows-change, Grows-put, is_true-has_cubes, sat_of_no_cubes,
}
use network_config_analyzer.HyperCubes.Combine.{is_last, OrState, sub_step, sub_inner}
use network_config_analyzer.HyperCubes.Combine.And.Round.{
  is_last_cons, holds-meet_true, holds_of_empty_meet, sat_last,
}
use network_config_analyzer.HyperCubes.Combine.Bools.{wider, upper_round, avoids, rest_round}
use network_config_analyzer.HyperCubes.Combine.Minus.Bools.{points_round, and_true}

module _ (o : LayerElem) (laws : ElemLaws o) where
  open o use {Elem, Value, nonempty, meet, minus}
  open laws use {IsValid, holds}

  -- What the call on a pair of sub-cubes does, where it is made.
  abbrev pub SubMinus : List String → Cubes o → (Cubes o → Outcome (Cubes o)) → Type 0
  SubMinus [] s sub = Unit {0}
  SubMinus (d ∷ act) s sub =
      (t : Cubes o)
      → IsWell o laws (d ∷ act) t
      → (n : Cubes o) × (sub t ≡ ok n)
        × IsWell o laws (d ∷ act) n
        × ((at : Point o laws) → sat o laws at n ≡ (sat o laws at s && not (sat o laws at t)))

  -- What is left of `x` when what `e` and `f` share is taken off.
  pub holds-minus_meet :
      (x e f : Elem) (v : Value)
      → holds (minus x (meet e f)) v ≡ (holds x v && not (holds e v && holds f v))
  holds-minus_meet x e f v =
      laws.holds-minus x (meet e f) v
      ∙ ap (λ (b : Bool). holds x v && not b) (laws.holds-meet e f v)

  module _ (e : Elem) (s : Cubes o) (sub : Cubes o → Outcome (Cubes o)) (valid : IsValid e) where
    abbrev minus_more : Elem → Cubes o → Point o laws → Value → Bool
    minus_more f t at v = (holds e v && holds f v) && (sat o laws at s && not (sat o laws at t))

    -- What a round promises: of the dict, and of the rest of the layer.
    abbrev RoundOk : List String → Elem → Cubes o → OrState o → OrState o → Type 0
    RoundOk act f t st st' =
        Grows o laws act st.layers st'.layers (λ v. false) (λ v. holds e v && holds f v)
          (minus_more f t)
        × IsValid st'.remaining
        × ((v : Value)
            → holds st'.remaining v ≡ (holds st.remaining v && not (holds e v && holds f v)))

    keep_all :
        (act : List String) (f : Elem) (t : Cubes o) (r : Dict o)
        → AreWell o laws act r
        → ((at : Point o laws) (v : Value) → minus_more f t at v ≡ false)
        → Grows o laws act r r (λ v. false) (λ v. holds e v && holds f v) (minus_more f t)
    keep_all act f t r w z =
        Grows-change o laws act r r (λ v. false) (λ v. false) _ _ (λ at v. false) _
          (Grows-refl o laws act r w) (λ v p. p) (λ v p. cc) (λ at v. sym (z at v))

    put_common :
        (act : List String) (f : Elem) (t n : Cubes o) (r : Dict o)
        → IsValid f
        → nonempty (meet e f) ≡ true
        → ((v : Value) → (holds e v && holds f v) ≡ true → keys_hold o laws r v ≡ false)
        → IsWell o laws act n
        → has_cubes n ≡ true
        → ((at : Point o laws) → sat o laws at n ≡ (sat o laws at s && not (sat o laws at t)))
        → AreWell o laws act r
        → Grows o laws act r
            (put o (meet e f) n r)
            (λ v. false)
            (λ v. holds e v && holds f v)
            (minus_more f t)
    put_common act f t n r vf c fresh w h same wr =
        Grows-change o laws act r _ (holds (meet e f)) (holds (meet e f)) _ _
          (λ at v. holds (meet e f) v && sat o laws at n) _
          (Grows-put o laws act (meet e f) n r (laws.meet-IsValid e f valid vf) c
            (λ v p. fresh v (holds-meet_true o laws e f v p)) w h wr)
          (λ v p. cc) (λ v p. holds-meet_true o laws e f v p)
          (λ at v. ap₂ ◌&&◌ (laws.holds-meet e f v) (same at))

    sub_common-ok :
        (d : String) (act : List String) (f : Elem) (t : Cubes o) (st : OrState o)
        → IsWell o laws act s
        → SubMinus act s sub
        → IsValid f
        → IsWell o laws act t
        → nonempty (meet e f) ≡ true
        → IsValid st.remaining
        → ((v : Value) → (holds e v && holds f v) ≡ true → keys_hold o laws st.layers v ≡ false)
        → AreWell o laws act st.layers
        → (st' : OrState o) × (sub_step o (is_last (d ∷ act)) e sub f t st ≡ ok st')
          × RoundOk act f t st st'
    unfolding sub_step
    sub_common-ok d [] f t st ws call vf wt c vr fresh wr = (
      record { remaining = minus st.remaining (meet e f); layers = st.layers },
      rw c (unfold is_last in refl),
      (
        keep_all [] f t st.layers wr
            (λ at v. and_false_right _ _ (and_false_right _ _ (ap not (sat_last o laws t at wt)))),
        laws.minus-IsValid st.remaining (meet e f) vr (laws.meet-IsValid e f valid vf),
        holds-minus_meet st.remaining e f,
      ),
    )
    sub_common-ok d (b ∷ act) f t st ws call vf wt c vr fresh wr =
        let (n, p, wn, same) = call t wt in
        let bool_n = is_true-has_cubes o laws b act n wn in
        let vm = laws.minus-IsValid st.remaining (meet e f) vr (laws.meet-IsValid e f valid vf) in
        elim (Bool-cases (is_true o n)) [
          | inl y ↦ (
            record {
              remaining = minus st.remaining (meet e f);
              layers = put o (meet e f) n st.layers;
            },
            rw (c, is_last_cons d b act, p, ◌>>=◌, y),
            (
              put_common (b ∷ act) f t n st.layers vf c fresh wn (sym bool_n ∙ y) same wr,
              vm,
              holds-minus_meet st.remaining e f,
            ),
          )
          | inr z ↦ (
            record { remaining = minus st.remaining (meet e f); layers = st.layers },
            rw (c, is_last_cons d b act, p, ◌>>=◌, z),
            (
              keep_all (b ∷ act) f t st.layers wr (λ at v.
                  and_false_right _ _
                    (sym (same at) ∙ sat_of_no_cubes o laws (b ∷ act) n at wn (sym bool_n ∙ z))),
              vm,
              holds-minus_meet st.remaining e f,
            ),
          )
        ]

    sub_step-ok :
        (d : String) (act : List String) (f : Elem) (t : Cubes o) (st : OrState o)
        → IsWell o laws act s
        → SubMinus act s sub
        → IsValid f
        → IsWell o laws act t
        → IsValid st.remaining
        → ((v : Value) → (holds e v && holds f v) ≡ true → keys_hold o laws st.layers v ≡ false)
        → AreWell o laws act st.layers
        → (st' : OrState o) × (sub_step o (is_last (d ∷ act)) e sub f t st ≡ ok st')
          × RoundOk act f t st st'
    unfolding sub_step
    sub_step-ok d act f t st ws call vf wt vr fresh wr = elim (Bool-cases (nonempty (meet e f))) [
      | inr none ↦
          let apart = λ (v : Value). holds_of_empty_meet o laws e f v none in
          (
            st,
            rw none,
            (
              keep_all act f t st.layers wr (λ at v. and_false_left _ _ (apart v)),
              vr,
              λ v. sym (ap (λ (b : Bool). holds st.remaining v && not b) (apart v) ∙ and_true _),
            ),
          )
      | inl c ↦ sub_common-ok d act f t st ws call vf wt c vr fresh wr
    ]

    pub sub_inner-ok :
        (d : String) (act : List String) (m : Dict o) (st : OrState o)
        → IsWell o laws act s
        → SubMinus act s sub
        → AreWell o laws act m
        → IsValid st.remaining
        → ((v : Value)
            → (holds e v && keys_hold o laws m v) ≡ true
            → keys_hold o laws st.layers v ≡ false)
        → AreWell o laws act st.layers
        → (st' : OrState o) × (sub_inner o (is_last (d ∷ act)) e sub m st ≡ ok st')
          × Grows o laws act st.layers st'.layers
              (λ v. false)
              (λ v. holds e v && keys_hold o laws m v)
              (λ at v.
                ((holds e v && sat o laws at s) && keys_hold o laws m v)
                && not (sat_layers o laws at v m))
          × IsValid st'.remaining
          × ((v : Value)
              → holds st'.remaining v
                ≡ (holds st.remaining v && not (holds e v && keys_hold o laws m v)))
    unfolding sub_inner
    sub_inner-ok d act nil st ws call wm vr fresh wr = (
      st,
      refl,
      Grows-change o laws act st.layers st.layers (λ v. false) (λ v. false) _ _ (λ at v. false) _
          (Grows-refl o laws act st.layers wr) (λ v p. p) (λ v p. cc)
          (λ at v. sym (and_false_left _ _ (and_false_right _ _ refl))),
      vr,
      λ v. sym (
          ap (λ (b : Bool). holds st.remaining v && not b) (and_false_right (holds e v) false refl)
          ∙ and_true _),
    )
    sub_inner-ok d act (layer f t m) st ws call wm vr fresh wr =
        let (st', p, ok') =
          sub_step-ok d act f t st ws call wm.0 wm.2 vr
            (λ v h. fresh v (wider (holds e v) (holds f v) _ h)) wr in
        let g = ok'.0 in
        let avoid = λ (v : Value) (h : (holds e v && keys_hold o laws m v) ≡ true).
          avoids (holds e v) (holds f v) (keys_hold o laws m v) (keys_hold o laws st.layers v)
            (keys_hold o laws st'.layers v) h (fresh v) (g.upper v) (wm.4 v) in
        let (st'', p', g', vr', same) = sub_inner-ok d act m st' ws call wm.5 ok'.1 avoid g.well in
        (
          st'',
          rw (p, ◌>>=◌) p',
          Grows-change o laws act st.layers st''.layers (λ v. false || false) _ _ _ _ _
              (Grows-trans o laws act st.layers st'.layers st''.layers (λ v. false) _ (λ v. false) _
                _ _ g g')
              (λ v q. q) (λ v q. upper_round (holds e v) (holds f v) (keys_hold o laws m v) q)
              (λ at v.
                points_round (holds e v) (holds f v) (sat o laws at s) (sat o laws at t)
                  (keys_hold o laws m v) (sat_layers o laws at v m) (wm.4 v)
                  (sat_layers-of_no_key o laws at v m)),
          vr',
          λ v.
              rest_round (holds st.remaining v) (holds st'.remaining v) _ (holds e v) (holds f v)
                (keys_hold o laws m v) (ok'.2 v) (same v),
        )
