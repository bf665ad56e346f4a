-- ===== src/HyperCubes/Combine/Or/Round.antt =====
-- One round of the inner loop, and the inner loop.
use Prim.Native.String.{String}
use network_config_analyzer.Prelude.{
  ◌≡◌, refl, sym, ap, ap₂, ◌∙◌, Bool, true, false, not, ◌&&◌, ◌||◌, List, [], ◌∷◌, Bool-cases, inl,
  inr, or_intro, and_false_left, and_false_right,
}
use network_config_analyzer.Prelude.Outcome.{Outcome, ok, ◌>>=◌}
use network_config_analyzer.HyperCubes.Elem.{LayerElem, ElemLaws}
use network_config_analyzer.HyperCubes.Layers.{Cubes, Dict, nil, layer, empty_interval, put}
use network_config_analyzer.HyperCubes.Points.{
  Point, sat, sat_layers, keys_hold, IsWell, AreWell, has_cubes,
}
use network_config_analyzer.HyperCubes.Grows.{
  Grows, Grows-refl, Grows-trans, Grows-change, Grows-put,
}
use network_config_analyzer.HyperCubes.Combine.{is_last, OrState, or_step, or_inner}
use network_config_analyzer.HyperCubes.Combine.And.Round.{
  is_last_cons, holds-meet_true, holds_of_empty_meet, sat_last,
}
use network_config_analyzer.HyperCubes.Combine.Minus.Round.{holds-minus_meet}
use network_config_analyzer.HyperCubes.Combine.Minus.Bools.{and_true}
use network_config_analyzer.HyperCubes.Combine.Bools.{wider, avoids, rest_round}
use network_config_analyzer.HyperCubes.Combine.Or.Bools.{keys_round, points_round, other_round}

module _ (o : LayerElem) (laws : ElemLaws o) where
  open o use {Elem, Value, nonempty, meet, minus}
  open laws use {IsValid, holds}

  -- What the call on a pair of sub-cubes does, where it is made.
  abbrev pub SubOr : List String → Cubes o → (Cubes o → Outcome (Cubes o)) → Type 0
  SubOr [] s sub = Unit {0}
  SubOr (d ∷ act) s sub =
      (t : Cubes o)
      → IsWell o laws (d ∷ act) t
      → (n : Cubes o) × (sub t ≡ ok n)
        × IsWell o laws (d ∷ act) n
        × (has_cubes n ≡ true)
        × ((at : Point o laws) → sat o laws at n ≡ (sat o laws at s || sat o laws at t))

  -- What remains of the layers of the other when the values of `p` are taken off.
  abbrev pub Rests : Dict o → List Elem → (Value → Bool) → Type 0
  Rests nil gs p = Unit {0}
  Rests (layer f t m) [] p = ⊥
  Rests (layer f t m) (g ∷ gs) p =
      IsValid g × ((v : Value) → holds g v ≡ (holds f v && not (p v))) × Rests m gs p

  module _ (e : Elem) (s : Cubes o) (sub : Cubes o → Outcome (Cubes o)) (valid : IsValid e) where
    abbrev or_more : Elem → Cubes o → Point o laws → Value → Bool
    or_more f t at v = (holds e v && holds f v) && (sat o laws at s || sat o laws at t)

    -- What a round promises: of the dict, and of what remains of the two layers.
    abbrev RoundOk : List String → Elem → Cubes o → Elem → OrState o → Elem → OrState o → Type 0
    RoundOk act f t g st g' st' =
        Grows o laws act st.layers st'.layers (λ v. holds e v && holds f v)
          (λ v. holds e v && holds f v) (or_more f t)
        × IsValid st'.remaining
        × ((v : Value)
            → holds st'.remaining v ≡ (holds st.remaining v && not (holds e v && holds f v)))
        × IsValid g'
        × ((v : Value) → holds g' v ≡ (holds g v && not (holds e v && holds f v)))

    put_common :
        (act : List String) (f : Elem) (t n : Cubes o) (r : Dict o)
        → IsValid f
        → nonempty (meet e f) ≡ true
        → ((v : Value) → (holds e v && holds f v) ≡ true → keys_hold o laws r v ≡ false)
        → IsWell o laws act n
        → has_cubes n ≡ true
        → ((at : Point o laws) → sat o laws at n ≡ (sat o laws at s || sat o laws at t))
        → AreWell o laws act r
        → Grows o laws act r
            (put o (meet e f) n r)
            (λ v. holds e v && holds f v)
            (λ v. holds e v && holds f v)
            (or_more f t)
    put_common act f t n r vf c fresh w h same wr =
        Grows-change o laws act r _ (holds (meet e f)) (holds (meet e f)) _ _
          (λ at v. holds (meet e f) v && sat o laws at n) _
          (Grows-put o laws act (meet e f) n r (laws.meet-IsValid e f valid vf) c
            (λ v p. fresh v (holds-meet_true o laws e f v p)) w h wr)
          (λ v p. laws.holds-meet e f v ∙ p) (λ v p. holds-meet_true o laws e f v p)
          (λ at v. ap₂ ◌&&◌ (laws.holds-meet e f v) (same at))

    or_common-ok :
        (d : String) (act : List String) (f : Elem) (t : Cubes o) (g : Elem) (st : OrState o)
        → IsWell o laws act s
        → SubOr act s sub
        → IsValid f
        → IsWell o laws act t
        → nonempty (meet e f) ≡ true
        → IsValid g
        → IsValid st.remaining
        → ((v : Value) → (holds e v && holds f v) ≡ true → keys_hold o laws st.layers v ≡ false)
        → AreWell o laws act st.layers
        → (g' : Elem) × (st' : OrState o) × (or_step o (is_last (d ∷ act)) e sub f t g st
            ≡ ok (g', st'))
          × RoundOk act f t g st g' st'
    unfolding or_step
    or_common-ok d [] f t g st ws call vf wt c vg vr fresh wr =
        let vc = laws.meet-IsValid e f valid vf in
        (
          minus g (meet e f),
          record {
            remaining = minus st.remaining (meet e f);
            layers = put o (meet e f) empty_interval st.layers;
          },
          rw c (unfold is_last in refl),
          (
            put_common [] f t empty_interval st.layers vf c fresh tt refl
                (λ at. sym (or_intro _ _ (sat_last o laws s at ws))) wr,
            laws.minus-IsValid st.remaining (meet e f) vr vc,
            holds-minus_meet o laws st.remaining e f,
            laws.minus-IsValid g (meet e f) vg vc,
            holds-minus_meet o laws g e f,
          ),
        )
    or_common-ok d (b ∷ act) f t g st ws call vf wt c vg vr fresh wr =
        let (n, p, wn, hn, same) = call t wt in
        let vc = laws.meet-IsValid e f valid vf in
        (
          minus g (meet e f),
          record {
            remaining = minus st.remaining (meet e f);
            layers = put o (meet e f) n st.layers;
          },
          rw (c, is_last_cons d b act, p, ◌>>=◌),
          (
            put_common (b ∷ act) f t n st.layers vf c fresh wn hn same wr,
            laws.minus-IsValid st.remaining (meet e f) vr vc,
            holds-minus_meet o laws st.remaining e f,
            laws.minus-IsValid g (meet e f) vg vc,
            holds-minus_meet o laws g e f,
          ),
        )

    or_step-ok :
        (d : String) (act : List String) (f : Elem) (t : Cubes o) (g : Elem) (st : OrState o)
        → IsWell o laws act s
        → SubOr act s sub
        → IsValid f
        → IsWell o laws act t
        → IsValid g
        → IsValid st.remaining
        → ((v : Value) → (holds e v && holds f v) ≡ true → keys_hold o laws st.layers v ≡ false)
        → AreWell o laws act st.layers
        → (g' : Elem) × (st' : OrState o) × (or_step o (is_last (d ∷ act)) e sub f t g st
            ≡ ok (g', st'))
          × RoundOk act f t g st g' st'
    unfolding or_step
    or_step-ok d act f t g st ws call vf wt vg vr fresh wr =
        elim (Bool-cases (nonempty (meet e f))) [
          | inr none ↦
              let apart = λ (v : Value). holds_of_empty_meet o laws e f v none in
              let same = λ (x : Elem) (v : Value).
                sym (ap (λ (b : Bool). holds x v && not b) (apart v) ∙ and_true (holds x v)) in
              (
                g,
                st,
                rw none,
                (
                  Grows-change o laws act st.layers st.layers (λ v. false) (λ v. false) _ _
                      (λ at v. false) _ (Grows-refl o laws act st.layers wr)
                      (λ v p. sym (apart v) ∙ p) (λ v p. cc)
                      (λ at v. sym (and_false_left _ _ (apart v))),
                  vr,
                  same st.remaining,
                  vg,
                  same g,
                ),
              )
          | inl c ↦ or_common-ok d act f t g st ws call vf wt c vg vr fresh wr
        ]

    pub or_inner-ok :
        (d : String) (act : List String) (m : Dict o) (gs : List Elem) (st : OrState o)
        (p : Value → Bool)
        → IsWell o laws act s
        → SubOr act s sub
        → AreWell o laws act m
        → Rests m gs p
        → IsValid st.remaining
        → ((v : Value)
            → (holds e v && keys_hold o laws m v) ≡ true
            → keys_hold o laws st.layers v ≡ false)
        → AreWell o laws act st.layers
        → (gs' : List Elem) × (st' : OrState o) × (or_inner o (is_last (d ∷ act)) e sub m gs st
            ≡ ok (gs', st'))
          × Grows o laws act st.layers st'.layers
              (λ v. holds e v && keys_hold o laws m v)
              (λ v. holds e v && keys_hold o laws m v)
              (λ at v.
                holds e v && (keys_hold o laws m v && sat o laws at s || sat_layers o laws at v m))
          × IsValid st'.remaining
          × ((v : Value)
              → holds st'.remaining v
                ≡ (holds st.remaining v && not (holds e v && keys_hold o laws m v)))
          × Rests m gs' (λ v. p v || holds e v)
    unfolding or_inner
    or_inner-ok d act nil gs st p ws call wm rs vr fresh wr = (
      gs,
      st,
      refl,
      Grows-change o laws act st.layers st.layers (λ v. false) (λ v. false) _ _ (λ at v. false) _
          (Grows-refl o laws act st.layers wr)
          (λ v q. sym (and_false_right (holds e v) false refl) ∙ q) (λ v q. cc)
          (λ at v. sym (and_false_right _ _ refl)),
      vr,
      (λ v. sym (
          ap (λ (b : Bool). holds st.remaining v && not b) (and_false_right (holds e v) false refl)
          ∙ and_true _)),
      tt,
    )
    or_inner-ok d act (layer f t m) [] st p ws call wm rs vr fresh wr = elim rs [ ]
    or_inner-ok d act (layer f t m) (g ∷ gs) st p ws call wm rs vr fresh wr =
        let (g', st', q, round) =
          or_step-ok d act f t g st ws call wm.0 wm.2 rs.0 vr
            (λ v h. fresh v (wider (holds e v) (holds f v) _ h)) wr in
        let grown = round.0 in
        let avoid = λ (v : Value) (h : (holds e v && keys_hold o laws m v) ≡ true).
          avoids (holds e v) (holds f v) (keys_hold o laws m v) (keys_hold o laws st.layers v)
            (keys_hold o laws st'.layers v) h (fresh v) (grown.upper v) (wm.4 v) in
        let (gs', st'', q', grown', vr', same, rs') =
          or_inner-ok d act m gs st' p ws call wm.5 rs.2 round.1 avoid grown.well in
        (
          g' ∷ gs',
          st'',
          rw (q, ◌>>=◌) (rw (q', ◌>>=◌)),
          Grows-change o laws act st.layers st''.layers _ _ _ _ _ _
              (Grows-trans o laws act st.layers st'.layers st''.layers _ _ _ _ _ _ grown grown')
              (λ v h. keys_round (holds e v) (holds f v) (keys_hold o laws m v) ∙ h)
              (λ v h. sym (keys_round (holds e v) (holds f v) (keys_hold o laws m v)) ∙ h)
              (λ at v.
                points_round (holds e v) (holds f v) (sat o laws at s) (sat o laws at t)
                  (keys_hold o laws m v) (sat_layers o laws at v m)),
          vr',
          (λ v.
              rest_round (holds st.remaining v) (holds st'.remaining v) _ (holds e v) (holds f v)
                (keys_hold o laws m v) (round.2 v) (same v)),
          (
            round.3,
            (λ v. other_round (holds g v) _ (holds f v) (p v) (holds e v) (rs.1 v) (round.4 v)),
            rs',
          ),
        )
