-- ===== src/HyperCubes/Combine/And/Round.antt =====
-- One round of the inner loop, and the inner loop.
use Prim.Native.String.{String}
use network_config_analyzer.Prelude.{
  ◌≡◌, refl, sym, ap₂, ◌∙◌, Bool, true, false, ◌&&◌, ◌||◌, List, [], ◌∷◌, arith, Bool-cases, inl,
  inr, and_intro, and_false_left, and_false_right,
}
use network_config_analyzer.Prelude.Outcome.{Outcome, ok, ◌>>=◌}
use network_config_analyzer.HyperCubes.Elem.{LayerElem, ElemLaws}
use network_config_analyzer.HyperCubes.Layers.{
  Cubes, Dict, nil, layer, cubes, empty_interval, put, is_true,
}
use network_config_analyzer.HyperCubes.Points.{
  Point, sat, sat_layers, keys_hold, IsWell, AreWell, has_cubes,
}
use network_config_analyzer.HyperCubes.Grows.{
  Grows, Grows-refl, Grows-trans, Grows-change, Grows-put, is_true-has_cubes, sat_of_no_cubes,
}
use network_config_analyzer.HyperCubes.Combine.{is_last, and_step, and_inner}
use network_config_analyzer.HyperCubes.Combine.Bools.{wider, upper_round, avoids}
use network_config_analyzer.HyperCubes.Combine.And.Bools.{points_round}

pub is_last_cons : (d c : String) (act : List String) → is_last (d ∷ c ∷ act) ≡ false
unfolding is_last
is_last_cons d c act = ground arith

module _ (o : LayerElem) (laws : ElemLaws o) where
  open o use {Elem, Value, nonempty, meet}
  open laws use {IsValid, holds}

  -- What the call on a pair of sub-cubes does, where it is made.
  abbrev pub SubAnd : List String → Cubes o → (Cubes o → Outcome (Cubes o)) → Type 0
  SubAnd [] s sub = Unit {0}
  SubAnd (d ∷ act) s sub =
      (t : Cubes o)
      → IsWell o laws (d ∷ act) t
      → (n : Cubes o) × (sub t ≡ ok n)
        × IsWell o laws (d ∷ act) n
        × ((at : Point o laws) → sat o laws at n ≡ (sat o laws at s && sat o laws at t))

  pub holds-meet_true :
      (e f : Elem) (v : Value) → holds (meet e f) v ≡ true → (holds e v && holds f v) ≡ true
  holds-meet_true e f v h = sym (laws.holds-meet e f v) ∙ h

  pub holds_of_empty_meet :
      (e f : Elem) (v : Value) → nonempty (meet e f) ≡ false → (holds e v && holds f v) ≡ false
  holds_of_empty_meet e f v h = sym (laws.holds-meet e f v) ∙ laws.empty-holds (meet e f) v h

  pub sat_last : (s : Cubes o) (at : Point o laws) → IsWell o laws [] s → sat o laws at s ≡ true
  sat_last empty_interval at w = refl
  sat_last (cubes ds l) at w = elim w [ ]

  module _ (e : Elem) (s : Cubes o) (sub : Cubes o → Outcome (Cubes o)) (valid : IsValid e) where
    -- What one round adds.
    abbrev and_more : Elem → Cubes o → Point o laws → Value → Bool
    and_more f t at v = (holds e v && holds f v) && (sat o laws at s && sat o laws at t)

    put_common :
        (act : List String) (f : Elem) (t n : Cubes o) (r : Dict o)
        → IsValid f
        → nonempty (meet e f) ≡ true
        → ((v : Value) → (holds e v && holds f v) ≡ true → keys_hold o laws r v ≡ false)
        → IsWell o laws act n
        → has_cubes n ≡ true
        → ((at : Point o laws) → sat o laws at n ≡ (sat o laws at s && sat o laws at t))
        → AreWell o laws act r
        → Grows o laws act r
            (put o (meet e f) n r)
            (λ v. false)
            (λ v. holds e v && holds f v)
            (and_more f t)
    put_common act f t n r vf c fresh w h same wr =
        Grows-change o laws act r _ (holds (meet e f)) (holds (meet e f)) _ _
          (λ at v. holds (meet e f) v && sat o laws at n) _
          (Grows-put o laws act (meet e f) n r (laws.meet-IsValid e f valid vf) c
            (λ v p. fresh v (holds-meet_true e f v p)) w h wr)
          (λ v p. cc) (λ v p. holds-meet_true e f v p)
          (λ at v. ap₂ ◌&&◌ (laws.holds-meet e f v) (same at))

    keep_all :
        (act : List String) (f : Elem) (t : Cubes o) (r : Dict o)
        → AreWell o laws act r
        → ((at : Point o laws) (v : Value) → and_more f t at v ≡ false)
        → Grows o laws act r r (λ v. false) (λ v. holds e v && holds f v) (and_more f t)
    keep_all act f t r w z =
        Grows-change o laws act r r (λ v. false) (λ v. false) _ _ (λ at v. false) _
          (Grows-refl o laws act r w) (λ v p. p) (λ v p. cc) (λ at v. sym (z at v))

    and_common-ok :
        (d : String) (act : List String) (f : Elem) (t : Cubes o) (r : Dict o)
        → IsWell o laws act s
        → SubAnd act s sub
        → IsValid f
        → IsWell o laws act t
        → nonempty (meet e f) ≡ true
        → ((v : Value) → (holds e v && holds f v) ≡ true → keys_hold o laws r v ≡ false)
        → AreWell o laws act r
        → (r' : Dict o) × (and_step o (is_last (d ∷ act)) e sub f t r ≡ ok r')
          × Grows o laws act r r' (λ v. false) (λ v. holds e v && holds f v) (and_more f t)
    unfolding and_step
    and_common-ok d [] f t r ws call vf wt c fresh wr = (
      put o (meet e f) empty_interval r,
      rw c (unfold is_last in refl),
      put_common [] f t empty_interval r vf c fresh tt refl
          (λ at. sym (and_intro _ _ (sat_last s at ws) (sat_last t at wt))) wr,
    )
    and_common-ok d (b ∷ act) f t r ws call vf wt c fresh wr =
        let (n, p, wn, same) = call t wt in
        elim (Bool-cases (is_true o n)) [
          | inl y ↦ (
            put o (meet e f) n r,
            rw (c, is_last_cons d b act, p, ◌>>=◌, y),
            put_common (b ∷ act) f t n r vf c fresh wn
                (sym (is_true-has_cubes o laws b act n wn) ∙ y) same wr,
          )
          | inr z ↦ (
            r,
            rw (c, is_last_cons d b act, p, ◌>>=◌, z),
            keep_all (b ∷ act) f t r wr (λ at v. and_false_right _ _ (
                sym (same at)
                ∙ sat_of_no_cubes o laws (b ∷ act) n at wn
                    (sym (is_true-has_cubes o laws b act n wn) ∙ z))),
          )
        ]

    and_step-ok :
        (d : String) (act : List String) (f : Elem) (t : Cubes o) (r : Dict o)
        → IsWell o laws act s
        → SubAnd act s sub
        → IsValid f
        → IsWell o laws act t
        → ((v : Value) → (holds e v && holds f v) ≡ true → keys_hold o laws r v ≡ false)
        → AreWell o laws act r
        → (r' : Dict o) × (and_step o (is_last (d ∷ act)) e sub f t r ≡ ok r')
          × Grows o laws act r r' (λ v. false) (λ v. holds e v && holds f v) (and_more f t)
    unfolding and_step
    and_step-ok d act f t r ws call vf wt fresh wr = elim (Bool-cases (nonempty (meet e f))) [
      | inr none ↦ (
        r,
        rw none,
        keep_all act f t r wr (λ at v. and_false_left _ _ (holds_of_empty_meet e f v none)),
      )
      | inl c ↦ and_common-ok d act f t r ws call vf wt c fresh wr
    ]

    pub and_inner-ok :
        (d : String) (act : List String) (m r : Dict o)
        → IsWell o laws act s
        → SubAnd act s sub
        → AreWell o laws act m
        → ((v : Value) → (holds e v && keys_hold o laws m v) ≡ true → keys_hold o laws r v ≡ false)
        → AreWell o laws act r
        → (r' : Dict o) × (and_inner o (is_last (d ∷ act)) e sub m r ≡ ok r')
          × Grows o laws act r r'
              (λ v. false)
              (λ v. holds e v && keys_hold o laws m v)
              (λ at v. (holds e v && sat o laws at s) && sat_layers o laws at v m)
    unfolding and_inner
    and_inner-ok d act nil r ws call wm fresh wr = (
      r,
      refl,
      Grows-change o laws act r r (λ v. false) (λ v. false) _ _ (λ at v. false) _
          (Grows-refl o laws act r wr) (λ v p. p) (λ v p. cc)
          (λ at v. sym (and_false_right _ _ refl)),
    )
    and_inner-ok d act (layer f t m) r ws call wm fresh wr =
        let (r', p, g) =
          and_step-ok d act f t r ws call wm.0 wm.2
            (λ v h. fresh v (wider (holds e v) (holds f v) _ h)) wr in
        let avoid = λ (v : Value) (h : (holds e v && keys_hold o laws m v) ≡ true).
          avoids (holds e v) (holds f v) (keys_hold o laws m v) (keys_hold o laws r v)
            (keys_hold o laws r' v) h (fresh v) (g.upper v) (wm.4 v) in
        let (r'', p', g') = and_inner-ok d act m r' ws call wm.5 avoid g.well in
        (
          r'',
          rw (p, ◌>>=◌) p',
          Grows-change o laws act r r'' (λ v. false || false) _ _ _ _ _
              (Grows-trans o laws act r r' r'' (λ v. false) _ (λ v. false) _ _ _ g g') (λ v q. q)
              (λ v q. upper_round (holds e v) (holds f v) (keys_hold o laws m v) q)
              (λ at v.
                points_round (holds e v) (holds f v) (sat o laws at s) (sat o laws at t)
                  (sat_layers o laws at v m)),
        )
