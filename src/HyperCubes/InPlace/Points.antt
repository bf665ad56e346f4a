-- ===== src/HyperCubes/InPlace/Points.antt =====
-- `&=`, `|=` and `-=` on sets over any active dimensions compute the points.
use Prim.Native.String.{String}
use network_config_analyzer.Prelude.{
  ◌≡◌, refl, sym, ◌∙◌, Bool, true, false, not, ◌&&◌, ◌||◌, List, arith, Bool-cases, inl, inr,
}
use network_config_analyzer.HyperCubes.Elem.{LayerElem, ElemLaws}
use network_config_analyzer.HyperCubes.Layers.{Cubes, is_true}
use network_config_analyzer.HyperCubes.Combine.{and_aux, or_aux, sub_aux}
use network_config_analyzer.HyperCubes.Combine.And.{and_aux-ok}
use network_config_analyzer.HyperCubes.Combine.Or.{or_aux-ok}
use network_config_analyzer.HyperCubes.Combine.Minus.{sub_aux-ok}
use network_config_analyzer.HyperCubes.Dimensions.Build.{AreDomains}
use network_config_analyzer.HyperCubes.Dimensions.Order.{IsDistinct}
use network_config_analyzer.HyperCubes.Operators.{is_all, set_all, clear, active}
use network_config_analyzer.HyperCubes.InPlace.{and_set, or_set, sub_set}
use network_config_analyzer.HyperCubes.InPlace.Ending.{
  IsCubeSet, Computes, combine-ok, first_empty, all_sat, cleared,
}

and_right_true : (a b : Bool) → b ≡ true → (a && b) ≡ a
and_right_true a b h = ground arith

and_left_true : (a b : Bool) → a ≡ true → (a && b) ≡ b
and_left_true a b h = ground arith

and_right_false : (a b : Bool) → b ≡ false → (a && b) ≡ false
and_right_false a b h = ground arith

and_left_false : (a b : Bool) → a ≡ false → (a && b) ≡ false
and_left_false a b h = ground arith

or_right_true : (a b : Bool) → b ≡ true → (a || b) ≡ true
or_right_true a b h = ground arith

or_left_true : (a b : Bool) → a ≡ true → (a || b) ≡ true
or_left_true a b h = ground arith

or_right_false : (a b : Bool) → b ≡ false → (a || b) ≡ a
or_right_false a b h = ground arith

or_left_false : (a b : Bool) → a ≡ false → (a || b) ≡ b
or_left_false a b h = ground arith

minus_nothing : (a b : Bool) → b ≡ false → (a && not b) ≡ a
minus_nothing a b h = ground arith

module _ (o : LayerElem) (laws : ElemLaws o) (domain : String → o.Elem) (all : List String)
    (dom : AreDomains o laws domain) (distinct : IsDistinct all) where
  -- `&=`: on two sets over the same dimensions, any of them active, each dimension with a domain that
  -- is not empty, the operator returns, the result is such a set, and within the domains it has
  -- exactly the common points.
  pub and_set-ok :
      (s t : Cubes o)
      → IsCubeSet o laws domain all s
      → IsCubeSet o laws domain all t
      → Computes o laws domain all (λ a b. a && b) s t (and_set o domain all s t)
  unfolding and_set
  and_set-ok s t hs ht = elim (Bool-cases (is_all o t)) [
    | inl k ↦ (
      s,
      rw k refl,
      hs,
      λ at i. sym (and_right_true _ _ (all_sat o laws domain all dom distinct t k at)),
    )
    | inr k ↦ elim (Bool-cases (is_true o t)) [
      | inr e ↦
          let (c, none) = cleared o laws domain all dom distinct t ht e in
          (
            clear o all,
            rw (k, e) refl,
            c,
            λ at i.
                none at
                ∙ sym
                    (and_right_false _ _ (first_empty o laws domain all dom distinct t ht.1 e at)),
          )
      | inl kt ↦ elim (Bool-cases (is_true o s)) [
        | inr e ↦
            let (c, none) = cleared o laws domain all dom distinct s hs e in
            (
              clear o all,
              rw (k, kt, e) refl,
              c,
              λ at i.
                  none at
                  ∙ sym
                      (and_left_false _ _ (first_empty o laws domain all dom distinct s hs.1 e at)),
            )
        | inl ks ↦ elim (Bool-cases (is_all o s)) [
          | inl whole ↦ (
            t,
            rw (k, kt, ks, whole) refl,
            ht,
            λ at i. sym (and_left_true _ _ (all_sat o laws domain all dom distinct s whole at)),
          )
          | inr part ↦
              let (r, p, well, points) =
                combine-ok o laws domain all dom distinct (λ a b. a && b) (and_aux o) s t
                  (λ d act s t ws wt h. and_aux-ok o laws d act s t ws wt) hs ht ks kt k in
              (r, rw (k, kt, ks, part) p, well, points)
        ]
      ]
    ]
  ]

  -- `|=`: under the same conditions the operator returns, the result is such a set, and within the
  -- domains it has exactly the points of both.
  pub or_set-ok :
      (s t : Cubes o)
      → IsCubeSet o laws domain all s
      → IsCubeSet o laws domain all t
      → Computes o laws domain all (λ a b. a || b) s t (or_set o domain all s t)
  unfolding or_set set_all active
  or_set-ok s t hs ht = elim (Bool-cases (is_all o t)) [
    | inl k ↦ (
      set_all o,
      rw k refl,
      (tt, tt),
      λ at i. sym (or_right_true _ _ (all_sat o laws domain all dom distinct t k at)),
    )
    | inr k ↦ elim (Bool-cases (is_all o s)) [
      | inl whole ↦ (
        set_all o,
        rw (k, whole) refl,
        (tt, tt),
        λ at i. sym (or_left_true _ _ (all_sat o laws domain all dom distinct s whole at)),
      )
      | inr part ↦ elim (Bool-cases (is_true o t)) [
        | inr e ↦ (
          s,
          rw (k, part, e) refl,
          hs,
          λ at i. sym (or_right_false _ _ (first_empty o laws domain all dom distinct t ht.1 e at)),
        )
        | inl kt ↦ elim (Bool-cases (is_true o s)) [
          | inr e ↦ (
            t,
            rw (k, part, kt, e) refl,
            ht,
            λ at i.
                sym (or_left_false _ _ (first_empty o laws domain all dom distinct s hs.1 e at)),
          )
          | inl ks ↦
              let (r, p, well, points) =
                combine-ok o laws domain all dom distinct (λ a b. a || b) (or_aux o) s t
                  (λ d act s t ws wt h.
                    let (n, q, w, some, points) = or_aux-ok o laws d act s t ws wt h in
                    (n, q, w, points))
                  hs ht ks kt k in
              (r, rw (k, part, kt, ks) p, well, points)
        ]
      ]
    ]
  ]

  -- `-=`: if also the first set is not empty and the second is not the entire space, the operator
  -- returns, the result is such a set, and within the domains it has exactly the points of the first
  -- that the second lacks.
  pub sub_set-ok :
      (s t : Cubes o)
      → IsCubeSet o laws domain all s
      → IsCubeSet o laws domain all t
      → is_true o s ≡ true
      → is_all o t ≡ false
      → Computes o laws domain all (λ a b. a && not b) s t (sub_set o domain all s t)
  unfolding sub_set
  sub_set-ok s t hs ht ks k = elim (Bool-cases (is_true o t)) [
    | inr e ↦ (
      s,
      rw (k, e) refl,
      hs,
      λ at i. sym (minus_nothing _ _ (first_empty o laws domain all dom distinct t ht.1 e at)),
    )
    | inl kt ↦
        let (r, p, well, points) =
          combine-ok o laws domain all dom distinct (λ a b. a && not b) (sub_aux o) s t
            (λ d act s t ws wt h. sub_aux-ok o laws d act s t ws wt) hs ht ks kt k in
        (r, rw (k, kt) p, well, points)
  ]
