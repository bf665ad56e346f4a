-- ===== src/HyperCubes/Operators/Active.antt =====
-- _set_active_dimensions and _prepare_common_active_dimensions keep the points.
use Prim.Native.String.{String}
use text.Mathlib.TextEquality.{eq_iff}
use network_config_analyzer.HyperCubes.Layers.Equality.{dims_eq→eq}
use network_config_analyzer.Prelude.{
  ◌≡◌, refl, sym, subst, ◌∙◌, Bool, true, false, ◌&&◌, ◌||◌, List, [], ◌∷◌, ◌++◌, arith, Bool-cases,
  inl, inr, or_intro,
}
use network_config_analyzer.Prelude.Outcome.{ok, ◌>>=◌}
use network_config_analyzer.HyperCubes.Elem.{LayerElem, ElemLaws}
use network_config_analyzer.HyperCubes.Layers.{
  Cubes, Dict, nil, layer, cubes, empty_interval, dims_eq,
}
use network_config_analyzer.HyperCubes.Points.{Point, sat, IsWell, has_cubes}
use network_config_analyzer.HyperCubes.Dimensions.{
  in_dims, dims_subset, same_dims, by_order, create_from_cube_aux, build_new_active_dimensions,
  entire_space_cube,
}
use network_config_analyzer.HyperCubes.Dimensions.Build.{IsPart, AreDomains, InDomains, build-ok}
use network_config_analyzer.HyperCubes.Dimensions.Order.{
  IsDistinct, IsPart-in_dims, in_dims-by_order, in_dims-append, by_order-same, by_order-IsPart,
  IsPart-by_order, IsPart-chosen,
}
use network_config_analyzer.HyperCubes.Operators.{
  activate, active, set_active_dimensions, prepare_common_active_dimensions,
}
use network_config_analyzer.HyperCubes.Operators.Lists.{
  common-subset, in_left, in_right, first_of_equals, second_of_equals, in_same,
}

in_domain : (a b : Bool) → a ≡ true → (a && b || false) ≡ b
in_domain a b h = ground arith

module _ (o : LayerElem) (laws : ElemLaws o) (domain : String → o.Elem) (all : List String) where
  -- A set with the given active dimensions that has points: all of the space, or some cubes.
  abbrev pub IsActive : List String → Cubes o → Type 0
  IsActive act empty_interval = ⊥
  IsActive [] (cubes ds l) = ds ≡ []
  IsActive (d ∷ act) (cubes ds l) =
      IsWell o laws (d ∷ act) (cubes ds l) × (has_cubes (cubes ds l) ≡ true)

  pub active-IsActive : (act : List String) (s : Cubes o) → IsActive act s → active o s ≡ act
  unfolding active
  active-IsActive act empty_interval h = elim h [ ]
  active-IsActive [] (cubes ds l) h = h
  active-IsActive (d ∷ act) (cubes ds l) h = h.0.0

  pub of_cubes :
      (d : String) (act : List String) (s : Cubes o)
      → IsWell o laws (d ∷ act) s
      → has_cubes s ≡ true
      → IsActive (d ∷ act) s
  of_cubes d act empty_interval w h = elim w [ ]
  of_cubes d act (cubes ds l) w h = (w, h)

  pub InDomains-by_order :
      (at : Point o laws) (list ds : List String)
      → InDomains o laws domain at list
      → InDomains o laws domain at (by_order list ds)
  unfolding by_order
  InDomains-by_order at [] ds i = tt
  InDomains-by_order at (a ∷ list) ds i = elim (Bool-cases (in_dims a ds)) [
    | inl c ↦ rw c (i.0, InDomains-by_order at list ds i.1)
    | inr c ↦ rw c (InDomains-by_order at list ds i.1)
  ]

  -- What a change of the active dimensions promises of a set.
  abbrev pub Becomes : List String → Cubes o → Cubes o → Type 0
  Becomes act s r =
      IsActive act r
      × ((at : Point o laws) → InDomains o laws domain at all → sat o laws at r ≡ sat o laws at s)

  set_already :
      (ds names : List String) (l : Dict o)
      → dims_subset names ds ≡ true
      → set_active_dimensions o domain all names (cubes ds l) ≡ ok (cubes ds l)
  unfolding set_active_dimensions
  set_already ds names l h = elim (Bool-cases (same_dims names ds)) [
    | inl same ↦ rw same refl
    | inr other ↦ rw (other, h) refl
  ]

  set_more :
      (ds names : List String) (l : Dict o) (r : Cubes o)
      → dims_subset names ds ≡ false
      → activate o domain all (by_order all (ds ++ names)) (cubes ds l) ≡ ok r
      → set_active_dimensions o domain all names (cubes ds l) ≡ ok r
  unfolding set_active_dimensions same_dims
  set_more ds names l r h p = rw h p

  both :
      (x : String) (act more : List String)
      → IsPart act all
      → IsPart more all
      → in_dims x (act ++ more) ≡ true
      → in_dims x all ≡ true
  both x act more pa pm h =
      ground (
        arith,
        in_dims-append x act more,
        IsPart-in_dims act all x pa,
        IsPart-in_dims more all x pm,
      )

  module _ (dom : AreDomains o laws domain) (distinct : IsDistinct all) where
    -- The uncut cube of a list of dimensions holds every point of the domains.
    entire-ok :
        (d : String) (ds : List String)
        → (r : Cubes o) × (create_from_cube_aux o (entire_space_cube o domain (d ∷ ds)) (d ∷ ds)
            ≡ ok r)
          × IsWell o laws (d ∷ ds) r
          × (has_cubes r ≡ true)
          × ((at : Point o laws) → InDomains o laws domain at (d ∷ ds) → sat o laws at r ≡ true)
    unfolding create_from_cube_aux entire_space_cube
    entire-ok d [] = (
      cubes (d ∷ []) (layer (domain d) empty_interval nil),
      refl,
      (refl, ((dom d).0, (dom d).1, tt, refl, (λ v k. refl), tt)),
      refl,
      λ at i. in_domain _ true i.0,
    )
    entire-ok d (e ∷ ds) =
        let (r, p, w, h, whole) = entire-ok e ds in
        (
          cubes (d ∷ e ∷ ds) (layer (domain d) r nil),
          rw (p, ◌>>=◌),
          (refl, ((dom d).0, (dom d).1, w, h, (λ v k. refl), tt)),
          refl,
          λ at i. in_domain _ (sat o laws at r) i.0 ∙ whole at i.1,
        )

    -- activate, on a set of which the active dimensions are part of the new ones.
    activate-ok :
        (act new : List String) (n : String) (s : Cubes o)
        → by_order all (n ∷ new) ≡ n ∷ new
        → IsPart act (n ∷ new)
        → ((at : Point o laws)
            → InDomains o laws domain at all
            → InDomains o laws domain at (n ∷ new))
        → IsActive act s
        → (r : Cubes o) × (activate o domain all (n ∷ new) s ≡ ok r) × Becomes (n ∷ new) s r
    unfolding activate
    activate-ok act new n empty_interval e part within h = elim h [ ]
    activate-ok [] new n (cubes ds l) e part within h =
        let (r, p, w, c, whole) = entire-ok n new in
        (r, rw (h, e) p, (of_cubes n new r w c, λ at i. whole at (within at i) ∙ rw h refl))
    activate-ok (d ∷ act) new n (cubes ds l) e part within h =
        let (r, p, extended) =
          build-ok o laws domain dom (n ∷ new) act d (cubes ds l) part h.0 h.1 in
        let p' : build_new_active_dimensions o domain (n ∷ new) (cubes (d ∷ act) l) ≡ ok r =
          rw h.0.0 at p in
        (
          r,
          rw h.0.0 p',
          (of_cubes n new r extended.0 extended.1, λ at i. extended.2 at (within at i)),
        )

    activate_more-ok :
        (act names list : List String) (s : Cubes o)
        → dims_subset names act ≡ false
        → ((x : String) → in_dims x names ≡ true → in_dims x list ≡ true)
        → by_order all list ≡ list
        → IsPart act list
        → ((at : Point o laws) → InDomains o laws domain at all → InDomains o laws domain at list)
        → IsActive act s
        → (r : Cubes o) × (activate o domain all list s ≡ ok r) × Becomes list s r
    unfolding dims_subset in_dims
    activate_more-ok act [] list s more p e part within h = cc
    activate_more-ok act (x ∷ names) [] s more p e part within h =
        absurd (ground (arith, p x (or_intro _ _ ((eq_iff x x).1 refl))))
    activate_more-ok act (x ∷ names) (n ∷ new) s more p e part within h =
        activate-ok act new n s e part within h

    module _ (act names : List String) (pa : IsPart act all)
        (pn : (x : String) → in_dims x names ≡ true → in_dims x all ≡ true) where
      -- The names asked for are active already: nothing changes.
      already :
          dims_subset names act ≡ true
          → (s : Cubes o) → IsActive act s
          → Becomes (by_order all (act ++ names)) s s
      already sub s h = (
        subst (λ z. IsActive z s)
            (sym (
              by_order-same all (act ++ names) act (λ x. common-subset act names x sub)
              ∙ by_order-IsPart act all pa distinct))
            h,
        λ at i. refl,
      )

      activated :
          dims_subset names act ≡ false
          → (s : Cubes o) → IsActive act s
          → (r : Cubes o) × (activate o domain all (by_order all (act ++ names)) s ≡ ok r)
            × Becomes (by_order all (act ++ names)) s r
      activated sub s h =
          let list = by_order all (act ++ names) in
          activate_more-ok act names list s sub
            (λ x k. in_dims-by_order all (act ++ names) x (pn x k) (in_right x act names k))
            (by_order-IsPart list all (IsPart-by_order all (act ++ names)) distinct)
            (IsPart-chosen act all (act ++ names) pa (λ x k. in_left x act names k))
            (λ at i. InDomains-by_order at all (act ++ names) i) h

      pub set_active_dimensions-ok :
          (s : Cubes o)
          → IsActive act s
          → (r : Cubes o) × (set_active_dimensions o domain all names s ≡ ok r)
            × Becomes (by_order all (act ++ names)) s r
      unfolding active
      set_active_dimensions-ok empty_interval h = elim h [ ]
      set_active_dimensions-ok (cubes ds l) h =
          let e : act ≡ ds = sym (active-IsActive act (cubes ds l) h) in
          elim (Bool-cases (dims_subset names act)) [
            | inl sub ↦ (
              cubes ds l,
              set_already ds names l (subst (λ z. dims_subset names z ≡ true) e sub),
              already sub (cubes ds l) h,
            )
            | inr sub ↦
                let (r, p, w) = activated sub (cubes ds l) h in
                (
                  r,
                  set_more ds names l r (subst (λ z. dims_subset names z ≡ false) e sub) (
                      subst
                        (λ z. activate o domain all (by_order all (z ++ names)) (cubes ds l) ≡ ok r)
                        e p),
                  w,
                )
          ]

    -- Dimensions that make the same list.
    stays :
        (act list : List String) (s : Cubes o)
        → IsPart act all
        → ((x : String) → in_dims x act ≡ in_dims x list)
        → IsActive act s
        → Becomes (by_order all list) s s
    stays act list s pa same h = (
      subst (λ z. IsActive z s)
          (sym (by_order-IsPart act all pa distinct) ∙ by_order-same all act list same) h,
      λ at i. refl,
    )

    common_set :
        (act list : List String) (s : Cubes o)
        → IsPart act all
        → ((x : String) → in_dims x act ≡ true → in_dims x list ≡ true)
        → ((x : String) → in_dims x list ≡ true → in_dims x all ≡ true)
        → IsActive act s
        → (r : Cubes o) × (set_active_dimensions o domain all list s ≡ ok r)
          × Becomes (by_order all list) s r
    common_set act list s pa sub known h =
        let (r, p, b) = set_active_dimensions-ok act list pa known s h in
        let e =
          by_order-same all (act ++ list) list
            (λ x. in_dims-append x act list ∙ ground (arith, sub x)) in
        (r, p, (subst (λ z. IsActive z r) e b.0, b.1))

    -- _prepare_common_active_dimensions on two sets with points returns; afterwards both have as active
    -- dimensions those of either, in the order of all dimensions, and the points they had.
    pub prepare_common_active_dimensions-ok :
        (s t : Cubes o)
        → IsPart (active o s) all
        → IsPart (active o t) all
        → IsActive (active o s) s
        → IsActive (active o t) t
        → (s' t' : Cubes o) × (prepare_common_active_dimensions o domain all s t ≡ ok (s', t'))
          × Becomes (by_order all (active o s ++ active o t)) s s'
          × Becomes (by_order all (active o s ++ active o t)) t t'
    unfolding prepare_common_active_dimensions
    prepare_common_active_dimensions-ok s t pa pm hs ht =
        let act = active o s in
        let other = active o t in
        let list = act ++ other in
        let known = λ (x : String) (k : in_dims x list ≡ true). both x act other pa pm k in
        elim (Bool-cases (dims_eq act other)) [
          | inl same ↦ (
            s,
            t,
            rw same refl,
            stays act list s pa (λ x. first_of_equals x act other (dims_eq→eq act other same)) hs,
            stays other list t pm (λ x. second_of_equals x act other (dims_eq→eq act other same))
                ht,
          )
          | inr differ ↦
              let (s', p, bs) = common_set act list s pa (λ x k. in_left x act other k) known hs in
              elim (Bool-cases (same_dims other list)) [
                | inl same ↦ (
                  s',
                  t,
                  rw (differ, p, ◌>>=◌, same) refl,
                  bs,
                  stays other list t pm (λ x. in_same x other list same) ht,
                )
                | inr more ↦
                    let (t', q, bt) =
                      common_set other list t pm (λ x k. in_right x act other k) known ht in
                    (s', t', rw (differ, p, ◌>>=◌, more, q, ◌>>=◌) refl, bs, bt)
              ]
        ]
