-- ===== src/HyperCubes/Dimensions/Build.antt =====
-- Making more dimensions active changes no point that lies in the domains.
use Prim.Native.String.{String}
use text.Mathlib.Text.{◌==◌ as str_eq}
use text.Mathlib.TextEquality.{eq_iff}
use network_config_analyzer.Prelude.{
  ◌≡◌, refl, sym, subst, ap, ap₂, ◌∙◌, Bool, true, false, ◌&&◌, ◌||◌, List, [], ◌∷◌, arith,
  if◌then◌else◌, Bool-cases, inl, inr, and_intro, or_intro,
}
use network_config_analyzer.Prelude.Outcome.{Outcome, ok, ◌>>=◌}
use network_config_analyzer.HyperCubes.Elem.{LayerElem, ElemLaws}
use network_config_analyzer.HyperCubes.Layers.{
  Cubes, Dict, nil, layer, cubes, empty_interval, dims_eq,
}
use network_config_analyzer.HyperCubes.Layers.Equality.{dims_eq→eq, sat_at}
use network_config_analyzer.HyperCubes.Points.{
  Point, sat, sat_layers, keys_hold, IsWell, AreWell, has_cubes,
}
use network_config_analyzer.HyperCubes.Combine.And.Round.{is_last_cons}
use network_config_analyzer.HyperCubes.Dimensions.{
  dims_subset, map_layers, set_layers, build_new_active_dimensions,
}

-- The first list is part of the second one, in its order.
abbrev pub IsPart : List String → List String → Type 0
IsPart [] new = Unit {0}
IsPart (d ∷ act) [] = ⊥
IsPart (d ∷ act) (n ∷ new) = if str_eq d n then IsPart act new else IsPart (d ∷ act) new

dims_subset-cons :
    (ds new : List String) (n : String)
    → dims_subset ds new ≡ true
    → dims_subset ds (n ∷ new) ≡ true
unfolding dims_subset
dims_subset-cons [] new n h = refl
dims_subset-cons (d ∷ ds) new n h = ground (arith, dims_subset-cons ds new n)

pub IsPart-subset : (act new : List String) → IsPart act new → dims_subset act new ≡ true
unfolding dims_subset
IsPart-subset [] new h = refl
IsPart-subset (d ∷ act) [] h = elim h [ ]
IsPart-subset (d ∷ act) (n ∷ new) h = elim (Bool-cases (str_eq d n)) [
  | inl same ↦
      and_intro _ _ (or_intro _ _ ((eq_iff n d).1 (sym ((eq_iff d n).0 same))))
        (dims_subset-cons act new n (IsPart-subset act new (rw same at h)))
  | inr other ↦ dims_subset-cons (d ∷ act) new n (IsPart-subset (d ∷ act) new (rw other at h))
]

IsPart-head : (b : String) (new : List String) → IsPart (b ∷ []) (b ∷ new)
IsPart-head b new = rw ((eq_iff b b).1 refl) tt

one_dim : (d n : String) → str_eq d n ≡ true → dims_eq (d ∷ []) (n ∷ []) ≡ false → ⊥
unfolding dims_eq
one_dim d n h k = ground arith

in_domain : (a b : Bool) → a ≡ true → (a && b || false) ≡ b
in_domain a b h = ground arith

module _ (o : LayerElem) (laws : ElemLaws o) (domain : String → o.Elem) where
  open o use {Elem, Value, nonempty}
  open laws use {IsValid, holds}

  -- Every dimension has a domain, which is not empty.
  abbrev pub AreDomains : Type 0
  AreDomains = (d : String) → IsValid (domain d) × (nonempty (domain d) ≡ true)

  -- The point lies in the domains of the dimensions.
  abbrev pub InDomains : Point o laws → List String → Type 0
  InDomains at [] = Unit {0}
  InDomains at (d ∷ ds) = (holds (domain d) (at d) ≡ true) × InDomains at ds

  -- What a change of the active dimensions promises.
  abbrev Extends : List String → Cubes o → Cubes o → Type 0
  Extends new s r =
      IsWell o laws new r
      × (has_cubes r ≡ true)
      × ((at : Point o laws) → InDomains at new → sat o laws at r ≡ sat o laws at s)

  map_layers-ok :
      (act new : List String) (build : Cubes o → Outcome (Cubes o)) (l : Dict o)
      → ((s : Cubes o)
          → IsWell o laws act s
          → has_cubes s ≡ true
          → (r : Cubes o) × (build s ≡ ok r) × Extends new s r)
      → AreWell o laws act l
      → (l' : Dict o) × (map_layers o build l ≡ ok l')
        × AreWell o laws new l'
        × ((v : Value) → keys_hold o laws l' v ≡ keys_hold o laws l v)
        × ((ds es : List String) → has_cubes (cubes es l') ≡ has_cubes (cubes ds l))
        × ((at : Point o laws) (v : Value)
            → InDomains at new
            → sat_layers o laws at v l' ≡ sat_layers o laws at v l)
  unfolding map_layers
  map_layers-ok act new build nil f w =
      (nil, refl, tt, (λ v. refl), (λ ds es. refl), λ at v i. refl)
  map_layers-ok act new build (layer e s l) f w =
      let (r, p, extended) = f s w.2 w.3 in
      let (wr, hr, same) = extended in
      let (l', q, wl, k, h, same') = map_layers-ok act new build l f w.5 in
      (
        layer e r l',
        rw (p, ◌>>=◌) (rw (q, ◌>>=◌)),
        (w.0, w.1, wr, hr, (λ v x. k v ∙ w.4 v x), wl),
        (λ v. ap (λ (b : Bool). holds e v || b) (k v)),
        (λ ds es. refl),
        λ at v i. ap₂ (λ (x y : Bool). holds e v && x || y) (same at i) (same' at v i),
      )

  set_layers-ok :
      (new : List String) (s : Cubes o) (l : Dict o)
      → IsWell o laws new s
      → has_cubes s ≡ true
      → ((at : Point o laws) → InDomains at new → sat o laws at s ≡ true)
      → AreWell o laws [] l
      → AreWell o laws new (set_layers o s l)
        × ((v : Value) → keys_hold o laws (set_layers o s l) v ≡ keys_hold o laws l v)
        × ((ds es : List String) → has_cubes (cubes es (set_layers o s l)) ≡ has_cubes (cubes ds l))
        × ((at : Point o laws) (v : Value)
            → InDomains at new
            → sat_layers o laws at v (set_layers o s l) ≡ sat_layers o laws at v l)
  unfolding set_layers
  set_layers-ok new s nil w h t wl = (tt, (λ v. refl), (λ ds es. refl), λ at v i. refl)
  set_layers-ok new s (layer e empty_interval l) w h t wl =
      let (a, k, c, same) = set_layers-ok new s l w h t wl.5 in
      (
        (wl.0, wl.1, w, h, (λ v x. k v ∙ wl.4 v x), a),
        (λ v. ap (λ (b : Bool). holds e v || b) (k v)),
        (λ ds es. refl),
        λ at v i. ap₂ (λ (x y : Bool). holds e v && x || y) (t at i) (same at v i),
      )
  set_layers-ok new s (layer e (cubes ds m) l) w h t wl = elim wl.2 [ ]

  -- A cube of one dimension's whole domain.
  whole-IsWell :
      AreDomains
      → (b : String) → IsWell o laws (b ∷ []) (cubes (b ∷ []) (layer (domain b) empty_interval nil))
  whole-IsWell dom b = (refl, ((dom b).0, (dom b).1, tt, refl, (λ v h. refl), tt))

  module _ (dom : AreDomains) where
    -- The three ways of build_new_active_dimensions where the lists differ, each from what it does
    -- with the dimensions that follow.
    abbrev pub Builds : List String → Cubes o → Type 0
    Builds new s =
        (r : Cubes o) × (build_new_active_dimensions o domain new s ≡ ok r) × Extends new s r

    build-same :
        (d n : String) (a new ds : List String) (l : Dict o)
        → ds ≡ d ∷ a
        → dims_eq (d ∷ a) (n ∷ new) ≡ true
        → dims_subset (d ∷ a) (n ∷ new) ≡ true
        → AreWell o laws a l
        → has_cubes (cubes ds l) ≡ true
        → Builds (n ∷ new) (cubes ds l)
    unfolding build_new_active_dimensions
    build-same d n a new ds l e same sub w h = (
      cubes ds l,
      rw (e, sub, same),
      (
        subst (λ z. IsWell o laws z (cubes ds l)) (dims_eq→eq (d ∷ a) (n ∷ new) same) (e, w),
        h,
        λ at i. refl,
      ),
    )

    -- The new dimension stands above all of `self`.
    build-above :
        (d n : String) (a new ds : List String) (l : Dict o)
        → ds ≡ d ∷ a
        → dims_eq (d ∷ a) (n ∷ new) ≡ false
        → dims_subset (d ∷ a) (n ∷ new) ≡ true
        → str_eq d n ≡ false
        → Builds new (cubes ds l)
        → Builds (n ∷ new) (cubes ds l)
    unfolding build_new_active_dimensions
    build-above d n a new ds l e differ sub other below =
        let (r, p, extended) = below in
        let p' : build_new_active_dimensions o domain new (cubes (d ∷ a) l) ≡ ok r = rw e at p in
        (
          cubes (n ∷ new) (layer (domain n) r nil),
          rw (e, sub, differ, other, p', ◌>>=◌),
          (
            (refl, ((dom n).0, (dom n).1, extended.0, extended.1, (λ v h. refl), tt)),
            refl,
            λ at i. in_domain (holds (domain n) (at n)) (sat o laws at r) i.0 ∙ extended.2 at i.1,
          ),
        )

    build-layers :
        (d n c : String) (a new ds : List String) (l : Dict o)
        → ds ≡ d ∷ c ∷ a
        → dims_eq (d ∷ c ∷ a) (n ∷ new) ≡ false
        → dims_subset (d ∷ c ∷ a) (n ∷ new) ≡ true
        → str_eq d n ≡ true
        → AreWell o laws (c ∷ a) l
        → has_cubes (cubes ds l) ≡ true
        → ((s : Cubes o) → IsWell o laws (c ∷ a) s → has_cubes s ≡ true → Builds new s)
        → Builds (n ∷ new) (cubes ds l)
    unfolding build_new_active_dimensions
    build-layers d n c a new ds l e differ sub same w h each =
        let (l', p, w', k, hl, points) =
          map_layers-ok (c ∷ a) new (build_new_active_dimensions o domain new) l each w in
        (
          cubes (n ∷ new) l',
          rw (e, sub, differ, same, is_last_cons d c a, p, ◌>>=◌),
          (
            (refl, w'),
            hl ds (n ∷ new) ∙ h,
            λ at i.
                points at (at n) i.1
                ∙ ap (λ x. sat_layers o laws at (at x) l) (sym ((eq_iff d n).0 same))
                ∙ sym (sat_at o laws at d (c ∷ a) ds l e),
          ),
        )

    build-last :
        (d n b : String) (new ds : List String) (l : Dict o)
        → ds ≡ d ∷ []
        → dims_eq (d ∷ []) (n ∷ b ∷ new) ≡ false
        → dims_subset (d ∷ []) (n ∷ b ∷ new) ≡ true
        → str_eq d n ≡ true
        → AreWell o laws [] l
        → has_cubes (cubes ds l) ≡ true
        → Builds (b ∷ new) (cubes (b ∷ []) (layer (domain b) empty_interval nil))
        → Builds (n ∷ b ∷ new) (cubes ds l)
    unfolding build_new_active_dimensions
    build-last d n b new ds l e differ sub same w h below =
        let (s, p, extended) = below in
        let whole = λ (at : Point o laws) (i : InDomains at (b ∷ new)).
          extended.2 at i ∙ in_domain (holds (domain b) (at b)) true i.0 in
        let (w', k, hl, points) = set_layers-ok (b ∷ new) s l extended.0 extended.1 whole w in
        (
          cubes (n ∷ b ∷ new) (set_layers o s l),
          rw (e, sub, differ, same, p, ◌>>=◌),
          (
            (refl, w'),
            hl ds (n ∷ b ∷ new) ∙ h,
            λ at i.
                points at (at n) i.1
                ∙ ap (λ x. sat_layers o laws at (at x) l) (sym ((eq_iff d n).0 same))
                ∙ sym (sat_at o laws at d [] ds l e),
          ),
        )

    build-below :
        (n : String) (new act : List String) (d : String) (ds : List String) (l : Dict o)
        → IsPart act new
        → IsWell o laws (d ∷ act) (cubes ds l)
        → has_cubes (cubes ds l) ≡ true
        → dims_eq (d ∷ act) (n ∷ new) ≡ false
        → dims_subset (d ∷ act) (n ∷ new) ≡ true
        → str_eq d n ≡ true
        → ((a : List String) (c : String) (s : Cubes o)
            → IsPart (c ∷ a) new
            → IsWell o laws (c ∷ a) s
            → has_cubes s ≡ true
            → Builds new s)
        → Builds (n ∷ new) (cubes ds l)
    build-below n [] [] d ds l part w h differ sub same each = absurd (one_dim d n same differ)
    build-below n (b ∷ new) [] d ds l part w h differ sub same each =
        build-last d n b new ds l w.0 differ sub same w.1 h (
          each [] b (cubes (b ∷ []) (layer (domain b) empty_interval nil)) (IsPart-head b new)
            (whole-IsWell dom b) refl)
    build-below n new (c ∷ a) d ds l part w h differ sub same each =
        build-layers d n c a new ds l w.0 differ sub same w.1 h (λ s ws hs. each a c s part ws hs)

    -- build_new_active_dimensions on a well-formed object that is not empty, to a list of which
    -- its active dimensions are part in their order, returns; the result is well-formed with the
    -- new active dimensions, is not empty, and has the same points within the domains.
    pub build-ok :
        (new act : List String) (d : String) (s : Cubes o)
        → IsPart (d ∷ act) new
        → IsWell o laws (d ∷ act) s
        → has_cubes s ≡ true
        → Builds new s
    build-ok [] act d s part w h = elim part [ ]
    build-ok (n ∷ new) act d empty_interval part w h = elim w [ ]
    build-ok (n ∷ new) act d (cubes ds l) part w h =
        let sub = IsPart-subset (d ∷ act) (n ∷ new) part in
        elim (Bool-cases (dims_eq (d ∷ act) (n ∷ new))) [
          | inl same ↦ build-same d n act new ds l w.0 same sub w.1 h
          | inr differ ↦ elim (Bool-cases (str_eq d n)) [
            | inl same ↦
                build-below n new act d ds l (rw same at part) w h differ sub same (build-ok new)
            | inr other ↦
                build-above d n act new ds l w.0 differ sub other
                  (build-ok new act d (cubes ds l) (rw other at part) w h)
          ]
        ]
