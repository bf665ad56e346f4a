-- ===== src/HyperCubes/Reduce/Result.antt =====
-- reduce_active_dimensions: the dimensions that go have their whole domain as only key.
use Prim.Native.String.{String}
use network_config_analyzer.Prelude.{
  ◌≤◌, ◌≡◌, refl, sym, subst, ◌∙◌, bool_clash, or_intro_right, true, List, [], ◌∷◌, length,
}
use network_config_analyzer.Prelude.Outcome.{ok, ◌>>=◌}
use network_config_analyzer.HyperCubes.Elem.{LayerElem, ElemLaws}
use network_config_analyzer.HyperCubes.Layers.{
  Cubes, Dict, nil, layer, cubes, empty_interval, is_true,
}
use network_config_analyzer.HyperCubes.Points.{Point, sat, IsWell, has_cubes}
use network_config_analyzer.HyperCubes.Dimensions.{in_dims, by_order}
use network_config_analyzer.HyperCubes.Dimensions.Build.{IsPart, InDomains}
use network_config_analyzer.HyperCubes.Dimensions.Order.{
  IsDistinct, IsPart-in_dims, by_order-IsPart,
}
use network_config_analyzer.HyperCubes.Operators.{active}
use network_config_analyzer.HyperCubes.Operators.Active.{
  IsActive, of_cubes, active-IsActive, InDomains-by_order,
}
use network_config_analyzer.HyperCubes.Reduce.{
  dims_minus, dims_to_reduce, set_inactive_dimensions, reduce_active_dimensions,
}
use network_config_analyzer.HyperCubes.Reduce.Free.{IsFull, IsFree, full_sat}
use network_config_analyzer.HyperCubes.Reduce.Minimal.{
  IsOther, kept-in_dims, minus-in_dims, in_dims-by_order, full-chosen,
}
use network_config_analyzer.HyperCubes.Reduce.Remove.{remove_some_active_dimensions-ok, some_left}
use network_config_analyzer.HyperCubes.Reduce.Values.{KeysAt, values_of-ok}
use network_config_analyzer.HyperCubes.Reduce.Whole.{
  IsPart-dims_minus, IsPart-self, IsPart-IsDistinct, in_chosen, same_length, Whole, Whole-IsFree,
  AllValues-weaken, chosen-Whole, in_self,
}

module _ (o : LayerElem) (laws : ElemLaws o) (domain : String → o.Elem) where
  open o use {Elem}

  -- None of the dimensions has its whole domain as only key.
  abbrev pub IsMinimal : List String → Cubes o → Type 0
  IsMinimal [] r = Unit {0}
  IsMinimal (d ∷ ds) r = (¬ KeysAt o (IsFull o laws domain d) r) × IsMinimal ds r

  IsMinimal-part :
      (new act : List String) (r s : Cubes o)
      → ((x : String) → in_dims x new ≡ true → in_dims x act ≡ true)
      → ((x : String) → KeysAt o (IsFull o laws domain x) r → KeysAt o (IsFull o laws domain x) s)
      → ((x : String) → in_dims x act ≡ true → KeysAt o (IsFull o laws domain x) s → ⊥)
      → IsMinimal new r
  unfolding in_dims
  IsMinimal-part [] act r s part keep f = tt
  IsMinimal-part (d ∷ new) act r s part keep f = (
    (λ k. f d (part d (in_self d new)) (keep d k)),
    IsMinimal-part new act r s (λ x i. part x (or_intro_right _ _ i)) keep f,
  )

  module _ (all : List String) (distinct : IsDistinct all) where
    -- What a change of the active dimensions to fewer promises.
    abbrev pub Reduces : Cubes o → Cubes o → Type 0
    Reduces s r =
        IsPart (active o r) all
        × IsActive o laws domain all (active o r) r
        × IsMinimal (active o r) r
        × ((at : Point o laws) → InDomains o laws domain at all → sat o laws at r ≡ sat o laws at s)

    pub part_domains :
        (act : List String) (at : Point o laws)
        → IsPart act all
        → InDomains o laws domain at all
        → InDomains o laws domain at act
    part_domains act at part i =
        subst (λ z. InDomains o laws domain at z) (by_order-IsPart act all part distinct)
          (InDomains-by_order o laws domain all at all act i)

    Reduces-to :
        (act : List String) (s r : Cubes o)
        → IsActive o laws domain all act r
        → IsPart act all
        → IsMinimal act r
        → ((at : Point o laws) → InDomains o laws domain at all → sat o laws at r ≡ sat o laws at s)
        → Reduces s r
    Reduces-to act s r h part minimal points =
        let e : act ≡ active o r = sym (active-IsActive o laws domain all act r h) in
        (
          subst (λ z. IsPart z all) e part,
          subst (λ z. IsActive o laws domain all z r) e h,
          subst (λ z. IsMinimal z r) e minimal,
          points,
        )

    inactive_new :
        (act names new ds : List String) (l : Dict o)
        → by_order all (dims_minus ds names) ≡ new
        → IsPart act all
        → IsPart new act
        → IsPart new all
        → IsWell o laws act (cubes ds l)
        → has_cubes (cubes ds l) ≡ true
        → IsFree o laws domain act new (cubes ds l)
        → length act ≤ length ds
        → ((x : String) → in_dims x new ≡ true → KeysAt o (IsFull o laws domain x) (cubes ds l) → ⊥)
        → (r : Cubes o) × (set_inactive_dimensions o domain all names (cubes ds l) ≡ ok r)
          × Reduces (cubes ds l) r
    unfolding set_inactive_dimensions active
    inactive_new act names [] ds l e pa pn pl w h f b m = (
      cubes [] nil,
      rw e refl,
      (
        tt,
        refl,
        tt,
        λ at i. sym (full_sat o laws domain act (cubes ds l) at w h f (part_domains act at pa i)),
      ),
    )
    inactive_new act names (x ∷ new) ds l e pa pn pl w h f b m =
        let (r, p, shrunk) =
          remove_some_active_dimensions-ok o laws domain (length ds) act new x (cubes ds l) b pn w h
            f in
        (
          r,
          rw (e, some_left x new) p,
          Reduces-to (x ∷ new) (cubes ds l) r (of_cubes o laws domain all x new r shrunk.0 shrunk.1)
              pl (IsMinimal-part (x ∷ new) (x ∷ new) r (cubes ds l) (λ y i. i) shrunk.3 m)
              (λ at i. shrunk.2 at (part_domains act at pa i)),
        )

    set_inactive_dimensions-ok :
        (act names ds : List String) (l : Dict o)
        → IsPart act all
        → IsWell o laws act (cubes ds l)
        → has_cubes (cubes ds l) ≡ true
        → ds ≡ act
        → KeysAt o (Whole o laws domain names) (cubes ds l)
        → ((x : String)
            → in_dims x (dims_minus act names) ≡ true
            → KeysAt o (IsFull o laws domain x) (cubes ds l)
            → ⊥)
        → (r : Cubes o) × (set_inactive_dimensions o domain all names (cubes ds l) ≡ ok r)
          × Reduces (cubes ds l) r
    set_inactive_dimensions-ok act names ds l pa w h e k m =
        let new = dims_minus act names in
        let pl = IsPart-dims_minus act all names pa in
        inactive_new act names new ds l (rw e (by_order-IsPart new all pl distinct)) pa
          (IsPart-dims_minus act act names (IsPart-self act)) pl w h
          (Whole-IsFree o laws domain act names (cubes ds l) (IsPart-IsDistinct act all pa distinct)
            w k)
          (same_length act ds e) m

    -- reduce_active_dimensions on a well-formed set with points returns. The active dimensions of the
    -- result are in the order of all dimensions, and none of them has its whole domain as only key;
    -- the result is well-formed, has points, and the same ones within the domains.
    pub reduce_active_dimensions-ok :
        (s : Cubes o)
        → IsPart (active o s) all
        → IsActive o laws domain all (active o s) s
        → (r : Cubes o) × (reduce_active_dimensions o domain all s ≡ ok r) × Reduces s r
    unfolding reduce_active_dimensions active is_true
    reduce_active_dimensions-ok empty_interval pa h = elim h [ ]
    reduce_active_dimensions-ok (cubes [] l) pa h = (cubes [] l, refl, (tt, refl, tt, λ at i. refl))
    reduce_active_dimensions-ok (cubes (d ∷ ds) nil) pa h = cc
    reduce_active_dimensions-ok (cubes (d ∷ ds) (layer e t l)) pa h =
        let s : Cubes o = cubes (d ∷ ds) (layer e t l) in
        let (vs, p, distinct_values, collected) = values_of-ok o laws ds d s h.0 in
        let names = dims_to_reduce o domain vs in
        let weaker =
          AllValues-weaken o laws domain (Whole o laws domain names)
            (Whole o laws domain (by_order all names)) vs (λ c g i q k. q (in_chosen all names c k))
            (chosen-Whole o laws domain vs distinct_values) in
        let (r, q, reduced) =
          set_inactive_dimensions-ok (d ∷ ds) (by_order all names) (d ∷ ds) (layer e t l) pa h.0 h.1
            refl ((collected (Whole o laws domain (by_order all names))).0 weaker)
            (λ x i k.
              let chosen =
                full-chosen o laws domain x (d ∷ ds) s vs (minus-in_dims (d ∷ ds) _ x i) h.0 h.1
                  ((collected (IsFull o laws domain x)).1 k)
                  (collected (IsOther o laws domain x)).0 in
              let named =
                in_dims-by_order all names x
                  (IsPart-in_dims (d ∷ ds) all x pa (minus-in_dims (d ∷ ds) _ x i)) chosen in
              bool_clash (sym named ∙ kept-in_dims (d ∷ ds) (by_order all names) x i)) in
        (r, rw (some_left d ds, p, ◌>>=◌) q, reduced)
