-- ===== src/HyperCubes/Reduce/Minimal.antt =====
-- reduce_active_dimensions chooses every dimension that has its whole domain as only key.
use Prim.Native.String.{String}
use text.Mathlib.Text.{◌==◌ as str_eq}
use text.Mathlib.TextEquality.{eq_iff}
use network_config_analyzer.Prelude.{
  ◌≡◌, ◌⊎◌, refl, sym, subst, true, false, ◌||◌, List, [], ◌∷◌, arith, Bool-cases, inl, inr,
  or_intro, or_intro_right, if_intro, and_intro,
}
use network_config_analyzer.HyperCubes.Elem.{LayerElem, ElemLaws}
use network_config_analyzer.HyperCubes.Layers.{Cubes, nil, layer, cubes, empty_interval}
use network_config_analyzer.HyperCubes.Points.{IsWell, has_cubes}
use network_config_analyzer.HyperCubes.Dimensions.{in_dims, by_order}
use network_config_analyzer.HyperCubes.Dimensions.Order.{str_eq_comm, IsPart-in_dims}
use network_config_analyzer.HyperCubes.Reduce.{dims_minus, all_equal, is_only, dims_to_reduce}
use network_config_analyzer.HyperCubes.Reduce.Free.{IsFull}
use network_config_analyzer.HyperCubes.Reduce.Values.{AllOf, AllValues, KeysAt}
use network_config_analyzer.HyperCubes.Reduce.Whole.{
  any-AllOf, choose_one, IsPart-dims_minus, IsPart-self,
}

pub kept-in_dims :
    (ds names : List String) (x : String)
    → in_dims x (dims_minus ds names) ≡ true
    → in_dims x names ≡ false
unfolding dims_minus in_dims
kept-in_dims [] names x h = cc
kept-in_dims (d ∷ ds) names x h = elim (Bool-cases (in_dims d names)) [
  | inl i ↦ kept-in_dims ds names x (rw i at h)
  | inr i ↦
      let h' : (str_eq d x || in_dims x (dims_minus ds names)) ≡ true = rw i at h in
      elim (Bool-cases (str_eq d x)) [
        | inl same ↦ subst (λ z. in_dims z names ≡ false) ((eq_iff d x).0 same) i
        | inr other ↦ kept-in_dims ds names x (ground (arith, h', other))
      ]
]

pub minus-in_dims :
    (ds names : List String) (x : String)
    → in_dims x (dims_minus ds names) ≡ true
    → in_dims x ds ≡ true
minus-in_dims ds names x i =
    IsPart-in_dims (dims_minus ds names) ds x (IsPart-dims_minus ds ds names (IsPart-self ds)) i

pub in_dims-by_order :
    (all ds : List String) (x : String)
    → in_dims x all ≡ true
    → in_dims x ds ≡ true
    → in_dims x (by_order all ds) ≡ true
unfolding by_order in_dims
in_dims-by_order [] ds x h k = cc
in_dims-by_order (a ∷ all) ds x h k = elim (Bool-cases (str_eq a x)) [
  | inl same ↦
      let i : in_dims a ds ≡ true =
        subst (λ z. in_dims z ds ≡ true) (sym ((eq_iff a x).0 same)) k in
      rw i (or_intro _ _ same)
  | inr other ↦
      let rest = in_dims-by_order all ds x (ground (arith, h, other)) k in
      if_intro (λ z. in_dims x z ≡ true) (in_dims a ds) (λ e. or_intro_right _ _ rest) (λ e. rest)
]

module _ (o : LayerElem) (laws : ElemLaws o) (domain : String → o.Elem) where
  open o use {Elem}

  -- The dimension is not the given one.
  abbrev pub IsOther : String → String → Elem → Type 0
  IsOther x d e = str_eq x d ≡ false

  full-all_equal :
      (x d : String) (es : List Elem)
      → str_eq x d ≡ true
      → AllOf o (IsFull o laws domain x) d es
      → all_equal o (domain d) es ≡ true
  unfolding all_equal
  full-all_equal x d [] same h = refl
  full-all_equal x d (e ∷ es) same h =
      and_intro _ _ ((laws.eq_iff (domain d) e).1 (sym (h.0 same))) (full-all_equal x d es same h.1)

  full-is_only :
      (d : String) (e : Elem) (es : List Elem)
      → all_equal o (domain d) (e ∷ es) ≡ true
      → is_only o (domain d) (e ∷ es) ≡ true
  unfolding is_only
  full-is_only d e es h = ground (arith, h)

  further-in_dims :
      (x d : String) (es : List Elem) (vs : List (String × List Elem))
      → in_dims x (dims_to_reduce o domain vs) ≡ true
      → in_dims x (dims_to_reduce o domain ((d, es) ∷ vs)) ≡ true
  unfolding dims_to_reduce in_dims
  further-in_dims x d es vs i =
      if_intro (λ z. in_dims x z ≡ true) (is_only o (domain d) es) (λ e. or_intro_right _ _ i)
        (λ e. i)

  chosen_here :
      (x d : String) (es : List Elem) (vs : List (String × List Elem))
      → str_eq x d ≡ true
      → AllOf o (IsFull o laws domain x) d es
      → (in_dims x (dims_to_reduce o domain vs) ≡ true) ⊎ AllValues o (IsOther x) vs
      → (in_dims x (dims_to_reduce o domain ((d, es) ∷ vs)) ≡ true)
        ⊎ AllValues o (IsOther x) ((d, es) ∷ vs)
  unfolding in_dims
  chosen_here x d [] vs same h rest = elim rest [
    | inl i ↦ inl (further-in_dims x d [] vs i)
    | inr a ↦ inr (tt, a)
  ]
  chosen_here x d (e ∷ es) vs same h rest =
      let only = full-is_only d e es (full-all_equal x d (e ∷ es) same h) in
      inl (
        subst (λ z. in_dims x z ≡ true) (sym (choose_one o laws domain d (e ∷ es) vs only))
          (or_intro _ _ (str_eq_comm x d true same)))

  -- A dimension whose values are all its whole domain is chosen, or has no values.
  chosen_or_none :
      (x : String) (vs : List (String × List Elem))
      → AllValues o (IsFull o laws domain x) vs
      → (in_dims x (dims_to_reduce o domain vs) ≡ true) ⊎ AllValues o (IsOther x) vs
  chosen_or_none x [] h = inr tt
  chosen_or_none x ((d, es) ∷ vs) h = elim (Bool-cases (str_eq x d)) [
    | inl same ↦ chosen_here x d es vs same h.0 (chosen_or_none x vs h.1)
    | inr other ↦ elim (chosen_or_none x vs h.1) [
      | inl i ↦ inl (further-in_dims x d es vs i)
      | inr a ↦ inr (any-AllOf o laws domain (IsOther x) d es (λ e. other), a)
    ]
  ]

  some_key :
      (x : String) (act : List String) (s : Cubes o)
      → in_dims x act ≡ true
      → IsWell o laws act s
      → has_cubes s ≡ true
      → KeysAt o (IsOther x) s
      → ⊥
  unfolding in_dims
  some_key x [] s i w h k = absurd (ground (arith, i))
  some_key x (d ∷ act) empty_interval i w h k = elim w [ ]
  some_key x (d ∷ act) (cubes ds nil) i w h k = cc
  some_key x (d ∷ act) (cubes ds (layer e s l)) i w h k =
      let k' : (str_eq x d ≡ false) × KeysAt o (IsOther x) s = go k in
      let other = str_eq_comm x d false k'.0 in
      some_key x act s (ground (arith, i, other)) w.1.2 w.1.3 k'.1
    where
      go :
          KeysAt o (IsOther x) (cubes ds (layer e s l))
          → (str_eq x d ≡ false) × KeysAt o (IsOther x) s
      go b = let b' = rw w.0 at b in (b'.0, b'.1)

  -- An active dimension of which all keys are the whole domain is chosen.
  pub full-chosen :
      (x : String) (act : List String) (s : Cubes o) (vs : List (String × List Elem))
      → in_dims x act ≡ true
      → IsWell o laws act s
      → has_cubes s ≡ true
      → AllValues o (IsFull o laws domain x) vs
      → (AllValues o (IsOther x) vs → KeysAt o (IsOther x) s)
      → in_dims x (dims_to_reduce o domain vs) ≡ true
  full-chosen x act s vs i w h a f = elim (chosen_or_none x vs a) [
    | inl chosen ↦ chosen
    | inr none ↦ absurd (some_key x act s i w h (f none))
  ]
