-- ===== src/HyperCubes/Reduce/Whole.antt =====
-- The dimensions that reduce_active_dimensions chooses have their whole domain as only key.
use Prim.Native.String.{String}
use text.Mathlib.Text.{◌==◌ as str_eq}
use text.Mathlib.TextEquality.{eq_iff}
use network_config_analyzer.Prelude.{
  ◌≤◌, ◌≡◌, refl, sym, subst, true, false, ◌||◌, List, [], ◌∷◌, length, arith, Bool-cases, inl, inr,
  or_intro, or_intro_right, and_left, and_right,
}
use network_config_analyzer.HyperCubes.Elem.{LayerElem, ElemLaws}
use network_config_analyzer.HyperCubes.Layers.{Cubes, Dict, nil, layer, cubes, empty_interval}
use network_config_analyzer.HyperCubes.Points.{IsWell, AreWell}
use network_config_analyzer.HyperCubes.Dimensions.{in_dims, by_order}
use network_config_analyzer.HyperCubes.Dimensions.Build.{IsPart}
use network_config_analyzer.HyperCubes.Dimensions.Order.{IsDistinct, IsPart-cons, IsPart-in_dims}
use network_config_analyzer.HyperCubes.Reduce.{dims_minus, all_equal, is_only, dims_to_reduce}
use network_config_analyzer.HyperCubes.Reduce.Free.{AllKeys, IsFree, AreFree}
use network_config_analyzer.HyperCubes.Reduce.Values.{
  AllOf, AllValues, value_dims, AreDistinct, KeysAt, LayersAt,
}

pub IsPart-dims_minus :
    (act all names : List String) → IsPart act all → IsPart (dims_minus act names) all
unfolding dims_minus
IsPart-dims_minus [] all names h = tt
IsPart-dims_minus (d ∷ act) [] names h = elim h [ ]
IsPart-dims_minus (d ∷ act) (n ∷ all) names h = elim (Bool-cases (str_eq d n)) [
  | inl same ↦
      let rest = IsPart-dims_minus act all names (rw same at h) in
      elim (Bool-cases (in_dims d names)) [
        | inl i ↦ rw i (IsPart-cons n (dims_minus act names) all rest)
        | inr i ↦ rw (i, same) rest
      ]
  | inr other ↦
      IsPart-cons n (dims_minus (d ∷ act) names) all
        (IsPart-dims_minus (d ∷ act) all names (rw other at h))
]

pub IsPart-self : (ds : List String) → IsPart ds ds
IsPart-self [] = tt
IsPart-self (d ∷ ds) = rw ((eq_iff d d).1 refl) (IsPart-self ds)

not_in :
    (x : String) (ds es : List String) → IsPart ds es → in_dims x es ≡ false → in_dims x ds ≡ false
not_in x ds es h k = elim (Bool-cases (in_dims x ds)) [
  | inl i ↦ let j = IsPart-in_dims ds es x h i in ground (arith, j, k)
  | inr i ↦ i
]

pub IsPart-IsDistinct : (act all : List String) → IsPart act all → IsDistinct all → IsDistinct act
IsPart-IsDistinct [] all h k = tt
IsPart-IsDistinct (d ∷ act) [] h k = elim h [ ]
IsPart-IsDistinct (d ∷ act) (n ∷ all) h k = elim (Bool-cases (str_eq d n)) [
  | inl same ↦
      let h' : IsPart act all = rw same at h in
      let e : n ≡ d = sym ((eq_iff d n).0 same) in
      (
        not_in d act all h' (subst (λ z. in_dims z all ≡ false) e k.0),
        IsPart-IsDistinct act all h' k.1,
      )
  | inr other ↦ IsPart-IsDistinct (d ∷ act) all (rw other at h) k.1
]

pub in_chosen :
    (all ds : List String) (x : String) → in_dims x (by_order all ds) ≡ true → in_dims x ds ≡ true
unfolding by_order in_dims
in_chosen [] ds x h = cc
in_chosen (a ∷ all) ds x h = elim (Bool-cases (in_dims a ds)) [
  | inl i ↦
      let h' : (str_eq a x || in_dims x (by_order all ds)) ≡ true = rw i at h in
      elim (Bool-cases (str_eq a x)) [
        | inl same ↦ subst (λ z. in_dims z ds ≡ true) ((eq_iff a x).0 same) i
        | inr other ↦ in_chosen all ds x (ground (arith, h', other))
      ]
  | inr i ↦ in_chosen all ds x (rw i at h)
]

pub same_length : (ds es : List String) → es ≡ ds → length ds ≤ length es
same_length ds es e = rw e (omega arith)

pub in_self : (x : String) (ds : List String) → in_dims x (x ∷ ds) ≡ true
unfolding in_dims
in_self x ds = or_intro _ _ ((eq_iff x x).1 refl)

in_kept :
    (act names new : List String) (x : String)
    → dims_minus act names ≡ x ∷ new
    → in_dims x act ≡ true
in_kept act names new x e =
    IsPart-in_dims (x ∷ new) act x
      (subst (λ z. IsPart z act) e (IsPart-dims_minus act act names (IsPart-self act)))
      (in_self x new)

module _ (o : LayerElem) (laws : ElemLaws o) (domain : String → o.Elem) where
  open o use {Elem}

  -- Each of the named dimensions has its whole domain as only key.
  abbrev pub Whole : List String → String → Elem → Type 0
  Whole names d e = in_dims d names ≡ true → e ≡ domain d

  AllKeys-LayersAt :
      (names : List String) (d : String) (l : Dict o)
      → in_dims d names ≡ true
      → LayersAt o (Whole names) d l
      → AllKeys o laws domain (domain d) l
  AllKeys-LayersAt names d nil i h = tt
  AllKeys-LayersAt names d (layer e s l) i h = (h.0 i, AllKeys-LayersAt names d l i h.2)

  layers_free :
      (act names new : List String) (d : String) (l : Dict o)
      → ((s : Cubes o)
          → IsWell o laws act s
          → KeysAt o (Whole names) s
          → IsFree o laws domain act new s)
      → AreWell o laws act l
      → LayersAt o (Whole names) d l
      → AreFree o laws domain act new l
  layers_free act names new d nil f w h = tt
  layers_free act names new d (layer e s l) f w h =
      (f s w.2 h.1, layers_free act names new d l f w.5 h.2)

  -- The first dimension goes.
  IsFree-gone :
      (act new ds : List String) (d : String) (l : Dict o)
      → ((x : String) (more : List String) → new ≡ x ∷ more → str_eq d x ≡ false)
      → AllKeys o laws domain (domain d) l
      → AreFree o laws domain act new l
      → IsFree o laws domain (d ∷ act) new (cubes ds l)
  IsFree-gone act [] ds d l f k w = (k, w)
  IsFree-gone act (x ∷ new) ds d l f k w = rw (f x new refl) (k, w)

  other_head :
      (act names more : List String) (d x : String)
      → in_dims d act ≡ false
      → dims_minus act names ≡ x ∷ more
      → str_eq d x ≡ false
  other_head act names more d x h e = elim (Bool-cases (str_eq d x)) [
    | inl same ↦
        let i : in_dims d act ≡ true =
          subst (λ z. in_dims z act ≡ true) (sym ((eq_iff d x).0 same))
            (in_kept act names more x e) in
        ground (arith, h, i)
    | inr other ↦ other
  ]

  -- An object of which the named dimensions have only their whole domain as key.
  pub Whole-IsFree :
      (act names : List String) (s : Cubes o)
      → IsDistinct act
      → IsWell o laws act s
      → KeysAt o (Whole names) s
      → IsFree o laws domain act (dims_minus act names) s
  unfolding dims_minus
  Whole-IsFree act names empty_interval k w h = tt
  Whole-IsFree [] names (cubes ds l) k w h = tt
  Whole-IsFree (d ∷ act) names (cubes ds l) k w h =
      let h' : LayersAt o (Whole names) d l = rw w.0 at h in
      let below =
        layers_free act names (dims_minus act names) d l (λ s. Whole-IsFree act names s k.1) w.1
          h' in
      elim (Bool-cases (in_dims d names)) [
        | inl i ↦ rw i (
            IsFree-gone act (dims_minus act names) ds d l
              (λ x more e. other_head act names more d x k.0 e) (AllKeys-LayersAt names d l i h')
              below)
        | inr i ↦ rw (i, (eq_iff d d).1 refl) below
      ]

  all_equal-AllOf :
      (Q : String → Elem → Type 0) (d : String) (g : Elem) (es : List Elem)
      → ((e : Elem) → e ≡ g → Q d e)
      → all_equal o g es ≡ true
      → AllOf o Q d es
  unfolding all_equal
  all_equal-AllOf Q d g [] f h = tt
  all_equal-AllOf Q d g (e ∷ es) f h = (
    f e (sym ((laws.eq_iff g e).0 (and_left _ _ h))),
    all_equal-AllOf Q d g es f (and_right _ _ h),
  )

  pub any-AllOf :
      (Q : String → Elem → Type 0) (d : String) (es : List Elem)
      → ((e : Elem) → Q d e)
      → AllOf o Q d es
  any-AllOf Q d [] f = tt
  any-AllOf Q d (e ∷ es) f = (f e, any-AllOf Q d es f)

  AllOf-weaken :
      (Q R : String → Elem → Type 0) (d : String) (es : List Elem)
      → ((e : Elem) → Q d e → R d e)
      → AllOf o Q d es
      → AllOf o R d es
  AllOf-weaken Q R d [] f h = tt
  AllOf-weaken Q R d (e ∷ es) f h = (f e h.0, AllOf-weaken Q R d es f h.1)

  pub AllValues-weaken :
      (Q R : String → Elem → Type 0) (vs : List (String × List Elem))
      → ((d : String) (e : Elem) → in_dims d (value_dims o vs) ≡ true → Q d e → R d e)
      → AllValues o Q vs
      → AllValues o R vs
  unfolding in_dims
  AllValues-weaken Q R [] f h = tt
  AllValues-weaken Q R ((d, es) ∷ vs) f h = (
    AllOf-weaken Q R d es (λ e. f d e (or_intro _ _ ((eq_iff d d).1 refl))) h.0,
    AllValues-weaken Q R vs (λ c e i. f c e (or_intro_right _ _ i)) h.1,
  )

  reduce_in_dims :
      (vs : List (String × List Elem)) (x : String)
      → in_dims x (dims_to_reduce o domain vs) ≡ true
      → in_dims x (value_dims o vs) ≡ true
  unfolding dims_to_reduce in_dims
  reduce_in_dims [] x h = cc
  reduce_in_dims ((d, es) ∷ vs) x h = elim (Bool-cases (is_only o (domain d) es)) [
    | inl only ↦
        let h' : (str_eq d x || in_dims x (dims_to_reduce o domain vs)) ≡ true = rw only at h in
        elim (Bool-cases (str_eq d x)) [
          | inl same ↦ or_intro _ _ same
          | inr other ↦ or_intro_right _ _ (reduce_in_dims vs x (ground (arith, h', other)))
        ]
    | inr more ↦ or_intro_right _ _ (reduce_in_dims vs x (rw more at h))
  ]

  absent :
      (c d : String) (ds : List String)
      → in_dims d ds ≡ false
      → in_dims c ds ≡ true
      → str_eq d c ≡ false
  absent c d ds h k = elim (Bool-cases (str_eq d c)) [
    | inl same ↦
        let i : in_dims d ds ≡ true =
          subst (λ z. in_dims z ds ≡ true) (sym ((eq_iff d c).0 same)) k in
        ground (arith, h, i)
    | inr other ↦ other
  ]

  pub choose_one :
      (d : String) (es : List Elem) (vs : List (String × List Elem))
      → is_only o (domain d) es ≡ true
      → dims_to_reduce o domain ((d, es) ∷ vs) ≡ d ∷ dims_to_reduce o domain vs
  unfolding dims_to_reduce
  choose_one d es vs h = rw h refl

  skip_one :
      (d : String) (es : List Elem) (vs : List (String × List Elem))
      → is_only o (domain d) es ≡ false
      → dims_to_reduce o domain ((d, es) ∷ vs) ≡ dims_to_reduce o domain vs
  unfolding dims_to_reduce
  skip_one d es vs h = rw h refl

  only_equal :
      (d : String) (es : List Elem)
      → is_only o (domain d) es ≡ true
      → all_equal o (domain d) es ≡ true
  unfolding is_only
  only_equal d es h = and_right _ _ h

  tail_Whole :
      (names : List String) (c d : String) (e : Elem)
      → str_eq d c ≡ false
      → Whole names c e
      → Whole (d ∷ names) c e
  unfolding in_dims
  tail_Whole names c d e h q k = q (ground (arith, k, h))

  -- The dimensions that are chosen have only their whole domain among their values.
  pub chosen-Whole :
      (vs : List (String × List Elem))
      → AreDistinct o vs
      → AllValues o (Whole (dims_to_reduce o domain vs)) vs
  chosen-Whole [] h = tt
  chosen-Whole ((d, es) ∷ vs) h =
      let rest = chosen-Whole vs h.1 in
      let names = dims_to_reduce o domain vs in
      let At = λ (z : List String). AllOf o (Whole z) d es × AllValues o (Whole z) vs in
      elim (Bool-cases (is_only o (domain d) es)) [
        | inl only ↦ subst At (sym (choose_one d es vs only)) (
          all_equal-AllOf (Whole (d ∷ names)) d (domain d) es (λ e p i. p) (only_equal d es only),
          AllValues-weaken (Whole names) (Whole (d ∷ names)) vs
              (λ c e i q. tail_Whole names c d e (absent c d (value_dims o vs) h.0 i) q) rest,
        )
        | inr more ↦ subst At (sym (skip_one d es vs more)) (
          any-AllOf (Whole names) d es (λ e i. absurd (ground (arith, reduce_in_dims vs d i, h.0))),
          rest,
        )
      ]
