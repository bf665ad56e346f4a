-- ===== src/HyperCubes/Dimensions/Order.antt =====
-- Lists of dimensions: parts of a list in its order, and _get_dimensions_subset_by_order.
use Prim.Native.String.{String}
use text.Mathlib.Text.{◌==◌ as str_eq}
use text.Mathlib.TextEquality.{eq_iff}
use network_config_analyzer.Prelude.{
  ◌≡◌, refl, sym, subst, Bool, true, false, ◌||◌, List, [], ◌∷◌, ◌++◌, arith, Bool-cases, inl, inr,
  or_intro, or_intro_right,
}
use network_config_analyzer.HyperCubes.Dimensions.{in_dims, dims_subset, by_order}
use network_config_analyzer.HyperCubes.Dimensions.Build.{IsPart}

pub str_eq_comm : (a b : String) (v : Bool) → str_eq a b ≡ v → str_eq b a ≡ v
str_eq_comm a b true h = (eq_iff b a).1 (sym ((eq_iff a b).0 h))
str_eq_comm a b false h = elim (Bool-cases (str_eq b a)) [
  | inl same ↦
      let k : str_eq a b ≡ true = (eq_iff a b).1 (sym ((eq_iff b a).0 same)) in ground (arith, h, k)
  | inr other ↦ other
]

abbrev pub IsDistinct : List String → Type 0
IsDistinct [] = Unit {0}
IsDistinct (d ∷ ds) = (in_dims d ds ≡ false) × IsDistinct ds

pub in_dims-append :
    (x : String) (ds es : List String) → in_dims x (ds ++ es) ≡ (in_dims x ds || in_dims x es)
unfolding in_dims
in_dims-append x [] es = refl
in_dims-append x (d ∷ ds) es = ground (arith, in_dims-append x ds es)

pub in_dims-subset :
    (x : String) (ds es : List String)
    → dims_subset ds es ≡ true
    → in_dims x ds ≡ true
    → in_dims x es ≡ true
unfolding in_dims dims_subset
in_dims-subset x [] es h k = cc
in_dims-subset x (d ∷ ds) es h k = elim (Bool-cases (str_eq d x)) [
  | inl same ↦ let e : d ≡ x = (eq_iff d x).0 same in ground (arith, e)
  | inr other ↦ ground (arith, in_dims-subset x ds es)
]

pub by_order-same :
    (all ds es : List String)
    → ((x : String) → in_dims x ds ≡ in_dims x es)
    → by_order all ds ≡ by_order all es
unfolding by_order
by_order-same [] ds es h = refl
by_order-same (a ∷ all) ds es h = rw (h a, by_order-same all ds es h)

by_order-nil : (all : List String) → by_order all [] ≡ []
unfolding by_order in_dims
by_order-nil [] = refl
by_order-nil (a ∷ all) = by_order-nil all

pub IsPart-in_dims :
    (act all : List String) (x : String)
    → IsPart act all
    → in_dims x act ≡ true
    → in_dims x all ≡ true
unfolding in_dims
IsPart-in_dims [] all x h k = cc
IsPart-in_dims (d ∷ act) [] x h k = elim h [ ]
IsPart-in_dims (d ∷ act) (n ∷ all) x h k = elim (Bool-cases (str_eq d n)) [
  | inl same ↦
      let h' : IsPart act all = rw same at h in
      ground (arith, (eq_iff d n).0 same, IsPart-in_dims act all x h')
  | inr other ↦
      let h' : IsPart (d ∷ act) all = rw other at h in
      or_intro_right _ _ (IsPart-in_dims (d ∷ act) all x h' k)
]

pub IsPart-tail : (d : String) (act all : List String) → IsPart (d ∷ act) all → IsPart act all
IsPart-tail d act [] h = elim h [ ]
IsPart-tail d [] (n ∷ all) h = tt
IsPart-tail d (c ∷ act) (n ∷ all) h = elim (Bool-cases (str_eq d n)) [
  | inl same ↦
      let h' : IsPart (c ∷ act) all = rw same at h in
      elim (Bool-cases (str_eq c n)) [ inl e ↦ rw e (IsPart-tail c act all h') | inr e ↦ rw e h' ]
  | inr other ↦
      let h' : IsPart (c ∷ act) all = IsPart-tail d (c ∷ act) all (rw other at h) in
      elim (Bool-cases (str_eq c n)) [ inl e ↦ rw e (IsPart-tail c act all h') | inr e ↦ rw e h' ]
]

pub IsPart-cons : (n : String) (act all : List String) → IsPart act all → IsPart act (n ∷ all)
IsPart-cons n [] all h = tt
IsPart-cons n (c ∷ act) all h = elim (Bool-cases (str_eq c n)) [
  | inl e ↦ rw e (IsPart-tail c act all h)
  | inr e ↦ rw e h
]

pub IsPart-by_order : (all ds : List String) → IsPart (by_order all ds) all
unfolding by_order
IsPart-by_order [] ds = tt
IsPart-by_order (n ∷ all) ds = elim (Bool-cases (in_dims n ds)) [
  | inl e ↦ rw (e, (eq_iff n n).1 refl) (IsPart-by_order all ds)
  | inr e ↦ rw e (IsPart-cons n (by_order all ds) all (IsPart-by_order all ds))
]

in_head : (d n : String) (act : List String) → str_eq d n ≡ true → in_dims n (d ∷ act) ≡ true
unfolding in_dims
in_head d n act h = or_intro _ _ h

in_tail : (x d : String) (act : List String) → in_dims x act ≡ true → in_dims x (d ∷ act) ≡ true
unfolding in_dims
in_tail x d act h = or_intro_right _ _ h

-- A part whose dimensions are asked for is part of what is chosen.
pub IsPart-chosen :
    (act all ds : List String)
    → IsPart act all
    → ((x : String) → in_dims x act ≡ true → in_dims x ds ≡ true)
    → IsPart act (by_order all ds)
unfolding by_order
IsPart-chosen [] all ds h f = tt
IsPart-chosen (d ∷ act) [] ds h f = elim h [ ]
IsPart-chosen (d ∷ act) (n ∷ all) ds h f = elim (Bool-cases (str_eq d n)) [
  | inl same ↦
      let e : d ≡ n = (eq_iff d n).0 same in
      let chosen : in_dims n ds ≡ true = f n (in_head d n act same) in
      rw (chosen, same) (IsPart-chosen act all ds (rw same at h) (λ x k. f x (in_tail x d act k)))
  | inr other ↦
      let rest = IsPart-chosen (d ∷ act) all ds (rw other at h) f in
      elim (Bool-cases (in_dims n ds)) [ inl c ↦ rw (c, other) rest | inr c ↦ rw c rest ]
]

absent_head : (a d : String) (all : List String) → in_dims d (a ∷ all) ≡ false → str_eq d a ≡ false
unfolding in_dims
absent_head a d all h = elim (Bool-cases (str_eq d a)) [
  | inl same ↦
      let e : str_eq a d ≡ true = (eq_iff a d).1 (sym ((eq_iff d a).0 same)) in ground (arith, e)
  | inr other ↦ other
]

absent_tail :
    (a d : String) (all : List String) → in_dims d (a ∷ all) ≡ false → in_dims d all ≡ false
unfolding in_dims
absent_tail a d all h = ground arith

by_order_absent :
    (all ds : List String) (d : String)
    → in_dims d all ≡ false
    → by_order all (d ∷ ds) ≡ by_order all ds
unfolding by_order in_dims
by_order_absent [] ds d h = refl
by_order_absent (a ∷ all) ds d h =
    let other : str_eq d a ≡ false = absent_head a d all h in
    rw (other, by_order_absent all ds d (absent_tail a d all h))

-- A part of a list of distinct dimensions is what the list's order makes of it.
pub by_order-IsPart :
    (act all : List String) → IsPart act all → IsDistinct all → by_order all act ≡ act
unfolding by_order
by_order-IsPart [] [] h k = refl
by_order-IsPart (d ∷ act) [] h k = elim h [ ]
by_order-IsPart [] (n ∷ all) h k = by_order-nil (n ∷ all)
by_order-IsPart (d ∷ act) (n ∷ all) h k = elim (Bool-cases (str_eq d n)) [
  | inl same ↦
      let e : d ≡ n = (eq_iff d n).0 same in
      let rest = by_order-IsPart act all (rw same at h) k.1 in
      rw
        (
          in_head d n act same,
          by_order_absent all act d (subst (λ x. in_dims x all ≡ false) (sym e) k.0),
          rest,
          e,
        )
        refl
  | inr other ↦
      let h' : IsPart (d ∷ act) all = rw other at h in
      elim (Bool-cases (in_dims n (d ∷ act))) [
        | inl c ↦ let i = IsPart-in_dims (d ∷ act) all n h' c in ground (arith, i, k.0)
        | inr c ↦ rw c (by_order-IsPart (d ∷ act) all h' k.1)
      ]
]

pub in_dims-by_order :
    (all ds : List String) (x : String)
    → in_dims x all ≡ true
    → in_dims x ds ≡ true
    → in_dims x (by_order all ds) ≡ true
unfolding in_dims by_order
in_dims-by_order [] ds x h k = cc
in_dims-by_order (a ∷ all) ds x h k = elim (Bool-cases (str_eq a x)) [
  | inl same ↦
      let e : a ≡ x = (eq_iff a x).0 same in
      let chosen : in_dims a ds ≡ true = subst (λ z. in_dims z ds ≡ true) (sym e) k in
      rw chosen (or_intro _ _ same)
  | inr other ↦
      let rest = in_dims-by_order all ds x (ground (arith, h, other)) k in
      elim (Bool-cases (in_dims a ds)) [
        | inl c ↦ rw c (or_intro_right _ _ rest)
        | inr c ↦ rw c rest
      ]
]
