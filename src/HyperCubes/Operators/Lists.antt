-- ===== src/HyperCubes/Operators/Lists.antt =====
-- Membership in the lists of dimensions that _prepare_common_active_dimensions joins.
use Prim.Native.String.{String}
use network_config_analyzer.Prelude.{
  ◌≡◌, sym, ◌∙◌, Bool, true, ◌||◌, List, ◌++◌, arith, Bool-cases, inl, inr, and_left, and_right,
}
use network_config_analyzer.HyperCubes.Dimensions.{in_dims, dims_subset, same_dims}
use network_config_analyzer.HyperCubes.Dimensions.Order.{in_dims-append, in_dims-subset}

-- The names of the second list are active already.
pub common-subset :
    (act names : List String) (x : String)
    → dims_subset names act ≡ true
    → in_dims x (act ++ names) ≡ in_dims x act
common-subset act names x h = elim (Bool-cases (in_dims x names)) [
  | inl i ↦ in_dims-append x act names ∙ ground (arith, i, in_dims-subset x names act h i)
  | inr i ↦ in_dims-append x act names ∙ ground (arith, i)
]

pub in_left : (x : String) (ds es : List String) → in_dims x ds ≡ true → in_dims x (ds ++ es) ≡ true
in_left x ds es h = in_dims-append x ds es ∙ ground (arith, h)

pub in_right :
    (x : String) (ds es : List String) → in_dims x es ≡ true → in_dims x (ds ++ es) ≡ true
in_right x ds es h = in_dims-append x ds es ∙ ground (arith, h)

or_self : (b : Bool) → (b || b) ≡ b
or_self b = ground arith

pub first_of_equals :
    (x : String) (ds es : List String) → ds ≡ es → in_dims x ds ≡ in_dims x (ds ++ es)
first_of_equals x ds es e = sym (in_dims-append x ds es ∙ rw e (or_self _))

pub second_of_equals :
    (x : String) (ds es : List String) → ds ≡ es → in_dims x es ≡ in_dims x (ds ++ es)
second_of_equals x ds es e = sym (in_dims-append x ds es ∙ rw e (or_self _))

iff_same : (a b : Bool) → (a ≡ true → b ≡ true) → (b ≡ true → a ≡ true) → a ≡ b
iff_same a b f g = ground arith

pub in_same :
    (x : String) (ds es : List String) → same_dims ds es ≡ true → in_dims x ds ≡ in_dims x es
unfolding same_dims
in_same x ds es h =
    iff_same _ _ (in_dims-subset x ds es (and_left _ _ h))
      (in_dims-subset x es ds (and_right _ _ h))
