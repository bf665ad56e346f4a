-- ===== src/HyperCubes/IntervalElem.antt =====
-- CanonicalIntervalSet as the values of a dimension: the laws that the hyper-cubes need.
use network_config_analyzer.Prelude.{ℕ, ◌≡◌, refl, true, false, [], ◌∷◌, arith}
use network_config_analyzer.HyperCubes.Elem.{LayerElem, ElemLaws}
use network_config_analyzer.Intervals.Canonical.{IntervalSet, IsCanonical, covers}
use network_config_analyzer.Intervals.Add
use network_config_analyzer.Intervals.Add.Union.{union-IsCanonical}
use network_config_analyzer.Intervals.Sets
use network_config_analyzer.Intervals.Sets.Difference.{difference-IsCanonical, covers-difference}
use network_config_analyzer.Intervals.Sets.Intersection.{
  intersection-IsCanonical, covers-intersection,
}
use network_config_analyzer.Intervals.Sets.Containment.{contained_in_iff, contains-covers}
use network_config_analyzer.Intervals.Sets.Equality.{set_eq_iff, canonical_unique}

abbrev pub interval_elem : LayerElem
interval_elem = record {
  Elem = IntervalSet;
  Value = ℕ;
  nonempty = Sets.is_nonempty;
  elem_eq = Sets.set_eq;
  contains = Sets.contains;
  meet = Sets.intersection;
  minus = Sets.difference;
  join = Add.union;
  contained_in = Sets.contained_in;
}

pub nonempty-point :
    (xs : IntervalSet)
    → IsCanonical xs
    → Sets.is_nonempty xs ≡ true
    → (n : ℕ) × (covers xs n ≡ true)
unfolding Sets.is_nonempty
nonempty-point [] c h = cc
nonempty-point (i ∷ xs) c h = (i.start, ground arith)

pub empty-covers : (xs : IntervalSet) (n : ℕ) → Sets.is_nonempty xs ≡ false → covers xs n ≡ false
unfolding Sets.is_nonempty
empty-covers [] n h = refl
empty-covers (i ∷ xs) n h = cc

abbrev pub interval_laws : ElemLaws interval_elem
interval_laws = record {
  IsValid = IsCanonical;
  holds = covers;
  eq_iff = set_eq_iff;
  contains-holds = contains-covers;
  nonempty-value = nonempty-point;
  empty-holds = empty-covers;
  meet-IsValid = λ xs ys c d. (intersection-IsCanonical xs ys c d).0;
  holds-meet = covers-intersection;
  minus-IsValid = λ xs ys c d. (difference-IsCanonical xs ys c d).0;
  holds-minus = covers-difference;
  join-ok = union-IsCanonical;
  ext = λ xs ys c d same. canonical_unique 0 0 xs ys c d same;
  contained_in-ok = contained_in_iff;
}
