-- ===== src/Examples/HyperCubes.antt =====
-- CanonicalHyperCubeCubeSet over interval sets, on concrete cubes.
use Prim.Native.String.{String}
use network_config_analyzer.Prelude.{
  ℕ, ◌≡◌, refl, Bool, true, List, [], ◌∷◌, ◌&&◌, ◌||◌, not, arith,
}
use network_config_analyzer.Prelude.Outcome.{ok}
use network_config_analyzer.Intervals.Canonical.{IntervalSet}
use network_config_analyzer.Intervals.Interval
use network_config_analyzer.Intervals.Add
use network_config_analyzer.Intervals.Sets
use network_config_analyzer.HyperCubes.IntervalElem.{interval_elem, interval_laws}
use network_config_analyzer.HyperCubes.Layers.{
  Cubes, Dict, cubes, layer, nil, empty_interval, sub_eq,
}
use network_config_analyzer.HyperCubes.Layers.Equality.{sub_eq-sat}
use network_config_analyzer.HyperCubes.Points.{
  Point, sat, sat_layers, keys_hold, IsWell, AreWell, has_cubes,
}
use network_config_analyzer.HyperCubes.Union.{apply_union}
use network_config_analyzer.HyperCubes.Union.Merged.{IsMerged}
use network_config_analyzer.HyperCubes.Union.Points.{apply_union-ok}
use network_config_analyzer.HyperCubes.Combine.{and_aux, or_aux, sub_aux}
use network_config_analyzer.HyperCubes.Combine.And.{and_aux-ok}
use network_config_analyzer.HyperCubes.Combine.Or.{or_aux-ok}
use network_config_analyzer.HyperCubes.Combine.Minus.{sub_aux-ok}
use network_config_analyzer.HyperCubes.Dimensions.{build_new_active_dimensions}
use network_config_analyzer.HyperCubes.Dimensions.Build.{AreDomains, Builds, build-ok}

abbrev range : ℕ → ℕ → IntervalSet
range start end = record { start = start; end = end } ∷ []

abbrev CubeSet : Type 0
CubeSet = Cubes interval_elem

abbrev dims : List String
dims = "dst_ports" ∷ "methods" ∷ []

-- Ports 1-80 with methods 0-3, and ports 81-443 with methods 2-8.
abbrev low : Dict interval_elem
low = layer (range 2 8) empty_interval nil

abbrev first : CubeSet
first =
    cubes dims
      (layer (range 1 80) (cubes ("methods" ∷ []) (layer (range 0 3) empty_interval nil)) nil)

abbrev second : CubeSet
second = cubes dims (layer (range 50 443) (cubes ("methods" ∷ []) low) nil)

-- The callees of the operators on interval sets.
program : Unit {0}
unfolding Sets.intersection Sets.difference Sets.is_nonempty Sets.set_eq Sets.contained_in Add.union
    and_aux or_aux sub_aux apply_union sub_eq build_new_active_dimensions Interval.meet
    Interval.minus Interval.overlaps Interval.touches
program = tt

and_runs :
    and_aux interval_elem first second
    ≡ ok (
        cubes dims
          (layer (range 50 80) (cubes ("methods" ∷ []) (layer (range 2 3) empty_interval nil)) nil))
unfolding program
and_runs = refl

or_runs :
    or_aux interval_elem first second
    ≡ ok (
        cubes dims (
          layer (range 50 80) (cubes ("methods" ∷ []) (layer (range 0 8) empty_interval nil)) (
            layer
              (range 1 49)
              (cubes ("methods" ∷ []) (layer (range 0 3) empty_interval nil))
              (layer (range 81 443) (cubes ("methods" ∷ []) low) nil))))
unfolding program
or_runs = refl

sub_runs :
    sub_aux interval_elem first second
    ≡ ok (
        cubes dims (
          layer (range 50 80) (cubes ("methods" ∷ []) (layer (range 0 1) empty_interval nil)) (
            layer
              (range 1 49)
              (cubes ("methods" ∷ []) (layer (range 0 3) empty_interval nil))
              nil)))
unfolding program
sub_runs = refl

first-IsWell : IsWell interval_elem interval_laws dims first
unfolding program
first-IsWell = (
  refl,
  (
    omega arith,
    refl,
    (refl, (omega arith, refl, tt, refl, (λ v h. refl), tt)),
    refl,
    (λ v h. refl),
    tt,
  ),
)

second-IsWell : IsWell interval_elem interval_laws dims second
unfolding program
second-IsWell = (
  refl,
  (
    omega arith,
    refl,
    (refl, (omega arith, refl, tt, refl, (λ v h. refl), tt)),
    refl,
    (λ v h. refl),
    tt,
  ),
)

abbrev values_of : CubeSet → Point interval_elem interval_laws → Bool
values_of s at = sat interval_elem interval_laws at s

and_aux-ok_example :
    (n : CubeSet) × (and_aux interval_elem first second ≡ ok n)
    × IsWell interval_elem interval_laws dims n
    × ((at : Point interval_elem interval_laws)
        → values_of n at ≡ (values_of first at && values_of second at))
and_aux-ok_example =
    and_aux-ok interval_elem interval_laws "dst_ports" ("methods" ∷ []) first second first-IsWell
      second-IsWell

or_aux-ok_example :
    (n : CubeSet) × (or_aux interval_elem first second ≡ ok n)
    × IsWell interval_elem interval_laws dims n
    × (has_cubes n ≡ true)
    × ((at : Point interval_elem interval_laws)
        → values_of n at ≡ (values_of first at || values_of second at))
or_aux-ok_example =
    or_aux-ok interval_elem interval_laws "dst_ports" ("methods" ∷ []) first second first-IsWell
      second-IsWell refl

sub_aux-ok_example :
    (n : CubeSet) × (sub_aux interval_elem first second ≡ ok n)
    × IsWell interval_elem interval_laws dims n
    × ((at : Point interval_elem interval_laws)
        → values_of n at ≡ (values_of first at && not (values_of second at)))
sub_aux-ok_example =
    sub_aux-ok interval_elem interval_laws "dst_ports" ("methods" ∷ []) first second first-IsWell
      second-IsWell

-- The same two layers in two orders.
abbrev forth : CubeSet
forth =
    cubes ("dst_ports" ∷ [])
      (layer (range 1 5) empty_interval (layer (range 9 9) empty_interval nil))

abbrev back : CubeSet
back =
    cubes ("dst_ports" ∷ [])
      (layer (range 9 9) empty_interval (layer (range 1 5) empty_interval nil))

forth-IsWell : IsWell interval_elem interval_laws ("dst_ports" ∷ []) forth
unfolding program
forth-IsWell = (
  refl,
  (
    omega arith,
    refl,
    tt,
    refl,
    (λ v h. ground arith),
    (omega arith, refl, tt, refl, (λ v h. refl), tt),
  ),
)

back-IsWell : IsWell interval_elem interval_laws ("dst_ports" ∷ []) back
unfolding program
back-IsWell = (
  refl,
  (
    omega arith,
    refl,
    tt,
    refl,
    (λ v h. ground arith),
    (omega arith, refl, tt, refl, (λ v h. refl), tt),
  ),
)

forth-eq : sub_eq interval_elem forth back ≡ true
unfolding program
forth-eq = refl

abbrev nines : Point interval_elem interval_laws
nines = λ d. 9

sub_eq-sat_example : values_of forth nines ≡ values_of back nines
sub_eq-sat_example =
    sub_eq-sat interval_elem interval_laws forth back ("dst_ports" ∷ []) ("dst_ports" ∷ []) nines
      forth-IsWell back-IsWell forth-eq

-- Two keys over the same sub-cube.
abbrev twice : Dict interval_elem
twice = layer (range 1 80) empty_interval (layer (range 81 443) empty_interval nil)

twice-AreWell : AreWell interval_elem interval_laws [] twice
unfolding program
twice-AreWell = (
  omega arith,
  refl,
  tt,
  refl,
  (λ v h. ground arith),
  (omega arith, refl, tt, refl, (λ v h. refl), tt),
)

apply_union_runs : apply_union interval_elem twice ≡ ok (layer (range 1 443) empty_interval nil)
unfolding program
apply_union_runs = refl

apply_union-ok_example :
    (r : Dict interval_elem) × (apply_union interval_elem twice ≡ ok r)
    × AreWell interval_elem interval_laws [] r
    × ((v : ℕ)
        → keys_hold interval_elem interval_laws r v ≡ keys_hold interval_elem interval_laws twice v)
    × ((at : Point interval_elem interval_laws) (v : ℕ)
        → sat_layers interval_elem interval_laws at v r
          ≡ sat_layers interval_elem interval_laws at v twice)
    × IsMerged interval_elem r
apply_union-ok_example = apply_union-ok interval_elem interval_laws [] twice twice-AreWell

-- Every dimension with the domain of the ports.
abbrev ports_domain : String → IntervalSet
ports_domain d = range 1 65535

ports_domain-AreDomains : AreDomains interval_elem interval_laws ports_domain
unfolding program
ports_domain-AreDomains d = (omega arith, refl)

build-ok_example :
    Builds interval_elem interval_laws ports_domain ports_domain-AreDomains
      ("src_ports" ∷ "dst_ports" ∷ "methods" ∷ [])
      forth
build-ok_example =
    build-ok interval_elem interval_laws ports_domain ports_domain-AreDomains
      ("src_ports" ∷ "dst_ports" ∷ "methods" ∷ []) [] "dst_ports" forth tt forth-IsWell refl

build_runs :
    build_new_active_dimensions interval_elem ports_domain ("src_ports" ∷ "dst_ports" ∷ []) forth
    ≡ ok (cubes ("src_ports" ∷ "dst_ports" ∷ []) (layer (range 1 65535) forth nil))
unfolding program
build_runs = refl
