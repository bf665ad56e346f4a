-- ===== src/Examples/Operators.antt =====
-- `&=`, `|=`, `-=` and reduce_active_dimensions on sets over interval sets with different active
-- dimensions.
use Prim.Native.String.{String}
use network_config_analyzer.Prelude.{
  none, ℕ, ◌≡◌, refl, true, false, List, [], ◌∷◌, ◌&&◌, ◌||◌, not, arith,
}
use network_config_analyzer.Prelude.Outcome.{ok}
use network_config_analyzer.Intervals.Canonical.{IntervalSet}
use network_config_analyzer.Intervals.Interval
use network_config_analyzer.Intervals.Add
use network_config_analyzer.Intervals.Sets
use network_config_analyzer.HyperCubes.IntervalElem.{interval_elem, interval_laws}
use network_config_analyzer.HyperCubes.Layers.{
  Cubes, Dict, cubes, layer, nil, empty_interval, is_true,
}
use network_config_analyzer.HyperCubes.Layers
use network_config_analyzer.HyperCubes.Points.{IsWell, Point, sat}
use network_config_analyzer.HyperCubes.Dimensions.Build.{AreDomains, InDomains}
use network_config_analyzer.HyperCubes.Dimensions.Order.{IsDistinct}
use network_config_analyzer.HyperCubes.Dimensions.{by_order}
use network_config_analyzer.HyperCubes.Operators.{active, is_all, prepare_common_active_dimensions}
use network_config_analyzer.HyperCubes.Operators.Active.{
  Becomes, prepare_common_active_dimensions-ok,
}
use network_config_analyzer.HyperCubes.Reduce.{
  reduce_active_dimensions, remove_some_active_dimensions,
}
use network_config_analyzer.HyperCubes.Reduce.Result.{Reduces, reduce_active_dimensions-ok}
use network_config_analyzer.HyperCubes.Reduce.Remove.{Removes, remove_some_active_dimensions-ok}
use network_config_analyzer.HyperCubes.SingleCube.{create_from_cube, add_cube, dims_or_first}
use network_config_analyzer.HyperCubes.SingleCube.Points.{
  IsCube, IsCubeOf, cube_holds, create_from_cube-ok, add_cube-ok,
}
use network_config_analyzer.HyperCubes.InPlace.{and_set, or_set, sub_set}
use network_config_analyzer.HyperCubes.InPlace.Ending.{Computes, IsCubeSet}
use network_config_analyzer.HyperCubes.InPlace.Points.{and_set-ok, or_set-ok, sub_set-ok}

abbrev range : ℕ → ℕ → IntervalSet
range start end = record { start = start; end = end } ∷ []

abbrev all_dims : List String
all_dims = "src_ports" ∷ "dst_ports" ∷ "methods" ∷ []

abbrev ports_domain : String → IntervalSet
ports_domain d = range 1 65535

-- Source ports 1-80, and destination port 443.
abbrev low_sources : Cubes interval_elem
low_sources = cubes ("src_ports" ∷ []) (layer (range 1 80) empty_interval nil)

abbrev secure : Dict interval_elem
secure = layer (range 443 443) empty_interval nil

abbrev secure_targets : Cubes interval_elem
secure_targets = cubes ("dst_ports" ∷ []) secure

-- The callees of the operators.
callees : Unit {0}
unfolding Sets.intersection Sets.difference Sets.is_nonempty Sets.set_eq Sets.contained_in Add.union
    active prepare_common_active_dimensions reduce_active_dimensions and_set or_set sub_set
    Interval.meet Interval.minus Interval.overlaps Interval.touches is_true Layers.sub_eq
    remove_some_active_dimensions create_from_cube add_cube dims_or_first
callees = tt

and_set_runs :
    and_set interval_elem ports_domain all_dims low_sources secure_targets
    ≡ ok (cubes ("src_ports" ∷ "dst_ports" ∷ []) (layer (range 1 80) secure_targets nil))
unfolding callees
and_set_runs = refl

or_set_runs :
    or_set interval_elem ports_domain all_dims low_sources secure_targets
    ≡ ok (
        cubes ("src_ports" ∷ "dst_ports" ∷ []) (
          layer
            (range 1 80)
            (cubes ("dst_ports" ∷ []) (layer (range 1 65535) empty_interval nil))
            (layer (range 81 65535) secure_targets nil)))
unfolding callees
or_set_runs = refl

-- The difference is reduced to one dimension.
sub_set_runs :
    sub_set interval_elem ports_domain all_dims low_sources
      (cubes ("src_ports" ∷ []) (layer (range 10 20) empty_interval nil))
    ≡ ok (
        cubes
          ("src_ports" ∷ [])
          (layer (record { start = 1; end = 9 } ∷ range 21 80) empty_interval nil))
unfolding callees
sub_set_runs = refl

-- An empty set over the destination ports, less some source ports: what is left counts as true.
empty_minus_runs :
    sub_set interval_elem ports_domain all_dims (cubes ("dst_ports" ∷ []) nil) low_sources
    ≡ ok (
        cubes
          ("src_ports" ∷ "dst_ports" ∷ [])
          (layer (range 81 65535) (cubes ("dst_ports" ∷ []) nil) nil))
unfolding callees
empty_minus_runs = refl

ports_domain-AreDomains : AreDomains interval_elem interval_laws ports_domain
unfolding callees
ports_domain-AreDomains d = (omega arith, refl)

all_dims-IsDistinct : IsDistinct all_dims
unfolding callees
all_dims-IsDistinct = (refl, (refl, (refl, tt)))

low_sources-IsCubeSet : IsCubeSet interval_elem interval_laws ports_domain all_dims low_sources
unfolding callees
low_sources-IsCubeSet = (tt, (omega arith, refl, tt, refl, (λ v h. refl), tt))

secure_targets-IsCubeSet :
    IsCubeSet interval_elem interval_laws ports_domain all_dims secure_targets
unfolding callees
secure_targets-IsCubeSet = (tt, (omega arith, refl, tt, refl, (λ v h. refl), tt))

low_sources-IsWell : IsWell interval_elem interval_laws ("src_ports" ∷ []) low_sources
unfolding callees
low_sources-IsWell = (refl, (omega arith, refl, tt, refl, (λ v h. refl), tt))

secure_targets-IsWell : IsWell interval_elem interval_laws ("dst_ports" ∷ []) secure_targets
unfolding callees
secure_targets-IsWell = (refl, (omega arith, refl, tt, refl, (λ v h. refl), tt))

is_true_low : is_true interval_elem low_sources ≡ true
unfolding callees
is_true_low = refl

some_targets : is_all interval_elem secure_targets ≡ false
unfolding callees
some_targets = refl

and_set-ok_example :
    Computes interval_elem interval_laws ports_domain all_dims
      (λ a b. a && b)
      low_sources
      secure_targets
      (and_set interval_elem ports_domain all_dims low_sources secure_targets)
and_set-ok_example =
    and_set-ok interval_elem interval_laws ports_domain all_dims ports_domain-AreDomains
      all_dims-IsDistinct low_sources secure_targets low_sources-IsCubeSet secure_targets-IsCubeSet

or_set-ok_example :
    Computes interval_elem interval_laws ports_domain all_dims
      (λ a b. a || b)
      low_sources
      secure_targets
      (or_set interval_elem ports_domain all_dims low_sources secure_targets)
or_set-ok_example =
    or_set-ok interval_elem interval_laws ports_domain all_dims ports_domain-AreDomains
      all_dims-IsDistinct low_sources secure_targets low_sources-IsCubeSet secure_targets-IsCubeSet

sub_set-ok_example :
    Computes interval_elem interval_laws ports_domain all_dims
      (λ a b. a && not b)
      low_sources
      secure_targets
      (sub_set interval_elem ports_domain all_dims low_sources secure_targets)
sub_set-ok_example =
    sub_set-ok interval_elem interval_laws ports_domain all_dims ports_domain-AreDomains
      all_dims-IsDistinct low_sources secure_targets low_sources-IsCubeSet secure_targets-IsCubeSet
      is_true_low some_targets

prepare_common_active_dimensions-ok_example :
    (s t : Cubes interval_elem) × (prepare_common_active_dimensions interval_elem ports_domain
        all_dims low_sources secure_targets
      ≡ ok (s, t))
    × Becomes interval_elem interval_laws ports_domain all_dims
        (by_order all_dims ("src_ports" ∷ "dst_ports" ∷ []))
        low_sources
        s
    × Becomes interval_elem interval_laws ports_domain all_dims
        (by_order all_dims ("src_ports" ∷ "dst_ports" ∷ []))
        secure_targets
        t
unfolding callees
prepare_common_active_dimensions-ok_example =
    prepare_common_active_dimensions-ok interval_elem interval_laws ports_domain all_dims
      ports_domain-AreDomains all_dims-IsDistinct low_sources secure_targets tt tt
      (low_sources-IsWell, refl) (secure_targets-IsWell, refl)

-- All destination ports, from the low source ports.
abbrev wide : Cubes interval_elem
wide =
    cubes ("src_ports" ∷ "dst_ports" ∷ [])
      (layer (range 1 80) (cubes ("dst_ports" ∷ []) (layer (range 1 65535) empty_interval nil)) nil)

wide-IsWell : IsWell interval_elem interval_laws ("src_ports" ∷ "dst_ports" ∷ []) wide
unfolding callees
wide-IsWell = (
  refl,
  (
    omega arith,
    refl,
    (refl, (omega arith, refl, tt, refl, (λ v h. refl), tt)),
    refl,
    (λ v h. refl),
    tt,
  ),
)

wide_runs : reduce_active_dimensions interval_elem ports_domain all_dims wide ≡ ok low_sources
unfolding callees
wide_runs = refl

reduce_active_dimensions-ok_example :
    (r : Cubes interval_elem) × (reduce_active_dimensions interval_elem ports_domain all_dims wide
      ≡ ok r)
    × Reduces interval_elem interval_laws ports_domain all_dims all_dims-IsDistinct wide r
unfolding callees
reduce_active_dimensions-ok_example =
    reduce_active_dimensions-ok interval_elem interval_laws ports_domain all_dims
      all_dims-IsDistinct wide tt (wide-IsWell, refl)

remove_some_active_dimensions-ok_example :
    Removes interval_elem interval_laws ports_domain 2
      ("src_ports" ∷ "dst_ports" ∷ [])
      ("src_ports" ∷ [])
      wide
unfolding callees
remove_some_active_dimensions-ok_example =
    remove_some_active_dimensions-ok interval_elem interval_laws ports_domain 2
      ("src_ports" ∷ "dst_ports" ∷ []) [] "src_ports" wide (omega arith) tt wide-IsWell refl
      (((refl, tt), (tt, tt)), tt)

-- Source ports 1-80 to destination port 443, over all methods: the whole domain is left out.
abbrev web : List IntervalSet
web = range 1 80 ∷ range 443 443 ∷ range 1 65535 ∷ []

web-IsCube : IsCube interval_elem interval_laws ports_domain web all_dims
unfolding callees
web-IsCube = (omega arith, (omega arith, (omega arith, tt)))

web_runs :
    create_from_cube interval_elem ports_domain all_dims web all_dims
    ≡ ok (cubes ("src_ports" ∷ "dst_ports" ∷ []) (layer (range 1 80) secure_targets nil))
unfolding callees
web_runs = refl

create_from_cube-ok_example :
    (r : Cubes interval_elem) × (create_from_cube interval_elem ports_domain all_dims web all_dims
      ≡ ok r)
    × IsCubeOf interval_elem interval_laws ports_domain all_dims all_dims-IsDistinct web all_dims r
create_from_cube-ok_example =
    create_from_cube-ok interval_elem interval_laws ports_domain all_dims all_dims-IsDistinct
      (range 1 80) (range 443 443 ∷ range 1 65535 ∷ []) "src_ports" ("dst_ports" ∷ "methods" ∷ [])
      web-IsCube tt

add_cube-ok_example :
    (r : Cubes interval_elem) × (add_cube interval_elem ports_domain all_dims secure_targets web
        none
      ≡ ok r)
    × IsCubeSet interval_elem interval_laws ports_domain all_dims r
    × ((at : Point interval_elem interval_laws)
        → InDomains interval_elem interval_laws ports_domain at all_dims
        → sat interval_elem interval_laws at r ≡ (
            sat interval_elem interval_laws at secure_targets
            || cube_holds interval_elem interval_laws ports_domain at web all_dims))
unfolding callees
add_cube-ok_example =
    add_cube-ok interval_elem interval_laws ports_domain all_dims all_dims-IsDistinct
      ports_domain-AreDomains secure_targets (range 1 80) (range 443 443 ∷ range 1 65535 ∷ []) none
      "src_ports" ("dst_ports" ∷ "methods" ∷ []) secure_targets-IsCubeSet refl web-IsCube tt
