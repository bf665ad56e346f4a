-- ===== src/Values/Ports.antt =====
-- PortSet: port numbers, and the names of ports that are included or excluded. A set of names is a list.
pub mod Names
use Prim.Native.String.{String}
use text.Mathlib.Text.{◌==◌ as str_eq}
use network_config_analyzer.Prelude.{
  ℕ, Bool, true, false, not, ◌&&◌, ◌||◌, List, [], ◌∷◌, ◌++◌, if◌then◌else◌,
}
use network_config_analyzer.Prelude.Outcome.{Outcome, ok, ◌>>=◌}
use network_config_analyzer.Intervals.Canonical.{IntervalSet}
use network_config_analyzer.Intervals.Add.{add_interval, union_in_place}
use network_config_analyzer.Intervals.Sets.{add_hole, difference_in_place, is_nonempty, set_eq}

pub record PortSet : Type 0 where
  pub port_set : IntervalSet
  pub named_ports : List String
  pub excluded_named_ports : List String

-- `name in names`
unfoldable pub in_names : String → List String → Bool
in_names name [] = false
in_names name (other ∷ names) = str_eq name other || in_names name names

-- `names.discard(name)`
unfoldable pub discard : String → List String → List String
discard name [] = []
discard name (other ∷ names) =
    let rest = discard name names in if str_eq name other then rest else other ∷ rest

-- `names -= others`
unfoldable pub minus_names : List String → List String → List String
unfolding in_names
minus_names [] others = []
minus_names (name ∷ names) others =
    let rest = minus_names names others in if in_names name others then rest else name ∷ rest

unfoldable pub names_within : List String → List String → Bool
unfolding in_names
names_within [] others = true
names_within (name ∷ names) others = in_names name others && names_within names others

-- PortSet(all_ports); the domain of ports, which DimensionsManager has, is a parameter.
unfoldable pub new_ports : IntervalSet → Bool → PortSet
new_ports all_ports_interval all_ports = record {
  port_set = if all_ports then all_ports_interval else [];
  named_ports = [];
  excluded_named_ports = [];
}

unfoldable pub ports_eq : PortSet → PortSet → Bool
unfolding names_within set_eq
ports_eq s t =
    set_eq s.port_set t.port_set
    && (names_within s.named_ports t.named_ports && names_within t.named_ports s.named_ports)
    && (names_within s.excluded_named_ports t.excluded_named_ports
        && names_within t.excluded_named_ports s.excluded_named_ports)

unfoldable pub is_no_names : List String → Bool
is_no_names [] = true
is_no_names (name ∷ names) = false

-- `bool(self)`
unfoldable pub has_ports : PortSet → Bool
unfolding is_nonempty is_no_names
has_ports s = is_nonempty s.port_set || not (is_no_names s.named_ports)

-- add_port of a name
unfoldable pub add_named_port : String → PortSet → PortSet
unfolding discard
add_named_port port s = record s {
  named_ports = port ∷ s.named_ports;
  excluded_named_ports = discard port s.excluded_named_ports;
}

-- add_port of a number
unfoldable pub add_port : ℕ → PortSet → Outcome PortSet
unfolding add_interval
add_port port s = add_interval s.port_set (record { start = port; end = port }) >>= λ ports.
    ok (record s { port_set = ports })

unfoldable pub add_ports : IntervalSet → PortSet → Outcome PortSet
unfolding union_in_place
add_ports ports s = union_in_place s.port_set ports >>= λ all. ok (record s { port_set = all })

-- remove_port of a name
unfoldable pub remove_named_port : String → PortSet → PortSet
unfolding discard
remove_named_port port s = record s {
  named_ports = discard port s.named_ports;
  excluded_named_ports = port ∷ s.excluded_named_ports;
}

-- remove_port of a number
unfoldable pub remove_port : ℕ → PortSet → PortSet
unfolding add_hole
remove_port port s = record s {
  port_set = add_hole s.port_set (record { start = port; end = port });
}

unfoldable pub add_port_range : ℕ → ℕ → PortSet → Outcome PortSet
unfolding add_interval
add_port_range min_port max_port s =
    add_interval s.port_set (record { start = min_port; end = max_port }) >>= λ ports.
    ok (record s { port_set = ports })

-- `self |= other`
unfoldable pub union_ports : PortSet → PortSet → Outcome PortSet
unfolding union_in_place minus_names
union_ports s other = union_in_place s.port_set other.port_set >>= λ ports. ok (record {
  port_set = ports;
  named_ports = s.named_ports ++ other.named_ports;
  excluded_named_ports = minus_names s.excluded_named_ports other.named_ports;
})

-- `self -= other`
unfoldable pub minus_ports : PortSet → PortSet → PortSet
unfolding difference_in_place minus_names
minus_ports s other = record {
  port_set = difference_in_place s.port_set other.port_set;
  named_ports = minus_names s.named_ports other.named_ports;
  excluded_named_ports = s.excluded_named_ports ++ other.named_ports;
}

unfoldable pub is_all : IntervalSet → PortSet → Bool
unfolding set_eq
is_all all_ports_interval s = set_eq s.port_set all_ports_interval

unfoldable pub is_empty : PortSet → Bool
unfolding is_nonempty is_no_names
is_empty s = not (is_nonempty s.port_set) && is_no_names s.named_ports

unfoldable pub make_port_set_with_range : IntervalSet → ℕ → ℕ → Outcome PortSet
unfolding add_port_range new_ports
make_port_set_with_range all_ports_interval min_port max_port =
    add_port_range min_port max_port (new_ports all_ports_interval false)
