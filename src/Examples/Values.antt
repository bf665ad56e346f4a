-- ===== src/Examples/Values.antt =====
-- Sets of protocols, methods and ports.
use Prim.Native.String.{String}
use text.Mathlib.Text.{◌==◌ as str_eq}
use text.Mathlib.TextEquality.{eq_iff}
use network_config_analyzer.Prelude.{
  ℕ, ◌≡◌, refl, sym, subst, Bool-cases, inl, inr, Bool, true, false, not, ◌&&◌, ◌||◌, [], ◌∷◌, ◌==◌,
  arith, ◌≤◌,
}
use network_config_analyzer.Prelude.Outcome.{Outcome, ok, raised, Exn}
use network_config_analyzer.Intervals.Canonical.{IntervalSet, covers, IsCanonical}
use network_config_analyzer.Values.Protocols.{
  get_protocol_name, get_protocol_number, is_standard_protocol, add_protocol, remove_protocol,
}
use network_config_analyzer.Values.Protocols.Names.{get_protocol_number-get_protocol_name}
use network_config_analyzer.Values.Protocols.Range.{IsProtocols, IsProtocols-in_range}
use network_config_analyzer.Values.Methods.{all_methods_list, add_methods_from_regex}
use network_config_analyzer.Values.Methods.Regex.{is_match, add_methods_from_regex-Adds}
use network_config_analyzer.Values.Ports.{PortSet, union_ports, minus_ports, in_names}
use network_config_analyzer.Values.Ports.Names.{IsDisjoint, operators-IsDisjoint}

abbrev no_int : String → Outcome ℕ
no_int text = raised Exn.value_error

abbrev points : ℕ → ℕ → IntervalSet
points start end = record { start = start; end = end } ∷ []

udp_is_standard : is_standard_protocol 17 ≡ true
unfolding is_standard_protocol
udp_is_standard = refl

get_protocol_number-get_protocol_name_example :
    (name : String) × (get_protocol_name 17 ≡ ok name) × (get_protocol_number no_int name ≡ ok 17)
get_protocol_number-get_protocol_name_example =
    get_protocol_number-get_protocol_name no_int 17 udp_is_standard

-- The name TTP has a number, but the number has another name.
ttp_runs : (get_protocol_number no_int "TTP" ≡ ok 84) × (get_protocol_name 84 ≡ ok "IPTM")
unfolding get_protocol_number get_protocol_name
ttp_runs = (refl, refl)

-- A number without a name is its own name.
unnamed_runs : get_protocol_name 200 ≡ ok "200"
unfolding get_protocol_name
unnamed_runs = refl

tcp_within : (m : ℕ) → covers (points 6 6) m ≡ true → m ≤ 255
tcp_within m h = ground arith

IsProtocols-in_range_example :
    ((t : IntervalSet) × (add_protocol 17 (points 6 6) ≡ ok t)
      × IsProtocols t
      × ((m : ℕ) → covers t m ≡ (covers (points 6 6) m || (m == 17))))
    × ((t : IntervalSet) × (remove_protocol 17 (points 6 6) ≡ ok t)
        × IsProtocols t
        × ((m : ℕ) → covers t m ≡ (covers (points 6 6) m && not (m == 17))))
IsProtocols-in_range_example =
    IsProtocols-in_range 17 (points 6 6) ((omega arith, omega arith, tt), tcp_within) (omega arith)

abbrev is_put : String → Bool
is_put name = str_eq name "PUT"

add_methods_from_regex-Adds_example :
    (t : IntervalSet) × (add_methods_from_regex is_put (points 0 1) ≡ ok t)
    × IsCanonical t
    × ((m : ℕ) → covers t m ≡ (covers (points 0 1) m || is_match is_put 0 all_methods_list m))
add_methods_from_regex-Adds_example =
    add_methods_from_regex-Adds is_put (points 0 1) (omega arith, omega arith, tt)

abbrev web : PortSet
web = record {
  port_set = points 80 80;
  named_ports = "http" ∷ [];
  excluded_named_ports = "admin" ∷ [];
}

abbrev admin : PortSet
admin = record {
  port_set = points 8080 8080;
  named_ports = "admin" ∷ [];
  excluded_named_ports = [];
}

web-IsDisjoint : IsDisjoint web
unfolding in_names
web-IsDisjoint x = elim (Bool-cases (str_eq x "http")) [
  | inl e ↦
      subst (λ t. ((str_eq t "http" || false) && (str_eq t "admin" || false)) ≡ false)
        (sym ((eq_iff x "http").0 e)) refl
  | inr e ↦ rw (e) refl
]

operators-IsDisjoint_example :
    ((t : PortSet) × (union_ports web admin ≡ ok t) × IsDisjoint t × IsCanonical t.port_set)
    × IsDisjoint (minus_ports web admin)
operators-IsDisjoint_example =
    operators-IsDisjoint web admin web-IsDisjoint (omega arith, omega arith, tt)
      (omega arith, omega arith, tt)
