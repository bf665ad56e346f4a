-- ===== src/Values/Protocols.antt =====
-- ProtocolNameResolver and ProtocolSet. The constructor, copy, `==` and the operators of a ProtocolSet
-- are those of its interval set.
pub mod Tables
pub mod Names
pub mod Range
use Prim.Native.String.{String, ◌++◌ as append}
use text.Mathlib.Text.{◌==◌ as str_eq}
use network_config_analyzer.Prelude.{
  ℕ, zero, suc, ◌+◌, ◌-◌, ◌*◌, ◌/◌, Bool, true, false, ◌&&◌, ◌||◌, Option, none, some, List, [],
  ◌∷◌, ◌++◌, if◌then◌else◌, ◌==◌, ltb, leb, get_or, length,
}
use network_config_analyzer.Prelude.Outcome.{Outcome, ok, raised, Exn, ◌>>=◌, ◌>>◌, assert}
use network_config_analyzer.Intervals.Interval.{Interval}
use network_config_analyzer.Intervals.Canonical.{IntervalSet}
use network_config_analyzer.Intervals.Add.{add_interval, get_interval_set}
use network_config_analyzer.Intervals.Sets.{add_hole, set_eq, difference}
use network_config_analyzer.Values.Protocols.Tables.{name_to_number, number_to_name}

-- is_valid_protocol of a number that is not negative
unfoldable pub is_valid_protocol : ℕ → Bool
is_valid_protocol protocol = leb protocol 255

unfoldable pub number_of : String → List (String × ℕ) → Option ℕ
number_of name [] = none
number_of name ((key, number) ∷ table) =
    if str_eq name key then some number else number_of name table

unfoldable pub name_of : ℕ → List (ℕ × String) → Option String
name_of number [] = none
name_of number ((key, name) ∷ table) = if number == key then some name else name_of number table

unfoldable pub keys_of : List (String × ℕ) → List String
keys_of [] = []
keys_of ((key, number) ∷ table) = key ∷ keys_of table

unfoldable pub get_all_protocols_list : List String
unfolding keys_of
get_all_protocols_list = keys_of name_to_number

-- `str(number)`
abbrev pub digits : List String
digits = "0" ∷ "1" ∷ "2" ∷ "3" ∷ "4" ∷ "5" ∷ "6" ∷ "7" ∷ "8" ∷ "9" ∷ []

unfoldable pub decimal : ℕ → ℕ → String
decimal zero number = ""
decimal (suc fuel) number =
    let front = decimal fuel (number / 10) in
    let last = get_or digits (number - number / 10 * 10) "" in
    if ltb number 10 then last else append front last

-- The name of a table, or the number as a text.
unfoldable pub name_or : Option String → ℕ → String
unfolding decimal
name_or none number = decimal 3 number
name_or (some name) number = name

unfoldable pub get_protocol_name : ℕ → Outcome String
unfolding is_valid_protocol name_of name_or
get_protocol_name number =
    if is_valid_protocol number
    then ok (name_or (name_of number number_to_name) number)
    else raised Exn.exception

unfoldable pub is_known : Option String → Bool
is_known none = false
is_known (some name) = true

unfoldable pub is_standard_protocol : ℕ → Bool
unfolding name_of is_known
is_standard_protocol number = is_known (name_of number number_to_name)

-- `int` of Python's library is a parameter: it raises a ValueError on a text that is no number.
unfoldable pub number_or : (String → Outcome ℕ) → Option ℕ → String → Outcome ℕ
unfolding is_valid_protocol
number_or int_of (some number) name = ok number
number_or int_of none name =
    int_of name >>= λ number. if is_valid_protocol number then ok number else raised Exn.exception

unfoldable pub get_protocol_number : (String → Outcome ℕ) → String → Outcome ℕ
unfolding number_of number_or
get_protocol_number int_of name = number_or int_of (number_of name name_to_number) name

abbrev pub single : ℕ → Interval
single number = record { start = number; end = number }

abbrev pub whole_range_interval : Interval
whole_range_interval = record { start = 0; end = 255 }

-- ProtocolSet(all_protocols)
unfoldable pub new_protocols : Bool → Outcome IntervalSet
unfolding add_interval
new_protocols all_protocols = if all_protocols then add_interval [] whole_range_interval else ok []

-- add_protocol of a number; of a name, it is that of its number.
unfoldable pub add_protocol : ℕ → IntervalSet → Outcome IntervalSet
unfolding is_valid_protocol add_interval
add_protocol protocol s =
    if is_valid_protocol protocol then add_interval s (single protocol) else raised Exn.exception

unfoldable pub remove_protocol : ℕ → IntervalSet → Outcome IntervalSet
unfolding is_valid_protocol add_hole
remove_protocol protocol s =
    if is_valid_protocol protocol then ok (add_hole s (single protocol)) else raised Exn.exception

-- get_non_tcp_protocols; TCP is 6.
unfoldable pub get_non_tcp_protocols : Outcome IntervalSet
unfolding new_protocols remove_protocol
get_non_tcp_protocols = new_protocols true >>= remove_protocol 6

unfoldable pub get_protocol_set_with_single_protocol : ℕ → Outcome IntervalSet
unfolding add_protocol
get_protocol_set_with_single_protocol protocol = add_protocol protocol []

unfoldable pub set_protocols : IntervalSet → IntervalSet → Outcome IntervalSet
unfolding add_interval
set_protocols [] s = ok s
set_protocols (q ∷ protocols) s = add_interval s q >>= set_protocols protocols

unfoldable pub whole_range_interval_set : Outcome IntervalSet
unfolding get_interval_set
whole_range_interval_set = get_interval_set 0 255

unfoldable pub is_whole_range : IntervalSet → Outcome Bool
unfolding whole_range_interval_set set_eq
is_whole_range s = whole_range_interval_set >>= λ whole. ok (set_eq s whole)

-- The names of the numbers from `index` on, as many as `count`.
unfoldable pub names_from : ℕ → ℕ → Outcome (List String)
unfolding get_protocol_name
names_from index zero = ok []
names_from index (suc count) =
    get_protocol_name index >>= λ name. names_from (index + 1) count >>= λ names. ok (name ∷ names)

unfoldable pub get_protocol_names : IntervalSet → Outcome (List String)
unfolding names_from
get_protocol_names [] = ok []
get_protocol_names (q ∷ s) =
    assert (leb q.end 255)
    >> (names_from q.start (q.end + 1 - q.start) >>= λ names.
        get_protocol_names s >>= λ rest. ok (names ++ rest))

unfoldable pub get_compl_protocol_names : IntervalSet → Outcome (List String)
unfolding get_protocol_names whole_range_interval_set difference
get_compl_protocol_names s =
    whole_range_interval_set >>= λ whole. get_protocol_names (difference whole s)

unfoldable pub protocol_supports_ports : ℕ → Bool
protocol_supports_ports protocol = protocol == 6 || protocol == 17 || protocol == 132

unfoldable pub protocol_is_icmp : ℕ → Bool
protocol_is_icmp protocol = protocol == 1 || protocol == 58
