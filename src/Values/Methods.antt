-- ===== src/Values/Methods.antt =====
-- MethodSet: sets of HTTP methods, as positions in the list of all methods. The constructor, copy, `==`
-- and the operators are those of the interval set.
pub mod Regex
use Prim.Native.String.{String}
use text.Mathlib.Text.{◌==◌ as str_eq}
use network_config_analyzer.Prelude.{
  ℕ, zero, suc, ◌+◌, ◌-◌, Bool, true, false, Option, none, some, List, [], ◌∷◌, ◌++◌, if◌then◌else◌,
  ltb, length,
}
use network_config_analyzer.Prelude.Outcome.{Outcome, ok, raised, Exn, ◌>>=◌, ◌>>◌, assert, item}
use network_config_analyzer.Intervals.Interval.{Interval}
use network_config_analyzer.Intervals.Canonical.{IntervalSet}
use network_config_analyzer.Intervals.Add.{add_interval, get_interval_set}
use network_config_analyzer.Intervals.Sets.{set_eq}

abbrev pub all_methods_list : List String
all_methods_list =
    "GET" ∷ "HEAD" ∷ "POST" ∷ "PUT" ∷ "DELETE" ∷ "CONNECT" ∷ "OPTIONS" ∷ "TRACE" ∷ "PATCH" ∷ []

abbrev pub single : ℕ → Interval
single index = record { start = index; end = index }

-- `methods.index(method)`, counted from `index`
unfoldable pub index_of : String → ℕ → List String → Outcome ℕ
index_of method index [] = raised Exn.value_error
index_of method index (m ∷ methods) =
    let rest = index_of method (index + 1) methods in if str_eq m method then ok index else rest

unfoldable pub add_method : String → IntervalSet → Outcome IntervalSet
unfolding index_of add_interval
add_method method s = index_of method 0 all_methods_list >>= λ index. add_interval s (single index)

-- The loop over the methods from `index` on; whether `re.match` finds a method is a parameter.
unfoldable pub add_matching : (String → Bool) → ℕ → List String → IntervalSet → Outcome IntervalSet
unfolding add_interval
add_matching matches index [] s = ok s
add_matching matches index (m ∷ methods) s =
    (if matches m then add_interval s (single index) else ok s)
    >>= add_matching matches (index + 1) methods

unfoldable pub add_methods_from_regex : (String → Bool) → IntervalSet → Outcome IntervalSet
unfolding add_matching
add_methods_from_regex matches s = add_matching matches 0 all_methods_list s

unfoldable pub set_methods : IntervalSet → IntervalSet → Outcome IntervalSet
unfolding add_interval
set_methods [] s = ok s
set_methods (q ∷ methods) s = add_interval s q >>= set_methods methods

abbrev pub whole_range_interval : Interval
whole_range_interval = record { start = 0; end = length all_methods_list - 1 }

unfoldable pub whole_range_interval_set : Outcome IntervalSet
unfolding get_interval_set
whole_range_interval_set = get_interval_set whole_range_interval.start whole_range_interval.end

unfoldable pub is_whole_range : IntervalSet → Outcome Bool
unfolding whole_range_interval_set set_eq
is_whole_range s = whole_range_interval_set >>= λ whole. ok (set_eq s whole)

-- The names of the methods from `index` on, as many as `count`.
unfoldable pub names_from : ℕ → ℕ → Outcome (List String)
names_from index zero = ok []
names_from index (suc count) = item all_methods_list index >>= λ name.
    names_from (index + 1) count >>= λ names. ok (name ∷ names)

unfoldable pub get_method_names : IntervalSet → Outcome (List String)
unfolding names_from
get_method_names [] = ok []
get_method_names (q ∷ s) =
    assert (ltb q.end (length all_methods_list))
    >> (names_from q.start (q.end + 1 - q.start) >>= λ names.
        get_method_names s >>= λ rest. ok (names ++ rest))

-- `res.remove(method)`
unfoldable pub remove : String → List String → Outcome (List String)
remove method [] = raised Exn.value_error
remove method (m ∷ methods) =
    let rest = remove method methods >>= λ kept. ok (m ∷ kept) in
    if str_eq m method then ok methods else rest

unfoldable pub remove_all : List String → List String → Outcome (List String)
unfolding remove
remove_all [] res = ok res
remove_all (m ∷ methods) res = remove m res >>= remove_all methods

unfoldable pub get_compl_method_names : IntervalSet → Outcome (List String)
unfolding get_method_names remove_all
get_compl_method_names s = get_method_names s >>= λ names. remove_all names all_methods_list
