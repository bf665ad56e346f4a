-- ===== src/Values/Protocols/Range.antt =====
-- Sets of protocols stay within 0 to 255, and all their members have names.
use Prim.Native.String.{String}
use network_config_analyzer.Prelude.{
  ℕ, zero, suc, ◌+◌, ◌-◌, ◌≤◌, ◌<◌, ◌≡◌, refl, sym, ap, ap₂, ◌∙◌, Bool, true, false, not, ◌&&◌,
  ◌||◌, List, [], ◌∷◌, ◌++◌, arith, if◌then◌else◌, ◌==◌, leb, le→leb, length,
}
use network_config_analyzer.Prelude.Outcome.{Outcome, ok, raised, Exn, ◌>>=◌, ◌>>◌, assert}
use network_config_analyzer.Intervals.Interval.{Interval, inside}
use network_config_analyzer.Intervals.Canonical.{IntervalSet, covers, IsProper, Chain, IsCanonical}
use network_config_analyzer.Intervals.Add.{add_interval}
use network_config_analyzer.Intervals.Add.Union.{add_interval-IsCanonical}
use network_config_analyzer.Intervals.Sets.{add_hole}
use network_config_analyzer.Intervals.Sets.Difference.{add_hole-IsCanonical}
use network_config_analyzer.Values.Protocols.{
  is_valid_protocol, single, add_protocol, remove_protocol, name_of, name_or, get_protocol_name,
  names_from, get_protocol_names,
}
use network_config_analyzer.Values.Protocols.Tables.{number_to_name}

-- A canonical set of valid protocol numbers.
abbrev pub IsProtocols : IntervalSet → Type 0
IsProtocols s = IsCanonical s × ((m : ℕ) → covers s m ≡ true → m ≤ 255)

inside-single : (n m : ℕ) → inside (single n) m ≡ (m == n)
inside-single n m = ground arith

within_or : (n m : ℕ) (a : Bool) → n ≤ 255 → (a ≡ true → m ≤ 255) → (a || (m == n)) ≡ true → m ≤ 255
within_or n m true v h k = h refl
within_or n m false v h k = ground arith

within_and : (m : ℕ) (a b : Bool) → (a ≡ true → m ≤ 255) → (a && b) ≡ true → m ≤ 255
within_and m true b h k = h refl
within_and m false b h k = absurd (ground arith)

add_lem : (n : ℕ) (s : IntervalSet) → n ≤ 255 → add_protocol n s ≡ add_interval s (single n)
unfolding add_protocol is_valid_protocol
add_lem n s v =
    ap (λ b. if b then add_interval s (single n) else raised Exn.exception) (le→leb n 255 v)

remove_lem : (n : ℕ) (s : IntervalSet) → n ≤ 255 → remove_protocol n s ≡ ok (add_hole s (single n))
unfolding remove_protocol is_valid_protocol
remove_lem n s v =
    ap (λ b. if b then ok (add_hole s (single n)) else raised Exn.exception) (le→leb n 255 v)

-- add_protocol and remove_protocol of a valid number return a set of valid numbers, which has that
-- number added, or removed, and no other change.
pub IsProtocols-in_range :
    (n : ℕ) (s : IntervalSet)
    → IsProtocols s
    → n ≤ 255
    → ((t : IntervalSet) × (add_protocol n s ≡ ok t)
        × IsProtocols t
        × ((m : ℕ) → covers t m ≡ (covers s m || (m == n))))
      × ((t : IntervalSet) × (remove_protocol n s ≡ ok t)
          × IsProtocols t
          × ((m : ℕ) → covers t m ≡ (covers s m && not (m == n))))
IsProtocols-in_range n s (c, w) v =
    let proper : IsProper (single n) = omega arith in
    let (t, e, ct, pt) = add_interval-IsCanonical s (single n) c proper in
    let (ch, ph) = add_hole-IsCanonical s (single n) c proper in
    let more : (m : ℕ) → covers t m ≡ (covers s m || (m == n)) =
      λ m. pt m ∙ ap (λ b. covers s m || b) (inside-single n m) in
    let less : (m : ℕ) → covers (add_hole s (single n)) m ≡ (covers s m && not (m == n)) =
      λ m. ph m ∙ ap (λ b. covers s m && not b) (inside-single n m) in
    (
      (
        t,
        add_lem n s v ∙ e,
        (ct, λ m k. within_or n m (covers s m) v (w m) (sym (more m) ∙ k)),
        more,
      ),
      (
        add_hole s (single n),
        remove_lem n s v,
        (ch, λ m k. within_and m (covers s m) (not (m == n)) (w m) (sym (less m) ∙ k)),
        less,
      ),
    )

-- Of any other number, both raise an exception.
pub protocols_out_of_range :
    (n : ℕ) (s : IntervalSet)
    → 255 < n
    → (add_protocol n s ≡ raised Exn.exception) × (remove_protocol n s ≡ raised Exn.exception)
unfolding add_protocol remove_protocol is_valid_protocol
protocols_out_of_range n s h =
    let e : leb n 255 ≡ false = ground arith in
    (
      ap (λ b. if b then add_interval s (single n) else raised Exn.exception) e,
      ap (λ b. if b then ok (add_hole s (single n)) else raised Exn.exception) e,
    )

-- The number of members.
abbrev pub number_of_members : IntervalSet → ℕ
number_of_members [] = 0
number_of_members (q ∷ s) = (q.end + 1 - q.start) + number_of_members s

name_lem : (n : ℕ) → n ≤ 255 → get_protocol_name n ≡ ok (name_or (name_of n number_to_name) n)
unfolding get_protocol_name is_valid_protocol
name_lem n v =
    ap (λ b. if b then ok (name_or (name_of n number_to_name) n) else raised Exn.exception)
      (le→leb n 255 v)

abbrev Names : Outcome (List String) → ℕ → Type 0
Names r count = (names : List String) × (r ≡ ok names) × (length names ≡ count)

names_from-Names : (index count : ℕ) → index + count ≤ 256 → Names (names_from index count) count
unfolding names_from
names_from-Names index zero h = ([], refl, refl)
names_from-Names index (suc count) h =
    let (names, e, l) = names_from-Names (index + 1) count (omega arith) in
    let first = name_lem index (omega arith) in
    let name = name_or (name_of index number_to_name) index in
    (
      name ∷ names,
      ap (λ r. r >>= λ x. names_from (index + 1) count >>= λ xs. ok (x ∷ xs)) first
          ∙ ap (λ r. r >>= λ xs. ok (name ∷ xs)) e,
      ap suc l,
    )

end_covered : (q : Interval) (s : IntervalSet) → IsProper q → covers (q ∷ s) q.end ≡ true
end_covered q s p = go (inside q q.end) _ (ground arith)
  where
    go : (a b : Bool) → a ≡ true → (a || b) ≡ true
    go a b h = ground arith

rest_covered :
    (q : Interval) (s : IntervalSet) (m : ℕ) → covers s m ≡ true → covers (q ∷ s) m ≡ true
rest_covered q s m h = go (inside q m) _ h
  where
    go : (a b : Bool) → b ≡ true → (a || b) ≡ true
    go a b h = ground arith

length-append : (xs ys : List String) → length (xs ++ ys) ≡ length xs + length ys
length-append [] ys = omega arith
length-append (x ∷ xs) ys = let h = length-append xs ys in omega arith

all_named :
    (low : ℕ) (s : IntervalSet)
    → Chain low s
    → ((m : ℕ) → covers s m ≡ true → m ≤ 255)
    → Names (get_protocol_names s) (number_of_members s)
unfolding get_protocol_names
all_named low [] c w = ([], refl, refl)
all_named low (q ∷ s) (l, p, c) w =
    let bound = w q.end (end_covered q s p) in
    let (rest, e, k) = all_named (q.end + 2) s c (λ m h. w m (rest_covered q s m h)) in
    let (names, f, j) = names_from-Names q.start (q.end + 1 - q.start) (omega arith) in
    (
      names ++ rest,
      ap
            (λ b.
              assert b
              >> (names_from q.start (q.end + 1 - q.start) >>= λ xs.
                  get_protocol_names s >>= λ ys. ok (xs ++ ys)))
            (le→leb q.end 255 bound)
          ∙ ap (λ r. r >>= λ xs. get_protocol_names s >>= λ ys. ok (xs ++ ys)) f
          ∙ ap (λ r. r >>= λ ys. ok (names ++ ys)) e,
      length-append names rest ∙ ap₂ ◌+◌ j k,
    )

-- Every set of valid protocol numbers has its list of names: no assertion fails, and there are as many
-- names as members.
pub get_protocol_names-IsProtocols :
    (s : IntervalSet)
    → IsProtocols s
    → (names : List String) × (get_protocol_names s ≡ ok names)
      × (length names ≡ number_of_members s)
get_protocol_names-IsProtocols s (c, w) = all_named 0 s c w
