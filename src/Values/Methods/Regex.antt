-- ===== src/Values/Methods/Regex.antt =====
-- add_methods_from_regex adds exactly the methods that match.
use Prim.Native.String.{String}
use network_config_analyzer.Prelude.{
  ℕ, ◌+◌, ◌≡◌, refl, sym, ap, ◌∙◌, Bool, true, false, ◌&&◌, ◌||◌, List, [], ◌∷◌, arith,
  if◌then◌else◌, ◌==◌, Bool-cases, inl, inr,
}
use network_config_analyzer.Prelude.Outcome.{Outcome, ok, ◌>>=◌}
use network_config_analyzer.Intervals.Interval.{inside}
use network_config_analyzer.Intervals.Canonical.{IntervalSet, covers, IsCanonical}
use network_config_analyzer.Intervals.Add.{add_interval}
use network_config_analyzer.Intervals.Add.Union.{add_interval-IsCanonical}
use network_config_analyzer.Values.Methods.{
  all_methods_list, single, add_matching, add_methods_from_regex,
}

inside-single : (n m : ℕ) → inside (single n) m ≡ (m == n)
inside-single n m = ground arith

or_join : (a b c : Bool) → ((a || b) || c) ≡ (a || (b || c))
or_join a b c = ground arith

or_nothing : (a b c : Bool) → (a || c) ≡ (a || ((b && false) || c))
or_nothing a b c = ground arith

last_or : (a : Bool) → a ≡ (a || false)
last_or a = ground arith

-- The method with that position, counted from `index`, is in the list and matches.
abbrev pub is_match : (String → Bool) → ℕ → List String → ℕ → Bool
is_match matches index [] m = false
is_match matches index (name ∷ methods) m =
    ((m == index) && matches name) || is_match matches (index + 1) methods m

abbrev Adds : Outcome IntervalSet → (ℕ → Bool) → Type 0
Adds r members = (t : IntervalSet) × (r ≡ ok t) × IsCanonical t × ((m : ℕ) → covers t m ≡ members m)

add_matching-Adds :
    (matches : String → Bool) (index : ℕ) (methods : List String) (s : IntervalSet)
    → IsCanonical s
    → Adds
        (add_matching matches index methods s)
        (λ m. covers s m || is_match matches index methods m)
unfolding add_matching
add_matching-Adds matches index [] s c = (s, refl, c, λ m. last_or (covers s m))
add_matching-Adds matches index (name ∷ methods) s c = elim (Bool-cases (matches name)) [
  | inl e ↦
      let (t, f, ct, pt) = add_interval-IsCanonical s (single index) c (omega arith) in
      let (u, g, cu, pu) = add_matching-Adds matches (index + 1) methods t ct in
      (
        u,
        ap
              (λ b.
                (if b then add_interval s (single index) else ok s)
                >>= add_matching matches (index + 1) methods)
              e
            ∙ ap (λ r. r >>= add_matching matches (index + 1) methods) f
            ∙ g,
        cu,
        (λ m.
            pu m
            ∙ ap (λ b. b || is_match matches (index + 1) methods m) (pt m)
            ∙ or_join (covers s m) (inside (single index) m)
                (is_match matches (index + 1) methods m)
            ∙ ap (λ b. covers s m || (b || is_match matches (index + 1) methods m))
                (inside-single index m ∙ with_true (m == index) (matches name) e)),
      )
  | inr e ↦
      let (u, g, cu, pu) = add_matching-Adds matches (index + 1) methods s c in
      (
        u,
        ap
              (λ b.
                (if b then add_interval s (single index) else ok s)
                >>= add_matching matches (index + 1) methods)
              e
            ∙ g,
        cu,
        (λ m.
            pu m
            ∙ or_nothing (covers s m) (m == index) (is_match matches (index + 1) methods m)
            ∙ ap
                (λ b. covers s m || (((m == index) && b) || is_match matches (index + 1) methods m))
                (sym e)),
      )
]
  where
    with_true : (a b : Bool) → b ≡ true → a ≡ (a && b)
    with_true a b h = ground arith

-- add_methods_from_regex of a canonical set returns a canonical set, which has those methods added whose
-- names match, and no other change.
pub add_methods_from_regex-Adds :
    (matches : String → Bool) (s : IntervalSet)
    → IsCanonical s
    → (t : IntervalSet) × (add_methods_from_regex matches s ≡ ok t)
      × IsCanonical t
      × ((m : ℕ) → covers t m ≡ (covers s m || is_match matches 0 all_methods_list m))
unfolding add_methods_from_regex
add_methods_from_regex-Adds matches s c = add_matching-Adds matches 0 all_methods_list s c
