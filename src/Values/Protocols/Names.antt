-- ===== src/Values/Protocols/Names.antt =====
-- The two tables of protocol names fit together.
use Prim.Native.String.{String}
use network_config_analyzer.Prelude.{
  ℕ, ◌≡◌, refl, sym, subst, ap, ◌∙◌, Bool, true, false, ◌&&◌, Option, none, some, List, [], ◌∷◌,
  arith, if◌then◌else◌, ◌==◌, leb, Bool-cases, inl, inr, ==_iff, and_left, and_right,
}
use network_config_analyzer.Prelude.Outcome.{Outcome, ok, raised, Exn}
use network_config_analyzer.Values.Protocols.Tables.{name_to_number, number_to_name}
use network_config_analyzer.Values.Protocols.{
  number_of, name_of, name_or, is_known, number_or, get_protocol_name, is_standard_protocol,
  get_protocol_number,
}

-- The first table has the number for the name.
abbrev is_number : ℕ → Option ℕ → Bool
is_number n none = false
is_number n (some m) = m == n

-- Each entry of the second table is a valid number, whose name has that number in the first.
abbrev fits : List (ℕ × String) → Bool
fits [] = true
fits ((key, name) ∷ table) =
    (leb key 255 && is_number key (number_of name name_to_number)) && fits table

tables_fit : fits number_to_name ≡ true
unfolding number_of
tables_fit = refl

is_number-some : (n : ℕ) (m : Option ℕ) → is_number n m ≡ true → m ≡ some n
is_number-some n none h = absurd (ground arith)
is_number-some n (some m) h = ap some ((==_iff m n).0 h)

some_inj : {a b : String} → some a ≡ some b → a ≡ b
some_inj {a} h = ap (λ x. elim x [ none ↦ a | some y ↦ y ]) h

number_of-name_of :
    (n : ℕ) (table : List (ℕ × String)) (name : String)
    → fits table ≡ true
    → name_of n table ≡ some name
    → (leb n 255 ≡ true) × (number_of name name_to_number ≡ some n)
unfolding name_of
number_of-name_of n [] name f h = absurd (ground arith)
number_of-name_of n ((key, other) ∷ table) name f h = elim (Bool-cases (n == key)) [
  | inl e ↦
      let same_number : n ≡ key = (==_iff n key).0 e in
      let same_name : other ≡ name = some_inj (sym (at_key e) ∙ h) in
      let entry = and_left _ _ f in
      subst (λ k. (leb k 255 ≡ true) × (number_of name name_to_number ≡ some k)) (sym same_number)
        (
          and_left _ _ entry,
          subst (λ t. number_of t name_to_number ≡ some key) same_name
              (is_number-some key (number_of other name_to_number) (and_right _ _ entry)),
        )
  | inr e ↦ number_of-name_of n table name (and_right _ _ f) (sym (past_key e) ∙ h)
]
  where
    at_key : (n == key) ≡ true → name_of n ((key, other) ∷ table) ≡ some other
    at_key e = ap (λ b. if b then some other else name_of n table) e

    past_key : (n == key) ≡ false → name_of n ((key, other) ∷ table) ≡ name_of n table
    past_key e = ap (λ b. if b then some other else name_of n table) e

known_name : (k : Option String) → is_known k ≡ true → (name : String) × (k ≡ some name)
unfolding is_known
known_name none h = absurd (ground arith)
known_name (some name) h = (name, refl)

is_standard_lem :
    (number : ℕ) → is_known (name_of number number_to_name) ≡ is_standard_protocol number
unfolding is_standard_protocol
is_standard_lem number = refl

name_lem :
    (number : ℕ) (name : String)
    → leb number 255 ≡ true
    → name_of number number_to_name ≡ some name
    → get_protocol_name number ≡ ok name
unfolding get_protocol_name
name_lem number name valid e =
    ap
      (λ b. if b then ok (name_or (name_of number number_to_name) number) else raised Exn.exception)
      valid
    ∙ ap (λ k. ok (name_or k number)) e

number_lem :
    (int_of : String → Outcome ℕ) (number : ℕ) (name : String)
    → number_of name name_to_number ≡ some number
    → get_protocol_number int_of name ≡ ok number
unfolding get_protocol_number
number_lem int_of number name e = ap (λ k. number_or int_of k name) e

-- A standard protocol's name is that of its number, and get_protocol_number of that name is the number
-- again, whatever `int` does.
pub get_protocol_number-get_protocol_name :
    (int_of : String → Outcome ℕ) (number : ℕ)
    → is_standard_protocol number ≡ true
    → (name : String) × (get_protocol_name number ≡ ok name)
      × (get_protocol_number int_of name ≡ ok number)
get_protocol_number-get_protocol_name int_of number h =
    let (name, e) = known_name (name_of number number_to_name) (is_standard_lem number ∙ h) in
    let (valid, back) = number_of-name_of number number_to_name name tables_fit e in
    (name, name_lem number name valid e, number_lem int_of number name back)
