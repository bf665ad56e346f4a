-- ===== src/Values/Ports/Names.antt =====
-- No port name is both included and excluded.
use Prim.Native.String.{String}
use text.Mathlib.Text.{◌==◌ as str_eq}
use text.Mathlib.TextEquality.{eq_iff}
use network_config_analyzer.Prelude.{
  bool_clash, ◌≡◌, refl, sym, subst, ap, ap₂, ◌∙◌, Bool, true, false, not, ◌&&◌, ◌||◌, List, [],
  ◌∷◌, ◌++◌, arith, if◌then◌else◌, Bool-cases, inl, inr,
}
use network_config_analyzer.Prelude.Outcome.{ok, ◌>>=◌}
use network_config_analyzer.Intervals.Canonical.{IsCanonical}
use network_config_analyzer.Intervals.Add.Union.{union_in_place-IsCanonical}
use network_config_analyzer.Values.Ports.{
  PortSet, in_names, discard, minus_names, add_named_port, remove_named_port, union_ports,
  minus_ports,
}

in_names_nil : (x : String) → in_names x [] ≡ false
unfolding in_names
in_names_nil x = refl

in_names_first :
    (x n : String) (ns : List String) → in_names x (n ∷ ns) ≡ (str_eq x n || in_names x ns)
unfolding in_names
in_names_first x n ns = refl

in_names-append :
    (x : String) (ns ms : List String) → in_names x (ns ++ ms) ≡ (in_names x ns || in_names x ms)
unfolding in_names
in_names-append x [] ms = refl
in_names-append x (n ∷ ns) ms =
    ap (λ b. str_eq x n || b) (in_names-append x ns ms)
    ∙ assoc (str_eq x n) (in_names x ns) (in_names x ms)
  where
    assoc : (a b c : Bool) → (a || (b || c)) ≡ ((a || b) || c)
    assoc a b c = ground arith

-- Where a first name is taken away, or kept: `same` is whether it is the name in question, and `gone`
-- whether that one is taken away.
taken_first :
    (same rest gone : Bool)
    → (same ≡ true → gone ≡ true)
    → (rest && not gone) ≡ ((same || rest) && not gone)
taken_first true rest gone h = let e = h refl in ground arith
taken_first false rest gone h = refl

kept_first :
    (same rest gone : Bool)
    → (same ≡ true → gone ≡ false)
    → (same || (rest && not gone)) ≡ ((same || rest) && not gone)
kept_first true rest gone h = let e = h refl in ground arith
kept_first false rest gone h = refl

same_in :
    (x n : String) (ms : List String) (b : Bool)
    → str_eq x n ≡ true
    → in_names n ms ≡ b
    → in_names x ms ≡ b
same_in x n ms b e h = subst (λ t. in_names t ms ≡ b) (sym ((eq_iff x n).0 e)) h

in_names-minus_names :
    (x : String) (ns ms : List String)
    → in_names x (minus_names ns ms) ≡ (in_names x ns && not (in_names x ms))
unfolding minus_names
in_names-minus_names x [] ms =
    in_names_nil x ∙ ap (λ b. b && not (in_names x ms)) (sym (in_names_nil x))
in_names-minus_names x (n ∷ ns) ms = elim (Bool-cases (in_names n ms)) [
  | inl e ↦
      ap (λ b. in_names x (if b then minus_names ns ms else n ∷ minus_names ns ms)) e
      ∙ in_names-minus_names x ns ms
      ∙ taken_first (str_eq x n) (in_names x ns) (in_names x ms) (λ h. same_in x n ms true h e)
      ∙ cons
  | inr e ↦
      ap (λ b. in_names x (if b then minus_names ns ms else n ∷ minus_names ns ms)) e
      ∙ in_names_first x n (minus_names ns ms)
      ∙ ap (λ b. str_eq x n || b) (in_names-minus_names x ns ms)
      ∙ kept_first (str_eq x n) (in_names x ns) (in_names x ms) (λ h. same_in x n ms false h e)
      ∙ cons
]
  where
    cons :
        ((str_eq x n || in_names x ns) && not (in_names x ms))
        ≡ (in_names x (n ∷ ns) && not (in_names x ms))
    cons = ap (λ b. b && not (in_names x ms)) (sym (in_names_first x n ns))

in_names-discard :
    (x p : String) (ns : List String)
    → in_names x (discard p ns) ≡ (in_names x ns && not (str_eq x p))
unfolding discard in_names
in_names-discard x p [] = refl
in_names-discard x p (n ∷ ns) = elim (Bool-cases (str_eq p n)) [
  | inl e ↦
      ap (λ b. in_names x (if b then discard p ns else n ∷ discard p ns)) e
      ∙ in_names-discard x p ns
      ∙ taken_first (str_eq x n) (in_names x ns) (str_eq x p)
          (λ h. (eq_iff x p).1 ((eq_iff x n).0 h ∙ sym ((eq_iff p n).0 e)))
  | inr e ↦
      ap (λ b. in_names x (if b then discard p ns else n ∷ discard p ns)) e
      ∙ ap (λ b. str_eq x n || b) (in_names-discard x p ns)
      ∙ kept_first (str_eq x n) (in_names x ns) (str_eq x p) (λ h. differs h e)
]
  where
    differs : str_eq x n ≡ true → str_eq p n ≡ false → str_eq x p ≡ false
    differs h e = elim (Bool-cases (str_eq x p)) [
      | inl k ↦
          absurd (bool_clash (sym ((eq_iff p n).1 (sym ((eq_iff x p).0 k) ∙ (eq_iff x n).0 h)) ∙ e))
      | inr k ↦ k
    ]

-- No name is both included and excluded.
abbrev pub IsDisjoint : PortSet → Type 0
IsDisjoint s =
    (x : String) → (in_names x s.named_ports && in_names x s.excluded_named_ports) ≡ false

added : (e n m : Bool) → (n && m) ≡ false → ((e || n) && (m && not e)) ≡ false
added e n m h = ground arith

removed : (e n m : Bool) → (n && m) ≡ false → ((n && not e) && (e || m)) ≡ false
removed e n m h = ground arith

joined : (e n m : Bool) → (n && m) ≡ false → ((n || e) && (m && not e)) ≡ false
joined e n m h = ground arith

parted : (e n m : Bool) → (n && m) ≡ false → ((n && not e) && (m || e)) ≡ false
parted e n m h = ground arith

-- Adding and removing a named port keep the included and the excluded names apart.
pub named_ports-IsDisjoint :
    (port : String) (s : PortSet)
    → IsDisjoint s
    → IsDisjoint (add_named_port port s) × IsDisjoint (remove_named_port port s)
unfolding add_named_port remove_named_port
named_ports-IsDisjoint port s h = (
  (λ x.
      ap₂ ◌&&◌ (in_names_first x port s.named_ports)
        (in_names-discard x port s.excluded_named_ports)
      ∙ added (str_eq x port) (in_names x s.named_ports) (in_names x s.excluded_named_ports) (h x)),
  (λ x.
      ap₂ ◌&&◌ (in_names-discard x port s.named_ports)
        (in_names_first x port s.excluded_named_ports)
      ∙ removed (str_eq x port) (in_names x s.named_ports) (in_names x s.excluded_named_ports)
          (h x)),
)

-- The operators |= and -= of two sets of ports with canonical numbers: |= returns. Both keep the
-- included and the excluded names of the first set apart.
pub operators-IsDisjoint :
    (s other : PortSet)
    → IsDisjoint s
    → IsCanonical s.port_set
    → IsCanonical other.port_set
    → ((t : PortSet) × (union_ports s other ≡ ok t) × IsDisjoint t × IsCanonical t.port_set)
      × IsDisjoint (minus_ports s other)
unfolding union_ports minus_ports
operators-IsDisjoint s other h c d =
    let (ports, e, cp, covered) = union_in_place-IsCanonical s.port_set other.port_set 0 c d in
    let names = s.named_ports ++ other.named_ports in
    let excluded = minus_names s.excluded_named_ports other.named_ports in
    (
      (
        record { port_set = ports; named_ports = names; excluded_named_ports = excluded },
        ap
            (λ r. r >>= λ p.
              ok (record { port_set = p; named_ports = names; excluded_named_ports = excluded }))
            e,
        (λ x.
            ap₂ ◌&&◌ (in_names-append x s.named_ports other.named_ports)
              (in_names-minus_names x s.excluded_named_ports other.named_ports)
            ∙ joined (in_names x other.named_ports) (in_names x s.named_ports)
                (in_names x s.excluded_named_ports) (h x)),
        cp,
      ),
      (λ x.
          ap₂ ◌&&◌ (in_names-minus_names x s.named_ports other.named_ports)
            (in_names-append x s.excluded_named_ports other.named_ports)
          ∙ parted (in_names x other.named_ports) (in_names x s.named_ports)
              (in_names x s.excluded_named_ports) (h x)),
    )
