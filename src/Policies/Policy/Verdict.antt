-- ===== src/Policies/Policy/Verdict.antt =====
-- The verdict on a connection: the reference by which policies and layers are read.
use network_config_analyzer.Prelude.{ap, ◌≡◌, refl, ◌∙◌, Bool, true, false, not, ◌&&◌, ◌||◌, arith}
use network_config_analyzer.Policies.Connectivity.{Connectivity, ConnectivityLaws}

pub data Verdict : Type 0 where
  allowed denied passed undecided : Verdict

abbrev pub is_allowed : Verdict → Bool
is_allowed allowed = true
is_allowed denied = false
is_allowed passed = false
is_allowed undecided = false

abbrev pub is_denied : Verdict → Bool
is_denied allowed = false
is_denied denied = true
is_denied passed = false
is_denied undecided = false

abbrev pub is_passed : Verdict → Bool
is_passed allowed = false
is_passed denied = false
is_passed passed = true
is_passed undecided = false

-- The first verdict that decides.
abbrev pub or_else : Verdict → Verdict → Verdict
or_else allowed w = allowed
or_else denied w = denied
or_else passed w = passed
or_else undecided w = w

-- What is not decided yet goes to the second verdict.
or_else_allowed :
    (v w : Verdict)
    → (is_allowed v || ((is_allowed w && not (is_denied v)) && not (is_passed v)))
      ≡ is_allowed (or_else v w)
or_else_allowed allowed w = refl
or_else_allowed denied w = ground arith
or_else_allowed passed w = ground arith
or_else_allowed undecided w = ground arith

or_else_denied :
    (v w : Verdict)
    → (is_denied v || ((is_denied w && not (is_allowed v)) && not (is_passed v)))
      ≡ is_denied (or_else v w)
or_else_denied allowed w = ground arith
or_else_denied denied w = refl
or_else_denied passed w = ground arith
or_else_denied undecided w = ground arith

or_else_passed :
    (v w : Verdict)
    → (is_passed v || ((is_passed w && not (is_denied v)) && not (is_allowed v)))
      ≡ is_passed (or_else v w)
or_else_passed allowed w = ground arith
or_else_passed denied w = ground arith
or_else_passed passed w = refl
or_else_passed undecided w = ground arith

minus_swap : (a b c : Bool) → ((a && not b) && not c) ≡ ((a && not c) && not b)
minus_swap a b c = ground arith

pub or_else_assoc : (u v w : Verdict) → or_else (or_else u v) w ≡ or_else u (or_else v w)
or_else_assoc allowed v w = refl
or_else_assoc denied v w = refl
or_else_assoc passed v w = refl
or_else_assoc undecided v w = refl

pub or_else_undecided : (v : Verdict) → or_else v undecided ≡ v
or_else_undecided allowed = refl
or_else_undecided denied = refl
or_else_undecided passed = refl
or_else_undecided undecided = refl

module _ (o : Connectivity) (laws : ConnectivityLaws o) where
  open o use {conns_or, conns_minus}
  open laws use {Connection, allows}

  -- Three properties that give the verdict on a connection: at most one holds it.
  abbrev pub Reads : o.Conns → o.Conns → o.Conns → Connection → Verdict → Type 0
  Reads allow deny pass c v =
      (allows allow c ≡ is_allowed v)
      × (allows deny c ≡ is_denied v)
      × (allows pass c ≡ is_passed v)

  pub Reads-no_conns : (c : Connection) → Reads o.no_conns o.no_conns o.no_conns c undecided
  Reads-no_conns c = (laws.allows-no_conns c, laws.allows-no_conns c, laws.allows-no_conns c)

  allows_rest :
      (a b p s : o.Conns) (c : Connection)
      → allows (conns_or a (conns_minus (conns_minus p b) s)) c
        ≡ (allows a c || ((allows p c && not (allows b c)) && not (allows s c)))
  allows_rest a b p s c =
      laws.allows-conns_or a (conns_minus (conns_minus p b) s) c
      ∙ ap (λ x. allows a c || x)
          (laws.allows-conns_minus (conns_minus p b) s c
            ∙ ap (λ x. x && not (allows s c)) (laws.allows-conns_minus p b c))

  module _ (a b s : o.Conns) (c : Connection) (v : Verdict) (h : Reads a b s c v) where
    pub add_allowed :
        (p : o.Conns) (w : Verdict)
        → allows p c ≡ is_allowed w
        → allows (conns_or a (conns_minus (conns_minus p b) s)) c ≡ is_allowed (or_else v w)
    add_allowed p w e = allows_rest a b p s c ∙ rw (h.0, h.1, h.2, e) (or_else_allowed v w)

    pub add_denied :
        (p : o.Conns) (w : Verdict)
        → allows p c ≡ is_denied w
        → allows (conns_or b (conns_minus (conns_minus p a) s)) c ≡ is_denied (or_else v w)
    add_denied p w e = allows_rest b a p s c ∙ rw (h.0, h.1, h.2, e) (or_else_denied v w)

    pub add_passed :
        (p : o.Conns) (w : Verdict)
        → allows p c ≡ is_passed w
        → allows (conns_or s (conns_minus (conns_minus p b) a)) c ≡ is_passed (or_else v w)
    add_passed p w e = allows_rest s b p a c ∙ rw (h.0, h.1, h.2, e) (or_else_passed v w)

    pub add_passed_swapped :
        (p : o.Conns) (w : Verdict)
        → allows p c ≡ is_passed w
        → allows (conns_or s (conns_minus (conns_minus p a) b)) c ≡ is_passed (or_else v w)
    add_passed_swapped p w e =
        allows_rest s a p b c
        ∙ ap (λ x. allows s c || x) (minus_swap (allows p c) (allows a c) (allows b c))
        ∙ rw (h.0, h.1, h.2, e) (or_else_passed v w)
