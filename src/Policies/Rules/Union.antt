-- ===== src/Policies/Rules/Union.antt =====
-- A policy whose rules all have one action decides on the connections that some rule matches.
use network_config_analyzer.Prelude.{
  ◌≡◌, refl, ap, ◌∙◌, Bool, true, false, ◌||◌, List, [], ◌∷◌, arith, if◌then◌else◌,
}
use network_config_analyzer.Policies.Connectivity.{Connectivity, ConnectivityLaws}
use network_config_analyzer.Policies.Policy.{Props, empty_props}
use network_config_analyzer.Policies.Policy.Verdict.{
  Verdict, allowed, denied, undecided, is_allowed, is_denied, is_passed,
}
use network_config_analyzer.Policies.Policy.Cache.{Gives, empty-Gives}
use network_config_analyzer.Policies.Rules.{ActionType, PeerRule, allow_all, deny_all, add_all}

or_assoc_swap : (a b c : Bool) → ((a || b) || c) ≡ (a || (b || c))
or_assoc_swap a b c = ground arith

false_or : (a b : Bool) → a ≡ false → (a || b) ≡ b
false_or a b h = ground arith

module _ (o : Connectivity) (laws : ConnectivityLaws o) where
  open laws use {Connection, allows}

  -- Some rule matches.
  abbrev pub any_match : List (PeerRule o) → Connection → Bool
  any_match [] c = false
  any_match (r ∷ rules) c = allows r.props c || any_match rules c

  -- The verdict of rules that allow, or deny, what they match.
  abbrev pub union_verdict : ActionType → List (PeerRule o) → Connection → Verdict
  union_verdict ActionType.allow rules c = if any_match rules c then allowed else undecided
  union_verdict ActionType.deny rules c = if any_match rules c then denied else undecided

  module _ (c : Connection) where
    allow_all-allows :
        (rules : List (PeerRule o)) (t : Props o)
        → (allows (allow_all o rules t).allow c ≡ (allows t.allow c || any_match rules c))
          × ((allow_all o rules t).deny ≡ t.deny)
          × ((allow_all o rules t).pass ≡ t.pass)
    unfolding allow_all
    allow_all-allows [] t = (ground arith, refl, refl)
    allow_all-allows (r ∷ rules) t =
        let (a, d, p) = allow_all-allows rules (record t { allow = o.conns_or t.allow r.props }) in
        (
          a
              ∙ ap (λ x. x || any_match rules c) (laws.allows-conns_or t.allow r.props c)
              ∙ or_assoc_swap (allows t.allow c) (allows r.props c) (any_match rules c),
          d,
          p,
        )

    deny_all-allows :
        (rules : List (PeerRule o)) (t : Props o)
        → (allows (deny_all o rules t).deny c ≡ (allows t.deny c || any_match rules c))
          × ((deny_all o rules t).allow ≡ t.allow)
          × ((deny_all o rules t).pass ≡ t.pass)
    unfolding deny_all
    deny_all-allows [] t = (ground arith, refl, refl)
    deny_all-allows (r ∷ rules) t =
        let (a, d, p) = deny_all-allows rules (record t { deny = o.conns_or t.deny r.props }) in
        (
          a
              ∙ ap (λ x. x || any_match rules c) (laws.allows-conns_or t.deny r.props c)
              ∙ or_assoc_swap (allows t.deny c) (allows r.props c) (any_match rules c),
          d,
          p,
        )

    reads_allowed :
        (x : Bool)
        → (x ≡ is_allowed (if x then allowed else undecided))
          × (false ≡ is_denied (if x then allowed else undecided))
          × (false ≡ is_passed (if x then allowed else undecided))
    reads_allowed true = (refl, refl, refl)
    reads_allowed false = (refl, refl, refl)

    reads_denied :
        (x : Bool)
        → (false ≡ is_allowed (if x then denied else undecided))
          × (x ≡ is_denied (if x then denied else undecided))
          × (false ≡ is_passed (if x then denied else undecided))
    reads_denied true = (refl, refl, refl)
    reads_denied false = (refl, refl, refl)

    pub add_all-Gives :
        (a : ActionType) (rules : List (PeerRule o))
        → Gives o laws (add_all o a rules (empty_props o)) c (union_verdict a rules c)
    unfolding add_all
    add_all-Gives ActionType.allow rules =
        let (a, d, p) = allow_all-allows rules (empty_props o) in
        let (ea, ed, ep) = empty-Gives o laws c in
        let (ra, rd, rp) = reads_allowed (any_match rules c) in
        (
          a ∙ false_or _ _ ea ∙ ra,
          ap (λ k. allows k c) d ∙ ed ∙ rd,
          ap (λ k. allows k c) p ∙ ep ∙ rp,
        )
    add_all-Gives ActionType.deny rules =
        let (a, d, p) = deny_all-allows rules (empty_props o) in
        let (ea, ed, ep) = empty-Gives o laws c in
        let (ra, rd, rp) = reads_denied (any_match rules c) in
        (
          ap (λ k. allows k c) d ∙ ea ∙ ra,
          a ∙ false_or _ _ ed ∙ rd,
          ap (λ k. allows k c) p ∙ ep ∙ rp,
        )

    pub union_verdict-not_passed :
        (a : ActionType) (rules : List (PeerRule o)) → false ≡ is_passed (union_verdict a rules c)
    union_verdict-not_passed ActionType.allow rules = (reads_allowed (any_match rules c)).2
    union_verdict-not_passed ActionType.deny rules = (reads_denied (any_match rules c)).2

    pub union_verdict-not_denied :
        (rules : List (PeerRule o)) → false ≡ is_denied (union_verdict ActionType.allow rules c)
    union_verdict-not_denied rules = (reads_allowed (any_match rules c)).1

    pub allow_all-Gives :
        (rules : List (PeerRule o))
        → Gives o laws
            (allow_all o rules (empty_props o))
            c
            (union_verdict ActionType.allow rules c)
    unfolding add_all
    allow_all-Gives rules = add_all-Gives ActionType.allow rules
