-- ===== src/Policies/Sidecar/Allowed.antt =====
-- What a sidecar allows out is what its rules match.
use network_config_analyzer.Prelude.{
  ◌≡◌, refl, ap, ◌∙◌, Bool, true, false, ◌||◌, List, [], ◌∷◌, if◌then◌else◌, arith,
}
use network_config_analyzer.Policies.Connectivity.{Connectivity, ConnectivityLaws}
use network_config_analyzer.Policies.Policy.{Props, empty_props, allow_deny_connections}
use network_config_analyzer.Policies.Policy.Verdict.{
  Verdict, allowed, undecided, is_allowed, is_denied, is_passed,
}
use network_config_analyzer.Policies.Policy.Cache.{
  IsCached, Gives, empty-Gives, Says, pick, captured_by, sync_with-IsCached, sync_with-Gives,
  sync_with-captured,
}
use network_config_analyzer.Policies.Sidecar.{
  SidecarRule, SidecarPolicy, allow_all_conns, allow_egress, sync_props, allowed_connections,
}

if_verdict :
    (x : Bool)
    → (x ≡ is_allowed (if x then allowed else undecided))
      × (false ≡ is_denied (if x then allowed else undecided))
      × (false ≡ is_passed (if x then allowed else undecided))
if_verdict true = (refl, refl, refl)
if_verdict false = (refl, refl, refl)

or_join : (a b c : Bool) → ((a || b) || c) ≡ (a || (b || c))
or_join a b c = ground arith

or_first : (a b : Bool) → a ≡ false → (a || b) ≡ b
or_first a b h = ground arith

module _ (o : Connectivity) (laws : ConnectivityLaws o) where
  open laws use {Connection, allows}

  -- Some rule matches.
  abbrev pub any_rule : List (SidecarRule o) → Connection → Bool
  any_rule [] c = false
  any_rule (r ∷ rules) c = allows r.props c || any_rule rules c

  -- Where the cache is said to hold, it is what the rules give.
  abbrev pub IsSynced : SidecarPolicy o → Type 0
  IsSynced p = IsCached o (allow_all_conns o) (allow_egress o p.egress_rules) p.base

  -- All connections within the domains come in; those go out that some rule matches.
  abbrev pub verdict_of : Bool → SidecarPolicy o → Connection → Verdict
  verdict_of is_ingress p c =
      if pick o laws is_ingress (laws.in_domain c) (any_rule p.egress_rules c)
      then allowed
      else undecided

  allow_egress-allows :
      (c : Connection) (rules : List (SidecarRule o)) (t : Props o)
      → (allows (allow_egress o rules t).allow c ≡ (allows t.allow c || any_rule rules c))
        × ((allow_egress o rules t).deny ≡ t.deny)
        × ((allow_egress o rules t).pass ≡ t.pass)
  unfolding allow_egress
  allow_egress-allows c [] t = (ground arith, refl, refl)
  allow_egress-allows c (r ∷ rules) t =
      let (a, d, p) =
        allow_egress-allows c rules (record t { allow = o.conns_or t.allow r.props }) in
      (
        a
            ∙ ap (λ x. x || any_rule rules c) (laws.allows-conns_or t.allow r.props c)
            ∙ or_join (allows t.allow c) (allows r.props c) (any_rule rules c),
        d,
        p,
      )

  egress_Gives :
      (c : Connection) (rules : List (SidecarRule o))
      → Gives o laws
          (allow_egress o rules (empty_props o))
          c
          (if any_rule rules c then allowed else undecided)
  egress_Gives c rules =
      let (a, d, p) = allow_egress-allows c rules (empty_props o) in
      let (ea, ed, ep) = empty-Gives o laws c in
      let (ra, rd, rp) = if_verdict (any_rule rules c) in
      (a ∙ or_first _ _ ea ∙ ra, ap (λ k. allows k c) d ∙ ed ∙ rd, ap (λ k. allows k c) p ∙ ep ∙ rp)

  ingress_Gives :
      (c : Connection)
      → Gives o laws
          (allow_all_conns o (empty_props o))
          c
          (if laws.in_domain c then allowed else undecided)
  unfolding allow_all_conns
  ingress_Gives c =
      let (ea, ed, ep) = empty-Gives o laws c in
      let (ra, rd, rp) = if_verdict (laws.in_domain c) in
      (laws.allows-all_conns c ∙ ra, ed ∙ rd, ep ∙ rp)

  -- allowed_connections of a sidecar whose cache holds, or is not in sync: for egress it allows the
  -- connections that some rule matches and captures the selected peers, if it affects egress; for
  -- ingress it allows all connections within the domains and captures no peers. It denies and passes
  -- none. The cache afterwards holds, and the rules are as before.
  pub allowed_connections-any_rule :
      (is_ingress : Bool) (p : SidecarPolicy o) (c : Connection)
      → IsSynced p
      → Says o laws (allowed_connections o is_ingress p).1 c (verdict_of is_ingress p c)
        × ((allowed_connections o is_ingress p).1.captured
            ≡ pick o laws is_ingress o.no_peers (captured_by o laws false p.base))
        × IsSynced (allowed_connections o is_ingress p).0
        × ((allowed_connections o is_ingress p).0.egress_rules ≡ p.egress_rules)
  unfolding allowed_connections sync_props allow_deny_connections
  allowed_connections-any_rule true p c h =
      let egress = allow_egress o p.egress_rules in
      let g =
        sync_with-Gives o laws (allow_all_conns o) egress p.base h true c _ (ingress_Gives c) in
      (
        (g.0, g.1, laws.allows-no_conns c ∙ (if_verdict (laws.in_domain c)).2),
        refl,
        sync_with-IsCached o (allow_all_conns o) egress p.base h,
        refl,
      )
  allowed_connections-any_rule false p c h =
      let egress = allow_egress o p.egress_rules in
      let g =
        sync_with-Gives o laws (allow_all_conns o) egress p.base h false c _
          (egress_Gives c p.egress_rules) in
      (
        (g.0, g.1, laws.allows-no_conns c ∙ (if_verdict (any_rule p.egress_rules c)).2),
        sync_with-captured o laws (allow_all_conns o) egress p.base h false,
        sync_with-IsCached o (allow_all_conns o) egress p.base h,
        refl,
      )
