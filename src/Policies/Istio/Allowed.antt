-- ===== src/Policies/Istio/Allowed.antt =====
-- What an authorization policy allows or denies is what its rules match.
use network_config_analyzer.Prelude.{◌≡◌, refl, ◌∙◌, Bool, true, false}
use network_config_analyzer.Policies.Connectivity.{Connectivity, ConnectivityLaws}
use network_config_analyzer.Policies.Policy.{allow_deny_connections}
use network_config_analyzer.Policies.Policy.Verdict.{Verdict, undecided}
use network_config_analyzer.Policies.Policy.Cache.{
  IsCached, empty-Gives, Says, pick, sync_with-IsCached, sync_with-Gives, sync_with-selected,
}
use network_config_analyzer.Policies.Rules.{add_all}
use network_config_analyzer.Policies.Rules.Union.{
  union_verdict, union_verdict-not_passed, add_all-Gives,
}
use network_config_analyzer.Policies.Istio.{IstioPolicy, sync_props, allowed_connections}

module _ (o : Connectivity) (laws : ConnectivityLaws o) where
  open laws use {Connection}

  -- Where the cache is said to hold, it is what the rules give.
  abbrev pub IsSynced : IstioPolicy o → Type 0
  IsSynced p = IsCached o (add_all o p.action p.ingress_rules) (λ t. t) p.base

  -- The verdict of the rules on incoming connections. There are none on outgoing ones.
  abbrev pub verdict_of : Bool → IstioPolicy o → Connection → Verdict
  verdict_of is_ingress p c =
      pick o laws is_ingress (union_verdict o laws p.action p.ingress_rules c) undecided

  -- allowed_connections of a policy whose cache holds, or is not in sync: for ingress it allows, or
  -- denies, as its action says, the connections that some rule matches, and captures the selected
  -- peers; for egress it neither allows nor denies any and captures no peers. The cache afterwards
  -- holds, and the rules and the action are as before.
  pub allowed_connections-any_match :
      (is_ingress : Bool) (p : IstioPolicy o) (c : Connection)
      → IsSynced p
      → Says o laws (allowed_connections o is_ingress p).1 c (verdict_of is_ingress p c)
        × ((allowed_connections o is_ingress p).1.captured
            ≡ pick o laws is_ingress p.base.selected_peers o.no_peers)
        × IsSynced (allowed_connections o is_ingress p).0
        × ((allowed_connections o is_ingress p).0.ingress_rules ≡ p.ingress_rules)
        × ((allowed_connections o is_ingress p).0.action ≡ p.action)
  unfolding allowed_connections sync_props allow_deny_connections
  allowed_connections-any_match true p c h =
      let ingress = add_all o p.action p.ingress_rules in
      let g =
        sync_with-Gives o laws ingress (λ t. t) p.base h true c _
          (add_all-Gives o laws c p.action p.ingress_rules) in
      (
        (
          g.0,
          g.1,
          laws.allows-no_conns c ∙ union_verdict-not_passed o laws c p.action p.ingress_rules,
        ),
        sync_with-selected o laws ingress (λ t. t) p.base h,
        sync_with-IsCached o ingress (λ t. t) p.base h,
        refl,
        refl,
      )
  allowed_connections-any_match false p c h =
      let ingress = add_all o p.action p.ingress_rules in
      let g =
        sync_with-Gives o laws ingress (λ t. t) p.base h false c undecided (empty-Gives o laws c) in
      (
        (g.0, g.1, laws.allows-no_conns c),
        refl,
        sync_with-IsCached o ingress (λ t. t) p.base h,
        refl,
        refl,
      )
