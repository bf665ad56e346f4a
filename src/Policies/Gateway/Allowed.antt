-- ===== src/Policies/Gateway/Allowed.antt =====
-- What a gateway policy allows or denies is what its rules match.
use network_config_analyzer.Prelude.{◌≡◌, refl, ◌∙◌, Bool, true, false, List}
use network_config_analyzer.Policies.Connectivity.{Connectivity, ConnectivityLaws}
use network_config_analyzer.Policies.Policy.{empty_props, allow_deny_connections}
use network_config_analyzer.Policies.Policy.Cache.{
  IsCached, Gives, Answers, pick, sync_with-IsCached, sync_with-Gives, sync_with-captured,
}
use network_config_analyzer.Policies.Rules.{ActionType, PeerRule, add_all}
use network_config_analyzer.Policies.Rules.Union.{
  union_verdict, union_verdict-not_passed, add_all-Gives,
}
use network_config_analyzer.Policies.Gateway.{GatewayPolicy, sync_props, allowed_connections}

module _ (o : Connectivity) (laws : ConnectivityLaws o) where
  open laws use {Connection}

  -- The rules of one direction.
  abbrev pub rules_of : Bool → GatewayPolicy o → List (PeerRule o)
  rules_of is_ingress p = pick o laws is_ingress p.ingress_rules p.egress_rules

  -- Where the cache is said to hold, it is what the rules give.
  abbrev pub IsSynced : GatewayPolicy o → Type 0
  IsSynced p =
      IsCached o (add_all o p.action p.ingress_rules) (add_all o p.action p.egress_rules) p.base

  direction_Gives :
      (is_ingress : Bool) (a : ActionType) (rs ss : List (PeerRule o)) (c : Connection)
      → Gives o laws
          (pick o laws is_ingress (add_all o a rs) (add_all o a ss) (empty_props o))
          c
          (union_verdict o laws a (pick o laws is_ingress rs ss) c)
  direction_Gives true a rs ss c = add_all-Gives o laws c a rs
  direction_Gives false a rs ss c = add_all-Gives o laws c a ss

  -- allowed_connections of a policy whose cache holds, or is not in sync: it allows, or denies, as its
  -- action says, the connections that some rule of the direction matches; the captured peers are
  -- the selected ones, if the policy affects the direction; the cache of the policy afterwards
  -- holds, and its rules are as before.
  pub allowed_connections-any_match :
      (is_ingress : Bool) (p : GatewayPolicy o) (c : Connection)
      → IsSynced p
      → Answers o laws is_ingress p.base
          (allowed_connections o is_ingress p).1
          c
          (union_verdict o laws p.action (rules_of is_ingress p) c)
        × IsSynced (allowed_connections o is_ingress p).0
        × (rules_of is_ingress (allowed_connections o is_ingress p).0 ≡ rules_of is_ingress p)
  unfolding allowed_connections sync_props allow_deny_connections
  allowed_connections-any_match true p c h =
      let ingress = add_all o p.action p.ingress_rules in
      let egress = add_all o p.action p.egress_rules in
      let g =
        sync_with-Gives o laws ingress egress p.base h true c _
          (direction_Gives true p.action p.ingress_rules p.egress_rules c) in
      (
        (
          (
            g.0,
            g.1,
            laws.allows-no_conns c ∙ union_verdict-not_passed o laws c p.action p.ingress_rules,
          ),
          sync_with-captured o laws ingress egress p.base h true,
        ),
        sync_with-IsCached o ingress egress p.base h,
        refl,
      )
  allowed_connections-any_match false p c h =
      let ingress = add_all o p.action p.ingress_rules in
      let egress = add_all o p.action p.egress_rules in
      let g =
        sync_with-Gives o laws ingress egress p.base h false c _
          (direction_Gives false p.action p.ingress_rules p.egress_rules c) in
      (
        (
          (
            g.0,
            g.1,
            laws.allows-no_conns c ∙ union_verdict-not_passed o laws c p.action p.egress_rules,
          ),
          sync_with-captured o laws ingress egress p.base h false,
        ),
        sync_with-IsCached o ingress egress p.base h,
        refl,
      )
