-- ===== src/Policies/K8s/Allowed.antt =====
-- What a K8s policy allows is what its rules match.
use network_config_analyzer.Prelude.{◌≡◌, refl, ◌∙◌, Bool, true, false, List}
use network_config_analyzer.Policies.Connectivity.{Connectivity, ConnectivityLaws}
use network_config_analyzer.Policies.Policy.{empty_props, allow_deny_connections}
use network_config_analyzer.Policies.Policy.Cache.{
  IsCached, Gives, Answers, pick, sync_with-IsCached, sync_with-Gives, sync_with-captured,
}
use network_config_analyzer.Policies.Rules.{ActionType, PeerRule, allow_all}
use network_config_analyzer.Policies.Rules.Union.{
  union_verdict, union_verdict-not_denied, union_verdict-not_passed, allow_all-Gives,
}
use network_config_analyzer.Policies.K8s.{K8sPolicy, sync_props, only_allow, allowed_connections}

module _ (o : Connectivity) (laws : ConnectivityLaws o) where
  open laws use {Connection}

  -- The rules of one direction.
  abbrev pub rules_of : Bool → K8sPolicy o → List (PeerRule o)
  rules_of is_ingress p = pick o laws is_ingress p.ingress_rules p.egress_rules

  -- Where the cache is said to hold, it is what the rules give.
  abbrev pub IsSynced : K8sPolicy o → Type 0
  IsSynced p = IsCached o (allow_all o p.ingress_rules) (allow_all o p.egress_rules) p.base

  direction_Gives :
      (is_ingress : Bool) (rs ss : List (PeerRule o)) (c : Connection)
      → Gives o laws
          (pick o laws is_ingress (allow_all o rs) (allow_all o ss) (empty_props o))
          c
          (union_verdict o laws ActionType.allow (pick o laws is_ingress rs ss) c)
  direction_Gives true rs ss c = allow_all-Gives o laws c rs
  direction_Gives false rs ss c = allow_all-Gives o laws c ss

  -- allowed_connections of a policy whose cache holds, or is not in sync: it allows the connections
  -- that some rule of the direction matches, and denies and passes none; the captured peers are the
  -- selected ones, if the policy affects the direction; the cache of the policy afterwards holds,
  -- and its rules are as before.
  pub allowed_connections-any_match :
      (is_ingress : Bool) (p : K8sPolicy o) (c : Connection)
      → IsSynced p
      → Answers o laws is_ingress p.base
          (allowed_connections o is_ingress p).1
          c
          (union_verdict o laws ActionType.allow (rules_of is_ingress p) c)
        × IsSynced (allowed_connections o is_ingress p).0
        × (rules_of is_ingress (allowed_connections o is_ingress p).0 ≡ rules_of is_ingress p)
  unfolding allowed_connections sync_props allow_deny_connections only_allow
  allowed_connections-any_match true p c h =
      let ingress = allow_all o p.ingress_rules in
      let egress = allow_all o p.egress_rules in
      let g =
        sync_with-Gives o laws ingress egress p.base h true c _
          (direction_Gives true p.ingress_rules p.egress_rules c) in
      (
        (
          (
            g.0,
            laws.allows-no_conns c ∙ union_verdict-not_denied o laws c p.ingress_rules,
            laws.allows-no_conns c
                ∙ union_verdict-not_passed o laws c ActionType.allow p.ingress_rules,
          ),
          sync_with-captured o laws ingress egress p.base h true,
        ),
        sync_with-IsCached o ingress egress p.base h,
        refl,
      )
  allowed_connections-any_match false p c h =
      let ingress = allow_all o p.ingress_rules in
      let egress = allow_all o p.egress_rules in
      let g =
        sync_with-Gives o laws ingress egress p.base h false c _
          (direction_Gives false p.ingress_rules p.egress_rules c) in
      (
        (
          (
            g.0,
            laws.allows-no_conns c ∙ union_verdict-not_denied o laws c p.egress_rules,
            laws.allows-no_conns c
                ∙ union_verdict-not_passed o laws c ActionType.allow p.egress_rules,
          ),
          sync_with-captured o laws ingress egress p.base h false,
        ),
        sync_with-IsCached o ingress egress p.base h,
        refl,
      )
