-- ===== src/Policies/Istio.antt =====
-- IstioNetworkPolicy: an authorization policy allows, or denies, what its ingress rules match.
pub mod Allowed
use network_config_analyzer.Prelude.{
  ℕ, Bool, true, false, not, Option, none, some, List, [], if◌then◌else◌,
}
use network_config_analyzer.Policies.Connectivity.{Connectivity}
use network_config_analyzer.Policies.Policy.{
  Policy, Props, PolicyConnections, clone_base, sync_with, allow_deny_connections,
}
use network_config_analyzer.Policies.Rules.{
  ActionType, action_type_eq, PeerRule, add_all, keep_rules, empty_rules, some_rule,
  containing_from,
}

module _ (o : Connectivity) where
  pub record IstioPolicy : Type 0 where
    pub base : Policy o
    pub ingress_rules : List (PeerRule o)
    pub action : ActionType

  -- The egress properties that it stores besides are never read.
  unfoldable pub sync_props : IstioPolicy → IstioPolicy
  unfolding sync_with add_all
  sync_props p = record p {
    base = sync_with o (add_all o p.action p.ingress_rules) (λ t. t) p.base;
  }

  unfoldable pub allowed_connections : Bool → IstioPolicy → IstioPolicy × PolicyConnections o
  unfolding sync_props allow_deny_connections
  allowed_connections true p =
      let p' = sync_props p in
      (p', allow_deny_connections o p'.base.selected_peers p'.base.ingress_props)
  allowed_connections false p =
      let p' = sync_props p in (p', allow_deny_connections o o.no_peers p'.base.egress_props)

  unfoldable pub clone_without_rule : PeerRule o → IstioPolicy → IstioPolicy
  unfolding keep_rules clone_base
  clone_without_rule excluded p = record {
    base = clone_base o p.base;
    ingress_rules = keep_rules o false excluded p.ingress_rules;
    action = p.action;
  }

  unfoldable pub has_empty_rules : IstioPolicy → List ℕ × List ℕ
  unfolding empty_rules
  has_empty_rules p = (empty_rules o 1 p.ingress_rules, [])

  unfoldable pub has_allow_rules : IstioPolicy → Bool
  unfolding some_rule action_type_eq
  has_allow_rules p =
      if action_type_eq p.action ActionType.deny then false else some_rule o p.ingress_rules

  unfoldable pub has_deny_rules : IstioPolicy → Bool
  unfolding some_rule action_type_eq
  has_deny_rules p =
      if action_type_eq p.action ActionType.allow then false else some_rule o p.ingress_rules

  -- `same` is `self == other_policy`; the rules are numbered from 1.
  unfoldable pub rule_containing :
      IstioPolicy → Bool → IstioPolicy → PeerRule o → ℕ → List (PeerRule o) → Option (ℕ × Bool)
  unfolding containing_from action_type_eq
  rule_containing p same other rule j rules =
      let contradict = not (action_type_eq p.action other.action) in
      let found = containing_from o same contradict rule j 1 rules in
      if not (o.is_subset other.base.selected_peers p.base.selected_peers) then none else found
