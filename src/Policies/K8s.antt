-- ===== src/Policies/K8s.antt =====
-- K8sNetworkPolicy: the rules of a direction allow what they match.
pub mod Allowed
use network_config_analyzer.Prelude.{
  ℕ, Bool, true, false, not, Option, none, some, List, if◌then◌else◌,
}
use network_config_analyzer.Policies.Connectivity.{Connectivity}
use network_config_analyzer.Policies.Policy.{
  Policy, Props, PolicyConnections, clone_base, sync_with, allow_deny_connections,
}
use network_config_analyzer.Policies.Rules.{
  PeerRule, allow_all, keep_rules, empty_rules, some_rule, containing_from,
}

module _ (o : Connectivity) where
  open o use {no_peers, no_conns}

  pub record K8sPolicy : Type 0 where
    pub base : Policy o
    pub ingress_rules : List (PeerRule o)
    pub egress_rules : List (PeerRule o)

  unfoldable pub sync_props : K8sPolicy → K8sPolicy
  unfolding sync_with allow_all
  sync_props p = record p {
    base = sync_with o (allow_all o p.ingress_rules) (allow_all o p.egress_rules) p.base;
  }

  unfoldable pub only_allow : Props o → Props o
  only_allow t = record { allow = t.allow; deny = no_conns; pass = no_conns }

  unfoldable pub allowed_connections : Bool → K8sPolicy → K8sPolicy × PolicyConnections o
  unfolding sync_props allow_deny_connections only_allow
  allowed_connections true p =
      let p' = sync_props p in
      let captured = if p'.base.affects_ingress then p'.base.selected_peers else no_peers in
      (p', allow_deny_connections o captured (only_allow p'.base.ingress_props))
  allowed_connections false p =
      let p' = sync_props p in
      let captured = if p'.base.affects_egress then p'.base.selected_peers else no_peers in
      (p', allow_deny_connections o captured (only_allow p'.base.egress_props))

  unfoldable pub clone_without_rule : PeerRule o → Bool → K8sPolicy → K8sPolicy
  unfolding keep_rules clone_base
  clone_without_rule excluded ingress_rule p = record {
    base = clone_base o p.base;
    ingress_rules = keep_rules o (not ingress_rule) excluded p.ingress_rules;
    egress_rules = keep_rules o ingress_rule excluded p.egress_rules;
  }

  unfoldable pub has_empty_rules : K8sPolicy → List ℕ × List ℕ
  unfolding empty_rules
  has_empty_rules p = (empty_rules o 1 p.ingress_rules, empty_rules o 1 p.egress_rules)

  unfoldable pub is_conflicting : K8sPolicy → Bool
  is_conflicting other = false

  unfoldable pub has_allow_rules : K8sPolicy → Bool
  unfolding some_rule
  has_allow_rules p =
      let egress = some_rule o p.egress_rules in
      if some_rule o p.ingress_rules then true else egress

  -- `same` is `self == other_policy`; the rules are numbered from 1.
  unfoldable pub rule_containing :
      K8sPolicy → Bool → K8sPolicy → PeerRule o → ℕ → List (PeerRule o) → Option (ℕ × Bool)
  unfolding containing_from
  rule_containing p same other rule j rules =
      let found = containing_from o same false rule j 1 rules in
      if not (o.is_subset other.base.selected_peers p.base.selected_peers) then none else found
