-- ===== src/Policies/Gateway.antt =====
-- GatewayPolicy: made from Ingress, Gateway and VirtualService resources, it allows, or denies, what
-- the rules of a direction match.
pub mod Allowed
use Prim.Native.String.{String}
use network_config_analyzer.Prelude.{ℕ, Bool, true, false, not, List, ◌++◌, if◌then◌else◌}
use network_config_analyzer.Policies.Connectivity.{Connectivity}
use network_config_analyzer.Policies.Policy.{
  Policy, Props, PolicyConnections, clone_base, sync_with, allow_deny_connections,
}
use network_config_analyzer.Policies.Rules.{
  ActionType, action_type_eq, PeerRule, add_all, keep_rules, empty_rules, some_rule,
}

module _ (o : Connectivity) where
  open o use {no_peers}

  pub record GatewayPolicy : Type 0 where
    pub base : Policy o
    pub ingress_rules : List (PeerRule o)
    pub egress_rules : List (PeerRule o)
    pub action : ActionType
    pub vs_file_name : String
    pub line_number : ℕ
    pub origin : String

  unfoldable pub add_ingress_rules : List (PeerRule o) → GatewayPolicy → GatewayPolicy
  add_ingress_rules rules p = record p { ingress_rules = p.ingress_rules ++ rules }

  unfoldable pub add_egress_rules : List (PeerRule o) → GatewayPolicy → GatewayPolicy
  add_egress_rules rules p = record p { egress_rules = p.egress_rules ++ rules }

  unfoldable pub sync_props : GatewayPolicy → GatewayPolicy
  unfolding sync_with add_all
  sync_props p = record p {
    base =
        sync_with o (add_all o p.action p.ingress_rules) (add_all o p.action p.egress_rules) p.base;
  }

  unfoldable pub allowed_connections : Bool → GatewayPolicy → GatewayPolicy × PolicyConnections o
  unfolding sync_props allow_deny_connections
  allowed_connections true p =
      let p' = sync_props p in
      let captured = if p'.base.affects_ingress then p'.base.selected_peers else no_peers in
      (p', allow_deny_connections o captured p'.base.ingress_props)
  allowed_connections false p =
      let p' = sync_props p in
      let captured = if p'.base.affects_egress then p'.base.selected_peers else no_peers in
      (p', allow_deny_connections o captured p'.base.egress_props)

  unfoldable pub clone_without_rule : PeerRule o → Bool → GatewayPolicy → GatewayPolicy
  unfolding keep_rules clone_base
  clone_without_rule excluded ingress_rule p = record p {
    base = clone_base o p.base;
    ingress_rules = keep_rules o (not ingress_rule) excluded p.ingress_rules;
    egress_rules = keep_rules o ingress_rule excluded p.egress_rules;
  }

  unfoldable pub has_empty_rules : GatewayPolicy → List ℕ × List ℕ
  unfolding empty_rules
  has_empty_rules p = (empty_rules o 1 p.ingress_rules, empty_rules o 1 p.egress_rules)

  unfoldable pub has_allow_rules : GatewayPolicy → Bool
  unfolding some_rule action_type_eq
  has_allow_rules p =
      let egress = some_rule o p.egress_rules in
      if action_type_eq p.action ActionType.deny
      then false
      else if some_rule o p.ingress_rules
      then true
      else egress

  unfoldable pub has_deny_rules : GatewayPolicy → Bool
  unfolding some_rule action_type_eq
  has_deny_rules p =
      let egress = some_rule o p.egress_rules in
      if action_type_eq p.action ActionType.allow
      then false
      else if some_rule o p.ingress_rules
      then true
      else egress
