-- ===== src/Policies/Sidecar.antt =====
-- IstioSidecar: the egress rules of a sidecar allow what they match, and it allows all that comes in.
pub mod Allowed
use network_config_analyzer.Prelude.{
  ℕ, ◌+◌, Bool, true, false, not, List, [], ◌∷◌, if◌then◌else◌, ◌==◌,
}
use network_config_analyzer.Prelude.Outcome.{Outcome, ok, ◌>>◌, assert}
use network_config_analyzer.Policies.Connectivity.{Connectivity}
use network_config_analyzer.Policies.Policy.{
  Policy, Props, PolicyConnections, clone_base, sync_with, allow_deny_connections,
}

pub data OutboundMode : Type 0 where
  allow_any registry_only : OutboundMode

module _ (o : Connectivity) where
  open o use {Peers, Conns, no_peers, all_conns, conns_or, some_peers}

  pub record SidecarRule : Type 0 where
    pub egress_peer_set : Peers
    pub special_egress_peer_set : Peers
    pub props : Conns

  pub record SidecarPolicy : Type 0 where
    pub base : Policy o
    pub egress_rules : List SidecarRule
    pub default_sidecar : Bool
    pub outbound_mode : OutboundMode

  unfoldable pub allow_all_conns : Props o → Props o
  allow_all_conns t = record t { allow = all_conns }

  unfoldable pub allow_egress : List SidecarRule → Props o → Props o
  allow_egress [] t = t
  allow_egress (r ∷ rules) t = allow_egress rules (record t { allow = conns_or t.allow r.props })

  unfoldable pub sync_props : SidecarPolicy → SidecarPolicy
  unfolding sync_with allow_egress allow_all_conns
  sync_props p = record p {
    base = sync_with o allow_all_conns (allow_egress p.egress_rules) p.base;
  }

  unfoldable pub allowed_connections : Bool → SidecarPolicy → SidecarPolicy × PolicyConnections o
  unfolding sync_props allow_deny_connections
  allowed_connections true p =
      let p' = sync_props p in (p', allow_deny_connections o no_peers p'.base.ingress_props)
  allowed_connections false p =
      let p' = sync_props p in
      let captured = if p'.base.affects_egress then p'.base.selected_peers else no_peers in
      (p', allow_deny_connections o captured p'.base.egress_props)

  -- `==` of the dataclass IstioSidecarRule compares its fields, and the class declares none.
  unfoldable pub rule_eq : SidecarRule → SidecarRule → Bool
  rule_eq r s = true

  unfoldable pub without_rule : SidecarRule → List SidecarRule → List SidecarRule
  unfolding rule_eq
  without_rule excluded [] = []
  without_rule excluded (r ∷ rules) =
      let rest = without_rule excluded rules in if not (rule_eq r excluded) then r ∷ rest else rest

  -- The copy's outbound_mode is the default.
  unfoldable pub clone_without_rule : SidecarRule → Bool → SidecarPolicy → Outcome SidecarPolicy
  unfolding clone_base without_rule
  clone_without_rule excluded ingress_rule p =
      assert (not ingress_rule)
      >> ok (record {
        base = clone_base o p.base;
        egress_rules = without_rule excluded p.egress_rules;
        default_sidecar = p.default_sidecar;
        outbound_mode = allow_any;
      })

  unfoldable pub empty_egress_rules : ℕ → List SidecarRule → List ℕ
  empty_egress_rules i [] = []
  empty_egress_rules i (r ∷ rules) =
      let rest = empty_egress_rules (i + 1) rules in
      if not (some_peers r.egress_peer_set) then i ∷ rest else rest

  unfoldable pub has_empty_rules : SidecarPolicy → List ℕ × List ℕ
  unfolding empty_egress_rules
  has_empty_rules p = ([], empty_egress_rules 1 p.egress_rules)
