-- ===== src/Networks/Layer.antt =====
-- NetworkLayer: the policies of a layer in their order, and what they make of connections together.
-- Messages of ExplTracker are left out.
pub mod Order
pub mod Kinds
pub mod Collect
pub mod Authorization
pub mod K8s
pub mod Istio
pub mod Mesh
pub mod Allowed
pub mod Directions
use network_config_analyzer.Prelude.{
  Bool, true, false, not, ◌&&◌, ◌||◌, Option, none, some, List, [], ◌∷◌, if◌then◌else◌,
}
use network_config_analyzer.Policies.Connectivity.{Connectivity}
use network_config_analyzer.Policies.Policy.{
  PolicyType, Policy, PolicyConnections, Filter, no_connections,
}
use network_config_analyzer.Policies.Rules.{ActionType, action_type_eq}
use network_config_analyzer.Policies.NetPolicy.{
  Orders, NetPolicy, of_k8s, of_calico, of_istio, of_sidecar, of_gateway, base_of, policy_lt,
  allowed_connections,
}
use network_config_analyzer.Policies.Order.{insort}

pub data LayerName : Type 0 where
  k8s_calico istio k8s_gateway istio_gateway : LayerName

unfoldable pub policy_type_to_layer : PolicyType → Option LayerName
policy_type_to_layer PolicyType.k8s_network_policy = some k8s_calico
policy_type_to_layer PolicyType.calico_network_policy = some k8s_calico
policy_type_to_layer PolicyType.calico_global_network_policy = some k8s_calico
policy_type_to_layer PolicyType.calico_profile = some k8s_calico
policy_type_to_layer PolicyType.istio_authorization_policy = some istio
policy_type_to_layer PolicyType.istio_sidecar = some istio
policy_type_to_layer PolicyType.ingress = some k8s_gateway
policy_type_to_layer PolicyType.gateway_policy = some istio_gateway
policy_type_to_layer PolicyType.unknown = none
policy_type_to_layer PolicyType.gateway = none
policy_type_to_layer PolicyType.virtual_service = none
policy_type_to_layer PolicyType.policy_list = none

module _ (o : Connectivity) where
  open o use {
    Peers, Conns, peers_or, peers_minus, peers_and, some_peers, conns_or, conns_minus, conns_and,
    some_conns, between, tcp_between, non_tcp_between,
  }

  -- get_all_peers_group of a container with these peers; global peers are always included here.
  unfoldable pub get_all_peers_group : Bool → Bool → Peers → Peers
  get_all_peers_group add_external_ips include_dns_entries peers =
      let res = if include_dns_entries then peers else o.no_dns_entries peers in
      if add_external_ips then peers_or res o.all_ips else res

  unfoldable pub get_all_dns_entries : Peers → Peers
  get_all_dns_entries peers = o.dns_entries peers

  -- One round of collect_policies_conns_optimized: `counts` is whether captured_func holds.
  unfoldable pub add_policy_conns :
      Bool → PolicyConnections o → PolicyConnections o → PolicyConnections o
  add_policy_conns counts pc r =
      let denied = conns_minus (conns_minus pc.denied_conns r.allowed_conns) r.pass_conns in
      let allowed = conns_minus (conns_minus pc.allowed_conns r.denied_conns) r.pass_conns in
      let pass = conns_minus (conns_minus pc.pass_conns r.denied_conns) r.allowed_conns in
      if some_peers pc.captured
      then record r {
        captured = if counts then peers_or r.captured pc.captured else r.captured;
        allowed_conns = conns_or r.allowed_conns allowed;
        denied_conns = conns_or r.denied_conns denied;
        pass_conns = conns_or r.pass_conns pass;
      }
      else r

  -- The connections that the rest of a layer's calculation makes of `between` ends: `base` is the
  -- end that a policy of the direction captures.
  unfoldable pub conns_of : Bool → Peers → Peers → Conns
  conns_of true base others = between others base
  conns_of false base others = between base others

  -- K8sCalicoNetworkLayer._allowed_xgress_conns, after the policies are collected.
  unfoldable pub k8s_defaults : Bool → Peers → Filter → PolicyConnections o → PolicyConnections o
  unfolding get_all_peers_group conns_of
  k8s_defaults is_ingress peers f r =
      let all_peers_and_ips = get_all_peers_group true true peers in
      let base_peer_set_no_hep = o.no_host_eps (get_all_peers_group false true peers) in
      let not_captured_not_hep = peers_minus base_peer_set_no_hep r.captured in
      let captured_not_hep = peers_and base_peer_set_no_hep r.captured in
      let default = conns_of is_ingress not_captured_not_hep all_peers_and_ips in
      let passed =
        conns_and r.pass_conns (conns_of is_ingress captured_not_hep all_peers_and_ips) in
      let all_allowed =
        if some_peers not_captured_not_hep && f.calc_all_allowed
        then conns_or r.all_allowed_conns default
        else r.all_allowed_conns in
      let allowed =
        if some_peers captured_not_hep && some_conns r.pass_conns
        then conns_or r.allowed_conns passed
        else r.allowed_conns in
      record r {
        allowed_conns = allowed;
        all_allowed_conns =
            if f.calc_all_allowed then conns_or all_allowed allowed else all_allowed;
      }

  -- The connections by which IstioNetworkLayer lets non-captured peers go on.
  unfoldable pub istio_non_captured : Bool → Peers → PolicyConnections o → Peers → Conns
  unfolding get_all_peers_group get_all_dns_entries
  istio_non_captured true peers r non_captured =
      let all_peers_and_ips = get_all_peers_group true false peers in
      let dns = peers_minus (get_all_dns_entries peers) r.captured in
      let conns = conns_minus (between all_peers_and_ips non_captured) r.denied_conns in
      if some_peers dns
      then conns_or conns (conns_minus (tcp_between all_peers_and_ips dns) r.denied_conns)
      else conns
  istio_non_captured false peers r non_captured =
      let all_peers_and_ips = get_all_peers_group true false peers in
      let conns = between non_captured all_peers_and_ips in
      let dns_conns = tcp_between non_captured (get_all_dns_entries peers) in
      conns_minus (conns_or conns dns_conns) r.denied_conns

  -- IstioNetworkLayer._allowed_xgress_conns, after the policies are collected.
  unfoldable pub istio_defaults : Bool → Peers → Filter → PolicyConnections o → PolicyConnections o
  unfolding get_all_peers_group istio_non_captured
  istio_defaults is_ingress peers f r =
      let all_peers_and_ips = get_all_peers_group true false peers in
      let non_tcp = non_tcp_between all_peers_and_ips all_peers_and_ips in
      let all_allowed = conns_or r.all_allowed_conns (conns_or r.allowed_conns non_tcp) in
      let non_captured = peers_minus (get_all_peers_group false false peers) r.captured in
      let more = istio_non_captured is_ingress peers r non_captured in
      let widened = if some_peers non_captured then conns_or all_allowed more else all_allowed in
      if not f.calc_all_allowed then r else record r { all_allowed_conns = widened }

  -- NetworkLayer.allowed_connections, of the connections of both directions.
  unfoldable pub both_directions :
      Peers → Filter → PolicyConnections o → PolicyConnections o → PolicyConnections o
  unfolding get_all_peers_group no_connections
  both_directions peers f ingress_conns egress_conns =
      let pods = get_all_peers_group false false peers in
      let ingress_all = conns_or ingress_conns.all_allowed_conns (between pods o.all_ips) in
      let egress_all = conns_or egress_conns.all_allowed_conns (between o.all_ips pods) in
      let in_all = if f.calc_all_allowed then ingress_all else ingress_conns.all_allowed_conns in
      let out_all = if f.calc_all_allowed then egress_all else egress_conns.all_allowed_conns in
      record {
        captured = peers_or ingress_conns.captured egress_conns.captured;
        allowed_conns =
            if f.calc_allowed
            then conns_or (conns_and ingress_conns.allowed_conns out_all)
                (conns_and egress_conns.allowed_conns in_all)
            else o.no_conns;
        denied_conns =
            if f.calc_denied
            then conns_or ingress_conns.denied_conns egress_conns.denied_conns
            else o.no_conns;
        pass_conns = o.no_conns;
        all_allowed_conns = if f.calc_all_allowed then conns_and in_all out_all else o.no_conns;
      }

  module _ (n : Orders) where
    -- The action that a policy has; only those of two classes have one.
    unfoldable pub is_allow_policy : NetPolicy o n → Bool
    unfolding action_type_eq
    is_allow_policy (of_istio p) = action_type_eq p.action ActionType.allow
    is_allow_policy (of_gateway p) = action_type_eq p.action ActionType.allow
    is_allow_policy (of_k8s p) = true
    is_allow_policy (of_calico p) = true
    is_allow_policy (of_sidecar p) = true

    unfoldable pub captured_cond_func : PolicyType → NetPolicy o n → Bool
    unfolding is_allow_policy
    captured_cond_func PolicyType.istio_authorization_policy p = is_allow_policy p
    captured_cond_func PolicyType.gateway_policy p = is_allow_policy p
    captured_cond_func PolicyType.unknown p = true
    captured_cond_func PolicyType.k8s_network_policy p = true
    captured_cond_func PolicyType.calico_network_policy p = true
    captured_cond_func PolicyType.calico_global_network_policy p = true
    captured_cond_func PolicyType.calico_profile p = true
    captured_cond_func PolicyType.istio_sidecar p = true
    captured_cond_func PolicyType.ingress p = true
    captured_cond_func PolicyType.gateway p = true
    captured_cond_func PolicyType.virtual_service p = true
    captured_cond_func PolicyType.policy_list p = true

    -- IstioNetworkLayer.captured_cond_func, and what other layers have in its place.
    unfoldable pub captured_func : LayerName → NetPolicy o n → Bool
    unfolding captured_cond_func base_of
    captured_func k8s_calico p = true
    captured_func k8s_gateway p = true
    captured_func istio p = captured_cond_func (base_of o n p).policy_kind p
    captured_func istio_gateway p = captured_cond_func (base_of o n p).policy_kind p

    unfoldable pub collect_policies_conns :
        LayerName
        → Bool
        → List (NetPolicy o n)
        → PolicyConnections o
        → List (NetPolicy o n) × PolicyConnections o
    unfolding captured_func add_policy_conns
    collect_policies_conns layer is_ingress [] r = ([], r)
    collect_policies_conns layer is_ingress (p ∷ policies) r =
        let (p', pc) = allowed_connections o n is_ingress p in
        let (rest, r') =
          collect_policies_conns layer is_ingress policies
            (add_policy_conns (captured_func layer p') pc r) in
        (p' ∷ rest, r')

    unfoldable pub defaults :
        LayerName → Bool → Peers → Filter → PolicyConnections o → PolicyConnections o
    unfolding k8s_defaults istio_defaults
    defaults k8s_calico = k8s_defaults
    defaults k8s_gateway = k8s_defaults
    defaults istio = istio_defaults
    defaults istio_gateway = istio_defaults

    unfoldable pub allowed_xgress_conns :
        LayerName
        → Bool
        → Peers
        → Filter
        → List (NetPolicy o n)
        → List (NetPolicy o n) × PolicyConnections o
    unfolding collect_policies_conns defaults no_connections
    allowed_xgress_conns layer is_ingress peers f policies =
        let (policies', r) = collect_policies_conns layer is_ingress policies (no_connections o) in
        (policies', defaults layer is_ingress peers f r)

    unfoldable pub layer_connections :
        LayerName
        → Peers
        → Filter
        → List (NetPolicy o n)
        → List (NetPolicy o n) × PolicyConnections o
    unfolding allowed_xgress_conns both_directions
    layer_connections layer peers f policies =
        let (policies', ingress_conns) = allowed_xgress_conns layer true peers f policies in
        let (policies'', egress_conns) = allowed_xgress_conns layer false peers f policies' in
        (policies'', both_directions peers f ingress_conns egress_conns)

    -- NetworkLayer.add_policy
    unfoldable pub add_policy : NetPolicy o n → List (NetPolicy o n) → List (NetPolicy o n)
    unfolding insort policy_lt
    add_policy p policies = insort (policy_lt o n) p policies
