-- ===== src/Networks/Config/Connections.antt =====
-- NetworkConfig.allowed_connections: what all layers allow, and filter_conns_by_peer_types.
use network_config_analyzer.Prelude.{true, false, not, ◌&&◌, [], ◌∷◌, if◌then◌else◌}
use network_config_analyzer.Policies.Connectivity.{Connectivity}
use network_config_analyzer.Policies.Policy.{
  Filter, PolicyConnections, no_connections, replace_all_allowed, and_by_filter, sub_by_filter,
}
use network_config_analyzer.Policies.NetPolicy.{Orders}
use network_config_analyzer.Networks.Layer.{
  LayerName, k8s_calico, layer_connections, get_all_peers_group, get_all_dns_entries,
}
use network_config_analyzer.Networks.Container.{
  Container, has_layer, is_default, empty_layer_allowed_connections,
}
use network_config_analyzer.Networks.Config.{policies_of_layer}

module _ (o : Connectivity) (n : Orders) where
  open o use {Peers, Conns, peers_or, some_peers, conns_or, conns_minus, conns_and}

  -- All possible connections of host endpoints.
  unfoldable pub conn_hep : Peers → Conns
  unfolding get_all_peers_group
  conn_hep peers =
      let host_eps = o.host_eps (get_all_peers_group o false false peers) in
      conns_or (o.from_peers host_eps) (o.to_peers host_eps)

  -- get_all_conns_props_per_config_peers
  unfoldable pub all_config_conns : Peers → Conns
  unfolding get_all_peers_group
  all_config_conns peers = let all = get_all_peers_group o true true peers in o.between all all

  -- `conns_res` before the loop over layers
  unfoldable pub start_connections : Peers → Filter → Container o n → PolicyConnections o
  unfolding conn_hep all_config_conns get_all_peers_group has_layer empty_layer_allowed_connections
      and_by_filter replace_all_allowed no_connections
  start_connections peers f layers =
      let host_eps = o.host_eps (get_all_peers_group o false false peers) in
      let empty_layer = empty_layer_allowed_connections o n peers k8s_calico f in
      let all = if f.calc_all_allowed then all_config_conns peers else o.no_conns in
      if some_peers host_eps && not (has_layer o n k8s_calico layers)
      then and_by_filter o (conn_hep peers) (replace_all_allowed f) empty_layer
      else record (no_connections o) { all_allowed_conns = all }

  -- Only the K8s_Calico layer handles host endpoints.
  unfoldable pub without_hep :
      LayerName → Peers → Filter → PolicyConnections o → PolicyConnections o
  unfolding is_default sub_by_filter replace_all_allowed conn_hep
  without_hep a peers f r =
      if not (is_default o n a)
      then sub_by_filter o (conn_hep peers) (replace_all_allowed f) r
      else r

  unfoldable pub add_layer_conns :
      Filter → PolicyConnections o → PolicyConnections o → PolicyConnections o
  add_layer_conns f layer r = record r {
    captured = peers_or r.captured layer.captured;
    all_allowed_conns =
        if f.calc_all_allowed
        then conns_and r.all_allowed_conns layer.all_allowed_conns
        else r.all_allowed_conns;
    allowed_conns =
        if f.calc_allowed then conns_or r.allowed_conns layer.allowed_conns else r.allowed_conns;
    denied_conns =
        if f.calc_denied then conns_or r.denied_conns layer.denied_conns else r.denied_conns;
  }

  unfoldable pub over_layers :
      Peers → Filter → Container o n → PolicyConnections o → Container o n × PolicyConnections o
  unfolding layer_connections without_hep add_layer_conns
  over_layers peers f [] r = ([], r)
  over_layers peers f ((a, ps) ∷ layers) r =
      let (ps', conns) = layer_connections o n a peers f ps in
      let (rest, r') =
        over_layers peers f layers (add_layer_conns f (without_hep a peers f conns) r) in
      ((a, ps') ∷ rest, r')

  -- allowed_connections of all layers
  unfoldable pub all_layers_connections :
      Peers → Filter → Container o n → Container o n × PolicyConnections o
  unfolding over_layers start_connections
  all_layers_connections peers f layers =
      let (layers', r) = over_layers peers f layers (start_connections peers f layers) in
      let allowed = conns_and r.allowed_conns r.all_allowed_conns in
      (layers', record r { allowed_conns = if f.calc_allowed then allowed else r.allowed_conns })

  -- allowed_connections of one layer, which may be missing
  unfoldable pub one_layer_connections :
      LayerName → Peers → Filter → Container o n → PolicyConnections o
  unfolding has_layer empty_layer_allowed_connections layer_connections policies_of_layer
  one_layer_connections a peers f layers =
      let there = (layer_connections o n a peers f (policies_of_layer o n a layers)).1 in
      if not (has_layer o n a layers) then empty_layer_allowed_connections o n peers a f else there

  unfoldable pub filter_conns_by_peer_types : Peers → Conns → Conns
  unfolding get_all_dns_entries
  filter_conns_by_peer_types peers conns =
      let dns_entries = get_all_dns_entries o peers in
      let ip_to_ip_or_dns = o.between o.all_ips (peers_or o.all_ips dns_entries) in
      conns_minus (conns_minus conns ip_to_ip_or_dns) (o.from_peers dns_entries)
