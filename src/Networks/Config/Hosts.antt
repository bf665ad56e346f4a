-- ===== src/Networks/Config/Hosts.antt =====
-- NetworkConfig.filter_conns_by_peer_types: the connections that are never allowed.
use network_config_analyzer.Prelude.{◌≡◌, ap, ap₂, ◌∙◌, not, ◌&&◌, ◌||◌}
use network_config_analyzer.Policies.Connectivity.{Connectivity, ConnectivityLaws}
use network_config_analyzer.Policies.NetPolicy.{Orders}
use network_config_analyzer.Networks.Layer.{get_all_dns_entries}
use network_config_analyzer.Networks.Layer.Istio.{is_entry}
use network_config_analyzer.Networks.Config.Connections.{filter_conns_by_peer_types}

module _ (o : Connectivity) (laws : ConnectivityLaws o) (n : Orders) where
  open laws use {Connection, has, allows, src, dst}

  -- filter_conns_by_peer_types keeps all connections but those from an address to an address or a DNS
  -- entry, and those from a DNS entry.
  pub filter_conns_by_peer_types-keeps :
      (peers : o.Peers) (conns : o.Conns) (c : Connection)
      → allows (filter_conns_by_peer_types o n peers conns) c ≡ (
          (allows conns c
            && not
                (has o.all_ips (src c) && (has o.all_ips (dst c) || is_entry o laws peers (dst c))))
          && not (is_entry o laws peers (src c)))
  unfolding filter_conns_by_peer_types get_all_dns_entries
  filter_conns_by_peer_types-keeps peers conns c =
      let entries = get_all_dns_entries o peers in
      let ip_conns = o.between o.all_ips (o.peers_or o.all_ips entries) in
      laws.allows-conns_minus (o.conns_minus conns ip_conns) (o.from_peers entries) c
      ∙ ap₂ (λ a b. a && not b)
          (laws.allows-conns_minus conns ip_conns c
            ∙ ap (λ b. allows conns c && not b)
                (laws.allows-between o.all_ips (o.peers_or o.all_ips entries) c
                  ∙ ap (λ b. has o.all_ips (src c) && b)
                      (laws.has-peers_or o.all_ips entries (dst c)
                        ∙ ap (λ b. has o.all_ips (dst c) || b)
                            (laws.has-dns_entries peers (dst c)))))
          (laws.allows-from_peers entries c ∙ laws.has-dns_entries peers (src c))
