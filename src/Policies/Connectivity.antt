-- ===== src/Policies/Connectivity.antt =====
-- What policies, layers and configurations ask of PeerSet and ConnectivityProperties. The operations
-- are a record, and their laws, by the peers in a set and the connections that a property allows, a
-- second one.
use network_config_analyzer.Prelude.{◌≡◌, ◌↔◌, Bool, true, false, not, ◌&&◌, ◌||◌}

pub record Connectivity : Type 1 where
  pub Peers : Type 0
  pub Conns : Type 0
  -- PeerSet: `PeerSet()`, `|`, `-`, `&`, `bool`, `==`, `issubset`
  pub no_peers : Peers
  pub peers_or : Peers → Peers → Peers
  pub peers_minus : Peers → Peers → Peers
  pub peers_and : Peers → Peers → Peers
  pub some_peers : Peers → Bool
  pub peers_eq : Peers → Peers → Bool
  pub is_subset : Peers → Peers → Bool
  -- The host endpoints of a set, and the other peers.
  pub host_eps : Peers → Peers
  pub no_host_eps : Peers → Peers
  -- The DNS entries of a set, the other peers, and get_all_ips_block.
  pub dns_entries : Peers → Peers
  pub no_dns_entries : Peers → Peers
  pub all_ips : Peers
  -- ConnectivityProperties: `ConnectivityProperties()`, `|`, `-`, `&`, `bool`, `==`, contained_in
  pub no_conns : Conns
  -- get_all_conns_props_per_domain_peers
  pub all_conns : Conns
  pub conns_or : Conns → Conns → Conns
  pub conns_minus : Conns → Conns → Conns
  pub conns_and : Conns → Conns → Conns
  pub some_conns : Conns → Bool
  pub conns_eq : Conns → Conns → Bool
  pub contained_in : Conns → Conns → Bool
  -- make_conn_props_from_dict of both peer sets, of one, and with the protocols TCP or all others
  pub between : Peers → Peers → Conns
  pub from_peers : Peers → Conns
  pub to_peers : Peers → Conns
  pub tcp_between : Peers → Peers → Conns
  pub non_tcp_between : Peers → Peers → Conns

pub record ConnectivityLaws (o : Connectivity) : Type 1 where
  pub Peer : Type 0
  -- A connection, with its ends and its protocol.
  pub Connection : Type 0
  pub src : Connection → Peer
  pub dst : Connection → Peer
  pub is_tcp : Connection → Bool
  pub is_host : Peer → Bool
  pub has : o.Peers → Peer → Bool
  pub allows : o.Conns → Connection → Bool
  pub has-no_peers : (x : Peer) → has o.no_peers x ≡ false
  pub has-peers_or : (p q : o.Peers) (x : Peer) → has (o.peers_or p q) x ≡ (has p x || has q x)
  pub has-peers_minus :
      (p q : o.Peers) (x : Peer) → has (o.peers_minus p q) x ≡ (has p x && not (has q x))
  pub has-peers_and : (p q : o.Peers) (x : Peer) → has (o.peers_and p q) x ≡ (has p x && has q x)
  pub has-not_some : (p : o.Peers) (x : Peer) → o.some_peers p ≡ false → has p x ≡ false
  pub some_peers-has : (p : o.Peers) → o.some_peers p ≡ true → (x : Peer) × (has p x ≡ true)
  pub has-host_eps : (p : o.Peers) (x : Peer) → has (o.host_eps p) x ≡ (has p x && is_host x)
  pub has-no_host_eps :
      (p : o.Peers) (x : Peer) → has (o.no_host_eps p) x ≡ (has p x && not (is_host x))
  pub is_dns : Peer → Bool
  pub has-dns_entries : (p : o.Peers) (x : Peer) → has (o.dns_entries p) x ≡ (has p x && is_dns x)
  pub has-no_dns_entries :
      (p : o.Peers) (x : Peer) → has (o.no_dns_entries p) x ≡ (has p x && not (is_dns x))
  pub allows-no_conns : (c : Connection) → allows o.no_conns c ≡ false
  -- Whether both ends are in the domains that the DimensionsManager has for peers.
  pub in_domain : Connection → Bool
  pub allows-all_conns : (c : Connection) → allows o.all_conns c ≡ in_domain c
  pub allows-conns_or :
      (a b : o.Conns) (c : Connection) → allows (o.conns_or a b) c ≡ (allows a c || allows b c)
  pub allows-conns_minus :
      (a b : o.Conns) (c : Connection)
      → allows (o.conns_minus a b) c ≡ (allows a c && not (allows b c))
  pub allows-conns_and :
      (a b : o.Conns) (c : Connection) → allows (o.conns_and a b) c ≡ (allows a c && allows b c)
  pub allows-not_some : (a : o.Conns) (c : Connection) → o.some_conns a ≡ false → allows a c ≡ false
  pub contained_in_iff :
      (a b : o.Conns)
      → (o.contained_in a b ≡ true) ↔ ((c : Connection) → allows a c ≡ true → allows b c ≡ true)
  pub allows-between :
      (p q : o.Peers) (c : Connection) → allows (o.between p q) c ≡ (has p (src c) && has q (dst c))
  pub allows-from_peers : (p : o.Peers) (c : Connection) → allows (o.from_peers p) c ≡ has p (src c)
  pub allows-to_peers : (p : o.Peers) (c : Connection) → allows (o.to_peers p) c ≡ has p (dst c)
  pub allows-tcp_between :
      (p q : o.Peers) (c : Connection)
      → allows (o.tcp_between p q) c ≡ (has p (src c) && has q (dst c) && is_tcp c)
  pub allows-non_tcp_between :
      (p q : o.Peers) (c : Connection)
      → allows (o.non_tcp_between p q) c ≡ (has p (src c) && has q (dst c) && not (is_tcp c))
