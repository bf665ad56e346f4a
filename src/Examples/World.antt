-- ===== src/Examples/World.antt =====
-- A world of four peers, a pod, a node, all addresses and a DNS entry, with and without TCP: sets of
-- peers and properties are tests. It satisfies the laws that policies and layers ask for.
use network_config_analyzer.Prelude.{◌≡◌, ◌↔◌, refl, ap, Bool, true, false, not, ◌&&◌, ◌||◌, arith}
use network_config_analyzer.Policies.Connectivity.{Connectivity, ConnectivityLaws}

pub data Peer : Type 0 where
  pod node net entry : Peer

pub record Connection : Type 0 where
  pub src : Peer
  pub dst : Peer
  pub tcp : Bool

abbrev pub connection : Peer → Peer → Connection
connection s d = record { src = s; dst = d; tcp = true }

abbrev pub any_peer : (Peer → Bool) → Bool
any_peer q = (q pod || q node) || (q net || q entry)

pub no_peer : (q : Peer → Bool) (x : Peer) → any_peer q ≡ false → q x ≡ false
no_peer q pod h = ground arith
no_peer q node h = ground arith
no_peer q net h = ground arith
no_peer q entry h = ground arith

none_of : (q : Peer → Bool) → ((x : Peer) → q x ≡ false) → any_peer q ≡ false
none_of q h = rw (h pod, h node, h net, h entry) refl

pub some_of : (q : Peer → Bool) → any_peer q ≡ true → (x : Peer) × (q x ≡ true)
some_of q h = pick (q pod) (q node) (q net) (q entry) refl refl refl refl h
  where
    pick :
        (a b c d : Bool)
        → q pod ≡ a
        → q node ≡ b
        → q net ≡ c
        → q entry ≡ d
        → ((a || b) || (c || d)) ≡ true
        → (x : Peer) × (q x ≡ true)
    pick true b c d ea eb ec ed k = (pod, ea)
    pick false true c d ea eb ec ed k = (node, eb)
    pick false false true d ea eb ec ed k = (net, ec)
    pick false false false true ea eb ec ed k = (entry, ed)
    pick false false false false ea eb ec ed k = absurd (ground arith)

abbrev pub with_protocol : (Connection → Bool) → Peer → Peer → Bool → Bool
with_protocol k s d t = k (record { src = s; dst = d; tcp = t })

abbrev pub any_connection : (Connection → Bool) → Bool
any_connection k =
    any_peer (λ s. any_peer (λ d. with_protocol k s d true || with_protocol k s d false))

either : (k : Bool → Bool) (t : Bool) → (k true || k false) ≡ false → k t ≡ false
either k true h = ground arith
either k false h = ground arith

pub no_connection :
    (k : Connection → Bool) (c : Connection) → any_connection k ≡ false → k c ≡ false
no_connection k c h = either (with_protocol k c.src c.dst) c.tcp (
    no_peer (λ d. with_protocol k c.src d true || with_protocol k c.src d false) c.dst
      (no_peer (λ s. any_peer (λ d. with_protocol k s d true || with_protocol k s d false)) c.src
        h))

no_connections_at_all :
    (k : Connection → Bool) → ((c : Connection) → k c ≡ false) → any_connection k ≡ false
no_connections_at_all k h = none_of _ (λ s. none_of _ (λ d.
    or_none _ _ (h (record { src = s; dst = d; tcp = true }))
      (h (record { src = s; dst = d; tcp = false }))))
  where
    or_none : (a b : Bool) → a ≡ false → b ≡ false → (a || b) ≡ false
    or_none a b x y = ground arith

abbrev is_node : Peer → Bool
is_node pod = false
is_node node = true
is_node net = false
is_node entry = false

abbrev is_net : Peer → Bool
is_net pod = false
is_net node = false
is_net net = true
is_net entry = false

abbrev is_entry : Peer → Bool
is_entry pod = false
is_entry node = false
is_entry net = false
is_entry entry = true

abbrev pub world : Connectivity
world = record {
  Peers = Peer → Bool;
  Conns = Connection → Bool;
  no_peers = λ x. false;
  peers_or = λ p q x. p x || q x;
  peers_minus = λ p q x. p x && not (q x);
  peers_and = λ p q x. p x && q x;
  some_peers = any_peer;
  peers_eq = λ p q. not (any_peer (λ x. p x && not (q x) || q x && not (p x)));
  is_subset = λ p q. not (any_peer (λ x. p x && not (q x)));
  host_eps = λ p x. p x && is_node x;
  no_host_eps = λ p x. p x && not (is_node x);
  dns_entries = λ p x. p x && is_entry x;
  no_dns_entries = λ p x. p x && not (is_entry x);
  all_ips = is_net;
  no_conns = λ c. false;
  all_conns = λ c. true;
  conns_or = λ a b c. a c || b c;
  conns_minus = λ a b c. a c && not (b c);
  conns_and = λ a b c. a c && b c;
  some_conns = any_connection;
  conns_eq = λ a b. not (any_connection (λ c. a c && not (b c) || b c && not (a c)));
  contained_in = λ a b. not (any_connection (λ c. a c && not (b c)));
  between = λ p q c. p c.src && q c.dst;
  from_peers = λ p c. p c.src;
  to_peers = λ p c. p c.dst;
  tcp_between = λ p q c. p c.src && q c.dst && c.tcp;
  non_tcp_between = λ p q c. p c.src && q c.dst && not c.tcp;
}

pub contained :
    (a b : Connection → Bool)
    → ((world.contained_in a b) ≡ true) ↔ ((c : Connection) → a c ≡ true → b c ≡ true)
contained a b = (
  (λ h c k. within (a c) (b c) (no_connection (λ d. a d && not (b d)) c (not_true _ h)) k),
  (λ h. ap not (no_connections_at_all (λ d. a d && not (b d)) (λ c. outside (a c) (b c) (h c)))),
)
  where
    not_true : (x : Bool) → not x ≡ true → x ≡ false
    not_true x h = ground arith

    within : (x y : Bool) → (x && not y) ≡ false → x ≡ true → y ≡ true
    within x y h k = ground arith

    outside : (x y : Bool) → (x ≡ true → y ≡ true) → (x && not y) ≡ false
    outside true y h = rw (h refl) refl
    outside false y h = refl

abbrev pub world_laws : ConnectivityLaws world
world_laws = record {
  Peer = Peer;
  Connection = Connection;
  src = λ c. c.src;
  dst = λ c. c.dst;
  is_tcp = λ c. c.tcp;
  is_host = is_node;
  is_dns = is_entry;
  has = λ p x. p x;
  allows = λ k c. k c;
  in_domain = λ c. true;
  has-no_peers = λ x. refl;
  has-peers_or = λ p q x. refl;
  has-peers_minus = λ p q x. refl;
  has-peers_and = λ p q x. refl;
  has-not_some = λ p x h. no_peer p x h;
  some_peers-has = λ p h. some_of p h;
  has-host_eps = λ p x. refl;
  has-no_host_eps = λ p x. refl;
  has-dns_entries = λ p x. refl;
  has-no_dns_entries = λ p x. refl;
  allows-no_conns = λ c. refl;
  allows-all_conns = λ c. refl;
  allows-conns_or = λ a b c. refl;
  allows-conns_minus = λ a b c. refl;
  allows-conns_and = λ a b c. refl;
  allows-not_some = λ a c h. no_connection a c h;
  contained_in_iff = contained;
  allows-between = λ p q c. refl;
  allows-from_peers = λ p c. refl;
  allows-to_peers = λ p c. refl;
  allows-tcp_between = λ p q c. refl;
  allows-non_tcp_between = λ p q c. refl;
}
