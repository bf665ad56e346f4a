-- ===== src/Networks/Layer/Istio.antt =====
-- What a layer of Istio policies allows in one direction.
use network_config_analyzer.Prelude.{
  ◌≡◌, refl, ap, ap₂, ◌∙◌, Bool, true, false, not, ◌&&◌, ◌||◌, if◌then◌else◌, arith,
}
use network_config_analyzer.Policies.Connectivity.{Connectivity, ConnectivityLaws}
use network_config_analyzer.Policies.Policy.{PolicyConnections, Filter}
use network_config_analyzer.Networks.Layer.{
  get_all_peers_group, get_all_dns_entries, istio_non_captured, istio_defaults,
}
use network_config_analyzer.Networks.Layer.K8s.{guarded_or}

module _ (o : Connectivity) (laws : ConnectivityLaws o) where
  open laws use {Connection, Peer, has, allows, src, dst, is_dns, is_tcp}

  -- A peer of the container that is no DNS entry.
  abbrev pub is_workload : o.Peers → Peer → Bool
  is_workload peers x = has peers x && not (is_dns x)

  -- Such a peer or an address.
  abbrev pub in_mesh : o.Peers → Peer → Bool
  in_mesh peers x = is_workload peers x || has o.all_ips x

  -- A DNS entry of the container.
  abbrev pub is_entry : o.Peers → Peer → Bool
  is_entry peers x = has peers x && is_dns x

  has-workloads :
      (peers : o.Peers) (x : Peer)
      → has (get_all_peers_group o false false peers) x ≡ is_workload peers x
  unfolding get_all_peers_group
  has-workloads peers x = laws.has-no_dns_entries peers x

  has-mesh :
      (peers : o.Peers) (x : Peer)
      → has (get_all_peers_group o true false peers) x ≡ in_mesh peers x
  unfolding get_all_peers_group
  has-mesh peers x =
      laws.has-peers_or (o.no_dns_entries peers) o.all_ips x
      ∙ ap (λ b. b || has o.all_ips x) (laws.has-no_dns_entries peers x)

  has-entries :
      (peers : o.Peers) (x : Peer) → has (get_all_dns_entries o peers) x ≡ is_entry peers x
  unfolding get_all_dns_entries
  has-entries peers x = laws.has-dns_entries peers x

  none_minus : (a b : Bool) → a ≡ false → (a && b) ≡ false
  none_minus a b h = ground arith

  no_entry : (a b t d : Bool) → b ≡ false → ((a && b && t) && not d) ≡ false
  no_entry a b t d h = ground arith

  module _ (peers : o.Peers) (r : PolicyConnections o) (c : Connection) where
    abbrev pub non_captured : o.Peers
    non_captured = o.peers_minus (get_all_peers_group o false false peers) r.captured

    abbrev mesh : o.Peers
    mesh = get_all_peers_group o true false peers

    abbrev free_entries : o.Peers
    free_entries = o.peers_minus (get_all_dns_entries o peers) r.captured

    pub has-non_captured :
        (x : Peer) → has non_captured x ≡ (is_workload peers x && not (has r.captured x))
    has-non_captured x =
        laws.has-peers_minus (get_all_peers_group o false false peers) r.captured x
        ∙ ap (λ b. b && not (has r.captured x)) (has-workloads peers x)

    has-free_entries :
        (x : Peer) → has free_entries x ≡ (is_entry peers x && not (has r.captured x))
    has-free_entries x =
        laws.has-peers_minus (get_all_dns_entries o peers) r.captured x
        ∙ ap (λ b. b && not (has r.captured x)) (has-entries peers x)

    -- Where some workload is not captured: what is not denied, from within the mesh to a workload or,
    -- by TCP, to a DNS entry that is not captured; or from a workload that is not captured, to the
    -- mesh or, by TCP, to a DNS entry.
    abbrev pub goes_on : Bool → Bool
    goes_on true =
        ((in_mesh peers (src c) && (is_workload peers (dst c) && not (has r.captured (dst c))))
          && not (allows r.denied_conns c))
        || ((in_mesh peers (src c)
              && (is_entry peers (dst c) && not (has r.captured (dst c)))
              && is_tcp c)
            && not (allows r.denied_conns c))
    goes_on false =
        (((is_workload peers (src c) && not (has r.captured (src c))) && in_mesh peers (dst c))
          || ((is_workload peers (src c) && not (has r.captured (src c)))
              && is_entry peers (dst c)
              && is_tcp c))
        && not (allows r.denied_conns c)

    istio_non_captured-allows :
        (is_ingress : Bool)
        → allows (istio_non_captured o is_ingress peers r non_captured) c ≡ goes_on is_ingress
    unfolding istio_non_captured
    istio_non_captured-allows true =
        let tcp = o.tcp_between mesh free_entries in
        let pods = o.between mesh non_captured in
        let tcp_allows : allows (o.conns_minus tcp r.denied_conns) c ≡ (
            (has mesh (src c) && has free_entries (dst c) && is_tcp c)
            && not (allows r.denied_conns c)) =
          laws.allows-conns_minus tcp r.denied_conns c
          ∙ ap (λ b. b && not (allows r.denied_conns c))
              (laws.allows-tcp_between mesh free_entries c) in
        guarded_or o laws (o.some_peers free_entries) (o.conns_minus pods r.denied_conns)
          (o.conns_minus tcp r.denied_conns) c
          (λ g. tcp_allows ∙ no_entry _ _ _ _ (laws.has-not_some free_entries (dst c) g))
        ∙ ap₂ ◌||◌
            (laws.allows-conns_minus pods r.denied_conns c
              ∙ ap (λ b. b && not (allows r.denied_conns c))
                  (laws.allows-between mesh non_captured c
                    ∙ ap₂ ◌&&◌ (has-mesh peers (src c)) (has-non_captured (dst c))))
            (tcp_allows
              ∙ ap₂ (λ a b. (a && b && is_tcp c) && not (allows r.denied_conns c))
                  (has-mesh peers (src c)) (has-free_entries (dst c)))
    istio_non_captured-allows false =
        let entries = get_all_dns_entries o peers in
        let pods = o.between non_captured mesh in
        let tcp = o.tcp_between non_captured entries in
        laws.allows-conns_minus (o.conns_or pods tcp) r.denied_conns c
        ∙ ap (λ b. b && not (allows r.denied_conns c))
            (laws.allows-conns_or pods tcp c
              ∙ ap₂ ◌||◌
                  (laws.allows-between non_captured mesh c
                    ∙ ap₂ ◌&&◌ (has-non_captured (src c)) (has-mesh peers (dst c)))
                  (laws.allows-tcp_between non_captured entries c
                    ∙ ap₂ (λ a b. a && b && is_tcp c) (has-non_captured (src c))
                        (has-entries peers (dst c))))

    guarded_more :
        (g : Bool) (a b : o.Conns)
        → allows (if g then o.conns_or a b else a) c ≡ (allows a c || (g && allows b c))
    guarded_more true a b = laws.allows-conns_or a b c
    guarded_more false a b = or_shut_off _ (allows b c)
      where
        or_shut_off : (x y : Bool) → x ≡ (x || (false && y))
        or_shut_off x y = ground arith

    -- What the rules allow, what is not TCP within the mesh, and what goes on.
    pub istio_defaults-all :
        (is_ingress : Bool) (f : Filter)
        → f.calc_all_allowed ≡ true
        → allows (istio_defaults o is_ingress peers f r).all_allowed_conns c ≡ (
            (allows r.all_allowed_conns c
              || (allows r.allowed_conns c
                  || (in_mesh peers (src c) && in_mesh peers (dst c) && not (is_tcp c))))
            || (o.some_peers non_captured && goes_on is_ingress))
    unfolding istio_defaults
    istio_defaults-all is_ingress f e =
        let non_tcp = o.non_tcp_between mesh mesh in
        let all_allowed = o.conns_or r.all_allowed_conns (o.conns_or r.allowed_conns non_tcp) in
        let more = istio_non_captured o is_ingress peers r non_captured in
        ap (λ k. allows k c)
          (if_not f.calc_all_allowed r
            (record r {
              all_allowed_conns =
                  if o.some_peers non_captured then o.conns_or all_allowed more else all_allowed;
            })
            e)
        ∙ guarded_more (o.some_peers non_captured) all_allowed more
        ∙ ap₂ (λ a b. a || (o.some_peers non_captured && b))
            (laws.allows-conns_or r.all_allowed_conns (o.conns_or r.allowed_conns non_tcp) c
              ∙ ap (λ b. allows r.all_allowed_conns c || b)
                  (laws.allows-conns_or r.allowed_conns non_tcp c
                    ∙ ap (λ b. allows r.allowed_conns c || b)
                        (laws.allows-non_tcp_between mesh mesh c
                          ∙ ap₂ (λ a b. a && b && not (is_tcp c)) (has-mesh peers (src c))
                              (has-mesh peers (dst c)))))
            (istio_non_captured-allows is_ingress)
      where
        if_not :
            (g : Bool) (p q : PolicyConnections o)
            → g ≡ true
            → (if not g then p else q).all_allowed_conns ≡ q.all_allowed_conns
        if_not g p q h = ap (λ k. (if not k then p else q).all_allowed_conns) h

    pub istio_defaults-rest :
        (is_ingress : Bool) (f : Filter)
        → ((istio_defaults o is_ingress peers f r).allowed_conns ≡ r.allowed_conns)
          × ((istio_defaults o is_ingress peers f r).denied_conns ≡ r.denied_conns)
    unfolding istio_defaults
    istio_defaults-rest is_ingress f = go f.calc_all_allowed _
      where
        go :
            (g : Bool) (k : o.Conns)
            → ((if not g then r else record r { all_allowed_conns = k }).allowed_conns
                ≡ r.allowed_conns)
              × ((if not g then r else record r { all_allowed_conns = k }).denied_conns
                  ≡ r.denied_conns)
        go true k = (refl, refl)
        go false k = (refl, refl)
