-- ===== src/Networks/Config/AllLayers.antt =====
-- A connection is allowed by a configuration if each layer allows it, and some layer does so explicitly.
use network_config_analyzer.Prelude.{
  ◌≡◌, refl, ap, ap₂, ◌∙◌, Bool, true, false, not, ◌&&◌, ◌||◌, List, [], ◌∷◌, if◌then◌else◌, arith,
}
use network_config_analyzer.Policies.Connectivity.{Connectivity, ConnectivityLaws}
use network_config_analyzer.Policies.Policy.{
  Filter, PolicyConnections, no_connections, replace_all_allowed, sub_by_filter,
}
use network_config_analyzer.Policies.NetPolicy.{Orders, NetPolicy}
use network_config_analyzer.Networks.Layer.{
  LayerName, k8s_calico, layer_connections, get_all_peers_group,
}
use network_config_analyzer.Networks.Layer.K8s.{in_world}
use network_config_analyzer.Networks.Layer.Istio.{is_workload}
use network_config_analyzer.Networks.Container.{Container, has_layer, is_default}
use network_config_analyzer.Networks.Config.Connections.{
  conn_hep, all_config_conns, start_connections, without_hep, add_layer_conns, over_layers,
  all_layers_connections,
}

asked_all : (g x y : Bool) → ((g && x) && (not g || y)) ≡ (g && (x && y))
asked_all g x y = ground arith

asked_allowed : (g x y : Bool) → ((false || (g && x)) && (not g || y)) ≡ (g && (x && y))
asked_allowed g x y = ground arith

asked_denied : (x : Bool) → (false || x) ≡ x
asked_denied x = ground arith

and_layer : (g a x y : Bool) → ((a && (not g || x)) && (not g || y)) ≡ (a && (not g || (x && y)))
and_layer g a x y = ground arith

or_layer : (g a x y : Bool) → ((a || (g && x)) || (g && y)) ≡ (a || (g && (x || y)))
or_layer g a x y = ground arith

module _ (o : Connectivity) (laws : ConnectivityLaws o) (n : Orders) where
  open laws use {Connection, Peer, has, allows, src, dst, is_host}

  -- A workload that is a host endpoint.
  abbrev pub is_hep : o.Peers → Peer → Bool
  is_hep peers x = is_workload o laws peers x && is_host x

  -- There are host endpoints, but no K8s_Calico layer.
  abbrev pub misses_hosts : o.Peers → Container o n → Bool
  misses_hosts peers layers =
      o.some_peers (o.host_eps (get_all_peers_group o false false peers))
      && not (has_layer o n k8s_calico layers)

  module _ (peers : o.Peers) (f : Filter) (c : Connection) where
    -- What one layer makes of its policies.
    abbrev pub layer_result : LayerName × List (NetPolicy o n) → PolicyConnections o
    layer_result l = (layer_connections o n l.0 peers f l.1).1

    -- Every layer allows the connection.
    abbrev pub all_allow : Container o n → Bool
    all_allow [] = true
    all_allow (l ∷ layers) = allows (layer_result l).all_allowed_conns c && all_allow layers

    -- Some layer allows it explicitly.
    abbrev pub some_allow : Container o n → Bool
    some_allow [] = false
    some_allow (l ∷ layers) = allows (layer_result l).allowed_conns c || some_allow layers

    -- Some layer denies it.
    abbrev pub some_deny : Container o n → Bool
    some_deny [] = false
    some_deny (l ∷ layers) = allows (layer_result l).denied_conns c || some_deny layers

    add_or :
        (g : Bool) (a b : o.Conns)
        → allows (if g then o.conns_or a b else a) c ≡ (allows a c || (g && allows b c))
    add_or true a b = laws.allows-conns_or a b c
    add_or false a b = or_off (allows a c) (allows b c)
      where
        or_off : (x y : Bool) → x ≡ (x || (false && y))
        or_off x y = ground arith

    add_and :
        (g : Bool) (a b : o.Conns)
        → allows (if g then o.conns_and a b else a) c ≡ (allows a c && (not g || allows b c))
    add_and true a b = laws.allows-conns_and a b c
    add_and false a b = and_off (allows a c) (allows b c)
      where
        and_off : (x y : Bool) → x ≡ (x && (true || y))
        and_off x y = ground arith

    hep-ends : allows (conn_hep o n peers) c ≡ (is_hep peers (src c) || is_hep peers (dst c))
    unfolding conn_hep get_all_peers_group
    hep-ends =
        let hosts = o.host_eps (o.no_dns_entries peers) in
        laws.allows-conns_or (o.from_peers hosts) (o.to_peers hosts) c
        ∙ ap₂ ◌||◌ (laws.allows-from_peers hosts c ∙ at (src c))
            (laws.allows-to_peers hosts c ∙ at (dst c))
      where
        at : (x : Peer) → has (o.host_eps (o.no_dns_entries peers)) x ≡ is_hep peers x
        at x =
            laws.has-host_eps (o.no_dns_entries peers) x
            ∙ ap (λ b. b && is_host x) (laws.has-no_dns_entries peers x)

    module _ (no_host : (is_hep peers (src c) || is_hep peers (dst c)) ≡ false) where
      minus_hep :
          (g : Bool) (k : o.Conns)
          → allows (if g then o.conns_minus k (conn_hep o n peers) else k) c ≡ allows k c
      minus_hep false k = refl
      minus_hep true k =
          laws.allows-conns_minus k (conn_hep o n peers) c
          ∙ and_not (allows k c) (allows (conn_hep o n peers) c) (hep-ends ∙ no_host)
        where
          and_not : (x y : Bool) → y ≡ false → (x && not y) ≡ x
          and_not x y h = ground arith

      -- Taking out the connections of host endpoints does not change the other ones.
      without_hep-allows :
          (a : LayerName) (r : PolicyConnections o)
          → (allows (without_hep o n a peers f r).all_allowed_conns c
              ≡ allows r.all_allowed_conns c)
            × (allows (without_hep o n a peers f r).allowed_conns c ≡ allows r.allowed_conns c)
            × (allows (without_hep o n a peers f r).denied_conns c ≡ allows r.denied_conns c)
      unfolding without_hep sub_by_filter
      without_hep-allows a r = go (not (is_default o n a))
        where
          go :
              (b : Bool)
              → let g = replace_all_allowed f in
                let r' = if b then sub_by_filter o (conn_hep o n peers) g r else r in
                (allows r'.all_allowed_conns c ≡ allows r.all_allowed_conns c)
                × (allows r'.allowed_conns c ≡ allows r.allowed_conns c)
                × (allows r'.denied_conns c ≡ allows r.denied_conns c)
          go true =
              let g = replace_all_allowed f in
              (
                minus_hep g.calc_all_allowed r.all_allowed_conns,
                minus_hep g.calc_allowed r.allowed_conns,
                minus_hep g.calc_denied r.denied_conns,
              )
          go false = (refl, refl, refl)

      over_layers-allows :
          (layers : Container o n) (r : PolicyConnections o)
          → (allows (over_layers o n peers f layers r).1.all_allowed_conns c
              ≡ (allows r.all_allowed_conns c && (not f.calc_all_allowed || all_allow layers)))
            × (allows (over_layers o n peers f layers r).1.allowed_conns c
                ≡ (allows r.allowed_conns c || (f.calc_allowed && some_allow layers)))
            × (allows (over_layers o n peers f layers r).1.denied_conns c
                ≡ (allows r.denied_conns c || (f.calc_denied && some_deny layers)))
      unfolding over_layers add_layer_conns
      over_layers-allows [] r = (ground arith, ground arith, ground arith)
      over_layers-allows ((a, ps) ∷ layers) r =
          let raw = layer_result (a, ps) in
          let l = without_hep o n a peers f raw in
          let (u, v, w) = without_hep-allows a raw in
          let (x, y, z) = over_layers-allows layers (add_layer_conns o n f l r) in
          (
            x
                ∙ ap (λ b. b && (not f.calc_all_allowed || all_allow layers))
                    (add_and f.calc_all_allowed r.all_allowed_conns l.all_allowed_conns
                      ∙ ap (λ b. allows r.all_allowed_conns c && (not f.calc_all_allowed || b)) u)
                ∙ and_layer f.calc_all_allowed (allows r.all_allowed_conns c)
                    (allows raw.all_allowed_conns c) (all_allow layers),
            y
                ∙ ap (λ b. b || (f.calc_allowed && some_allow layers))
                    (add_or f.calc_allowed r.allowed_conns l.allowed_conns
                      ∙ ap (λ b. allows r.allowed_conns c || (f.calc_allowed && b)) v)
                ∙ or_layer f.calc_allowed (allows r.allowed_conns c) (allows raw.allowed_conns c)
                    (some_allow layers),
            z
                ∙ ap (λ b. b || (f.calc_denied && some_deny layers))
                    (add_or f.calc_denied r.denied_conns l.denied_conns
                      ∙ ap (λ b. allows r.denied_conns c || (f.calc_denied && b)) w)
                ∙ or_layer f.calc_denied (allows r.denied_conns c) (allows raw.denied_conns c)
                    (some_deny layers),
          )

      -- Between peers of the container and addresses.
      all_conns-allows :
          (g : Bool)
          → allows (if g then all_config_conns o n peers else o.no_conns) c
            ≡ (g && (in_world o laws peers (src c) && in_world o laws peers (dst c)))
      unfolding all_config_conns get_all_peers_group
      all_conns-allows false = laws.allows-no_conns c
      all_conns-allows true =
          let world = o.peers_or peers o.all_ips in
          laws.allows-between world world c
          ∙ ap₂ ◌&&◌ (laws.has-peers_or peers o.all_ips (src c))
              (laws.has-peers_or peers o.all_ips (dst c))

      start-allows :
          (layers : Container o n)
          → misses_hosts peers layers ≡ false
          → let start = start_connections o n peers f layers in
            (allows start.all_allowed_conns c ≡ (
              f.calc_all_allowed
              && (in_world o laws peers (src c) && in_world o laws peers (dst c))))
            × (allows start.allowed_conns c ≡ false)
            × (allows start.denied_conns c ≡ false)
      unfolding start_connections no_connections
      start-allows layers h =
          rw (h)
            (all_conns-allows f.calc_all_allowed, laws.allows-no_conns c, laws.allows-no_conns c)

      -- allowed_connections over all layers, for a connection of no host endpoint. There is a K8s_Calico
      -- layer, or there are no host endpoints at all. If all allowed connections are asked for, the
      -- connection is allowed if it is between peers and addresses and every layer allows it; if the
      -- allowed ones are, it is allowed explicitly if it is allowed and some layer allows it explicitly;
      -- if the denied ones are, it is denied if some layer denies it. Nothing else is allowed or denied.
      pub all_layers_connections-ok :
          (layers : Container o n)
          → misses_hosts peers layers ≡ false
          → (allows (all_layers_connections o n peers f layers).1.all_allowed_conns c ≡ (
              f.calc_all_allowed
              && ((in_world o laws peers (src c) && in_world o laws peers (dst c))
                  && all_allow layers)))
            × (allows (all_layers_connections o n peers f layers).1.allowed_conns c ≡ (
                f.calc_allowed
                && (some_allow layers
                    && allows (all_layers_connections o n peers f layers).1.all_allowed_conns c)))
            × (allows (all_layers_connections o n peers f layers).1.denied_conns c
                ≡ (f.calc_denied && some_deny layers))
      unfolding all_layers_connections
      all_layers_connections-ok layers h =
          let (a, e, d) = start-allows layers h in
          let start = start_connections o n peers f layers in
          let (x, y, z) = over_layers-allows layers start in
          let r = (over_layers o n peers f layers start).1 in
          (
            x
                ∙ ap (λ b. b && (not f.calc_all_allowed || all_allow layers)) a
                ∙ asked_all f.calc_all_allowed _ (all_allow layers),
            add_and f.calc_allowed r.allowed_conns r.all_allowed_conns
                ∙ ap (λ b. b && (not f.calc_allowed || allows r.all_allowed_conns c))
                    (y ∙ ap (λ b. b || (f.calc_allowed && some_allow layers)) e)
                ∙ asked_allowed f.calc_allowed (some_allow layers) (allows r.all_allowed_conns c),
            z
                ∙ ap (λ b. b || (f.calc_denied && some_deny layers)) d
                ∙ asked_denied (f.calc_denied && some_deny layers),
          )
