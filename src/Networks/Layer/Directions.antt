-- ===== src/Networks/Layer/Directions.antt =====
-- What a layer of K8s and Calico policies, or of K8s ingresses, makes of both directions.
use network_config_analyzer.Prelude.{◌≡◌, refl, ap, ap₂, ◌∙◌, Bool, true, false, ◌&&◌, ◌||◌, List}
use network_config_analyzer.Policies.Connectivity.{Connectivity, ConnectivityLaws}
use network_config_analyzer.Policies.Policy.{PolicyConnections, Filter}
use network_config_analyzer.Policies.Policy.Verdict.{is_denied}
use network_config_analyzer.Policies.NetPolicy.{Orders, NetPolicy}
use network_config_analyzer.Networks.Layer.{
  LayerName, allowed_xgress_conns, both_directions, layer_connections, get_all_peers_group,
}
use network_config_analyzer.Networks.Layer.Collect.{layer_verdict, AllSynced, SameAnswers}
use network_config_analyzer.Networks.Layer.Allowed.{
  is_k8s, rules_allow, is_open, xgress-allowed, xgress-all, xgress-denied, xgress-SameAnswers,
}
use network_config_analyzer.Networks.Layer.Istio.{is_workload}

module _ (o : Connectivity) (laws : ConnectivityLaws o) where
  open laws use {Connection, has, allows, src, dst}

  -- From a workload to an address, or back: what the other direction does not look at.
  abbrev pub leaves : o.Peers → Connection → Bool
  leaves peers c = is_workload o laws peers (src c) && has o.all_ips (dst c)

  abbrev pub enters : o.Peers → Connection → Bool
  enters peers c = has o.all_ips (src c) && is_workload o laws peers (dst c)

  module _ (peers : o.Peers) (f : Filter) (i e : PolicyConnections o) (c : Connection)
      (all : f.calc_all_allowed ≡ true) (some_allowed : f.calc_allowed ≡ true)
      (some_denied : f.calc_denied ≡ true) where
    abbrev both : PolicyConnections o
    both = both_directions o peers f i e

    has-workload :
        (x : laws.Peer)
        → has (get_all_peers_group o false false peers) x ≡ is_workload o laws peers x
    unfolding get_all_peers_group
    has-workload x = laws.has-no_dns_entries peers x

    in_all :
        allows
          (o.conns_or i.all_allowed_conns
            (o.between (get_all_peers_group o false false peers) o.all_ips))
          c
        ≡ (allows i.all_allowed_conns c || leaves peers c)
    in_all =
        laws.allows-conns_or i.all_allowed_conns _ c
        ∙ ap (λ b. allows i.all_allowed_conns c || b)
            (laws.allows-between _ o.all_ips c
              ∙ ap (λ b. b && has o.all_ips (dst c)) (has-workload (src c)))

    out_all :
        allows
          (o.conns_or e.all_allowed_conns
            (o.between o.all_ips (get_all_peers_group o false false peers)))
          c
        ≡ (allows e.all_allowed_conns c || enters peers c)
    out_all =
        laws.allows-conns_or e.all_allowed_conns _ c
        ∙ ap (λ b. allows e.all_allowed_conns c || b)
            (laws.allows-between o.all_ips _ c
              ∙ ap (λ b. has o.all_ips (src c) && b) (has-workload (dst c)))

    pub both-all : allows both.all_allowed_conns c ≡ (
        (allows i.all_allowed_conns c || leaves peers c)
        && (allows e.all_allowed_conns c || enters peers c))
    unfolding both_directions
    both-all = rw (all) (laws.allows-conns_and _ _ c ∙ ap₂ ◌&&◌ in_all out_all)

    pub both-allowed : allows both.allowed_conns c ≡ (
        allows i.allowed_conns c && (allows e.all_allowed_conns c || enters peers c)
        || allows e.allowed_conns c && (allows i.all_allowed_conns c || leaves peers c))
    unfolding both_directions
    both-allowed =
        rw (all, some_allowed)
          (laws.allows-conns_or _ _ c
            ∙ ap₂ ◌||◌
                (laws.allows-conns_and i.allowed_conns _ c
                  ∙ ap (λ b. allows i.allowed_conns c && b) out_all)
                (laws.allows-conns_and e.allowed_conns _ c
                  ∙ ap (λ b. allows e.allowed_conns c && b) in_all))

    pub both-denied :
        allows both.denied_conns c ≡ (allows i.denied_conns c || allows e.denied_conns c)
    unfolding both_directions
    both-denied = rw (some_denied) (laws.allows-conns_or i.denied_conns e.denied_conns c)

  module _ (n : Orders) (layer : LayerName) (peers : o.Peers) (c : Connection) where
    same_rules :
        (ps qs : List (NetPolicy o n))
        → SameAnswers o laws n layer ps qs
        → (rules_allow o laws n layer peers false ps c
            ≡ rules_allow o laws n layer peers false qs c)
          × (is_open o laws n layer peers false ps c ≡ is_open o laws n layer peers false qs c)
          × (is_denied (layer_verdict o laws n layer false ps c)
              ≡ is_denied (layer_verdict o laws n layer false qs c))
    same_rules ps qs h = let (v, k) = h false in rw (v c, k (src c)) (refl, refl, refl)

    -- A layer of K8s and Calico policies, or of K8s ingresses, whose caches hold or are not in sync,
    -- asked for all kinds of connections. It allows, by default or by its rules, what is open in both
    -- directions. It allows explicitly what its rules allow in one direction and what is open in the
    -- other. It denies what is denied in either. In each direction the first policy that decides on
    -- the connection does so.
    pub layer_connections-ok :
        (f : Filter) (policies : List (NetPolicy o n))
        → is_k8s layer ≡ true
        → f.calc_all_allowed ≡ true
        → f.calc_allowed ≡ true
        → f.calc_denied ≡ true
        → AllSynced o laws n layer policies
        → (allows (layer_connections o n layer peers f policies).1.all_allowed_conns c ≡ (
            (is_open o laws n layer peers true policies c || leaves peers c)
            && (is_open o laws n layer peers false policies c || enters peers c)))
          × (allows (layer_connections o n layer peers f policies).1.allowed_conns c ≡ (
              rules_allow o laws n layer peers true policies c
                && (is_open o laws n layer peers false policies c || enters peers c)
              || rules_allow o laws n layer peers false policies c
                && (is_open o laws n layer peers true policies c || leaves peers c)))
          × (allows (layer_connections o n layer peers f policies).1.denied_conns c ≡ (
              is_denied (layer_verdict o laws n layer true policies c)
              || is_denied (layer_verdict o laws n layer false policies c)))
    unfolding layer_connections
    layer_connections-ok f policies k8s all some_allowed some_denied synced =
        let (ps, i) = allowed_xgress_conns o n layer true peers f policies in
        let (held, same) = xgress-SameAnswers o laws n layer peers true f policies c synced k8s in
        let e = (allowed_xgress_conns o n layer false peers f ps).1 in
        let (r, op, d) = same_rules ps policies same in
        let in_rules = xgress-allowed o laws n layer peers true f policies c synced k8s in
        let in_open = xgress-all o laws n layer peers true f policies c synced k8s all in
        let in_denied = xgress-denied o laws n layer peers true f policies c synced k8s in
        let out_rules = xgress-allowed o laws n layer peers false f ps c held k8s ∙ r in
        let out_open = xgress-all o laws n layer peers false f ps c held k8s all ∙ op in
        let out_denied = xgress-denied o laws n layer peers false f ps c held k8s ∙ d in
        (
          both-all peers f i e c all some_allowed some_denied
              ∙ ap₂ (λ a b. (a || leaves peers c) && (b || enters peers c)) in_open out_open,
          both-allowed peers f i e c all some_allowed some_denied
              ∙ ap₂ ◌||◌ (ap₂ (λ a b. a && (b || enters peers c)) in_rules out_open)
                  (ap₂ (λ a b. a && (b || leaves peers c)) out_rules in_open),
          both-denied peers f i e c all some_allowed some_denied ∙ ap₂ ◌||◌ in_denied out_denied,
        )
