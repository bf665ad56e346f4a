-- ===== src/Networks/Layer/Allowed.antt =====
-- What a layer of K8s and Calico policies, or of K8s ingresses, allows and denies in one direction.
use network_config_analyzer.Prelude.{
  ◌≡◌, refl, sym, ap, ap₂, ◌∙◌, Bool, true, false, not, ◌&&◌, ◌||◌, List, arith,
}
use network_config_analyzer.Policies.Connectivity.{Connectivity, ConnectivityLaws}
use network_config_analyzer.Policies.Policy.{PolicyConnections, Filter, no_connections}
use network_config_analyzer.Policies.Policy.Verdict.{
  undecided, is_allowed, is_denied, is_passed, Reads-no_conns,
}
use network_config_analyzer.Policies.NetPolicy.{Orders, NetPolicy}
use network_config_analyzer.Networks.Layer.{
  LayerName, k8s_defaults, defaults, collect_policies_conns, allowed_xgress_conns,
}
use network_config_analyzer.Networks.Layer.Collect.{
  layer_verdict, captures, AllSynced, SameAnswers, collect-verdict, collect-captured, collect-all,
  collect-SameAnswers,
}
use network_config_analyzer.Networks.Layer.K8s.{
  near, far, is_pod, in_world, k8s_defaults-allowed, k8s_defaults-all, k8s_defaults-denied,
}

-- The layers in which what is not captured is allowed by default.
abbrev pub is_k8s : LayerName → Bool
is_k8s LayerName.k8s_calico = true
is_k8s LayerName.k8s_gateway = true
is_k8s LayerName.istio = false
is_k8s LayerName.istio_gateway = false

false_or : (a b : Bool) → a ≡ false → (a || b) ≡ b
false_or a b h = ground arith

module _ (o : Connectivity) (laws : ConnectivityLaws o) (n : Orders) (layer : LayerName) where
  open laws use {Connection, has, allows, src, dst}

  module _ (peers : o.Peers) (is_ingress : Bool) (policies : List (NetPolicy o n))
      (c : Connection) where
    -- The first policy that decides allows the connection, or it passes it to the default profiles,
    -- and they allow what captured pods do.
    abbrev pub rules_allow : Bool
    rules_allow =
        let v = layer_verdict o laws n layer is_ingress policies c in
        is_allowed v
        || (is_passed v
            && ((is_pod o laws peers (near o laws is_ingress c)
                  && captures o laws n layer is_ingress policies (near o laws is_ingress c))
                && in_world o laws peers (far o laws is_ingress c)))

    -- That, or the pod at the end that policies would capture is not captured.
    abbrev pub is_open : Bool
    is_open =
        ((is_pod o laws peers (near o laws is_ingress c)
            && not (captures o laws n layer is_ingress policies (near o laws is_ingress c)))
          && in_world o laws peers (far o laws is_ingress c))
        || rules_allow

  defaults_k8s : (l : LayerName) → is_k8s l ≡ true → defaults o n l ≡ k8s_defaults o
  unfolding defaults
  defaults_k8s LayerName.k8s_calico h = refl
  defaults_k8s LayerName.k8s_gateway h = refl
  defaults_k8s LayerName.istio h = absurd (ground arith)
  defaults_k8s LayerName.istio_gateway h = absurd (ground arith)

  module _ (peers : o.Peers) (is_ingress : Bool) (f : Filter) (policies : List (NetPolicy o n))
      (c : Connection) (synced : AllSynced o laws n layer policies)
      (k8s : is_k8s layer ≡ true) where
    abbrev xgress : PolicyConnections o
    xgress = (allowed_xgress_conns o n layer is_ingress peers f policies).1

    abbrev r : PolicyConnections o
    r = (collect_policies_conns o n layer is_ingress policies (no_connections o)).1

    xgress_same : xgress ≡ k8s_defaults o is_ingress peers f r
    unfolding allowed_xgress_conns
    xgress_same = ap (λ d. d is_ingress peers f r) (defaults_k8s layer k8s)

    r_allows :
        (allows r.allowed_conns c ≡ is_allowed (layer_verdict o laws n layer is_ingress policies c))
        × (allows r.denied_conns c ≡ is_denied (layer_verdict o laws n layer is_ingress policies c))
        × (allows r.pass_conns c ≡ is_passed (layer_verdict o laws n layer is_ingress policies c))
    unfolding no_connections
    r_allows =
        collect-verdict o laws n layer is_ingress policies (no_connections o) c undecided synced
          (Reads-no_conns o laws c)

    r_captured :
        has r.captured (near o laws is_ingress c)
        ≡ captures o laws n layer is_ingress policies (near o laws is_ingress c)
    unfolding no_connections
    r_captured =
        collect-captured o laws n layer is_ingress policies (no_connections o) c
          (near o laws is_ingress c) synced
        ∙ false_or _ _ (laws.has-no_peers (near o laws is_ingress c))

    r_all : allows r.all_allowed_conns c ≡ false
    unfolding no_connections
    r_all =
        ap (λ k. allows k c) (collect-all o laws n layer is_ingress policies (no_connections o))
        ∙ laws.allows-no_conns c

    pub xgress-allowed : allows xgress.allowed_conns c ≡ rules_allow peers is_ingress policies c
    xgress-allowed =
        ap (λ q. allows q.allowed_conns c) xgress_same
        ∙ k8s_defaults-allowed o laws is_ingress peers f r c
        ∙ rw (r_allows.0, r_allows.2, r_captured) refl

    pub xgress-all :
        f.calc_all_allowed ≡ true
        → allows xgress.all_allowed_conns c ≡ is_open peers is_ingress policies c
    xgress-all e =
        ap (λ q. allows q.all_allowed_conns c) xgress_same
        ∙ k8s_defaults-all o laws is_ingress peers f r c e
        ∙ ap₂ ◌||◌
            (false_or _ _ r_all
              ∙ ap
                  (λ b.
                    (is_pod o laws peers (near o laws is_ingress c) && not b)
                    && in_world o laws peers (far o laws is_ingress c))
                  r_captured)
            (ap (λ q. allows q.allowed_conns c) (sym xgress_same) ∙ xgress-allowed)

    pub xgress-denied :
        allows xgress.denied_conns c
        ≡ is_denied (layer_verdict o laws n layer is_ingress policies c)
    xgress-denied =
        ap (λ q. allows q.denied_conns c) xgress_same
        ∙ ap (λ k. allows k c) (k8s_defaults-denied o laws is_ingress peers f r c)
        ∙ r_allows.1

    pub xgress-SameAnswers :
        AllSynced o laws n layer (allowed_xgress_conns o n layer is_ingress peers f policies).0
        × SameAnswers o laws n layer
            (allowed_xgress_conns o n layer is_ingress peers f policies).0
            policies
    unfolding allowed_xgress_conns
    xgress-SameAnswers =
        collect-SameAnswers o laws n layer is_ingress policies (no_connections o) c synced
