-- ===== src/Policies/NetPolicy/Allowed.antt =====
-- What a policy of any class says of a connection, and that asking it changes none of its answers.
use network_config_analyzer.Prelude.{◌≡◌, refl, Bool, true, false}
use network_config_analyzer.Policies.Connectivity.{Connectivity, ConnectivityLaws}
use network_config_analyzer.Policies.Policy.Verdict.{Verdict}
use network_config_analyzer.Policies.Policy.Cache.{
  Says, captured_by, pick, sync_with-captured, sync_with-selected,
}
use network_config_analyzer.Policies.Rules.{ActionType, allow_all, add_all}
use network_config_analyzer.Policies.Rules.Union.{union_verdict}
use network_config_analyzer.Policies.Calico
use network_config_analyzer.Policies.Calico.FirstMatch
use network_config_analyzer.Policies.K8s
use network_config_analyzer.Policies.K8s.Allowed as K8sAllowed
use network_config_analyzer.Policies.Istio
use network_config_analyzer.Policies.Istio.Allowed as IstioAllowed
use network_config_analyzer.Policies.Sidecar
use network_config_analyzer.Policies.Sidecar.Allowed as SidecarAllowed
use network_config_analyzer.Policies.Gateway
use network_config_analyzer.Policies.Gateway.Allowed as GatewayAllowed
use network_config_analyzer.Policies.NetPolicy.{
  Orders, NetPolicy, of_k8s, of_calico, of_istio, of_sidecar, of_gateway, allowed_connections,
}

module _ (o : Connectivity) (laws : ConnectivityLaws o) (n : Orders) where
  open laws use {Connection}

  -- The verdict of the rules, in one direction.
  abbrev pub verdict_of : Bool → NetPolicy o n → Connection → Verdict
  verdict_of is_ingress (of_k8s p) c =
      union_verdict o laws ActionType.allow (K8sAllowed.rules_of o laws is_ingress p) c
  verdict_of is_ingress (of_calico p) c =
      FirstMatch.first_match o laws (FirstMatch.rules_of o laws is_ingress p) c
  verdict_of is_ingress (of_istio p) c = IstioAllowed.verdict_of o laws is_ingress p c
  verdict_of is_ingress (of_sidecar p) c = SidecarAllowed.verdict_of o laws is_ingress p c
  verdict_of is_ingress (of_gateway p) c =
      union_verdict o laws p.action (GatewayAllowed.rules_of o laws is_ingress p) c

  -- The peers that the policy captures in one direction.
  abbrev pub captured_of : Bool → NetPolicy o n → o.Peers
  captured_of is_ingress (of_k8s p) = captured_by o laws is_ingress p.base
  captured_of is_ingress (of_calico p) = captured_by o laws is_ingress p.base
  captured_of is_ingress (of_istio p) = pick o laws is_ingress p.base.selected_peers o.no_peers
  captured_of is_ingress (of_sidecar p) =
      pick o laws is_ingress o.no_peers (captured_by o laws false p.base)
  captured_of is_ingress (of_gateway p) = captured_by o laws is_ingress p.base

  -- Where a policy's cache is said to hold, it is what its rules give.
  abbrev pub IsSynced : NetPolicy o n → Type 0
  IsSynced (of_k8s p) = K8sAllowed.IsSynced o laws p
  IsSynced (of_calico p) = FirstMatch.IsSynced o laws p
  IsSynced (of_istio p) = IstioAllowed.IsSynced o laws p
  IsSynced (of_sidecar p) = SidecarAllowed.IsSynced o laws p
  IsSynced (of_gateway p) = GatewayAllowed.IsSynced o laws p

  -- allowed_connections of a policy of any class, whose cache holds or is not in sync, says of each
  -- connection what the policy's rules say, returns the peers it captures, and leaves the cache
  -- in a state that holds.
  pub allowed_connections-Says :
      (is_ingress : Bool) (p : NetPolicy o n) (c : Connection)
      → IsSynced p
      → Says o laws (allowed_connections o n is_ingress p).1 c (verdict_of is_ingress p c)
        × ((allowed_connections o n is_ingress p).1.captured ≡ captured_of is_ingress p)
        × IsSynced (allowed_connections o n is_ingress p).0
  unfolding allowed_connections
  allowed_connections-Says is_ingress (of_k8s p) c h =
      let (a, s, e) = K8sAllowed.allowed_connections-any_match o laws is_ingress p c h in
      (a.0, a.1, s)
  allowed_connections-Says is_ingress (of_calico p) c h =
      let (a, s, e) = FirstMatch.allowed_connections-first_match o laws is_ingress p c h in
      (a.0, a.1, s)
  allowed_connections-Says is_ingress (of_istio p) c h =
      let (a, e, s, x, y) = IstioAllowed.allowed_connections-any_match o laws is_ingress p c h in
      (a, e, s)
  allowed_connections-Says is_ingress (of_sidecar p) c h =
      let (a, e, s, x) = SidecarAllowed.allowed_connections-any_rule o laws is_ingress p c h in
      (a, e, s)
  allowed_connections-Says is_ingress (of_gateway p) c h =
      let (a, s, e) = GatewayAllowed.allowed_connections-any_match o laws is_ingress p c h in
      (a.0, a.1, s)

  -- Both say and capture the same, in both directions.
  abbrev pub Agree : NetPolicy o n → NetPolicy o n → Type 0
  Agree p q =
      (is_ingress : Bool)
      → ((c : Connection) → verdict_of is_ingress p c ≡ verdict_of is_ingress q c)
        × (captured_of is_ingress p ≡ captured_of is_ingress q)

  k8s-Agree :
      (p : K8s.K8sPolicy o) → IsSynced (of_k8s p) → Agree (of_k8s (K8s.sync_props o p)) (of_k8s p)
  unfolding K8s.sync_props
  k8s-Agree p h b = (
    (λ c. refl),
    sync_with-captured o laws (allow_all o p.ingress_rules) (allow_all o p.egress_rules) p.base h b,
  )

  calico-Agree :
      (p : Calico.CalicoPolicy o n.Order)
      → IsSynced (of_calico p)
      → Agree (of_calico (Calico.sync_props o p)) (of_calico p)
  unfolding Calico.sync_props
  calico-Agree p h b = (
    (λ c. refl),
    sync_with-captured o laws (Calico.update_by_order o p.ingress_rules)
        (Calico.update_by_order o p.egress_rules) p.base h b,
  )

  istio-Agree :
      (p : Istio.IstioPolicy o)
      → IsSynced (of_istio p)
      → Agree (of_istio (Istio.sync_props o p)) (of_istio p)
  unfolding Istio.sync_props
  istio-Agree p h true = (
    (λ c. refl),
    sync_with-selected o laws (add_all o p.action p.ingress_rules) (λ t. t) p.base h,
  )
  istio-Agree p h false = ((λ c. refl), refl)

  sidecar-Agree :
      (p : Sidecar.SidecarPolicy o)
      → IsSynced (of_sidecar p)
      → Agree (of_sidecar (Sidecar.sync_props o p)) (of_sidecar p)
  unfolding Sidecar.sync_props
  sidecar-Agree p h true = ((λ c. refl), refl)
  sidecar-Agree p h false = (
    (λ c. refl),
    sync_with-captured o laws (Sidecar.allow_all_conns o) (Sidecar.allow_egress o p.egress_rules)
        p.base h false,
  )

  gateway-Agree :
      (p : Gateway.GatewayPolicy o)
      → IsSynced (of_gateway p)
      → Agree (of_gateway (Gateway.sync_props o p)) (of_gateway p)
  unfolding Gateway.sync_props
  gateway-Agree p h b = (
    (λ c. refl),
    sync_with-captured o laws (add_all o p.action p.ingress_rules)
        (add_all o p.action p.egress_rules) p.base h b,
  )

  -- Asking a policy for its connections in one direction changes its answers in neither.
  pub allowed_connections-Agree :
      (is_ingress : Bool) (p : NetPolicy o n)
      → IsSynced p
      → Agree (allowed_connections o n is_ingress p).0 p
  unfolding allowed_connections K8s.allowed_connections Calico.allowed_connections
      Istio.allowed_connections Sidecar.allowed_connections Gateway.allowed_connections
  allowed_connections-Agree true (of_k8s p) h = k8s-Agree p h
  allowed_connections-Agree false (of_k8s p) h = k8s-Agree p h
  allowed_connections-Agree is_ingress (of_calico p) h = calico-Agree p h
  allowed_connections-Agree true (of_istio p) h = istio-Agree p h
  allowed_connections-Agree false (of_istio p) h = istio-Agree p h
  allowed_connections-Agree true (of_sidecar p) h = sidecar-Agree p h
  allowed_connections-Agree false (of_sidecar p) h = sidecar-Agree p h
  allowed_connections-Agree true (of_gateway p) h = gateway-Agree p h
  allowed_connections-Agree false (of_gateway p) h = gateway-Agree p h
