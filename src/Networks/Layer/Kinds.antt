-- ===== src/Networks/Layer/Kinds.antt =====
-- Asking a policy for its connections changes neither its kind nor its action.
use network_config_analyzer.Prelude.{◌≡◌, refl, ap, ◌∙◌, Bool, true, false}
use network_config_analyzer.Policies.Connectivity.{Connectivity}
use network_config_analyzer.Policies.Policy.{PolicyType}
use network_config_analyzer.Policies.Policy.Cache.{sync_with-policy_kind}
use network_config_analyzer.Policies.Rules.{allow_all, add_all}
use network_config_analyzer.Policies.K8s
use network_config_analyzer.Policies.Calico
use network_config_analyzer.Policies.Istio
use network_config_analyzer.Policies.Sidecar
use network_config_analyzer.Policies.Gateway
use network_config_analyzer.Policies.NetPolicy.{
  Orders, NetPolicy, of_k8s, of_calico, of_istio, of_sidecar, of_gateway, base_of,
  allowed_connections,
}
use network_config_analyzer.Networks.Layer.{
  LayerName, captured_func, captured_cond_func, is_allow_policy,
}

module _ (o : Connectivity) (n : Orders) (layer : LayerName) where
  cond_same :
      (k : PolicyType) (p q : NetPolicy o n)
      → is_allow_policy o n p ≡ is_allow_policy o n q
      → captured_cond_func o n k p ≡ captured_cond_func o n k q
  unfolding captured_cond_func
  cond_same PolicyType.istio_authorization_policy p q e = e
  cond_same PolicyType.gateway_policy p q e = e
  cond_same PolicyType.unknown p q e = refl
  cond_same PolicyType.k8s_network_policy p q e = refl
  cond_same PolicyType.calico_network_policy p q e = refl
  cond_same PolicyType.calico_global_network_policy p q e = refl
  cond_same PolicyType.calico_profile p q e = refl
  cond_same PolicyType.istio_sidecar p q e = refl
  cond_same PolicyType.ingress p q e = refl
  cond_same PolicyType.gateway p q e = refl
  cond_same PolicyType.virtual_service p q e = refl
  cond_same PolicyType.policy_list p q e = refl

  func_same :
      (l : LayerName) (p q : NetPolicy o n)
      → (base_of o n p).policy_kind ≡ (base_of o n q).policy_kind
      → is_allow_policy o n p ≡ is_allow_policy o n q
      → captured_func o n l p ≡ captured_func o n l q
  unfolding captured_func
  func_same LayerName.k8s_calico p q k e = refl
  func_same LayerName.k8s_gateway p q k e = refl
  func_same LayerName.istio p q k e = ap (λ t. captured_cond_func o n t p) k ∙ cond_same _ p q e
  func_same LayerName.istio_gateway p q k e =
      ap (λ t. captured_cond_func o n t p) k ∙ cond_same _ p q e

  Alike : NetPolicy o n → NetPolicy o n → Type 0
  Alike p q =
      ((base_of o n p).policy_kind ≡ (base_of o n q).policy_kind)
      × (is_allow_policy o n p ≡ is_allow_policy o n q)

  sync_Alike :
      (is_ingress : Bool) (p : NetPolicy o n) → Alike (allowed_connections o n is_ingress p).0 p
  unfolding Alike allowed_connections K8s.allowed_connections Calico.allowed_connections
      Istio.allowed_connections Sidecar.allowed_connections Gateway.allowed_connections
      K8s.sync_props Calico.sync_props Istio.sync_props Sidecar.sync_props Gateway.sync_props
      base_of is_allow_policy
  sync_Alike true (of_k8s p) = (
    sync_with-policy_kind o (allow_all o p.ingress_rules) (allow_all o p.egress_rules) p.base,
    refl,
  )
  sync_Alike false (of_k8s p) = (
    sync_with-policy_kind o (allow_all o p.ingress_rules) (allow_all o p.egress_rules) p.base,
    refl,
  )
  sync_Alike is_ingress (of_calico p) = (
    sync_with-policy_kind o (Calico.update_by_order o p.ingress_rules)
        (Calico.update_by_order o p.egress_rules) p.base,
    refl,
  )
  sync_Alike true (of_istio p) =
      (sync_with-policy_kind o (add_all o p.action p.ingress_rules) (λ t. t) p.base, refl)
  sync_Alike false (of_istio p) =
      (sync_with-policy_kind o (add_all o p.action p.ingress_rules) (λ t. t) p.base, refl)
  sync_Alike true (of_sidecar p) = (
    sync_with-policy_kind o (Sidecar.allow_all_conns o) (Sidecar.allow_egress o p.egress_rules)
        p.base,
    refl,
  )
  sync_Alike false (of_sidecar p) = (
    sync_with-policy_kind o (Sidecar.allow_all_conns o) (Sidecar.allow_egress o p.egress_rules)
        p.base,
    refl,
  )
  sync_Alike true (of_gateway p) = (
    sync_with-policy_kind o (add_all o p.action p.ingress_rules) (add_all o p.action p.egress_rules)
        p.base,
    refl,
  )
  sync_Alike false (of_gateway p) = (
    sync_with-policy_kind o (add_all o p.action p.ingress_rules) (add_all o p.action p.egress_rules)
        p.base,
    refl,
  )

  pub kind_same :
      (is_ingress : Bool) (p : NetPolicy o n)
      → captured_func o n layer (allowed_connections o n is_ingress p).0 ≡ captured_func o n layer p
  unfolding Alike
  kind_same is_ingress p = let (k, e) = sync_Alike is_ingress p in func_same layer _ p k e
