-- ===== src/Policies/NetPolicy.antt =====
-- A policy of any class, and the methods that depend on the class.
pub mod Allowed
use network_config_analyzer.Prelude.{Bool, true, false, Option, none, some}
use network_config_analyzer.Policies.Connectivity.{Connectivity}
use network_config_analyzer.Policies.Policy.{Policy, PolicyConnections}
use network_config_analyzer.Policies.Rules.{ActionType, action_type_eq}
use network_config_analyzer.Policies.Calico
use network_config_analyzer.Policies.K8s
use network_config_analyzer.Policies.Istio
use network_config_analyzer.Policies.Sidecar
use network_config_analyzer.Policies.Gateway

-- The numbers that Calico policies have as their order.
pub record Orders : Type 1 where
  pub Order : Type 0
  pub order_lt : Order → Order → Bool
  pub order_eq : Order → Order → Bool
  pub thousand : Order

module _ (o : Connectivity) (n : Orders) where
  pub data NetPolicy : Type 0 where
    of_k8s : K8s.K8sPolicy o → NetPolicy
    of_calico : Calico.CalicoPolicy o n.Order → NetPolicy
    of_istio : Istio.IstioPolicy o → NetPolicy
    of_sidecar : Sidecar.SidecarPolicy o → NetPolicy
    of_gateway : Gateway.GatewayPolicy o → NetPolicy

  unfoldable pub base_of : NetPolicy → Policy o
  base_of (of_k8s p) = p.base
  base_of (of_calico p) = p.base
  base_of (of_istio p) = p.base
  base_of (of_sidecar p) = p.base
  base_of (of_gateway p) = p.base

  unfoldable pub allowed_connections : Bool → NetPolicy → NetPolicy × PolicyConnections o
  unfolding K8s.allowed_connections Calico.allowed_connections Istio.allowed_connections
      Sidecar.allowed_connections Gateway.allowed_connections
  allowed_connections is_ingress (of_k8s p) =
      let (p', r) = K8s.allowed_connections o is_ingress p in (of_k8s p', r)
  allowed_connections is_ingress (of_calico p) =
      let (p', r) = Calico.allowed_connections o is_ingress p in (of_calico p', r)
  allowed_connections is_ingress (of_istio p) =
      let (p', r) = Istio.allowed_connections o is_ingress p in (of_istio p', r)
  allowed_connections is_ingress (of_sidecar p) =
      let (p', r) = Sidecar.allowed_connections o is_ingress p in (of_sidecar p', r)
  allowed_connections is_ingress (of_gateway p) =
      let (p', r) = Gateway.allowed_connections o is_ingress p in (of_gateway p', r)

  -- get_order: K8s policies count as 1000, and `none` stands for infinity.
  unfoldable pub get_order : NetPolicy → Option n.Order
  get_order (of_k8s p) = some n.thousand
  get_order (of_calico p) = p.order
  get_order (of_istio p) = none
  get_order (of_sidecar p) = none
  get_order (of_gateway p) = none

  -- `self.get_order() < other.get_order()`, with the tests for None before it
  unfoldable pub order_before : Option n.Order → Option n.Order → Bool
  order_before none b = false
  order_before (some a) none = true
  order_before (some a) (some b) = n.order_lt a b

  -- IstioNetworkPolicy.__lt__ where the other policy is one, too.
  unfoldable pub istio_before : ActionType → NetPolicy → Bool
  unfolding action_type_eq
  istio_before a (of_istio q) = action_type_eq a ActionType.deny
  istio_before a (of_k8s q) = false
  istio_before a (of_calico q) = false
  istio_before a (of_sidecar q) = false
  istio_before a (of_gateway q) = false

  -- `self < other`
  unfoldable pub policy_lt : NetPolicy → NetPolicy → Bool
  unfolding istio_before order_before get_order
  policy_lt (of_istio p) q = istio_before p.action q
  policy_lt (of_k8s p) q = order_before (get_order (of_k8s p)) (get_order q)
  policy_lt (of_calico p) q = order_before (get_order (of_calico p)) (get_order q)
  policy_lt (of_sidecar p) q = order_before (get_order (of_sidecar p)) (get_order q)
  policy_lt (of_gateway p) q = order_before (get_order (of_gateway p)) (get_order q)
