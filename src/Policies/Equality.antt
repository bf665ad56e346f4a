-- ===== src/Policies/Equality.antt =====
-- `==` of policies, their full names, and the numbers of the types.
use Prim.Native.String.{String, ◌++◌ as append}
use text.Mathlib.Text.{◌==◌ as str_eq}
use network_config_analyzer.Prelude.{
  ℕ, Bool, true, false, ◌&&◌, Option, none, some, List, [], ◌∷◌, ◌==◌,
}
use network_config_analyzer.Policies.Connectivity.{Connectivity}
use network_config_analyzer.Policies.Policy.{Policy, Props, PolicyType}
use network_config_analyzer.Policies.Rules
use network_config_analyzer.Policies.Rules.{PeerRule, action_type_eq}
use network_config_analyzer.Policies.Calico
use network_config_analyzer.Policies.K8s
use network_config_analyzer.Policies.Istio
use network_config_analyzer.Policies.Sidecar
use network_config_analyzer.Policies.Gateway
use network_config_analyzer.Policies.NetPolicy.{
  Orders, NetPolicy, of_k8s, of_calico, of_istio, of_sidecar, of_gateway,
}

-- The value of the enumeration.
unfoldable pub type_number : PolicyType → ℕ
type_number PolicyType.unknown = 0
type_number PolicyType.k8s_network_policy = 1
type_number PolicyType.calico_network_policy = 2
type_number PolicyType.calico_global_network_policy = 3
type_number PolicyType.calico_profile = 4
type_number PolicyType.istio_authorization_policy = 10
type_number PolicyType.istio_sidecar = 11
type_number PolicyType.ingress = 20
type_number PolicyType.gateway = 30
type_number PolicyType.virtual_service = 31
type_number PolicyType.gateway_policy = 32
type_number PolicyType.policy_list = 500

unfoldable pub type_eq : PolicyType → PolicyType → Bool
unfolding type_number
type_eq s t = type_number s == type_number t

unfoldable pub lists_eq : {A : Type 0} → (A → A → Bool) → List A → List A → Bool
lists_eq eq [] [] = true
lists_eq eq [] (y ∷ ys) = false
lists_eq eq (x ∷ xs) [] = false
lists_eq eq (x ∷ xs) (y ∷ ys) = eq x y && lists_eq eq xs ys

-- A namespace is equal to another if its name is.
unfoldable pub namespace_eq : Option String → Option String → Bool
namespace_eq none none = true
namespace_eq none (some t) = false
namespace_eq (some s) none = false
namespace_eq (some s) (some t) = str_eq s t

-- full_name
unfoldable pub joined_name : String → Option String → String
joined_name name none = name
joined_name name (some namespace) = append namespace (append "/" name)

unfoldable pub bool_eq : Bool → Bool → Bool
bool_eq true b = b
bool_eq false true = false
bool_eq false false = true

module _ (o : Connectivity) where
  unfoldable pub props_eq : Props o → Props o → Bool
  props_eq s t = o.conns_eq s.allow t.allow && o.conns_eq s.deny t.deny && o.conns_eq s.pass t.pass

  -- NetworkPolicy.__eq__ of two policies of one class that are in sync; `rules` is whether their rules
  -- are equal.
  unfoldable pub base_eq : Policy o → Policy o → Bool → Bool
  unfolding props_eq namespace_eq bool_eq
  base_eq p q rules =
      str_eq p.name q.name
      && namespace_eq p.namespace q.namespace
      && bool_eq p.affects_egress q.affects_egress
      && bool_eq p.affects_ingress q.affects_ingress
      && o.peers_eq p.selected_peers q.selected_peers
      && rules
      && props_eq p.ingress_props q.ingress_props
      && props_eq p.egress_props q.egress_props

  unfoldable pub rules_eq : List (PeerRule o) → List (PeerRule o) → Bool
  unfolding lists_eq Rules.rule_eq
  rules_eq rs ss = lists_eq (Rules.rule_eq o) rs ss

  module _ (n : Orders) where
    unfoldable pub orders_eq : Option n.Order → Option n.Order → Bool
    orders_eq none none = true
    orders_eq none (some b) = false
    orders_eq (some a) none = false
    orders_eq (some a) (some b) = n.order_eq a b

    -- `==` of two policies, which syncs both; it is False for policies of different classes.
    unfoldable pub policy_eq : NetPolicy o n → NetPolicy o n → Bool
    unfolding orders_eq base_eq rules_eq K8s.sync_props Calico.sync_props Istio.sync_props
        Sidecar.sync_props Gateway.sync_props Sidecar.rule_eq lists_eq bool_eq action_type_eq
        Rules.rule_eq Calico.rule_eq
    policy_eq (of_k8s p) (of_k8s q) =
        base_eq (K8s.sync_props o p).base (K8s.sync_props o q).base
          (rules_eq p.ingress_rules q.ingress_rules && rules_eq p.egress_rules q.egress_rules)
    policy_eq (of_calico p) (of_calico q) =
        base_eq (Calico.sync_props o p).base (Calico.sync_props o q).base (
          lists_eq (Calico.rule_eq o) p.ingress_rules q.ingress_rules
          && lists_eq (Calico.rule_eq o) p.egress_rules q.egress_rules)
        && orders_eq p.order q.order
    policy_eq (of_istio p) (of_istio q) =
        base_eq (Istio.sync_props o p).base (Istio.sync_props o q).base
          (rules_eq p.ingress_rules q.ingress_rules)
        && action_type_eq p.action q.action
    policy_eq (of_sidecar p) (of_sidecar q) =
        base_eq (Sidecar.sync_props o p).base (Sidecar.sync_props o q).base
          (lists_eq (Sidecar.rule_eq o) p.egress_rules q.egress_rules)
        && bool_eq p.default_sidecar q.default_sidecar
    policy_eq (of_gateway p) (of_gateway q) =
        base_eq (Gateway.sync_props o p).base (Gateway.sync_props o q).base
          (rules_eq p.ingress_rules q.ingress_rules && rules_eq p.egress_rules q.egress_rules)
        && action_type_eq p.action q.action
    policy_eq (of_k8s p) (of_calico q) = false
    policy_eq (of_k8s p) (of_istio q) = false
    policy_eq (of_k8s p) (of_sidecar q) = false
    policy_eq (of_k8s p) (of_gateway q) = false
    policy_eq (of_calico p) (of_k8s q) = false
    policy_eq (of_calico p) (of_istio q) = false
    policy_eq (of_calico p) (of_sidecar q) = false
    policy_eq (of_calico p) (of_gateway q) = false
    policy_eq (of_istio p) (of_k8s q) = false
    policy_eq (of_istio p) (of_calico q) = false
    policy_eq (of_istio p) (of_sidecar q) = false
    policy_eq (of_istio p) (of_gateway q) = false
    policy_eq (of_sidecar p) (of_k8s q) = false
    policy_eq (of_sidecar p) (of_calico q) = false
    policy_eq (of_sidecar p) (of_istio q) = false
    policy_eq (of_sidecar p) (of_gateway q) = false
    policy_eq (of_gateway p) (of_k8s q) = false
    policy_eq (of_gateway p) (of_calico q) = false
    policy_eq (of_gateway p) (of_istio q) = false
    policy_eq (of_gateway p) (of_sidecar q) = false
