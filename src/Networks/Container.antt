-- ===== src/Networks/Container.antt =====
-- NetworkLayersContainer and PoliciesContainer: the dict of layers, in the order of insertion, and the
-- dict of policies by full name and type.
pub mod Invariant
pub mod Policies
use Prim.Native.String.{String}
use text.Mathlib.Text.{◌==◌ as str_eq}
use network_config_analyzer.Prelude.{
  ℕ, Bool, true, false, not, ◌&&◌, ◌||◌, Option, none, some, List, [], ◌∷◌, ◌++◌, if◌then◌else◌,
  ◌==◌,
}
use network_config_analyzer.Prelude.Outcome.{Outcome, ok, raised, Exn}
use network_config_analyzer.Policies.Connectivity.{Connectivity}
use network_config_analyzer.Policies.Policy.{PolicyType, Filter, PolicyConnections}
use network_config_analyzer.Policies.NetPolicy.{Orders, NetPolicy, base_of}
use network_config_analyzer.Policies.Equality.{type_eq, joined_name}
use network_config_analyzer.Networks.Layer.{
  LayerName, k8s_calico, istio, k8s_gateway, istio_gateway, policy_type_to_layer, add_policy,
  layer_connections,
}

unfoldable pub layer_number : LayerName → ℕ
layer_number k8s_calico = 0
layer_number istio = 1
layer_number k8s_gateway = 2
layer_number istio_gateway = 3

unfoldable pub name_eq : LayerName → LayerName → Bool
unfolding layer_number
name_eq a b = layer_number a == layer_number b

module _ (o : Connectivity) (n : Orders) where
  abbrev pub Policies : Type 0
  Policies = List (NetPolicy o n)

  abbrev pub Container : Type 0
  Container = List (LayerName × Policies)

  -- __init__
  unfoldable pub new_layers : Container
  new_layers = (k8s_calico, []) ∷ []

  -- `layer_name in self`
  unfoldable pub has_layer : LayerName → Container → Bool
  unfolding name_eq
  has_layer a [] = false
  has_layer a ((b, ps) ∷ layers) = name_eq a b || has_layer a layers

  -- `self[layer_name].add_policy(policy)`, or `self[layer_name] = …` of a new layer
  unfoldable pub add_to_layer : NetPolicy o n → LayerName → Container → Container
  unfolding name_eq add_policy
  add_to_layer p a [] = (a, p ∷ []) ∷ []
  add_to_layer p a ((b, ps) ∷ layers) =
      let rest = add_to_layer p a layers in
      if name_eq a b then (b, add_policy o n p ps) ∷ layers else (b, ps) ∷ rest

  unfoldable pub is_default : LayerName → Bool
  unfolding name_eq
  is_default a = name_eq a k8s_calico

  unfoldable pub no_policies : Policies → Bool
  no_policies [] = true
  no_policies (p ∷ ps) = false

  -- `del self[self.default_layer]`, if that layer is there and has no policies
  unfoldable pub drop_empty_default : Container → Container
  unfolding is_default no_policies
  drop_empty_default [] = []
  drop_empty_default ((b, ps) ∷ layers) =
      let rest = drop_empty_default layers in
      if is_default b then (if no_policies ps then layers else (b, ps) ∷ layers) else (b, ps) ∷ rest

  -- NetworkLayersContainer.add_policy; `none` is what policy_type_to_layer has for no layer.
  unfoldable pub add_to_container : NetPolicy o n → Option LayerName → Container → Container
  unfolding add_to_layer drop_empty_default
  add_to_container p none layers = layers
  add_to_container p (some a) layers = drop_empty_default (add_to_layer p a layers)

  unfoldable pub all_gateways : Container → Bool
  all_gateways [] = true
  all_gateways ((k8s_gateway, ps) ∷ layers) = all_gateways layers
  all_gateways ((istio_gateway, ps) ∷ layers) = all_gateways layers
  all_gateways ((k8s_calico, ps) ∷ layers) = false
  all_gateways ((istio, ps) ∷ layers) = false

  unfoldable pub does_contain_only_gateway_layers : Container → Bool
  unfolding all_gateways
  does_contain_only_gateway_layers [] = false
  does_contain_only_gateway_layers (l ∷ layers) = all_gateways (l ∷ layers)

  unfoldable pub does_contain_istio_layers : Container → Bool
  unfolding has_layer
  does_contain_istio_layers layers = has_layer istio layers || has_layer istio_gateway layers

  -- The layer afterwards, with what its policies have cached, is of no use to the caller.
  unfoldable pub empty_layer_allowed_connections :
      o.Peers → LayerName → Filter → PolicyConnections o
  unfolding layer_connections
  empty_layer_allowed_connections peers a f = (layer_connections o n a peers f []).1

  abbrev pub Key : Type 0
  Key = String × PolicyType

  unfoldable pub key_eq : Key → Key → Bool
  unfolding type_eq
  key_eq (s, a) (t, b) = str_eq s t && type_eq a b

  -- `(policy.full_name(), policy_type)`
  unfoldable pub key_of : NetPolicy o n → Key
  unfolding joined_name base_of
  key_of p = let b = base_of o n p in (joined_name b.name b.namespace, b.policy_kind)

  pub record PoliciesContainer : Type 0 where
    pub policies : List (Key × NetPolicy o n)
    pub layers : Container

  -- `self.policies.get(key)`
  unfoldable pub lookup : Key → List (Key × NetPolicy o n) → Option (NetPolicy o n)
  unfolding key_eq
  lookup k [] = none
  lookup k ((l, p) ∷ policies) = if key_eq k l then some p else lookup k policies

  unfoldable pub is_some : {A : Type 0} → Option A → Bool
  is_some none = false
  is_some (some a) = true

  -- append_policy; `none` is the None that a parser returns. The warning is left out.
  unfoldable pub append_policy :
      Option (NetPolicy o n) → PoliciesContainer → Outcome PoliciesContainer
  unfolding lookup is_some key_of add_to_container policy_type_to_layer type_eq base_of
  append_policy none c = ok c
  append_policy (some p) c =
      let kind = (base_of o n p).policy_kind in
      if type_eq kind PolicyType.unknown
      then raised Exn.exception
      else if is_some (lookup (key_of p) c.policies)
      then ok c
      else ok (record {
        policies = c.policies ++ (key_of p, p) ∷ [];
        layers = add_to_container p (policy_type_to_layer kind) c.layers;
      })
