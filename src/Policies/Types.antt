-- ===== src/Policies/Types.antt =====
-- The type of a policy resource, from its kind and apiVersion, and the types and actions that texts name.
use Prim.Native.String.{String, find, len, slice}
use text.Mathlib.Text.{◌==◌ as str_eq}
use network_config_analyzer.Prelude.{
  ◌-◌, Bool, not, ◌&&◌, ◌||◌, Option, none, some, if◌then◌else◌, ltb,
}
use network_config_analyzer.Policies.Policy.{PolicyType}
use network_config_analyzer.Policies.Calico.{Action}

-- `needle in text`: `find` is past the end where it is not.
unfoldable pub is_in : String → String → Bool
is_in needle text = not (ltb (len text) (find text needle))

unfoldable pub ends_with : String → String → Bool
ends_with text ending =
    not (ltb (len text) (len ending))
    && str_eq (slice text (len text - len ending) (len text)) ending

unfoldable pub calico_type : String → PolicyType
calico_type kind =
    if str_eq kind "Profile"
    then PolicyType.calico_profile
    else if str_eq kind "NetworkPolicy"
    then PolicyType.calico_network_policy
    else if str_eq kind "GlobalNetworkPolicy"
    then PolicyType.calico_global_network_policy
    else PolicyType.unknown

unfoldable pub istio_type : String → PolicyType
istio_type kind =
    if str_eq kind "AuthorizationPolicy"
    then PolicyType.istio_authorization_policy
    else if str_eq kind "Sidecar"
    then PolicyType.istio_sidecar
    else if str_eq kind "Gateway"
    then PolicyType.gateway
    else if str_eq kind "VirtualService"
    then PolicyType.virtual_service
    else PolicyType.unknown

-- get_policy_type_from_dict of a kind and an apiVersion that are texts
unfoldable pub type_of_texts : String → String → PolicyType
unfolding is_in ends_with calico_type istio_type
type_of_texts kind api_version =
    if str_eq kind "" || str_eq api_version ""
    then PolicyType.unknown
    else if ends_with kind "List"
    then PolicyType.policy_list
    else if is_in "calico" api_version
    then calico_type kind
    else if is_in "istio" api_version
    then istio_type kind
    else if str_eq kind "NetworkPolicy"
    then PolicyType.k8s_network_policy
    else if str_eq kind "Ingress"
    then PolicyType.ingress
    else PolicyType.unknown

-- `none` is a kind or an apiVersion that is missing or no text, or any of a resource that is no dict.
unfoldable pub get_policy_type_from_dict : Option String → Option String → PolicyType
unfolding type_of_texts
get_policy_type_from_dict none api_version = PolicyType.unknown
get_policy_type_from_dict (some kind) none = PolicyType.unknown
get_policy_type_from_dict (some kind) (some api_version) = type_of_texts kind api_version

unfoldable pub input_kind_name_str_to_policy_type : String → Option PolicyType
input_kind_name_str_to_policy_type kind =
    if str_eq kind "K8sNetworkPolicy"
    then some PolicyType.k8s_network_policy
    else if str_eq kind "CalicoNetworkPolicy"
    then some PolicyType.calico_network_policy
    else if str_eq kind "CalicoGlobalNetworkPolicy"
    then some PolicyType.calico_global_network_policy
    else if str_eq kind "IstioAuthorizationPolicy"
    then some PolicyType.istio_authorization_policy
    else if str_eq kind "IstioSidecar"
    then some PolicyType.istio_sidecar
    else if str_eq kind "K8sIngress"
    then some PolicyType.ingress
    else none

unfoldable pub action_str_to_action_type : String → Option Action
action_str_to_action_type action =
    if str_eq action "Deny"
    then some Action.deny
    else if str_eq action "Allow"
    then some Action.allow
    else if str_eq action "Log"
    then some Action.log
    else if str_eq action "Pass"
    then some Action.pass
    else none
