-- ===== src/Networks/Config.antt =====
-- NetworkConfig: the queries on its policies and its clones.
pub mod Connections
pub mod AllLayers
pub mod Hosts
pub mod Clone
use Prim.Native.String.{String, ◌++◌ as append, find, len}
use text.Mathlib.Text.{◌==◌ as str_eq}
use network_config_analyzer.Prelude.{
  Bool, true, false, not, ◌&&◌, ◌||◌, Option, none, some, List, [], ◌∷◌, ◌++◌, if◌then◌else◌, ltb,
}
use network_config_analyzer.Prelude.Outcome.{Outcome, ok, raised, Exn, ◌>>=◌}
use network_config_analyzer.Policies.Connectivity.{Connectivity}
use network_config_analyzer.Policies.Policy.{
  PolicyType, Policy, Filter, PolicyConnections, no_connections, replace_all_allowed, and_by_filter,
  sub_by_filter,
}
use network_config_analyzer.Policies.NetPolicy.{Orders, NetPolicy, base_of}
use network_config_analyzer.Policies.Equality.{policy_eq, type_eq}
use network_config_analyzer.Networks.Layer.{
  LayerName, k8s_calico, layer_connections, get_all_peers_group, get_all_dns_entries,
}
use network_config_analyzer.Networks.Container.{
  Policies, Container, Key, new_layers, has_layer, name_eq, is_default,
  empty_layer_allowed_connections, PoliciesContainer, lookup, append_policy,
}

module _ (o : Connectivity) (n : Orders) where
  open o use {Peers, Conns, peers_or, some_peers, conns_or, conns_minus, conns_and}

  -- The peers of the peer container, and the policies container; the finder and the flags for output
  -- are left out.
  pub record Config : Type 0 where
    pub name : String
    pub peers : Peers
    pub container : PoliciesContainer o n

  unfoldable pub policies_of : Config → Policies o n
  policies_of c = values c.container.policies
    where
      values : List (Key o n × NetPolicy o n) → Policies o n
      values [] = []
      values ((k, p) ∷ policies) = p ∷ values policies

  unfoldable pub all_types : List PolicyType
  all_types =
      PolicyType.unknown ∷ PolicyType.k8s_network_policy ∷ PolicyType.calico_network_policy
      ∷ PolicyType.calico_global_network_policy ∷ PolicyType.calico_profile
      ∷ PolicyType.istio_authorization_policy ∷ PolicyType.istio_sidecar ∷ PolicyType.ingress
      ∷ PolicyType.gateway ∷ PolicyType.virtual_service ∷ PolicyType.gateway_policy
      ∷ PolicyType.policy_list ∷ []

  -- The policies with a full name and one of the types.
  unfoldable pub by_full_name : String → List PolicyType → Config → Policies o n
  unfolding lookup
  by_full_name name [] c = []
  by_full_name name (t ∷ types) c =
      let rest = by_full_name name types c in
      elim (lookup o n (name, t) c.container.policies) [ none ↦ rest | some p ↦ p ∷ rest ]

  unfoldable pub of_type : Option PolicyType → PolicyType → Bool
  unfolding type_eq
  of_type none t = true
  of_type (some s) t = type_eq t s

  unfoldable pub by_name : String → Option PolicyType → Policies o n → Policies o n
  unfolding of_type base_of
  by_name name required [] = []
  by_name name required (p ∷ policies) =
      let rest = by_name name required policies in
      let b = base_of o n p in
      if str_eq name b.name && of_type required b.policy_kind then p ∷ rest else rest

  unfoldable pub possible_policy_types : Option PolicyType → List PolicyType
  unfolding all_types
  possible_policy_types none = all_types
  possible_policy_types (some t) = t ∷ []

  -- `policy_name.count('//') == 0`: `find` is past the end where there is none.
  unfoldable pub has_no_config : String → Bool
  has_no_config name = ltb (len name) (find name "//")

  unfoldable pub is_none_found : Policies o n → Bool
  is_none_found [] = true
  is_none_found (p ∷ policies) = false

  unfoldable pub find_policy : String → Option PolicyType → Config → Policies o n
  unfolding by_full_name by_name possible_policy_types has_no_config is_none_found policies_of
  find_policy name required c =
      let res = by_full_name name (possible_policy_types required) c in
      let others = by_name name required (policies_of c) in
      if is_none_found res && has_no_config name then res ++ others else res

  unfoldable pub clone_without_policies : String → Config → Config
  unfolding new_layers
  clone_without_policies name c = record {
    name = name;
    peers = c.peers;
    container = record { policies = []; layers = new_layers o n };
  }

  unfoldable pub append_policy_to_config : NetPolicy o n → Config → Outcome Config
  unfolding append_policy
  append_policy_to_config p c = append_policy o n (some p) c.container >>= λ container.
      ok (record c { container = container })

  -- `for other_policy in …: if other_policy != policy_to_exclude: res.append_policy_to_config(…)`
  unfoldable pub append_others : NetPolicy o n → Policies o n → Config → Outcome Config
  unfolding append_policy_to_config policy_eq
  append_others excluded [] c = ok c
  append_others excluded (p ∷ policies) c =
      (if not (policy_eq o n p excluded) then append_policy_to_config p c else ok c)
      >>= append_others excluded policies

  unfoldable pub clone_without_policy : NetPolicy o n → Config → Outcome Config
  unfolding clone_without_policies append_others policies_of
  clone_without_policy excluded c =
      append_others excluded (policies_of c) (clone_without_policies c.name c)

  unfoldable pub clone_with_just_one_policy : String → Option PolicyType → Config → Outcome Config
  unfolding find_policy clone_without_policies append_policy_to_config
  clone_with_just_one_policy name required c =
      let res = clone_without_policies (append c.name (append "/" name)) c in
      elim (find_policy name required c) [
        | [] ↦ raised Exn.exception
        | p ∷ more ↦
            if is_none_found more then append_policy_to_config p res else raised Exn.exception
      ]

  unfoldable pub selected_of : Policies o n → Peers → Peers
  unfolding base_of
  selected_of [] captured = captured
  selected_of (p ∷ policies) captured =
      selected_of policies (peers_or captured (base_of o n p).selected_peers)

  unfoldable pub policies_of_layer : LayerName → Container o n → Policies o n
  unfolding name_eq
  policies_of_layer a [] = []
  policies_of_layer a ((b, ps) ∷ layers) = if name_eq a b then ps else policies_of_layer a layers

  unfoldable pub get_captured_pods : Option LayerName → Config → Peers
  unfolding selected_of policies_of policies_of_layer
  get_captured_pods none c = selected_of (policies_of c) o.no_peers
  get_captured_pods (some a) c = selected_of (policies_of_layer a c.container.layers) o.no_peers

  unfoldable pub affected_of : Bool → Policies o n → Peers → Peers
  unfolding base_of
  affected_of is_ingress [] affected = affected
  affected_of is_ingress (p ∷ policies) affected =
      let b = base_of o n p in
      affected_of is_ingress policies (
        if is_ingress && b.affects_ingress || not is_ingress && b.affects_egress
        then peers_or affected b.selected_peers
        else affected)

  -- A layer that is not there is a KeyError.
  unfoldable pub get_affected_pods : Bool → LayerName → Config → Outcome Peers
  unfolding affected_of policies_of_layer has_layer
  get_affected_pods is_ingress a c =
      let layers = c.container.layers in
      if has_layer o n a layers
      then ok (affected_of is_ingress (policies_of_layer a layers) o.no_peers)
      else raised Exn.key_error

  unfoldable pub no_ipv6 : Policies o n → Bool
  unfolding base_of
  no_ipv6 [] = true
  no_ipv6 (p ∷ policies) = if (base_of o n p).has_ipv6_addresses then false else no_ipv6 policies

  unfoldable pub check_for_excluding_ipv6_addresses : Bool → Config → Bool
  unfolding no_ipv6 policies_of
  check_for_excluding_ipv6_addresses exclude_ipv6 c =
      if not exclude_ipv6 then false else no_ipv6 (policies_of c)
