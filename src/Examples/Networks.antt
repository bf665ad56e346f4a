-- ===== src/Examples/Networks.antt =====
-- Layers and configurations on the small world.

use network_config_analyzer.Prelude.{
  ℕ, ◌≡◌, refl, Bool, true, false, not, ◌&&◌, ◌||◌, none, some, List, [], ◌∷◌, ltb, arith, inl, suc,
}
use network_config_analyzer.Prelude.Outcome.{ok}
use network_config_analyzer.Examples.World.{
  Peer, pod, node, net, entry, Connection, connection, world, world_laws,
}
use network_config_analyzer.Examples.Policies.{
  numbers, AnyPolicy, k8s, calico, authorization, inbound, unsynced, base,
}
use network_config_analyzer.Policies.Policy.{
  PolicyType, Filter, PolicyConnections, no_connections, replace_all_allowed, make_filter,
}
use network_config_analyzer.Policies.Policy.Verdict.{Verdict, is_denied}
use network_config_analyzer.Policies.Rules.{ActionType, action_type_eq}
use network_config_analyzer.Policies.Sidecar.{OutboundMode}
use network_config_analyzer.Policies.NetPolicy.{
  of_k8s, of_calico, of_istio, of_sidecar, base_of, get_order, order_before, istio_before,
}
use network_config_analyzer.Policies.Equality.{type_eq, type_number}
use network_config_analyzer.Policies.Order.Insort.{All}
use network_config_analyzer.Policies.Order.Sorted.{InOrder}
use network_config_analyzer.Networks.Layer.{
  LayerName, add_policy, layer_connections, allowed_xgress_conns, collect_policies_conns,
  get_all_peers_group,
}
use network_config_analyzer.Networks.Layer.K8s.{in_world}
use network_config_analyzer.Networks.Layer.Allowed.{rules_allow, is_open}
use network_config_analyzer.Networks.Layer.Directions.{leaves, enters, layer_connections-ok}
use network_config_analyzer.Networks.Layer.Collect.{layer_verdict}
use network_config_analyzer.Networks.Layer.Order.{
  is_ordered, is_istio, denies_before, AreOrdered, number_before, add_policy-InOrder,
  add_policy-denies_first,
}
use network_config_analyzer.Networks.Layer.Authorization.{
  add_each, some_denies, some_allows, collect_policies_conns-deny_wins,
}
use network_config_analyzer.Networks.Container.{
  Container, has_layer, PoliciesContainer, new_layers, add_to_container, append_policy, lookup,
  key_of, key_eq, Key,
}
use network_config_analyzer.Networks.Container.Invariant.{AllFilled, size, add_to_container-IsWell}
use network_config_analyzer.Networks.Container.Policies.{IsValid, append_policy-found}
use network_config_analyzer.Networks.Config.Connections.{all_layers_connections}
use network_config_analyzer.Networks.Config.{Config, policies_of, clone_without_policy}
use network_config_analyzer.Networks.Config.Clone.{
  is_unknown, others, Holds, clone_without_policy-ok,
}
use network_config_analyzer.Networks.Config.AllLayers.{
  misses_hosts, all_allow, some_allow, some_deny, all_layers_connections-ok,
}

abbrev allows : (Connection → Bool) → Connection → Bool
allows k c = k c

abbrev all_kinds : Filter
all_kinds = record {
  calc_allowed = true;
  calc_denied = true;
  calc_pass = true;
  calc_all_allowed = true;
}

abbrev everyone : Peer → Bool
everyone pod = true
everyone node = true
everyone net = false
everyone entry = true

abbrev both : List AnyPolicy
both = of_calico calico ∷ of_k8s k8s ∷ []

abbrev k8s_layer : PolicyConnections world
k8s_layer = (layer_connections world numbers LayerName.k8s_calico everyone all_kinds both).1

abbrev open_now : Bool → Bool
open_now is_ingress =
    is_open world world_laws numbers LayerName.k8s_calico everyone is_ingress both inbound

abbrev rules_now : Bool → Bool
rules_now is_ingress =
    rules_allow world world_laws numbers LayerName.k8s_calico everyone is_ingress both inbound

abbrev denied_now : Bool → Bool
denied_now is_ingress =
    is_denied (layer_verdict world world_laws numbers LayerName.k8s_calico is_ingress both inbound)

abbrev leaves_now : Bool
leaves_now = leaves world world_laws everyone inbound

abbrev enters_now : Bool
enters_now = enters world world_laws everyone inbound

layer_connections-ok_example :
    (allows k8s_layer.all_allowed_conns inbound
      ≡ ((open_now true || leaves_now) && (open_now false || enters_now)))
    × (allows k8s_layer.allowed_conns inbound ≡ (
        rules_now true && (open_now false || enters_now)
        || rules_now false && (open_now true || leaves_now)))
    × (allows k8s_layer.denied_conns inbound ≡ (denied_now true || denied_now false))
layer_connections-ok_example =
    layer_connections-ok world world_laws numbers LayerName.k8s_calico everyone inbound all_kinds
      both refl refl refl refl (unsynced, (unsynced, tt))

abbrev layers : Container world numbers
layers =
    (LayerName.k8s_calico, both)
    ∷ (LayerName.istio, of_istio (authorization ActionType.allow) ∷ [])
    ∷ []

abbrev config_conns : PolicyConnections world
config_conns = (all_layers_connections world numbers everyone all_kinds layers).1

there_is_k8s : misses_hosts world world_laws numbers everyone layers ≡ false
unfolding has_layer get_all_peers_group
there_is_k8s = refl

all_layers_connections-ok_example :
    (allows config_conns.all_allowed_conns inbound ≡ (
      true
      && ((in_world world world_laws everyone net && in_world world world_laws everyone pod)
          && all_allow world world_laws numbers everyone all_kinds inbound layers)))
    × (allows config_conns.allowed_conns inbound ≡ (
        true
        && (some_allow world world_laws numbers everyone all_kinds inbound layers
            && allows config_conns.all_allowed_conns inbound)))
    × (allows config_conns.denied_conns inbound
        ≡ (true && some_deny world world_laws numbers everyone all_kinds inbound layers))
all_layers_connections-ok_example =
    all_layers_connections-ok world world_laws numbers everyone all_kinds inbound refl layers
      there_is_k8s

-- `replace(res_conns_filter, calc_all_allowed=False)` sets the flag again.
replace_all_allowed_runs : (replace_all_allowed all_kinds).calc_all_allowed ≡ true
unfolding replace_all_allowed make_filter
replace_all_allowed_runs = refl

-- Without policies, a pod may connect to itself.
node_runs :
    allows
      (layer_connections world numbers LayerName.k8s_calico everyone all_kinds
        []).1.all_allowed_conns
      (connection pod pod)
    ≡ true
unfolding layer_connections
node_runs = refl

abbrev deny_policy : AnyPolicy
deny_policy = of_istio (authorization ActionType.deny)

abbrev allow_policy : AnyPolicy
allow_policy = of_istio (authorization ActionType.allow)

abbrev added : List AnyPolicy
added = allow_policy ∷ deny_policy ∷ allow_policy ∷ []

abbrev collected : PolicyConnections world
collected =
    (collect_policies_conns world numbers LayerName.istio true
      (add_each world world_laws numbers added) (no_connections world)).1

collect_policies_conns-deny_wins_example :
    (allows collected.denied_conns inbound ≡ some_denies world world_laws numbers added inbound)
    × (allows collected.allowed_conns inbound ≡ (
        some_allows world world_laws numbers added inbound
        && not (some_denies world world_laws numbers added inbound)))
collect_policies_conns-deny_wins_example =
    collect_policies_conns-deny_wins world world_laws numbers LayerName.istio added inbound
      (refl, (refl, (refl, tt))) (unsynced, (unsynced, (unsynced, tt)))

abbrev istio_layer : PolicyConnections world
istio_layer =
    (allowed_xgress_conns world numbers LayerName.istio true everyone all_kinds
      (deny_policy ∷ allow_policy ∷ [])).1

abbrev istio_verdict : Verdict
istio_verdict =
    layer_verdict world world_laws numbers LayerName.istio true (deny_policy ∷ allow_policy ∷ [])
      inbound

add_policy-denies_first_example :
    InOrder (denies_before world numbers) (add_policy world numbers deny_policy (allow_policy ∷ []))
    × All (is_istio world numbers) true (add_policy world numbers deny_policy (allow_policy ∷ []))
add_policy-denies_first_example =
    add_policy-denies_first world numbers deny_policy (allow_policy ∷ []) refl (refl, tt) (tt, tt)

abbrev sidecar_policy : AnyPolicy
sidecar_policy = of_sidecar (record {
  base = base "sidecar" PolicyType.istio_sidecar;
  egress_rules = [];
  default_sidecar = true;
  outbound_mode = OutboundMode.allow_any;
})

-- After a sidecar, a policy that denies comes last: it is not before a sidecar.
deny_after_sidecar_runs :
    add_policy world numbers deny_policy (allow_policy ∷ sidecar_policy ∷ [])
    ≡ allow_policy ∷ sidecar_policy ∷ deny_policy ∷ []
unfolding add_policy istio_before order_before get_order action_type_eq
deny_after_sidecar_runs = refl

less_asym : (a b : ℕ) → ltb a b ≡ true → ltb b a ≡ false
less_asym a b h = ground arith

less_comparison : (a b c : ℕ) → ltb a b ≡ true → ltb c b ≡ false → ltb a c ≡ true
less_comparison a b c h k = ground arith

abbrev numbers_ordered : AreOrdered world numbers
numbers_ordered = record { asym = less_asym; comparison = less_comparison }

in_order : InOrder (number_before world numbers) (of_k8s k8s ∷ [])
in_order = (tt, tt)

add_policy-InOrder_example :
    InOrder
      (number_before world numbers)
      (add_policy world numbers (of_calico calico) (of_k8s k8s ∷ []))
    × All
        (is_ordered world numbers)
        true
        (add_policy world numbers (of_calico calico) (of_k8s k8s ∷ []))
add_policy-InOrder_example =
    add_policy-InOrder world numbers numbers_ordered (of_calico calico) (of_k8s k8s ∷ []) refl
      (refl, tt) in_order

abbrev first_layers : Container world numbers
first_layers = (LayerName.k8s_calico, []) ∷ []

first_is_new : first_layers ≡ new_layers world numbers
unfolding new_layers
first_is_new = refl

add_to_container-IsWell_example :
    AllFilled world numbers
      (add_to_container world numbers allow_policy (some LayerName.istio) first_layers)
    × (size world numbers
          (add_to_container world numbers allow_policy (some LayerName.istio) first_layers)
        ≡ suc 0)
add_to_container-IsWell_example =
    add_to_container-IsWell world numbers allow_policy LayerName.istio first_layers
      (inl first_is_new)

abbrev empty : PoliciesContainer world numbers
empty = record { policies = []; layers = first_layers }

k8s_known : type_eq (base_of world numbers (of_k8s k8s)).policy_kind PolicyType.unknown ≡ false
unfolding type_eq type_number base_of
k8s_known = refl

k8s_is_new : lookup world numbers (key_of world numbers (of_k8s k8s)) [] ≡ none
unfolding lookup
k8s_is_new = refl

append_policy-found_example :
    (c : PoliciesContainer world numbers) × (append_policy world numbers (some (of_k8s k8s)) empty
      ≡ ok c)
    × IsValid world numbers c
    × (lookup world numbers (key_of world numbers (of_k8s k8s)) c.policies ≡ some (of_k8s k8s))
    × ((k : Key world numbers)
        → key_eq world numbers k (key_of world numbers (of_k8s k8s)) ≡ false
        → lookup world numbers k c.policies ≡ lookup world numbers k [])
append_policy-found_example =
    append_policy-found world numbers (of_k8s k8s) empty (tt, inl first_is_new, refl) k8s_known
      k8s_is_new

abbrev two_policies : Config world numbers
two_policies = record {
  name = "two";
  peers = everyone;
  container = record {
    policies =
        (key_of world numbers (of_k8s k8s), of_k8s k8s)
        ∷ (key_of world numbers (of_calico calico), of_calico calico)
        ∷ [];
    layers = (LayerName.k8s_calico, of_calico calico ∷ of_k8s k8s ∷ []) ∷ [];
  };
}

two_known : All (is_unknown world numbers) false (policies_of world numbers two_policies)
unfolding policies_of type_eq type_number base_of
two_known = (refl, (refl, tt))

clone_without_policy-ok_example :
    (c : Config world numbers) × (clone_without_policy world numbers (of_calico calico) two_policies
      ≡ ok c)
    × Holds world numbers c
        (others world numbers (of_calico calico) (policies_of world numbers two_policies))
clone_without_policy-ok_example =
    clone_without_policy-ok world numbers (of_calico calico) two_policies two_known
