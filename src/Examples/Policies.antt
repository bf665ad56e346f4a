-- ===== src/Examples/Policies.antt =====
-- Policies, layers and configurations on the small world.
use Prim.Native.String.{String}
use network_config_analyzer.Prelude.{
  refl, ℕ, ◌≡◌, Bool, true, false, ◌&&◌, some, [], ◌∷◌, ltb, ◌==◌, arith,
}
use network_config_analyzer.Examples.World.{
  Peer, pod, node, net, entry, Connection, connection, world, world_laws,
}
use network_config_analyzer.Policies.Policy.{PolicyType, Policy, Props}
use network_config_analyzer.Policies.Policy.Cache.{Says, Answers}
use network_config_analyzer.Policies.Types.{get_policy_type_from_dict}
use network_config_analyzer.Policies.Rules.{ActionType, PeerRule}
use network_config_analyzer.Policies.Calico
use network_config_analyzer.Policies.Calico.{Action, CalicoRule, CalicoPolicy}
use network_config_analyzer.Policies.Calico.FirstMatch
use network_config_analyzer.Policies.K8s.{K8sPolicy}
use network_config_analyzer.Policies.Istio.{IstioPolicy}
use network_config_analyzer.Policies.Sidecar.{SidecarRule, without_rule}
use network_config_analyzer.Policies.NetPolicy.{Orders, NetPolicy, of_k8s, allowed_connections}
use network_config_analyzer.Policies.NetPolicy.Allowed.{
  verdict_of, captured_of, IsSynced, allowed_connections-Says,
}

abbrev pub numbers : Orders
numbers = record { Order = ℕ; order_lt = ltb; order_eq = λ a b. a == b; thousand = 1000 }

abbrev pub AnyPolicy : Type 0
AnyPolicy = NetPolicy world numbers

abbrev pub only : Peer → Peer → Bool
only pod pod = true
only pod node = false
only pod net = false
only pod entry = false
only node pod = false
only node node = true
only node net = false
only node entry = false
only net pod = false
only net node = false
only net net = true
only net entry = false
only entry pod = false
only entry node = false
only entry net = false
only entry entry = true

abbrev pub from_net : Connection → Bool
from_net c = only net c.src && only pod c.dst

abbrev pub no_props : Props world
no_props = record { allow = λ c. false; deny = λ c. false; pass = λ c. false }

abbrev pub base : String → PolicyType → Policy world
base name kind = record {
  name = name;
  namespace = some "default";
  selected_peers = only pod;
  props_in_sync = false;
  ingress_props = no_props;
  egress_props = no_props;
  affects_ingress = true;
  affects_egress = false;
  policy_kind = kind;
  has_ipv6_addresses = false;
}

abbrev pub rule : PeerRule world
rule = record { peer_set = only net; props = from_net }

abbrev pub k8s : K8sPolicy world
k8s = record {
  base = base "web" PolicyType.k8s_network_policy;
  ingress_rules = rule ∷ [];
  egress_rules = [];
}

abbrev pub deny_rule : CalicoRule world
deny_rule = record {
  src_peers = only net;
  dst_peers = only pod;
  action = Action.deny;
  props = from_net;
}

abbrev pub pass_rule : CalicoRule world
pass_rule = record {
  src_peers = only net;
  dst_peers = only pod;
  action = Action.pass;
  props = from_net;
}

abbrev pub calico : CalicoPolicy world ℕ
calico = record {
  base = base "guard" PolicyType.calico_network_policy;
  ingress_rules = pass_rule ∷ deny_rule ∷ [];
  egress_rules = [];
  order = some 10;
}

abbrev pub authorization : ActionType → IstioPolicy world
authorization action = record {
  base = base "auth" PolicyType.istio_authorization_policy;
  ingress_rules = rule ∷ [];
  action = action;
}

pub unsynced : {A : Type 0} → false ≡ true → A
unsynced h = absurd (ground arith)

abbrev pub inbound : Connection
inbound = connection net pod

allowed_connections-first_match_example :
    Answers world world_laws true calico.base
      (Calico.allowed_connections world true calico).1
      inbound
      (FirstMatch.first_match world world_laws
        (FirstMatch.rules_of world world_laws true calico)
        inbound)
    × FirstMatch.IsSynced world world_laws (Calico.allowed_connections world true calico).0
    × (FirstMatch.rules_of world world_laws true (Calico.allowed_connections world true calico).0
        ≡ FirstMatch.rules_of world world_laws true calico)
allowed_connections-first_match_example =
    FirstMatch.allowed_connections-first_match world world_laws true calico inbound unsynced

allowed_connections-Says_example :
    Says world world_laws
      (allowed_connections world numbers true (of_k8s k8s)).1
      inbound
      (verdict_of world world_laws numbers true (of_k8s k8s) inbound)
    × ((allowed_connections world numbers true (of_k8s k8s)).1.captured
        ≡ captured_of world world_laws numbers true (of_k8s k8s))
    × IsSynced world world_laws numbers (allowed_connections world numbers true (of_k8s k8s)).0
allowed_connections-Says_example =
    allowed_connections-Says world world_laws numbers true (of_k8s k8s) inbound unsynced

calico_runs :
    get_policy_type_from_dict (some "NetworkPolicy") (some "projectcalico.org/v3")
    ≡ PolicyType.calico_network_policy
unfolding get_policy_type_from_dict
calico_runs = refl

list_runs :
    get_policy_type_from_dict (some "NetworkPolicyList") (some "networking.k8s.io/v1")
    ≡ PolicyType.policy_list
unfolding get_policy_type_from_dict
list_runs = refl

sidecar_runs :
    get_policy_type_from_dict (some "Sidecar") (some "networking.istio.io/v1alpha3")
    ≡ PolicyType.istio_sidecar
unfolding get_policy_type_from_dict
sidecar_runs = refl

abbrev sidecar_rule : (Peer → Bool) → SidecarRule world
sidecar_rule peers = record {
  egress_peer_set = peers;
  special_egress_peer_set = λ x. false;
  props = λ c. peers c.dst;
}

-- A clone without one rule has no rules at all, since all rules count as equal.
without_rule_runs :
    without_rule world
      (sidecar_rule (λ x. true))
      (sidecar_rule (λ x. true) ∷ sidecar_rule (λ x. false) ∷ [])
    ≡ []
unfolding without_rule
without_rule_runs = refl
