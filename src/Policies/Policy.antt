-- ===== src/Policies/Policy.antt =====
-- The class NetworkPolicy: the fields that all policies share, PolicyConnections and its filter.
-- A policy's connectivity properties are cached; `props_in_sync` says whether the cache holds.
pub mod Verdict
pub mod Cache
use Prim.Native.String.{String}
use network_config_analyzer.Prelude.{
  ◌≡◌, Bool, true, false, ◌||◌, Option, none, some, List, [], ◌∷◌, if◌then◌else◌,
}
use network_config_analyzer.Policies.Connectivity.{Connectivity}

pub data PolicyType : Type 0 where
  unknown k8s_network_policy calico_network_policy calico_global_network_policy : PolicyType
  calico_profile istio_authorization_policy istio_sidecar ingress gateway : PolicyType
  virtual_service gateway_policy policy_list : PolicyType

-- PolicyConnectionsFilter; __post_init__ runs whenever one is made, by dataclasses.replace too.
pub record Filter : Type 0 where
  pub calc_allowed : Bool
  pub calc_denied : Bool
  pub calc_pass : Bool
  pub calc_all_allowed : Bool

unfoldable pub make_filter : Bool → Bool → Bool → Bool → Filter
make_filter allowed denied pass all_allowed = record {
  calc_allowed = allowed;
  calc_denied = denied;
  calc_pass = pass;
  calc_all_allowed = all_allowed || allowed;
}

-- `replace(res_conns_filter, calc_all_allowed=False)`
unfoldable pub replace_all_allowed : Filter → Filter
unfolding make_filter
replace_all_allowed f = make_filter f.calc_allowed f.calc_denied f.calc_pass false

unfoldable pub only_allowed_connections : Filter
unfolding make_filter
only_allowed_connections = make_filter true false false false

unfoldable pub only_denied_connections : Filter
unfolding make_filter
only_denied_connections = make_filter false true false false

unfoldable pub only_all_allowed_connections : Filter
unfolding make_filter
only_all_allowed_connections = make_filter false false false true

module _ (o : Connectivity) where
  open o use {Peers, Conns, no_peers, no_conns, conns_and, conns_minus}

  -- The properties of a policy in one direction.
  pub record Props : Type 0 where
    pub allow : Conns
    pub deny : Conns
    pub pass : Conns

  unfoldable pub empty_props : Props
  empty_props = record { allow = no_conns; deny = no_conns; pass = no_conns }

  pub record Policy : Type 0 where
    pub name : String
    pub namespace : Option String
    pub selected_peers : Peers
    pub props_in_sync : Bool
    pub ingress_props : Props
    pub egress_props : Props
    pub affects_ingress : Bool
    pub affects_egress : Bool
    pub policy_kind : PolicyType
    pub has_ipv6_addresses : Bool

  -- __init__
  unfoldable pub new_policy : String → Option String → Policy
  unfolding empty_props
  new_policy name namespace = record {
    name = name;
    namespace = namespace;
    selected_peers = no_peers;
    props_in_sync = false;
    ingress_props = empty_props;
    egress_props = empty_props;
    affects_ingress = false;
    affects_egress = false;
    policy_kind = PolicyType.unknown;
    has_ipv6_addresses = false;
  }

  -- _init_props
  unfoldable pub init_props : Policy → Policy
  unfolding empty_props
  init_props p = record p { ingress_props = empty_props; egress_props = empty_props }

  -- What sync_props of every policy does, with the loops over the rules of each direction.
  unfoldable pub sync_with : (Props → Props) → (Props → Props) → Policy → Policy
  unfolding init_props
  sync_with over_ingress over_egress p =
      let b = init_props p in
      if p.props_in_sync then p else record b {
        ingress_props = over_ingress b.ingress_props;
        egress_props = over_egress b.egress_props;
        props_in_sync = true;
      }

  -- The fields that clone_without_rule copies to a new policy.
  unfoldable pub clone_base : Policy → Policy
  unfolding new_policy
  clone_base p =
      let b = new_policy p.name p.namespace in
      record b {
        selected_peers = p.selected_peers;
        affects_ingress = p.affects_ingress;
        affects_egress = p.affects_egress;
        policy_kind = p.policy_kind;
      }

  -- What a policy, a layer or a configuration makes of all connections.
  pub record PolicyConnections : Type 0 where
    pub captured : Peers
    pub allowed_conns : Conns
    pub denied_conns : Conns
    pub pass_conns : Conns
    pub all_allowed_conns : Conns

  unfoldable pub no_connections : PolicyConnections
  no_connections = record {
    captured = no_peers;
    allowed_conns = no_conns;
    denied_conns = no_conns;
    pass_conns = no_conns;
    all_allowed_conns = no_conns;
  }

  unfoldable pub and_by_filter : Conns → Filter → PolicyConnections → PolicyConnections
  and_by_filter props f r = record r {
    allowed_conns = if f.calc_allowed then conns_and r.allowed_conns props else r.allowed_conns;
    denied_conns = if f.calc_denied then conns_and r.denied_conns props else r.denied_conns;
    pass_conns = if f.calc_pass then conns_and r.pass_conns props else r.pass_conns;
    all_allowed_conns =
        if f.calc_all_allowed then conns_and r.all_allowed_conns props else r.all_allowed_conns;
  }

  unfoldable pub sub_by_filter : Conns → Filter → PolicyConnections → PolicyConnections
  sub_by_filter props f r = record r {
    allowed_conns = if f.calc_allowed then conns_minus r.allowed_conns props else r.allowed_conns;
    denied_conns = if f.calc_denied then conns_minus r.denied_conns props else r.denied_conns;
    pass_conns = if f.calc_pass then conns_minus r.pass_conns props else r.pass_conns;
    all_allowed_conns =
        if f.calc_all_allowed then conns_minus r.all_allowed_conns props else r.all_allowed_conns;
  }

  -- is_policy_empty
  unfoldable pub is_policy_empty : Policy → Bool
  is_policy_empty p = if o.some_peers p.selected_peers then false else true

  -- What allowed_connections of the policies with a direction of their own returns, once the
  -- properties are in sync.
  unfoldable pub policy_connections : Bool → Policy → PolicyConnections
  policy_connections true p = record {
    captured = if p.affects_ingress then p.selected_peers else no_peers;
    allowed_conns = p.ingress_props.allow;
    denied_conns = p.ingress_props.deny;
    pass_conns = p.ingress_props.pass;
    all_allowed_conns = no_conns;
  }
  policy_connections false p = record {
    captured = if p.affects_egress then p.selected_peers else no_peers;
    allowed_conns = p.egress_props.allow;
    denied_conns = p.egress_props.deny;
    pass_conns = p.egress_props.pass;
    all_allowed_conns = no_conns;
  }

  -- What allowed_connections of the other policies returns: they pass nothing.
  unfoldable pub allow_deny_connections : Peers → Props → PolicyConnections
  unfolding no_connections
  allow_deny_connections captured t = record no_connections {
    captured = captured;
    allowed_conns = t.allow;
    denied_conns = t.deny;
  }
