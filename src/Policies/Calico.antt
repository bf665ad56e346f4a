-- ===== src/Policies/Calico.antt =====
-- CalicoNetworkPolicy: rules are read in their order, and the first that matches decides.
pub mod FirstMatch
use network_config_analyzer.Prelude.{
  ℕ, zero, suc, ◌+◌, ◌≡◌, Bool, true, false, not, ◌&&◌, ◌||◌, Option, none, some, List, [], ◌∷◌,
  ◌++◌, if◌then◌else◌, ◌==◌,
}
use Prim.Native.String.{String}
use network_config_analyzer.Policies.Connectivity.{Connectivity}
use network_config_analyzer.Policies.Policy.{
  Policy, Props, PolicyConnections, clone_base, sync_with, policy_connections,
}

pub data Action : Type 0 where
  deny allow log pass : Action

unfoldable pub action_eq : Action → Action → Bool
action_eq deny deny = true
action_eq allow allow = true
action_eq log log = true
action_eq pass pass = true
action_eq deny allow = false
action_eq deny log = false
action_eq deny pass = false
action_eq allow deny = false
action_eq allow log = false
action_eq allow pass = false
action_eq log deny = false
action_eq log allow = false
action_eq log pass = false
action_eq pass deny = false
action_eq pass allow = false
action_eq pass log = false

module _ (o : Connectivity) where
  open o use {Peers, Conns, conns_or, conns_minus, some_peers}

  pub record CalicoRule : Type 0 where
    pub src_peers : Peers
    pub dst_peers : Peers
    pub action : Action
    pub props : Conns

  -- CalicoPolicyRule.__eq__
  unfoldable pub rule_eq : CalicoRule → CalicoRule → Bool
  unfolding action_eq
  rule_eq r s = o.conns_eq r.props s.props && action_eq r.action s.action

  -- One round of _update_opt_props_by_order.
  unfoldable pub add_rule : Action → Conns → Props o → Props o
  add_rule allow props t = record t {
    allow = conns_or t.allow (conns_minus (conns_minus props t.deny) t.pass);
  }
  add_rule deny props t = record t {
    deny = conns_or t.deny (conns_minus (conns_minus props t.allow) t.pass);
  }
  add_rule pass props t = record t {
    pass = conns_or t.pass (conns_minus (conns_minus props t.allow) t.deny);
  }
  add_rule log props t = t

  unfoldable pub update_by_order : List CalicoRule → Props o → Props o
  unfolding add_rule
  update_by_order [] t = t
  update_by_order (r ∷ rules) t = update_by_order rules (add_rule r.action r.props t)

  -- `if ingress_rule or rule != rule_to_exclude`, over the rules of the other direction, and
  -- `if not ingress_rule or …` over those of this one.
  unfoldable pub keep_rules : Bool → CalicoRule → List CalicoRule → List CalicoRule
  unfolding rule_eq
  keep_rules all excluded [] = []
  keep_rules all excluded (r ∷ rules) =
      let rest = keep_rules all excluded rules in
      if all || not (rule_eq r excluded) then r ∷ rest else rest

  -- has_empty_rules: the numbers of the rules, from 1, with no source or no destination.
  unfoldable pub empty_rules : ℕ → List CalicoRule → List ℕ
  empty_rules i [] = []
  empty_rules i (r ∷ rules) =
      let rest = empty_rules (i + 1) rules in
      if not (some_peers r.src_peers) || not (some_peers r.dst_peers) then i ∷ rest else rest

  unfoldable pub has_rules_with_action : List CalicoRule → Action → Bool
  unfolding action_eq
  has_rules_with_action [] a = false
  has_rules_with_action (r ∷ rules) a =
      some_peers r.src_peers && (some_peers r.dst_peers && action_eq r.action a)
      || has_rules_with_action rules a

  unfoldable pub rules_conflict : List CalicoRule → List CalicoRule → Bool
  unfolding has_rules_with_action
  rules_conflict rs ss =
      has_rules_with_action rs allow && has_rules_with_action ss deny
      || has_rules_with_action rs deny && has_rules_with_action ss allow

  -- rule_containing from rule number `i` on; `same` is `self == other_policy`. The result is the
  -- number of the first rule that contains the other one, and whether the actions differ.
  unfoldable pub rule_containing : Bool → CalicoRule → ℕ → ℕ → List CalicoRule → Option (ℕ × Bool)
  unfolding action_eq
  rule_containing same other j i [] = none
  rule_containing same other j i (r ∷ rules) =
      let rest = rule_containing same other j (i + 1) rules in
      if i == j && same
      then none
      else if o.contained_in other.props r.props
      then some (i, not (action_eq r.action other.action))
      else rest

  -- The order `none` stands for infinity.
  pub record CalicoPolicy (Order : Type 0) : Type 0 where
    pub base : Policy o
    pub ingress_rules : List CalicoRule
    pub egress_rules : List CalicoRule
    pub order : Option Order

  module _ {Order : Type 0} where
    unfoldable pub sync_props : CalicoPolicy Order → CalicoPolicy Order
    unfolding sync_with update_by_order
    sync_props p = record p {
      base = sync_with o (update_by_order p.ingress_rules) (update_by_order p.egress_rules) p.base;
    }

    unfoldable pub allowed_connections :
        Bool → CalicoPolicy Order → CalicoPolicy Order × PolicyConnections o
    unfolding sync_props policy_connections
    allowed_connections is_ingress p =
        let p' = sync_props p in (p', policy_connections o is_ingress p'.base)

    unfoldable pub clone_without_rule : CalicoRule → Bool → CalicoPolicy Order → CalicoPolicy Order
    unfolding keep_rules clone_base
    clone_without_rule excluded ingress_rule p = record {
      base = clone_base o p.base;
      ingress_rules = keep_rules (not ingress_rule) excluded p.ingress_rules;
      egress_rules = keep_rules ingress_rule excluded p.egress_rules;
      order = p.order;
    }

    unfoldable pub has_empty_rules : CalicoPolicy Order → List ℕ × List ℕ
    unfolding empty_rules
    has_empty_rules p = (empty_rules 1 p.ingress_rules, empty_rules 1 p.egress_rules)

    unfoldable pub has_deny_rules : CalicoPolicy Order → Bool
    unfolding has_rules_with_action
    has_deny_rules p =
        has_rules_with_action p.ingress_rules deny || has_rules_with_action p.egress_rules deny

    unfoldable pub has_allow_rules : CalicoPolicy Order → Bool
    unfolding has_rules_with_action
    has_allow_rules p =
        has_rules_with_action p.ingress_rules allow || has_rules_with_action p.egress_rules allow

    unfoldable pub is_conflicting :
        (Option Order → Option Order → Bool) → CalicoPolicy Order → CalicoPolicy Order → Bool
    unfolding rules_conflict
    is_conflicting order_eq p q =
        let ingress = p.base.affects_ingress && q.base.affects_ingress in
        let egress = p.base.affects_egress && q.base.affects_egress in
        if not (order_eq p.order q.order)
        then false
        else if not (ingress || egress)
        then false
        else if not (some_peers (o.peers_and p.base.selected_peers q.base.selected_peers))
        then false
        else if ingress && rules_conflict p.ingress_rules q.ingress_rules
        then true
        else egress && rules_conflict p.egress_rules q.egress_rules
