-- ===== src/Policies/Rules.antt =====
-- K8sPolicyRule, IstioPolicyRule and GatewayPolicyRule, which have the same fields and methods, and
-- the loops over lists of them that the policies share.
pub mod Union
use network_config_analyzer.Prelude.{
  ℕ, ◌+◌, Bool, true, false, not, ◌&&◌, ◌||◌, Option, none, some, List, [], ◌∷◌, if◌then◌else◌,
  ◌==◌,
}
use network_config_analyzer.Policies.Connectivity.{Connectivity}
use network_config_analyzer.Policies.Policy.{Props}

-- IstioNetworkPolicy.ActionType and GatewayPolicy.ActionType
pub data ActionType : Type 0 where
  deny allow : ActionType

unfoldable pub action_type_eq : ActionType → ActionType → Bool
action_type_eq deny deny = true
action_type_eq allow allow = true
action_type_eq deny allow = false
action_type_eq allow deny = false

module _ (o : Connectivity) where
  open o use {Peers, Conns, conns_or, some_peers}

  pub record PeerRule : Type 0 where
    pub peer_set : Peers
    pub props : Conns

  unfoldable pub rule_eq : PeerRule → PeerRule → Bool
  rule_eq r s = o.conns_eq r.props s.props

  -- `self._allow_ingress_props |= rule.props`, for every rule
  unfoldable pub allow_all : List PeerRule → Props o → Props o
  allow_all [] t = t
  allow_all (r ∷ rules) t = allow_all rules (record t { allow = conns_or t.allow r.props })

  -- `self._deny_ingress_props |= rule.props`, for every rule
  unfoldable pub deny_all : List PeerRule → Props o → Props o
  deny_all [] t = t
  deny_all (r ∷ rules) t = deny_all rules (record t { deny = conns_or t.deny r.props })

  unfoldable pub add_all : ActionType → List PeerRule → Props o → Props o
  unfolding allow_all deny_all
  add_all allow rules t = allow_all rules t
  add_all deny rules t = deny_all rules t

  -- The rules kept by clone_without_rule: all of them, or those that differ from the one to exclude.
  unfoldable pub keep_rules : Bool → PeerRule → List PeerRule → List PeerRule
  unfolding rule_eq
  keep_rules all excluded [] = []
  keep_rules all excluded (r ∷ rules) =
      let rest = keep_rules all excluded rules in
      if all || not (rule_eq r excluded) then r ∷ rest else rest

  -- has_empty_rules: the numbers of the rules, from `i` on, that select no peers.
  unfoldable pub empty_rules : ℕ → List PeerRule → List ℕ
  empty_rules i [] = []
  empty_rules i (r ∷ rules) =
      let rest = empty_rules (i + 1) rules in if not (some_peers r.peer_set) then i ∷ rest else rest

  -- `for rule in rules: if rule.peer_set: return True`
  unfoldable pub some_rule : List PeerRule → Bool
  some_rule [] = false
  some_rule (r ∷ rules) = if some_peers r.peer_set then true else some_rule rules

  -- The loop of rule_containing, from rule number `i` on; `same` is `self == other_policy` and
  -- `contradict` whether the actions of the two policies differ.
  unfoldable pub containing_from :
      Bool → Bool → PeerRule → ℕ → ℕ → List PeerRule → Option (ℕ × Bool)
  containing_from same contradict other j i [] = none
  containing_from same contradict other j i (r ∷ rules) =
      let rest = containing_from same contradict other j (i + 1) rules in
      if i == j && same
      then rest
      else if o.contained_in other.props r.props
      then some (i, contradict)
      else rest
