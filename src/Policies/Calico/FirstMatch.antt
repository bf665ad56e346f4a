-- ===== src/Policies/Calico/FirstMatch.antt =====
-- The cached properties of a Calico policy give the verdict of the first rule that matches.
use network_config_analyzer.Prelude.{
  ◌≡◌, refl, sym, subst, ◌∙◌, Bool, true, false, List, [], ◌∷◌, arith, if◌then◌else◌,
}
use network_config_analyzer.Policies.Connectivity.{Connectivity, ConnectivityLaws}
use network_config_analyzer.Policies.Policy.{Props, empty_props}
use network_config_analyzer.Policies.Policy.Verdict.{
  Verdict, allowed, denied, passed, undecided, is_allowed, is_denied, is_passed, or_else,
  add_allowed, add_denied, add_passed_swapped, or_else_assoc, or_else_undecided,
}
use network_config_analyzer.Policies.Policy.Cache.{
  IsCached, Gives, empty-Gives, pick, Answers, sync_with-Answers, sync_with-IsCached,
}
use network_config_analyzer.Policies.Calico.{
  Action, CalicoRule, CalicoPolicy, add_rule, update_by_order, sync_props, allowed_connections,
}

-- The action of a rule that matches.
abbrev pub action_verdict : Action → Verdict
action_verdict Action.allow = allowed
action_verdict Action.deny = denied
action_verdict Action.pass = passed
action_verdict Action.log = undecided

log_only : (v : Verdict) (x : Bool) → v ≡ or_else v (if x then undecided else undecided)
log_only v true = sym (or_else_undecided v)
log_only v false = sym (or_else_undecided v)

module _ (o : Connectivity) (laws : ConnectivityLaws o) where
  open laws use {Connection, allows}

  abbrev pub rule_verdict : CalicoRule o → Connection → Verdict
  rule_verdict r c = if allows r.props c then action_verdict r.action else undecided

  -- The verdict of the first rule that matches and does not only log.
  abbrev pub first_match : List (CalicoRule o) → Connection → Verdict
  first_match [] c = undecided
  first_match (r ∷ rules) c = or_else (rule_verdict r c) (first_match rules c)

  only_allowed :
      (v : Verdict) (x : Bool)
      → (is_denied v ≡ is_denied (or_else v (if x then allowed else undecided)))
        × (is_passed v ≡ is_passed (or_else v (if x then allowed else undecided)))
  only_allowed v x = ground arith

  only_denied :
      (v : Verdict) (x : Bool)
      → (is_allowed v ≡ is_allowed (or_else v (if x then denied else undecided)))
        × (is_passed v ≡ is_passed (or_else v (if x then denied else undecided)))
  only_denied v x = ground arith

  only_passed :
      (v : Verdict) (x : Bool)
      → (is_allowed v ≡ is_allowed (or_else v (if x then passed else undecided)))
        × (is_denied v ≡ is_denied (or_else v (if x then passed else undecided)))
  only_passed v x = ground arith

  add_rule-Gives :
      (a : Action) (props : o.Conns) (t : Props o) (c : Connection) (v : Verdict)
      → Gives o laws t c v
      → Gives o laws
          (add_rule o a props t)
          c
          (or_else v (if allows props c then action_verdict a else undecided))
  unfolding add_rule
  add_rule-Gives Action.allow props t c v h =
      let (d, p) = only_allowed v (allows props c) in
      (add_allowed o laws t.allow t.deny t.pass c v h props _ (ground arith), h.1 ∙ d, h.2 ∙ p)
  add_rule-Gives Action.deny props t c v h =
      let (a, p) = only_denied v (allows props c) in
      (h.0 ∙ a, add_denied o laws t.allow t.deny t.pass c v h props _ (ground arith), h.2 ∙ p)
  add_rule-Gives Action.pass props t c v h =
      let (a, d) = only_passed v (allows props c) in
      (
        h.0 ∙ a,
        h.1 ∙ d,
        add_passed_swapped o laws t.allow t.deny t.pass c v h props _ (ground arith),
      )
  add_rule-Gives Action.log props t c v h = subst (Gives o laws t c) (log_only v (allows props c)) h

  update_by_order-Gives :
      (rules : List (CalicoRule o)) (t : Props o) (c : Connection) (v : Verdict)
      → Gives o laws t c v
      → Gives o laws (update_by_order o rules t) c (or_else v (first_match rules c))
  unfolding update_by_order
  update_by_order-Gives [] t c v h = subst (Gives o laws t c) (sym (or_else_undecided v)) h
  update_by_order-Gives (r ∷ rules) t c v h =
      subst (λ w. Gives o laws (update_by_order o rules (add_rule o r.action r.props t)) c w)
        (or_else_assoc v (rule_verdict r c) (first_match rules c))
        (update_by_order-Gives rules (add_rule o r.action r.props t) c
          (or_else v (rule_verdict r c)) (add_rule-Gives r.action r.props t c v h))

  direction_Gives :
      (is_ingress : Bool) (rs ss : List (CalicoRule o)) (c : Connection)
      → Gives o laws
          (pick o laws is_ingress (update_by_order o rs) (update_by_order o ss) (empty_props o))
          c
          (first_match (pick o laws is_ingress rs ss) c)
  direction_Gives true rs ss c =
      update_by_order-Gives rs (empty_props o) c undecided (empty-Gives o laws c)
  direction_Gives false rs ss c =
      update_by_order-Gives ss (empty_props o) c undecided (empty-Gives o laws c)

  module _ {Order : Type 0} where
    -- The rules of one direction.
    abbrev pub rules_of : Bool → CalicoPolicy o Order → List (CalicoRule o)
    rules_of is_ingress p = pick o laws is_ingress p.ingress_rules p.egress_rules

    -- Where the cache is said to hold, it is what the rules give.
    abbrev pub IsSynced : CalicoPolicy o Order → Type 0
    IsSynced p =
        IsCached o (update_by_order o p.ingress_rules) (update_by_order o p.egress_rules) p.base

    -- allowed_connections of a policy whose cache holds, or is not in sync: of each connection it
    -- says what the first rule of the direction says that matches, as allowed, denied or passed;
    -- the captured peers are the selected ones, if the policy affects the direction; the cache of
    -- the policy afterwards holds, and its rules are as before.
    pub allowed_connections-first_match :
        (is_ingress : Bool) (p : CalicoPolicy o Order) (c : Connection)
        → IsSynced p
        → Answers o laws is_ingress p.base
            (allowed_connections o is_ingress p).1
            c
            (first_match (rules_of is_ingress p) c)
          × IsSynced (allowed_connections o is_ingress p).0
          × (rules_of is_ingress (allowed_connections o is_ingress p).0 ≡ rules_of is_ingress p)
    unfolding allowed_connections sync_props
    allowed_connections-first_match is_ingress p c h =
        let ingress = update_by_order o p.ingress_rules in
        let egress = update_by_order o p.egress_rules in
        (
          sync_with-Answers o laws is_ingress ingress egress p.base c _ h
              (direction_Gives is_ingress p.ingress_rules p.egress_rules c),
          sync_with-IsCached o ingress egress p.base h,
          refl,
        )
