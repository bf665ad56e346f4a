-- ===== src/Policies/Policy/Cache.antt =====
-- The cache of a policy's properties: sync_props fills it once, and it stays what the rules give.
use network_config_analyzer.Prelude.{
  ◌≡◌, refl, sym, subst, ap₂, Bool, true, false, if◌then◌else◌, if_intro,
}
use network_config_analyzer.Policies.Connectivity.{Connectivity, ConnectivityLaws}
use network_config_analyzer.Policies.Policy.{
  Policy, Props, PolicyConnections, empty_props, init_props, sync_with, policy_connections,
}
use network_config_analyzer.Policies.Policy.Verdict.{Verdict, undecided, Reads, Reads-no_conns}

captured_same {ℓ} :
    {A : Type ℓ} (b b' : Bool) (x x' y : A)
    → b ≡ b'
    → x ≡ x'
    → (if b then x else y) ≡ (if b' then x' else y)
captured_same b b' x x' y e f = ap₂ (λ c z. if c then z else y) e f

module _ (o : Connectivity) where
  -- Where the cache is said to hold, it is what the loops over the rules give.
  abbrev pub IsCached : (Props o → Props o) → (Props o → Props o) → Policy o → Type 0
  IsCached ingress egress p =
      p.props_in_sync ≡ true
      → (p.ingress_props ≡ ingress (empty_props o)) × (p.egress_props ≡ egress (empty_props o))

  module _ (ingress egress : Props o → Props o) (p : Policy o) where
    -- A policy in sync, which is otherwise as before.
    abbrev Holds : Policy o → Type 0
    Holds q =
        (q.ingress_props ≡ ingress (empty_props o))
        × (q.egress_props ≡ egress (empty_props o))
        × (q.selected_peers ≡ p.selected_peers)
        × (q.affects_ingress ≡ p.affects_ingress)
        × (q.affects_egress ≡ p.affects_egress)

    sync_with-Holds : IsCached ingress egress p → Holds (sync_with o ingress egress p)
    unfolding sync_with init_props
    sync_with-Holds h =
        if_intro Holds p.props_in_sync {x = p} (λ e. ((h e).0, (h e).1, refl, refl, refl))
          (λ e. (refl, refl, refl, refl, refl))

    pub sync_with-IsCached :
        IsCached ingress egress p → IsCached ingress egress (sync_with o ingress egress p)
    sync_with-IsCached h e = let q = sync_with-Holds h in (q.0, q.1)

  pub sync_with-policy_kind :
      (ingress egress : Props o → Props o) (p : Policy o)
      → (sync_with o ingress egress p).policy_kind ≡ p.policy_kind
  unfolding sync_with init_props
  sync_with-policy_kind ingress egress p =
      if_intro (λ q. q.policy_kind ≡ p.policy_kind) p.props_in_sync {x = p} (λ e. refl) (λ e. refl)

module _ (o : Connectivity) (laws : ConnectivityLaws o) where
  open laws use {Connection}

  -- The properties give the verdict.
  abbrev pub Gives : Props o → Connection → Verdict → Type 0
  Gives t c v = Reads o laws t.allow t.deny t.pass c v

  pub empty-Gives : (c : Connection) → Gives (empty_props o) c undecided
  unfolding empty_props
  empty-Gives c = Reads-no_conns o laws c

  -- The connections that a policy, a layer or a configuration returns say the verdict.
  abbrev pub Says : PolicyConnections o → Connection → Verdict → Type 0
  Says r c v = Reads o laws r.allowed_conns r.denied_conns r.pass_conns c v

  abbrev pub affects : Bool → Policy o → Bool
  affects true p = p.affects_ingress
  affects false p = p.affects_egress

  -- The peers that a policy captures: those it selects, if it affects the direction.
  abbrev pub captured_by : Bool → Policy o → o.Peers
  captured_by is_ingress p = if affects is_ingress p then p.selected_peers else o.no_peers

  abbrev pub Answers : Bool → Policy o → PolicyConnections o → Connection → Verdict → Type 0
  Answers is_ingress p r c v = Says r c v × (r.captured ≡ captured_by is_ingress p)

  abbrev pub pick : {A : Type 0} → Bool → A → A → A
  pick true a b = a
  pick false a b = b

  pub sync_with-Answers :
      (is_ingress : Bool) (ingress egress : Props o → Props o) (p : Policy o) (c : Connection)
      (v : Verdict)
      → IsCached o ingress egress p
      → Gives (pick is_ingress ingress egress (empty_props o)) c v
      → Answers is_ingress p (policy_connections o is_ingress (sync_with o ingress egress p)) c v
  unfolding policy_connections
  sync_with-Answers true ingress egress p c v h g =
      let (i, e, s, a, b) = sync_with-Holds o ingress egress p h in
      (subst (λ t. Gives t c v) (sym i) g, captured_same _ _ _ _ o.no_peers a s)
  sync_with-Answers false ingress egress p c v h g =
      let (i, e, s, a, b) = sync_with-Holds o ingress egress p h in
      (subst (λ t. Gives t c v) (sym e) g, captured_same _ _ _ _ o.no_peers b s)

  abbrev pub props_of : Bool → Policy o → Props o
  props_of true p = p.ingress_props
  props_of false p = p.egress_props

  module _ (ingress egress : Props o → Props o) (p : Policy o)
      (h : IsCached o ingress egress p) where
    pub sync_with-Gives :
        (is_ingress : Bool) (c : Connection) (v : Verdict)
        → Gives (pick is_ingress ingress egress (empty_props o)) c v
        → Gives (props_of is_ingress (sync_with o ingress egress p)) c v
    sync_with-Gives true c v g =
        let (i, e, s, a, b) = sync_with-Holds o ingress egress p h in
        subst (λ t. Gives t c v) (sym i) g
    sync_with-Gives false c v g =
        let (i, e, s, a, b) = sync_with-Holds o ingress egress p h in
        subst (λ t. Gives t c v) (sym e) g

    pub sync_with-selected : (sync_with o ingress egress p).selected_peers ≡ p.selected_peers
    sync_with-selected = let (i, e, s, a, b) = sync_with-Holds o ingress egress p h in s

    pub sync_with-captured :
        (is_ingress : Bool)
        → captured_by is_ingress (sync_with o ingress egress p) ≡ captured_by is_ingress p
    sync_with-captured true =
        let (i, e, s, a, b) = sync_with-Holds o ingress egress p h in
        captured_same _ _ _ _ o.no_peers a s
    sync_with-captured false =
        let (i, e, s, a, b) = sync_with-Holds o ingress egress p h in
        captured_same _ _ _ _ o.no_peers b s
