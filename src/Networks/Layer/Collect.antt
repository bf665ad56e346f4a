-- ===== src/Networks/Layer/Collect.antt =====
-- A layer's policies, collected in their order: the first that decides on a connection does so.
use network_config_analyzer.Prelude.{
  ◌≡◌, refl, sym, subst, ap, ap₂, ◌∙◌, Bool, true, false, ◌&&◌, ◌||◌, List, [], ◌∷◌, if◌then◌else◌,
  if_intro, Bool-cases, inl, inr, arith,
}
use network_config_analyzer.Policies.Connectivity.{Connectivity, ConnectivityLaws}
use network_config_analyzer.Policies.Policy.{PolicyConnections}
use network_config_analyzer.Policies.Policy.Verdict.{
  Verdict, undecided, or_else, or_else_assoc, or_else_undecided, add_allowed, add_denied,
  add_passed,
}
use network_config_analyzer.Policies.Policy.Cache.{Says}
use network_config_analyzer.Policies.NetPolicy.{Orders, NetPolicy, allowed_connections}
use network_config_analyzer.Policies.NetPolicy.Allowed.{
  verdict_of, captured_of, IsSynced, allowed_connections-Says, allowed_connections-Agree,
}
use network_config_analyzer.Networks.Layer.Kinds.{kind_same}
use network_config_analyzer.Networks.Layer.{
  LayerName, add_policy_conns, captured_func, collect_policies_conns,
}

or_pass : (a b c : Bool) → ((a || b) || c) ≡ (a || (b || c))
or_pass a b c = ground arith

or_and_none : (r k x : Bool) → x ≡ false → r ≡ (r || (k && x))
or_and_none r k x h = ground arith

or_and_skip : (r x : Bool) → r ≡ (r || (false && x))
or_and_skip r x = ground arith

module _ (o : Connectivity) (laws : ConnectivityLaws o) where
  open laws use {Connection, Peer, has}

  add_policy_conns-Says :
      (counts : Bool) (pc r : PolicyConnections o) (c : Connection) (v w : Verdict)
      → Says o laws r c v
      → Says o laws pc c w
      → Says o laws
          (add_policy_conns o counts pc r)
          c
          (or_else v (if o.some_peers pc.captured then w else undecided))
  unfolding add_policy_conns
  add_policy_conns-Says counts pc r c v w h k =
      let a = r.allowed_conns in
      let b = r.denied_conns in
      let s = r.pass_conns in
      elim (Bool-cases (o.some_peers pc.captured)) [
        | inl e ↦ rw (e) (
          add_allowed o laws a b s c v h pc.allowed_conns w k.0,
          add_denied o laws a b s c v h pc.denied_conns w k.1,
          add_passed o laws a b s c v h pc.pass_conns w k.2,
        )
        | inr e ↦ rw (e) (subst (Says o laws r c) (sym (or_else_undecided v)) h)
      ]

  add_policy_conns-captured :
      (counts : Bool) (pc r : PolicyConnections o) (x : Peer)
      → has (add_policy_conns o counts pc r).captured x
        ≡ (has r.captured x || (counts && has pc.captured x))
  unfolding add_policy_conns
  add_policy_conns-captured counts pc r x = elim (Bool-cases (o.some_peers pc.captured)) [
    | inl e ↦ rw (e) (counted counts)
    | inr e ↦ rw (e) (or_and_none _ counts _ (laws.has-not_some pc.captured x e))
  ]
    where
      counted :
          (k : Bool)
          → has (if k then o.peers_or r.captured pc.captured else r.captured) x
            ≡ (has r.captured x || (k && has pc.captured x))
      counted true = laws.has-peers_or r.captured pc.captured x
      counted false = or_and_skip (has r.captured x) (has pc.captured x)

  add_policy_conns-all :
      (counts : Bool) (pc r : PolicyConnections o)
      → (add_policy_conns o counts pc r).all_allowed_conns ≡ r.all_allowed_conns
  unfolding add_policy_conns
  add_policy_conns-all counts pc r =
      if_intro (λ q. q.all_allowed_conns ≡ r.all_allowed_conns) (o.some_peers pc.captured) {y = r}
        (λ e. refl) (λ e. refl)

  module _ (n : Orders) (layer : LayerName) where
    -- What a policy says in a layer: nothing, where it captures no peers.
    abbrev pub said_by : Bool → NetPolicy o n → Connection → Verdict
    said_by is_ingress p c =
        if o.some_peers (captured_of o laws n is_ingress p)
        then verdict_of o laws n is_ingress p c
        else undecided

    -- The first policy that decides.
    abbrev pub layer_verdict : Bool → List (NetPolicy o n) → Connection → Verdict
    layer_verdict is_ingress [] c = undecided
    layer_verdict is_ingress (p ∷ policies) c =
        or_else (said_by is_ingress p c) (layer_verdict is_ingress policies c)

    -- Some policy that counts captures the peer.
    abbrev pub captures : Bool → List (NetPolicy o n) → Peer → Bool
    captures is_ingress [] x = false
    captures is_ingress (p ∷ policies) x =
        (captured_func o n layer p && has (captured_of o laws n is_ingress p) x)
        || captures is_ingress policies x

    abbrev pub AllSynced : List (NetPolicy o n) → Type 0
    AllSynced [] = Unit {0}
    AllSynced (p ∷ policies) = IsSynced o laws n p × AllSynced policies

    -- The policies of a layer say and capture the same, in both directions.
    abbrev pub SameAnswers : List (NetPolicy o n) → List (NetPolicy o n) → Type 0
    SameAnswers ps qs =
        (is_ingress : Bool)
        → ((c : Connection) → layer_verdict is_ingress ps c ≡ layer_verdict is_ingress qs c)
          × ((x : Peer) → captures is_ingress ps x ≡ captures is_ingress qs x)

    module _ (is_ingress : Bool) where
      abbrev collected :
          List (NetPolicy o n) → PolicyConnections o → List (NetPolicy o n) × PolicyConnections o
      collected policies r = collect_policies_conns o n layer is_ingress policies r

      pub collect-verdict :
          (policies : List (NetPolicy o n)) (r : PolicyConnections o) (c : Connection) (v : Verdict)
          → AllSynced policies
          → Says o laws r c v
          → Says o laws (collected policies r).1 c (or_else v (layer_verdict is_ingress policies c))
      unfolding collect_policies_conns
      collect-verdict [] r c v s h = subst (Says o laws r c) (sym (or_else_undecided v)) h
      collect-verdict (p ∷ policies) r c v s h =
          let (says, capt, held) = allowed_connections-Says o laws n is_ingress p c s.0 in
          let (p', pc) = allowed_connections o n is_ingress p in
          let w = verdict_of o laws n is_ingress p c in
          let r' = add_policy_conns o (captured_func o n layer p') pc r in
          let step = add_policy_conns-Says (captured_func o n layer p') pc r c v w h says in
          let step' =
            subst (λ k. Says o laws r' c (or_else v (if o.some_peers k then w else undecided))) capt
              step in
          subst (Says o laws (collected policies r').1 c)
            (or_else_assoc v (said_by is_ingress p c) (layer_verdict is_ingress policies c))
            (collect-verdict policies r' c (or_else v (said_by is_ingress p c)) s.1 step')

      pub collect-captured :
          (policies : List (NetPolicy o n)) (r : PolicyConnections o) (c : Connection) (x : Peer)
          → AllSynced policies
          → has (collected policies r).1.captured x
            ≡ (has r.captured x || captures is_ingress policies x)
      unfolding collect_policies_conns
      collect-captured [] r c x s = ground arith
      collect-captured (p ∷ policies) r c x s =
          let (says, capt, held) = allowed_connections-Says o laws n is_ingress p c s.0 in
          let (p', pc) = allowed_connections o n is_ingress p in
          let counts = captured_func o n layer p' in
          collect-captured policies (add_policy_conns o counts pc r) c x s.1
          ∙ ap (λ b. b || captures is_ingress policies x)
              (add_policy_conns-captured counts pc r x
                ∙ ap₂ (λ k m. has r.captured x || (k && has m x)) (kind_same o n layer is_ingress p)
                    capt)
          ∙ or_pass (has r.captured x)
              (captured_func o n layer p && has (captured_of o laws n is_ingress p) x)
              (captures is_ingress policies x)

      pub collect-all :
          (policies : List (NetPolicy o n)) (r : PolicyConnections o)
          → (collected policies r).1.all_allowed_conns ≡ r.all_allowed_conns
      unfolding collect_policies_conns
      collect-all [] r = refl
      collect-all (p ∷ policies) r =
          let (p', pc) = allowed_connections o n is_ingress p in
          let counts = captured_func o n layer p' in
          collect-all policies (add_policy_conns o counts pc r) ∙ add_policy_conns-all counts pc r

      pub collect-SameAnswers :
          (policies : List (NetPolicy o n)) (r : PolicyConnections o) (c : Connection)
          → AllSynced policies
          → AllSynced (collected policies r).0 × SameAnswers (collected policies r).0 policies
      unfolding collect_policies_conns
      collect-SameAnswers [] r c s = (tt, λ b. ((λ c. refl), (λ x. refl)))
      collect-SameAnswers (p ∷ policies) r c s =
          let (says, capt, held) = allowed_connections-Says o laws n is_ingress p c s.0 in
          let (p', pc) = allowed_connections o n is_ingress p in
          let (rest, same) =
            collect-SameAnswers policies (add_policy_conns o (captured_func o n layer p') pc r) c
              s.1 in
          let agree = allowed_connections-Agree o laws n is_ingress p s.0 in
          (
            (held, rest),
            λ b. (
              (λ c.
                  ap₂ or_else
                    (ap₂ (λ k w. if o.some_peers k then w else undecided) (agree b).1
                      ((agree b).0 c))
                    ((same b).0 c)),
              (λ x.
                  ap₂ ◌||◌
                    (ap₂ (λ k m. k && has m x) (kind_same o n layer is_ingress p) (agree b).1)
                    ((same b).1 x)),
            ),
          )
