-- ===== src/Networks/Layer/Authorization.antt =====
-- What a layer of authorization policies says: a policy that denies wins over all that allow.
use network_config_analyzer.Prelude.{
  bool_clash, ◌≡◌, refl, sym, subst, ap, ap₂, ◌++◌, if_intro, ◌∙◌, Bool, true, false, not, ◌&&◌,
  ◌||◌, List, [], ◌∷◌, arith, if◌then◌else◌,
}
use network_config_analyzer.Policies.Connectivity.{Connectivity, ConnectivityLaws}
use network_config_analyzer.Policies.Policy.Verdict.{
  Verdict, allowed, denied, undecided, or_else, is_allowed, is_denied, Reads-no_conns,
}
use network_config_analyzer.Policies.Policy.{no_connections}
use network_config_analyzer.Policies.Rules.{ActionType, action_type_eq}
use network_config_analyzer.Policies.Rules.Union.{any_match, union_verdict}
use network_config_analyzer.Policies.NetPolicy.{
  Orders, NetPolicy, of_k8s, of_calico, of_istio, of_sidecar, of_gateway,
}
use network_config_analyzer.Policies.Order.Insort.{All}
use network_config_analyzer.Policies.Order.Sorted.{InOrder}
use network_config_analyzer.Networks.Layer.{LayerName, add_policy, collect_policies_conns}
use network_config_analyzer.Networks.Layer.Collect.{
  layer_verdict, said_by, AllSynced, collect-verdict,
}
use network_config_analyzer.Networks.Layer.Order.{
  is_istio, denies, denies_before, add_policy-place, add_policy-denies_first,
}

kept : (a b : Bool) → (a && not b) ≡ false → b ≡ false → a ≡ false
kept a b h e = ground arith

shut : (a m r : Bool) → a ≡ false → r ≡ false → (a && m || r) ≡ false
shut a m r h e = ground arith

or_swap : (a b d : Bool) → (a || (b || d)) ≡ (b || (a || d))
or_swap a b d = ground arith

module _ (o : Connectivity) (laws : ConnectivityLaws o) (n : Orders) where
  open laws use {Connection, allows}

  -- A policy that selects peers, with a rule that matches.
  abbrev pub matches : NetPolicy o n → Connection → Bool
  matches (of_istio p) c = o.some_peers p.base.selected_peers && any_match o laws p.ingress_rules c
  matches (of_k8s p) c = false
  matches (of_calico p) c = false
  matches (of_sidecar p) c = false
  matches (of_gateway p) c = false

  abbrev pub some_denies : List (NetPolicy o n) → Connection → Bool
  some_denies [] c = false
  some_denies (p ∷ policies) c = denies o n p && matches p c || some_denies policies c

  abbrev pub some_allows : List (NetPolicy o n) → Connection → Bool
  some_allows [] c = false
  some_allows (p ∷ policies) c = not (denies o n p) && matches p c || some_allows policies c

  abbrev pub deny_wins : Bool → Bool → Verdict
  deny_wins d a = if d then denied else if a then allowed else undecided

  said_by-deny_wins :
      (layer : LayerName) (p : NetPolicy o n) (c : Connection)
      → is_istio o n p ≡ true
      → said_by o laws n layer true p c
        ≡ deny_wins (denies o n p && matches p c) (not (denies o n p) && matches p c)
  unfolding action_type_eq
  said_by-deny_wins layer (of_istio p) c h = go p.action (o.some_peers p.base.selected_peers)
    where
      go :
          (a : ActionType) (s : Bool)
          → (if s then union_verdict o laws a p.ingress_rules c else undecided)
            ≡ deny_wins
                (action_type_eq a ActionType.deny && (s && any_match o laws p.ingress_rules c))
                (not (action_type_eq a ActionType.deny)
                  && (s && any_match o laws p.ingress_rules c))
      go ActionType.allow true = refl
      go ActionType.deny true = refl
      go ActionType.allow false = refl
      go ActionType.deny false = refl
  said_by-deny_wins layer (of_k8s p) c h = absurd (ground arith)
  said_by-deny_wins layer (of_calico p) c h = absurd (ground arith)
  said_by-deny_wins layer (of_sidecar p) c h = absurd (ground arith)
  said_by-deny_wins layer (of_gateway p) c h = absurd (ground arith)

  deny_wins_first :
      (d m x y : Bool)
      → (d ≡ false → x ≡ false)
      → or_else (deny_wins (d && m) (not d && m)) (deny_wins x y)
        ≡ deny_wins (d && m || x) (not d && m || y)
  deny_wins_first true true x y h = refl
  deny_wins_first true false x y h = refl
  deny_wins_first false false x y h = refl
  deny_wins_first false true false y h = refl
  deny_wins_first false true true y h = absurd (bool_clash (h refl))

  none_denies :
      (p : NetPolicy o n) (policies : List (NetPolicy o n)) (c : Connection)
      → All (λ z. denies_before o n z p) false policies
      → denies o n p ≡ false
      → some_denies policies c ≡ false
  none_denies p [] c h e = refl
  none_denies p (q ∷ policies) c h e =
      let rest = none_denies p policies c h.1 e in
      let first : denies o n q ≡ false = kept _ _ h.0 e in shut _ _ _ first rest

  layer_verdict-deny_wins :
      (layer : LayerName) (policies : List (NetPolicy o n)) (c : Connection)
      → All (is_istio o n) true policies
      → InOrder (denies_before o n) policies
      → layer_verdict o laws n layer true policies c
        ≡ deny_wins (some_denies policies c) (some_allows policies c)
  layer_verdict-deny_wins layer [] c h s = refl
  layer_verdict-deny_wins layer (p ∷ policies) c h s =
      ap₂ or_else (said_by-deny_wins layer p c h.0)
        (layer_verdict-deny_wins layer policies c h.1 s.1)
      ∙ deny_wins_first (denies o n p) (matches p c) (some_denies policies c)
          (some_allows policies c) (none_denies p policies c s.0)

  -- A layer to which policies were added, the last one first.
  abbrev pub add_each : List (NetPolicy o n) → List (NetPolicy o n)
  add_each [] = []
  add_each (p ∷ added) = add_policy o n p (add_each added)

  some_denies-snoc :
      (p : NetPolicy o n) (qs : List (NetPolicy o n)) (c : Connection)
      → some_denies (qs ++ p ∷ []) c ≡ some_denies (p ∷ qs) c
  some_denies-snoc p [] c = refl
  some_denies-snoc p (q ∷ qs) c =
      ap (λ b. denies o n q && matches q c || b) (some_denies-snoc p qs c)
      ∙ or_swap (denies o n q && matches q c) (denies o n p && matches p c) (some_denies qs c)

  some_allows-snoc :
      (p : NetPolicy o n) (qs : List (NetPolicy o n)) (c : Connection)
      → some_allows (qs ++ p ∷ []) c ≡ some_allows (p ∷ qs) c
  some_allows-snoc p [] c = refl
  some_allows-snoc p (q ∷ qs) c =
      ap (λ b. not (denies o n q) && matches q c || b) (some_allows-snoc p qs c)
      ∙ or_swap (not (denies o n q) && matches q c) (not (denies o n p) && matches p c)
          (some_allows qs c)

  AllSynced-snoc :
      (layer : LayerName) (p : NetPolicy o n) (qs : List (NetPolicy o n))
      → AllSynced o laws n layer (p ∷ qs)
      → AllSynced o laws n layer (qs ++ p ∷ [])
  AllSynced-snoc layer p [] h = h
  AllSynced-snoc layer p (q ∷ qs) h = (h.1.0, AllSynced-snoc layer p qs (h.0, h.1.1))

  -- What holds of a list with the policy first and with it last holds where add_policy puts it.
  placed :
      (P : List (NetPolicy o n) → Type 0) (p : NetPolicy o n) (qs : List (NetPolicy o n))
      → is_istio o n p ≡ true
      → All (is_istio o n) true qs
      → P (p ∷ qs)
      → P (qs ++ p ∷ [])
      → P (add_policy o n p qs)
  placed P p qs h k x y =
      subst P (sym (add_policy-place o n p qs h k)) (if_intro P (denies o n p) (λ e. x) (λ e. y))

  add_each-same :
      (layer : LayerName) (added : List (NetPolicy o n)) (c : Connection)
      → All (is_istio o n) true added
      → AllSynced o laws n layer added
      → All (is_istio o n) true (add_each added)
        × InOrder (denies_before o n) (add_each added)
        × AllSynced o laws n layer (add_each added)
        × (some_denies (add_each added) c ≡ some_denies added c)
        × (some_allows (add_each added) c ≡ some_allows added c)
  add_each-same layer [] c h s = (tt, tt, tt, refl, refl)
  add_each-same layer (p ∷ added) c h s =
      let (all, sorted, synced, d, a) = add_each-same layer added c h.1 s.1 in
      let qs = add_each added in
      let (sorted', all') = add_policy-denies_first o n p qs h.0 all sorted in
      let here = placed (AllSynced o laws n layer) p qs h.0 all in
      let first : AllSynced o laws n layer (p ∷ qs) = (s.0, synced) in
      let d' : some_denies (p ∷ qs) c ≡ some_denies (p ∷ added) c =
        ap (λ b. denies o n p && matches p c || b) d in
      let a' : some_allows (p ∷ qs) c ≡ some_allows (p ∷ added) c =
        ap (λ b. not (denies o n p) && matches p c || b) a in
      (
        all',
        sorted',
        here first (AllSynced-snoc layer p qs first),
        placed (λ ys. some_denies ys c ≡ some_denies (p ∷ added) c) p qs h.0 all d'
            (some_denies-snoc p qs c ∙ d'),
        placed (λ ys. some_allows ys c ≡ some_allows (p ∷ added) c) p qs h.0 all a'
            (some_allows-snoc p qs c ∙ a'),
      )

  -- A layer of authorization policies that add_policy put there, in whatever order they were added,
  -- whose caches hold or are not in sync: what collect_policies_conns returns for ingress denies what
  -- some policy denies, and allows what some policy allows and none denies.
  pub collect_policies_conns-deny_wins :
      (layer : LayerName) (added : List (NetPolicy o n)) (c : Connection)
      → All (is_istio o n) true added
      → AllSynced o laws n layer added
      → (allows
            (collect_policies_conns o n layer true
              (add_each added)
              (no_connections o)).1.denied_conns
            c
          ≡ some_denies added c)
        × (allows
              (collect_policies_conns o n layer true
                (add_each added)
                (no_connections o)).1.allowed_conns
              c
            ≡ (some_allows added c && not (some_denies added c)))
  unfolding no_connections
  collect_policies_conns-deny_wins layer added c h s =
      let (all, sorted, synced, d, a) = add_each-same layer added c h s in
      let says =
        collect-verdict o laws n layer true (add_each added) (no_connections o) c undecided synced
          (Reads-no_conns o laws c) in
      let v = layer_verdict-deny_wins layer (add_each added) c all sorted ∙ ap₂ deny_wins d a in
      (says.1 ∙ ap is_denied v ∙ denied_wins _ _, says.0 ∙ ap is_allowed v ∙ allowed_wins _ _)
    where
      denied_wins : (x y : Bool) → is_denied (deny_wins x y) ≡ x
      denied_wins true y = refl
      denied_wins false true = refl
      denied_wins false false = refl

      allowed_wins : (x y : Bool) → is_allowed (deny_wins x y) ≡ (y && not x)
      allowed_wins true y = ground arith
      allowed_wins false true = refl
      allowed_wins false false = refl
