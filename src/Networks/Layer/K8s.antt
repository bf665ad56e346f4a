-- ===== src/Networks/Layer/K8s.antt =====
-- What a layer of K8s and Calico policies allows in one direction.
use network_config_analyzer.Prelude.{
  ◌≡◌, refl, ap, ap₂, ◌∙◌, Bool, true, false, not, ◌&&◌, ◌||◌, if◌then◌else◌, Bool-cases, inl, inr,
  arith,
}
use network_config_analyzer.Policies.Connectivity.{Connectivity, ConnectivityLaws}
use network_config_analyzer.Policies.Policy.{PolicyConnections, Filter}
use network_config_analyzer.Networks.Layer.{get_all_peers_group, conns_of, k8s_defaults}

left_false : (a b : Bool) → a ≡ false → (a && b) ≡ false
left_false a b h = ground arith

right_false : (a b : Bool) → b ≡ false → (a && b) ≡ false
right_false a b h = ground arith

and_other : (a b : Bool) → (a && b) ≡ false → a ≡ true → b ≡ false
and_other a b h k = ground arith

and_first : (a b : Bool) → (a && b) ≡ false → b ≡ true → a ≡ false
and_first a b h k = ground arith

pub if_true : {A : Type 0} (g : Bool) (a b : A) → g ≡ true → (if g then a else b) ≡ a
if_true g a b e = ap (λ k. if k then a else b) e

module _ (o : Connectivity) (laws : ConnectivityLaws o) where
  open laws use {Connection, Peer, has, allows, src, dst, is_host, is_dns}

  -- The end of a connection that a policy of the direction captures, and the other end.
  abbrev pub near : Bool → Connection → Peer
  near true c = dst c
  near false c = src c

  abbrev pub far : Bool → Connection → Peer
  far true c = src c
  far false c = dst c

  -- A peer of the container or an address.
  abbrev pub in_world : o.Peers → Peer → Bool
  in_world peers x = has peers x || has o.all_ips x

  -- A peer of the container, but no host endpoint.
  abbrev pub is_pod : o.Peers → Peer → Bool
  is_pod peers x = has peers x && not (is_host x)

  allows-conns_of :
      (is_ingress : Bool) (base others : o.Peers) (c : Connection)
      → allows (conns_of o is_ingress base others) c
        ≡ (has base (near is_ingress c) && has others (far is_ingress c))
  unfolding conns_of
  allows-conns_of true base others c =
      laws.allows-between others base c ∙ swap (has others (src c)) (has base (dst c))
    where
      swap : (a b : Bool) → (a && b) ≡ (b && a)
      swap a b = ground arith
  allows-conns_of false base others c = laws.allows-between base others c

  -- A union that is left out where it would add nothing.
  pub guarded_or :
      (g : Bool) (a b : o.Conns) (c : Connection)
      → (g ≡ false → allows b c ≡ false)
      → allows (if g then o.conns_or a b else a) c ≡ (allows a c || allows b c)
  guarded_or true a b c h = laws.allows-conns_or a b c
  guarded_or false a b c h = or_none _ _ (h refl)
    where
      or_none : (y z : Bool) → z ≡ false → y ≡ (y || z)
      or_none y z k = ground arith

  module _ (is_ingress : Bool) (peers : o.Peers) (f : Filter) (r : PolicyConnections o)
      (c : Connection) where
    abbrev base : o.Peers
    base = o.no_host_eps (get_all_peers_group o false true peers)

    abbrev all_peers_and_ips : o.Peers
    all_peers_and_ips = get_all_peers_group o true true peers

    abbrev captured : o.Peers
    captured = o.peers_and base r.captured

    abbrev not_captured : o.Peers
    not_captured = o.peers_minus base r.captured

    abbrev conns_from : o.Peers → o.Conns
    conns_from near_peers = conns_of o is_ingress near_peers all_peers_and_ips

    conns_from-none :
        (near_peers : o.Peers)
        → o.some_peers near_peers ≡ false
        → allows (conns_from near_peers) c ≡ false
    conns_from-none near_peers e =
        allows-conns_of is_ingress near_peers all_peers_and_ips c
        ∙ ap (λ x. x && has all_peers_and_ips (far is_ingress c)) (laws.has-not_some near_peers _ e)

    allows-passed : allows (o.conns_and r.pass_conns (conns_from captured)) c ≡ (
        allows r.pass_conns c
        && ((is_pod peers (near is_ingress c) && has r.captured (near is_ingress c))
            && in_world peers (far is_ingress c)))
    unfolding get_all_peers_group
    allows-passed =
        laws.allows-conns_and r.pass_conns (conns_from captured) c
        ∙ ap (λ x. allows r.pass_conns c && x)
            (allows-conns_of is_ingress captured all_peers_and_ips c
              ∙ ap₂ ◌&&◌
                  (laws.has-peers_and base r.captured (near is_ingress c)
                    ∙ ap (λ x. x && has r.captured (near is_ingress c))
                        (laws.has-no_host_eps peers (near is_ingress c)))
                  (laws.has-peers_or peers o.all_ips (far is_ingress c)))

    allows-default : allows (conns_from not_captured) c ≡ (
        (is_pod peers (near is_ingress c) && not (has r.captured (near is_ingress c)))
        && in_world peers (far is_ingress c))
    unfolding get_all_peers_group
    allows-default =
        allows-conns_of is_ingress not_captured all_peers_and_ips c
        ∙ ap₂ ◌&&◌
            (laws.has-peers_minus base r.captured (near is_ingress c)
              ∙ ap (λ x. x && not (has r.captured (near is_ingress c)))
                  (laws.has-no_host_eps peers (near is_ingress c)))
            (laws.has-peers_or peers o.all_ips (far is_ingress c))

    passed-none :
        (o.some_peers captured && o.some_conns r.pass_conns) ≡ false
        → allows (o.conns_and r.pass_conns (conns_from captured)) c ≡ false
    passed-none g =
        laws.allows-conns_and r.pass_conns (conns_from captured) c
        ∙ elim (Bool-cases (o.some_peers captured)) [
          | inl e ↦ left_false _ _ (laws.allows-not_some r.pass_conns c (and_other _ _ g e))
          | inr e ↦ right_false _ _ (conns_from-none captured e)
        ]

    -- What the rules allow, and what they pass to the profiles, which allow it.
    pub k8s_defaults-allowed : allows (k8s_defaults o is_ingress peers f r).allowed_conns c ≡ (
        allows r.allowed_conns c
        || (allows r.pass_conns c
            && ((is_pod peers (near is_ingress c) && has r.captured (near is_ingress c))
                && in_world peers (far is_ingress c))))
    unfolding k8s_defaults
    k8s_defaults-allowed =
        guarded_or (o.some_peers captured && o.some_conns r.pass_conns) r.allowed_conns _ c
          passed-none
        ∙ ap (λ x. allows r.allowed_conns c || x) allows-passed

    -- That, and what pods that no policy captures may do by default.
    pub k8s_defaults-all :
        f.calc_all_allowed ≡ true
        → allows (k8s_defaults o is_ingress peers f r).all_allowed_conns c ≡ (
            (allows r.all_allowed_conns c
              || ((is_pod peers (near is_ingress c) && not (has r.captured (near is_ingress c)))
                  && in_world peers (far is_ingress c)))
            || allows (k8s_defaults o is_ingress peers f r).allowed_conns c)
    unfolding k8s_defaults
    k8s_defaults-all e =
        let allowed =
          if o.some_peers captured && o.some_conns r.pass_conns
          then o.conns_or r.allowed_conns (o.conns_and r.pass_conns (conns_from captured))
          else r.allowed_conns in
        let default = conns_from not_captured in
        let g = o.some_peers not_captured && f.calc_all_allowed in
        let all_allowed =
          if g then o.conns_or r.all_allowed_conns default else r.all_allowed_conns in
        ap (λ k. allows k c) (if_true f.calc_all_allowed _ _ e)
        ∙ laws.allows-conns_or all_allowed allowed c
        ∙ ap (λ x. x || allows allowed c)
            (guarded_or g r.all_allowed_conns default c
                (λ h. conns_from-none not_captured (and_first _ _ h e))
              ∙ ap (λ x. allows r.all_allowed_conns c || x) allows-default)

    pub k8s_defaults-denied : (k8s_defaults o is_ingress peers f r).denied_conns ≡ r.denied_conns
    unfolding k8s_defaults
    k8s_defaults-denied = refl
