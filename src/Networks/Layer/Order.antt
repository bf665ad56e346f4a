-- ===== src/Networks/Layer/Order.antt =====
-- NetworkLayer.add_policy keeps the policies of a layer in their order.
use network_config_analyzer.Prelude.{
  ◌≡◌, refl, sym, subst, ap, ap₂, ◌∙◌, Bool, true, false, not, ◌&&◌, if◌then◌else◌, Option, none,
  some, List, [], ◌∷◌, ◌++◌, arith, Bool-cases, inl, inr,
}
use network_config_analyzer.Policies.Connectivity.{Connectivity}
use network_config_analyzer.Policies.Rules.{ActionType, action_type_eq}
use network_config_analyzer.Policies.NetPolicy.{
  Orders, NetPolicy, of_k8s, of_calico, of_istio, of_sidecar, of_gateway, get_order, order_before,
  istio_before, policy_lt,
}
use network_config_analyzer.Policies.Order.{insort}
use network_config_analyzer.Policies.Order.Insort.{All, insort-split}
use network_config_analyzer.Policies.Order.Sorted.{
  InOrder, InOrder-same, All-insert, insert-InOrder, insort-InOrder,
}
use network_config_analyzer.Networks.Layer.{add_policy}

pub append_nil : {A : Type 0} (xs : List A) → xs ++ [] ≡ xs
append_nil [] = refl
append_nil (x ∷ xs) = ap (λ t. x ∷ t) (append_nil xs)

module _ (o : Connectivity) (n : Orders) where
  -- A policy of one of the two classes whose order is a number.
  abbrev pub is_ordered : NetPolicy o n → Bool
  is_ordered (of_k8s p) = true
  is_ordered (of_calico p) = true
  is_ordered (of_istio p) = false
  is_ordered (of_sidecar p) = false
  is_ordered (of_gateway p) = false

  -- `<` on the numbers is asymmetric, and what is not before the greater one is not before the
  -- smaller one.
  pub record AreOrdered : Type 0 where
    pub asym : (a b : n.Order) → n.order_lt a b ≡ true → n.order_lt b a ≡ false
    pub comparison :
        (a b c : n.Order) → n.order_lt a b ≡ true → n.order_lt c b ≡ false → n.order_lt a c ≡ true

  -- The number of a Calico policy is its order, if it has one, and that of a K8s policy 1000.
  abbrev pub number : NetPolicy o n → Option n.Order
  number (of_k8s p) = some n.thousand
  number (of_calico p) = p.order
  number (of_istio p) = none
  number (of_sidecar p) = none
  number (of_gateway p) = none

  -- The smaller number, and any number before none.
  abbrev pub smaller : Option n.Order → Option n.Order → Bool
  smaller none b = false
  smaller (some a) none = true
  smaller (some a) (some b) = n.order_lt a b

  abbrev pub number_before : NetPolicy o n → NetPolicy o n → Bool
  number_before p q = smaller (number p) (number q)

  before_smaller : (a b : Option n.Order) → order_before o n a b ≡ smaller a b
  unfolding order_before
  before_smaller none b = refl
  before_smaller (some a) none = refl
  before_smaller (some a) (some b) = refl

  get_order-number : (p : NetPolicy o n) → get_order o n p ≡ number p
  unfolding get_order
  get_order-number (of_k8s p) = refl
  get_order-number (of_calico p) = refl
  get_order-number (of_istio p) = refl
  get_order-number (of_sidecar p) = refl
  get_order-number (of_gateway p) = refl

  in_numbers :
      (p q : NetPolicy o n)
      → order_before o n (get_order o n p) (get_order o n q) ≡ number_before p q
  in_numbers p q =
      before_smaller (get_order o n p) (get_order o n q)
      ∙ ap₂ smaller (get_order-number p) (get_order-number q)

  lt_number : (p q : NetPolicy o n) → is_ordered p ≡ true → policy_lt o n p q ≡ number_before p q
  unfolding policy_lt
  lt_number (of_k8s p) q h = in_numbers (of_k8s p) q
  lt_number (of_calico p) q h = in_numbers (of_calico p) q
  lt_number (of_istio p) q h = absurd (ground arith)
  lt_number (of_sidecar p) q h = absurd (ground arith)
  lt_number (of_gateway p) q h = absurd (ground arith)

  module _ (laws : AreOrdered) where
    smaller_asym : (a b : Option n.Order) → smaller a b ≡ true → smaller b a ≡ false
    smaller_asym none b h = absurd (ground arith)
    smaller_asym (some a) none h = refl
    smaller_asym (some a) (some b) h = laws.asym a b h

    smaller_comparison :
        (a b c : Option n.Order) → smaller a b ≡ true → smaller c b ≡ false → smaller a c ≡ true
    smaller_comparison none b c h k = absurd (ground arith)
    smaller_comparison (some a) b none h k = refl
    smaller_comparison (some a) none (some c) h k = absurd (ground arith)
    smaller_comparison (some a) (some b) (some c) h k = laws.comparison a b c h k

    -- K8s and Calico policies of which none has a smaller number than an earlier one, where K8s policies
    -- count as 1000 and those without a number as greater than all: with a further policy, add_policy
    -- keeps them so.
    pub add_policy-InOrder :
        (p : NetPolicy o n) (policies : List (NetPolicy o n))
        → is_ordered p ≡ true
        → All is_ordered true policies
        → InOrder number_before policies
        → InOrder number_before (add_policy o n p policies)
          × All is_ordered true (add_policy o n p policies)
    unfolding add_policy
    add_policy-InOrder p policies h k s =
        let (sorted, same) =
          insort-InOrder (policy_lt o n) is_ordered
            (λ x y u v e.
              lt_number y x v ∙ smaller_asym (number x) (number y) (sym (lt_number x y u) ∙ e))
            (λ x y z u v e g.
              lt_number x z u
              ∙ smaller_comparison (number x) (number y) (number z) (sym (lt_number x y u) ∙ e)
                  (sym (lt_number z y v) ∙ g))
            p policies h k
            (InOrder-same number_before (policy_lt o n) is_ordered
              (λ x y u v. sym (lt_number x y u)) policies k s) in
        (
          InOrder-same (policy_lt o n) number_before is_ordered (λ x y u v. lt_number x y u) _ same
              sorted,
          same,
        )

  abbrev pub is_istio : NetPolicy o n → Bool
  is_istio (of_istio p) = true
  is_istio (of_k8s p) = false
  is_istio (of_calico p) = false
  is_istio (of_sidecar p) = false
  is_istio (of_gateway p) = false

  abbrev pub denies : NetPolicy o n → Bool
  denies (of_istio p) = action_type_eq p.action ActionType.deny
  denies (of_k8s p) = false
  denies (of_calico p) = false
  denies (of_sidecar p) = false
  denies (of_gateway p) = false

  -- An authorization policy that denies goes before one that does not.
  abbrev pub denies_before : NetPolicy o n → NetPolicy o n → Bool
  denies_before p q = denies p && not (denies q)

  lt_denies :
      (p q : NetPolicy o n) → is_istio p ≡ true → is_istio q ≡ true → policy_lt o n p q ≡ denies p
  unfolding policy_lt istio_before
  lt_denies (of_istio p) (of_istio q) h k = refl
  lt_denies (of_istio p) (of_k8s q) h k = absurd (ground arith)
  lt_denies (of_istio p) (of_calico q) h k = absurd (ground arith)
  lt_denies (of_istio p) (of_sidecar q) h k = absurd (ground arith)
  lt_denies (of_istio p) (of_gateway q) h k = absurd (ground arith)
  lt_denies (of_k8s p) q h k = absurd (ground arith)
  lt_denies (of_calico p) q h k = absurd (ground arith)
  lt_denies (of_sidecar p) q h k = absurd (ground arith)
  lt_denies (of_gateway p) q h k = absurd (ground arith)

  is_placed :
      (b : Bool) (p : NetPolicy o n) (policies : List (NetPolicy o n))
      → denies p ≡ b
      → is_istio p ≡ true
      → All is_istio true policies
      → All (policy_lt o n p) b policies
  is_placed b p [] e h k = tt
  is_placed b p (q ∷ policies) e h k = (lt_denies p q h k.0 ∙ e, is_placed b p policies e h k.1)

  none_before :
      (p : NetPolicy o n) (policies : List (NetPolicy o n))
      → denies p ≡ true
      → All (λ z. denies_before z p) false policies
  none_before p [] e = tt
  none_before p (q ∷ policies) e = (ground arith, none_before p policies e)

  before_none :
      (p : NetPolicy o n) (policies : List (NetPolicy o n))
      → denies p ≡ false
      → All (denies_before p) false policies
  before_none p [] e = tt
  before_none p (q ∷ policies) e = (ground arith, before_none p policies e)

  -- A further authorization policy goes first, if it denies, and last, if it allows.
  pub add_policy-place :
      (p : NetPolicy o n) (policies : List (NetPolicy o n))
      → is_istio p ≡ true
      → All is_istio true policies
      → add_policy o n p policies ≡ (if denies p then p ∷ policies else policies ++ p ∷ [])
  unfolding add_policy
  add_policy-place p policies h k = elim (Bool-cases (denies p)) [
    | inl e ↦
        rw (e) (insort-split (policy_lt o n) p [] policies tt (is_placed true p policies e h k))
    | inr e ↦ rw (e) (
        sym (ap (insort (policy_lt o n) p) (append_nil policies))
        ∙ insort-split (policy_lt o n) p policies [] (is_placed false p policies e h k) tt)
  ]

  -- Authorization policies, those that deny first: with a further one, add_policy keeps them so.
  pub add_policy-denies_first :
      (p : NetPolicy o n) (policies : List (NetPolicy o n))
      → is_istio p ≡ true
      → All is_istio true policies
      → InOrder denies_before policies
      → InOrder denies_before (add_policy o n p policies)
        × All is_istio true (add_policy o n p policies)
  add_policy-denies_first p policies h k s =
      subst (λ ys. InOrder denies_before ys × All is_istio true ys)
        (sym (add_policy-place p policies h k))
        (elim (Bool-cases (denies p)) [
          | inl e ↦
              rw (e)
                (insert-InOrder denies_before p [] policies s tt (none_before p policies e), (h, k))
          | inr e ↦
              let at_end = sym (append_nil policies) in
              rw (e) (
                insert-InOrder denies_before p policies [] (subst (InOrder denies_before) at_end s)
                    (before_none p policies e) tt,
                All-insert is_istio true p policies [] (subst (All is_istio true) at_end k) h,
              )
        ])
