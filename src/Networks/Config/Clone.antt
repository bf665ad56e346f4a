-- ===== src/Networks/Config/Clone.antt =====
-- NetworkConfig.clone_without_policy: the configuration without one policy.
use network_config_analyzer.Prelude.{
  ◌≡◌, refl, ap, ◌∙◌, sym, Bool, false, List, [], ◌∷◌, ◌++◌, inl, inr, if◌then◌else◌, Bool-cases,
}
use network_config_analyzer.Prelude.Outcome.{ok, ◌>>=◌}
use network_config_analyzer.Policies.Connectivity.{Connectivity}
use network_config_analyzer.Policies.Policy.{PolicyType}
use network_config_analyzer.Policies.NetPolicy.{Orders, NetPolicy, base_of}
use network_config_analyzer.Policies.Equality.{policy_eq, type_eq}
use network_config_analyzer.Policies.Order.Insort.{All}
use network_config_analyzer.Networks.Layer.Order.{append_nil}
use network_config_analyzer.Networks.Container.{Policies, Key, key_of, lookup}
use network_config_analyzer.Networks.Container.Policies.{
  IsValid, first, lookup-append, append_policy-any,
}
use network_config_analyzer.Networks.Config.{
  Config, policies_of, append_policy_to_config, append_others, clone_without_policies,
  clone_without_policy,
}

module _ (o : Connectivity) (n : Orders) where
  -- The policies that are not equal to one, under their keys.
  abbrev pub others : NetPolicy o n → Policies o n → List (Key o n × NetPolicy o n)
  others excluded [] = []
  others excluded (p ∷ policies) =
      if policy_eq o n p excluded
      then others excluded policies
      else (key_of o n p, p) ∷ others excluded policies

  abbrev pub is_unknown : NetPolicy o n → Bool
  is_unknown p = type_eq (base_of o n p).policy_kind PolicyType.unknown

  -- The clone's policies.
  abbrev pub Holds : Config o n → List (Key o n × NetPolicy o n) → Type 0
  Holds c entries =
      IsValid o n c.container
      × ((k : Key o n) → lookup o n k c.container.policies ≡ lookup o n k entries)

  snoc_append :
      {A : Type 0} (xs : List A) (x : A) (ys : List A) → (xs ++ x ∷ []) ++ ys ≡ xs ++ x ∷ ys
  snoc_append [] x ys = refl
  snoc_append (z ∷ xs) x ys = ap (λ t. z ∷ t) (snoc_append xs x ys)

  -- What looks up like a dict with one more entry still does so with further ones.
  lookup-joined :
      (k l : Key o n) (p : NetPolicy o n) (ps qs rest : List (Key o n × NetPolicy o n))
      → lookup o n k qs ≡ lookup o n k (ps ++ (l, p) ∷ [])
      → lookup o n k (qs ++ rest) ≡ lookup o n k (ps ++ (l, p) ∷ rest)
  lookup-joined k l p ps qs rest h =
      lookup-append o n k qs rest
      ∙ ap (λ x. first o n x (lookup o n k rest)) h
      ∙ sym (lookup-append o n k (ps ++ (l, p) ∷ []) rest)
      ∙ ap (lookup o n k) (snoc_append ps (l, p) rest)

  append_others-ok :
      (excluded : NetPolicy o n) (policies : Policies o n) (c : Config o n)
      → All is_unknown false policies
      → IsValid o n c.container
      → (c' : Config o n) × (append_others o n excluded policies c ≡ ok c')
        × Holds c' (c.container.policies ++ others excluded policies)
  unfolding append_others append_policy_to_config
  append_others-ok excluded [] c h v =
      (c, refl, (v, λ k. sym (ap (lookup o n k) (append_nil c.container.policies))))
  append_others-ok excluded (p ∷ policies) c h v = elim (Bool-cases (policy_eq o n p excluded)) [
    | inl e ↦ rw (e, ◌>>=◌) (append_others-ok excluded policies c h.1 v)
    | inr e ↦
        let rest = others excluded policies in
        let (c1, a, v1, same) = append_policy-any o n p c.container v h.0 in
        let (c', b, held) =
          append_others-ok excluded policies (record c { container = c1 }) h.1 v1 in
        rw (e, a, ◌>>=◌)
          (
            c',
            b,
            (
              held.0,
              λ k.
                  held.1 k
                  ∙ lookup-joined k (key_of o n p) p c.container.policies c1.policies rest (same k),
            ),
          )
  ]

  -- clone_without_policy of a configuration without policies of unknown type returns. The containers
  -- of the clone are valid, and under each key it has what a dict of all policies that are not equal
  -- to the excluded one has there.
  pub clone_without_policy-ok :
      (excluded : NetPolicy o n) (c : Config o n)
      → All is_unknown false (policies_of o n c)
      → (c' : Config o n) × (clone_without_policy o n excluded c ≡ ok c')
        × Holds c' (others excluded (policies_of o n c))
  unfolding clone_without_policy clone_without_policies
  clone_without_policy-ok excluded c h =
      append_others-ok excluded (policies_of o n c) (clone_without_policies o n c.name c) h
        (tt, inl refl, refl)
