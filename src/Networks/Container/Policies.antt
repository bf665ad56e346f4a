-- ===== src/Networks/Container/Policies.antt =====
-- append_policy keeps the two dicts well-formed, and what it puts in can be found there.

use text.Mathlib.Text.{◌==◌ as str_eq}
use text.Mathlib.TextEquality.{eq_iff}
use network_config_analyzer.Prelude.{
  ℕ, ◌+◌, ◌≡◌, ◌⊎◌, refl, sym, ap, ap₂, ◌∙◌, ◌&&◌, ◌==◌, and_left, and_right, Bool, true, false,
  Option, none, some, List, [], ◌∷◌, ◌++◌, arith, if◌then◌else◌, ==_iff, inl, inr, and_intro,
  Bool-cases,
}
use network_config_analyzer.Prelude.Outcome.{ok}
use network_config_analyzer.Policies.Connectivity.{Connectivity}
use network_config_analyzer.Policies.Policy.{PolicyType}
use network_config_analyzer.Policies.NetPolicy.{Orders, NetPolicy, base_of}
use network_config_analyzer.Policies.Equality.{type_eq, type_number}
use network_config_analyzer.Networks.Layer.{LayerName, policy_type_to_layer}
use network_config_analyzer.Networks.Container.{
  Container, add_to_container, Key, key_eq, key_of, PoliciesContainer, lookup, is_some,
  append_policy,
}
use network_config_analyzer.Networks.Container.Invariant.{size, IsWell, add_to_container-IsWell}

Option-cases : {A : Type 0} (x : Option A) → (x ≡ none) ⊎ ((a : A) × (x ≡ some a))
Option-cases none = inl refl
Option-cases (some a) = inr (a, refl)

keep_found :
    {A : Type 0} (g : Bool) (q : A) (x y : Option A) (p : A)
    → (if g then some q else x) ≡ some p
    → (x ≡ some p → y ≡ some p)
    → (if g then some q else y) ≡ some p
keep_found true q x y p h k = h
keep_found false q x y p h k = k h

keep_none :
    {A : Type 0} (g : Bool) (q : A) (x y z : Option A)
    → (if g then some q else x) ≡ none
    → (x ≡ none → y ≡ z)
    → (if g then some q else y) ≡ z
keep_none true q x y z h k = absurd (ground arith)
keep_none false q x y z h k = k h

module _ (o : Connectivity) (n : Orders) where
  abbrev Entries : Type 0
  Entries = List (Key o n × NetPolicy o n)

  key_eq_refl : (k : Key o n) → key_eq o n k k ≡ true
  unfolding key_eq type_eq
  key_eq_refl (s, t) =
      and_intro _ _ ((eq_iff s s).1 refl) ((==_iff (type_number t) (type_number t)).1 refl)

  -- Each policy is found under its key, so that no two have equal keys.
  abbrev pub AllFound : Entries → Entries → Type 0
  AllFound [] policies = Unit {0}
  AllFound ((k, p) ∷ entries) policies =
      (k ≡ key_of o n p) × (lookup o n k policies ≡ some p) × AllFound entries policies

  -- Whether policies of the type go to a layer, as a number.
  abbrev pub layered : NetPolicy o n → ℕ
  layered p = if is_some o n (policy_type_to_layer (base_of o n p).policy_kind) then 1 else 0

  abbrev pub number_layered : Entries → ℕ
  number_layered [] = 0
  number_layered ((k, p) ∷ entries) = layered p + number_layered entries

  -- The dicts hold the same policies, as far as their types have layers; keys are those of the
  -- policies, and differ; the dict of layers is well-formed.
  abbrev pub IsValid : PoliciesContainer o n → Type 0
  IsValid c =
      AllFound c.policies c.policies
      × IsWell o n c.layers
      × (size o n c.layers ≡ number_layered c.policies)

  lookup-append_left :
      (k : Key o n) (ps qs : Entries) (p : NetPolicy o n)
      → lookup o n k ps ≡ some p
      → lookup o n k (ps ++ qs) ≡ some p
  unfolding lookup
  lookup-append_left k [] qs p h = absurd (ground arith)
  lookup-append_left k ((l, q) ∷ ps) qs p h =
      keep_found (key_eq o n k l) q _ _ p h (lookup-append_left k ps qs p)

  lookup-append_right :
      (k : Key o n) (ps qs : Entries)
      → lookup o n k ps ≡ none
      → lookup o n k (ps ++ qs) ≡ lookup o n k qs
  unfolding lookup
  lookup-append_right k [] qs h = refl
  lookup-append_right k ((l, q) ∷ ps) qs h =
      keep_none (key_eq o n k l) q _ _ _ h (lookup-append_right k ps qs)

  number_layered-append :
      (ps : Entries) (k : Key o n) (p : NetPolicy o n)
      → number_layered (ps ++ (k, p) ∷ []) ≡ layered p + number_layered ps
  number_layered-append [] k p = refl
  number_layered-append ((l, q) ∷ ps) k p = let h = number_layered-append ps k p in omega arith

  AllFound-append : (entries ps qs : Entries) → AllFound entries ps → AllFound entries (ps ++ qs)
  AllFound-append [] ps qs h = tt
  AllFound-append ((k, p) ∷ entries) ps qs h =
      (h.0, lookup-append_left k ps qs p h.1, AllFound-append entries ps qs h.2)

  AllFound-both : (es ds ps : Entries) → AllFound es ps → AllFound ds ps → AllFound (es ++ ds) ps
  AllFound-both [] ds ps h k = k
  AllFound-both ((l, p) ∷ es) ds ps h k = (h.0, h.1, AllFound-both es ds ps h.2 k)

  -- The dict of layers holds one policy more if there is a layer for it.
  layers-size :
      (p : NetPolicy o n) (l : Option LayerName) (layers : Container o n)
      → IsWell o n layers
      → IsWell o n (add_to_container o n p l layers)
        × (size o n (add_to_container o n p l layers)
            ≡ (if is_some o n l then 1 else 0) + size o n layers)
  unfolding add_to_container is_some
  layers-size p none layers w = (w, omega arith)
  layers-size p (some a) layers w =
      let (filled, more) = add_to_container-IsWell o n p a layers w in
      (inr filled, more ∙ omega arith)

  lookup-other :
      (k l : Key o n) (p : NetPolicy o n) (ps : Entries)
      → key_eq o n k l ≡ false
      → lookup o n k (ps ++ (l, p) ∷ []) ≡ lookup o n k ps
  unfolding lookup
  lookup-other k l p ps e = elim (Option-cases (lookup o n k ps)) [
    | inl h ↦ lookup-append_right k ps ((l, p) ∷ []) h ∙ rw (e) (sym h)
    | inr h ↦ lookup-append_left k ps ((l, p) ∷ []) h.0 h.1 ∙ sym h.1
  ]

  lookup-new :
      (p : NetPolicy o n) (ps : Entries)
      → lookup o n (key_of o n p) ps ≡ none
      → lookup o n (key_of o n p) (ps ++ (key_of o n p, p) ∷ []) ≡ some p
  unfolding lookup
  lookup-new p ps h =
      let k = key_of o n p in lookup-append_right k ps ((k, p) ∷ []) h ∙ rw (key_eq_refl k) refl

  -- The containers after a policy with a new key.
  abbrev pub with_new : NetPolicy o n → PoliciesContainer o n → PoliciesContainer o n
  with_new p c = record {
    policies = c.policies ++ (key_of o n p, p) ∷ [];
    layers = add_to_container o n p (policy_type_to_layer (base_of o n p).policy_kind) c.layers;
  }

  pub with_new-IsValid :
      (p : NetPolicy o n) (c : PoliciesContainer o n)
      → IsValid c
      → lookup o n (key_of o n p) c.policies ≡ none
      → IsValid (with_new p c)
  unfolding is_some
  with_new-IsValid p c v new =
      let k = key_of o n p in
      let (well, more) =
        layers-size p (policy_type_to_layer (base_of o n p).policy_kind) c.layers v.1 in
      (
        AllFound-both c.policies ((k, p) ∷ []) (with_new p c).policies
            (AllFound-append c.policies c.policies ((k, p) ∷ []) v.0)
            (refl, lookup-new p c.policies new, tt),
        well,
        more ∙ rw (v.2) (sym (number_layered-append c.policies k p)),
      )

  -- append_policy to valid containers of a policy whose type is known and whose key is new returns
  -- valid containers, in which that policy is found under its key and no other key has changed.
  pub append_policy-found :
      (p : NetPolicy o n) (c : PoliciesContainer o n)
      → IsValid c
      → type_eq (base_of o n p).policy_kind PolicyType.unknown ≡ false
      → lookup o n (key_of o n p) c.policies ≡ none
      → (c' : PoliciesContainer o n) × (append_policy o n (some p) c ≡ ok c')
        × IsValid c'
        × (lookup o n (key_of o n p) c'.policies ≡ some p)
        × ((k : Key o n)
            → key_eq o n k (key_of o n p) ≡ false
            → lookup o n k c'.policies ≡ lookup o n k c.policies)
  unfolding append_policy is_some
  append_policy-found p c v known new = (
    with_new p c,
    rw (known, new) refl,
    with_new-IsValid p c v new,
    lookup-new p c.policies new,
    (λ l e. lookup-other l (key_of o n p) p c.policies e),
  )

  -- The first of two that is there.
  abbrev pub first : Option (NetPolicy o n) → Option (NetPolicy o n) → Option (NetPolicy o n)
  first none b = b
  first (some a) b = some a

  first_if :
      (g : Bool) (p : NetPolicy o n) (x b y : Option (NetPolicy o n))
      → y ≡ first x b
      → (if g then some p else y) ≡ first (if g then some p else x) b
  first_if true p x b y h = refl
  first_if false p x b y h = h

  pub lookup-append :
      (k : Key o n) (ps qs : Entries)
      → lookup o n k (ps ++ qs) ≡ first (lookup o n k ps) (lookup o n k qs)
  unfolding lookup
  lookup-append k [] qs = refl
  lookup-append k ((l, p) ∷ ps) qs =
      first_if (key_eq o n k l) p (lookup o n k ps) (lookup o n k qs) (lookup o n k (ps ++ qs))
        (lookup-append k ps qs)

  key_eq-same : (k l m : Key o n) → key_eq o n k l ≡ true → key_eq o n k m ≡ key_eq o n l m
  unfolding key_eq type_eq
  key_eq-same (s, a) (t, b) (u, c) e =
      ap₂ ◌&&◌ (ap (λ z. str_eq z u) ((eq_iff s t).0 (and_left _ _ e))) (
        ap (λ z. z == type_number c) ((==_iff (type_number a) (type_number b)).0 (and_right _ _ e)))

  lookup-same :
      (k l : Key o n) (ps : Entries) → key_eq o n k l ≡ true → lookup o n k ps ≡ lookup o n l ps
  unfolding lookup
  lookup-same k l [] e = refl
  lookup-same k l ((m, p) ∷ ps) e =
      ap₂ (λ b x. if b then some p else x) (key_eq-same k l m e) (lookup-same k l ps e)

  first_found :
      (k l : Key o n) (p q : NetPolicy o n) (ps : Entries)
      → lookup o n l ps ≡ some q
      → first (lookup o n k ps) (if key_eq o n k l then some p else none) ≡ lookup o n k ps
  first_found k l p q ps h = elim (Bool-cases (key_eq o n k l)) [
    | inl e ↦ rw (lookup-same k l ps e ∙ h) refl
    | inr e ↦ rw (e) (first_none (lookup o n k ps))
  ]
    where
      first_none : (x : Option (NetPolicy o n)) → first x none ≡ x
      first_none none = refl
      first_none (some a) = refl

  -- append_policy of any policy whose type is known: the key of one that is there keeps its policy.
  pub append_policy-any :
      (p : NetPolicy o n) (c : PoliciesContainer o n)
      → IsValid c
      → type_eq (base_of o n p).policy_kind PolicyType.unknown ≡ false
      → (c' : PoliciesContainer o n) × (append_policy o n (some p) c ≡ ok c')
        × IsValid c'
        × ((k : Key o n)
            → lookup o n k c'.policies ≡ lookup o n k (c.policies ++ (key_of o n p, p) ∷ []))
  unfolding append_policy is_some lookup
  append_policy-any p c v known = elim (Option-cases (lookup o n (key_of o n p) c.policies)) [
    | inl new ↦ (with_new p c, rw (known, new) refl, with_new-IsValid p c v new, (λ k. refl))
    | inr there ↦ (
      c,
      rw (known, there.1) refl,
      v,
      (λ k.
          sym (first_found k (key_of o n p) p there.0 c.policies there.1)
          ∙ sym (lookup-append k c.policies ((key_of o n p, p) ∷ []))),
    )
  ]
