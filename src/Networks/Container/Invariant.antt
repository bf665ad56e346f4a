-- ===== src/Networks/Container/Invariant.antt =====
-- NetworkLayersContainer.add_policy keeps what the class says of the dict of layers.
use network_config_analyzer.Prelude.{
  ℕ, zero, suc, ◌+◌, ◌≡◌, ◌⊎◌, refl, sym, subst, ◌∙◌, false, some, List, [], ◌∷◌, arith, if_intro,
  inl, inr, length, insert,
}
use network_config_analyzer.Policies.Connectivity.{Connectivity}
use network_config_analyzer.Policies.NetPolicy.{Orders, NetPolicy}
use network_config_analyzer.Policies.Order.{insort}
use network_config_analyzer.Networks.Layer.{LayerName, add_policy}
use network_config_analyzer.Networks.Container.{
  Policies, Container, new_layers, name_eq, add_to_layer, is_default, no_policies,
  drop_empty_default, add_to_container,
}

insert-length :
    {A : Type 0} (xs : List A) (i : ℕ) (x : A) → length (insert xs i x) ≡ suc (length xs)
insert-length xs zero x = omega arith
insert-length [] (suc i) x = refl
insert-length (y ∷ xs) (suc i) x = rw (insert-length xs i x) (omega arith)

module _ (o : Connectivity) (n : Orders) where
  -- The number of policies in all layers.
  abbrev pub size : Container o n → ℕ
  size [] = 0
  size ((a, ps) ∷ layers) = length ps + size layers

  -- No layer is without policies.
  abbrev pub AllFilled : Container o n → Type 0
  AllFilled [] = Unit {0}
  AllFilled ((a, ps) ∷ layers) = (no_policies o n ps ≡ false) × AllFilled layers

  -- Either no policy has come yet, and there is the default layer alone, or each layer has policies.
  abbrev pub IsWell : Container o n → Type 0
  IsWell layers = (layers ≡ new_layers o n) ⊎ AllFilled layers

  add_policy-length :
      (p : NetPolicy o n) (ps : Policies o n) → length (add_policy o n p ps) ≡ suc (length ps)
  unfolding add_policy insort
  add_policy-length p ps = insert-length ps _ p

  long-filled : (ps : Policies o n) (k : ℕ) → length ps ≡ suc k → no_policies o n ps ≡ false
  unfolding no_policies
  long-filled [] k h = absurd (omega arith)
  long-filled (p ∷ ps) k h = refl

  add_to_layer-size :
      (p : NetPolicy o n) (a : LayerName) (layers : Container o n)
      → size (add_to_layer o n p a layers) ≡ suc (size layers)
  unfolding add_to_layer
  add_to_layer-size p a [] = refl
  add_to_layer-size p a ((b, ps) ∷ layers) =
      if_intro (λ l. size l ≡ suc (length ps + size layers)) (name_eq a b)
        (λ e. let h = add_policy-length p ps in omega arith)
        (λ e. let h = add_to_layer-size p a layers in omega arith)

  drop-size : (layers : Container o n) → size (drop_empty_default o n layers) ≡ size layers
  unfolding drop_empty_default
  drop-size [] = refl
  drop-size ((b, []) ∷ layers) =
      if_intro (λ l. size l ≡ 0 + size layers) (is_default o n b) {x = layers}
        {y = (b, []) ∷ drop_empty_default o n layers} (λ e. omega arith)
        (λ e. let h = drop-size layers in omega arith)
  drop-size ((b, p ∷ ps) ∷ layers) =
      if_intro (λ l. size l ≡ suc (length ps) + size layers) (is_default o n b)
        {x = (b, p ∷ ps) ∷ layers} {y = (b, p ∷ ps) ∷ drop_empty_default o n layers} (λ e. refl)
        (λ e. let h = drop-size layers in omega arith)

  add_to_layer-AllFilled :
      (p : NetPolicy o n) (a : LayerName) (layers : Container o n)
      → AllFilled layers
      → AllFilled (add_to_layer o n p a layers)
  unfolding add_to_layer no_policies
  add_to_layer-AllFilled p a [] h = (refl, tt)
  add_to_layer-AllFilled p a ((b, ps) ∷ layers) h =
      if_intro AllFilled (name_eq a b)
        (λ e. (long-filled (add_policy o n p ps) (length ps) (add_policy-length p ps), h.1))
        (λ e. (h.0, add_to_layer-AllFilled p a layers h.1))

  drop-AllFilled :
      (layers : Container o n) → AllFilled layers → AllFilled (drop_empty_default o n layers)
  unfolding drop_empty_default
  drop-AllFilled [] h = tt
  drop-AllFilled ((b, ps) ∷ layers) h =
      if_intro AllFilled (is_default o n b)
        (λ e. if_intro AllFilled (no_policies o n ps) (λ k. h.1) (λ k. h))
        (λ e. (h.0, drop-AllFilled layers h.1))

  first-AllFilled :
      (p : NetPolicy o n) (a : LayerName)
      → AllFilled (drop_empty_default o n (add_to_layer o n p a (new_layers o n)))
  unfolding drop_empty_default new_layers add_to_layer is_default name_eq no_policies
  first-AllFilled p LayerName.k8s_calico = (refl, tt)
  first-AllFilled p LayerName.istio = (refl, tt)
  first-AllFilled p LayerName.k8s_gateway = (refl, tt)
  first-AllFilled p LayerName.istio_gateway = (refl, tt)

  -- add_policy to a layer of a well-formed container leaves no layer without policies, the default one
  -- included, and one policy more than before.
  pub add_to_container-IsWell :
      (p : NetPolicy o n) (a : LayerName) (layers : Container o n)
      → IsWell layers
      → AllFilled (add_to_container o n p (some a) layers)
        × (size (add_to_container o n p (some a) layers) ≡ suc (size layers))
  unfolding add_to_container
  add_to_container-IsWell p a layers h =
      let more = drop-size (add_to_layer o n p a layers) ∙ add_to_layer-size p a layers in
      elim h [
        | inl e ↦ (
          subst (λ l. AllFilled (drop_empty_default o n (add_to_layer o n p a l))) (sym e)
              (first-AllFilled p a),
          more,
        )
        | inr w ↦ (
          drop-AllFilled (add_to_layer o n p a layers) (add_to_layer-AllFilled p a layers w),
          more,
        )
      ]
