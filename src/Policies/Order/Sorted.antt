-- ===== src/Policies/Order/Sorted.antt =====
-- A list in order stays so under insort, for a relation that is a strict weak order on its elements.
use network_config_analyzer.Prelude.{
  ◌≡◌, refl, sym, subst, ap, ◌∙◌, Bool, true, false, List, [], ◌∷◌, ◌++◌, Bool-cases, inl, inr,
}
use network_config_analyzer.Policies.Order.{insort}
use network_config_analyzer.Policies.Order.Insort.{All, insort-split}

module _ {A : Type 0} where
  pub All-split :
      (test : A → Bool) (b : Bool) (pre post : List A)
      → All test b (pre ++ post)
      → All test b pre × All test b post
  All-split test b [] post h = (tt, h)
  All-split test b (x ∷ pre) post h = let (l, r) = All-split test b pre post h.1 in ((h.0, l), r)

  pub All-append :
      (test : A → Bool) (b : Bool) (pre post : List A)
      → All test b pre
      → All test b post
      → All test b (pre ++ post)
  All-append test b [] post h k = k
  All-append test b (x ∷ pre) post h k = (h.0, All-append test b pre post h.1 k)

  pub All-insert :
      (test : A → Bool) (b : Bool) (x : A) (pre post : List A)
      → All test b (pre ++ post)
      → test x ≡ b
      → All test b (pre ++ x ∷ post)
  All-insert test b x pre post h e =
      let (l, r) = All-split test b pre post h in All-append test b pre (x ∷ post) l (e, r)

module _ {A : Type 0} (lt : A → A → Bool) where
  -- No element is before an earlier one.
  abbrev pub InOrder : List A → Type 0
  InOrder [] = Unit {0}
  InOrder (y ∷ ys) = All (λ z. lt z y) false ys × InOrder ys

  pub insert-InOrder :
      (x : A) (pre post : List A)
      → InOrder (pre ++ post)
      → All (lt x) false pre
      → All (λ z. lt z x) false post
      → InOrder (pre ++ x ∷ post)
  insert-InOrder x [] post h l r = (r, h)
  insert-InOrder x (y ∷ pre) post h l r =
      (All-insert (λ z. lt z y) false x pre post h.0 l.0, insert-InOrder x pre post h.1 l.1 r)

  module _ (within : A → Bool)
      (asym : (x y : A) → within x ≡ true → within y ≡ true → lt x y ≡ true → lt y x ≡ false)
      (comparison : (x y z : A)
        → within x ≡ true
        → within z ≡ true
        → lt x y ≡ true
        → lt z y ≡ false
        → lt x z ≡ true) where
    rest_above :
        (x y : A) (ys : List A)
        → within x ≡ true
        → All within true ys
        → lt x y ≡ true
        → All (λ z. lt z y) false ys
        → All (lt x) true ys
    rest_above x y [] w ws e h = tt
    rest_above x y (z ∷ ys) w ws e h =
        (comparison x y z w ws.0 e h.0, rest_above x y ys w ws.1 e h.1)

    -- The two parts of a list in order, by the new element.
    abbrev Parts : A → List A → Type 0
    Parts x xs =
        (pre : List A) × (post : List A) × (xs ≡ pre ++ post)
        × All (lt x) false pre
        × All (lt x) true post

    parts : (x : A) (xs : List A) → within x ≡ true → All within true xs → InOrder xs → Parts x xs
    parts x [] w ws h = ([], [], refl, tt, tt)
    parts x (y ∷ ys) w ws h = elim (Bool-cases (lt x y)) [
      | inl e ↦ ([], y ∷ ys, refl, tt, (e, rest_above x y ys w ws.1 e h.0))
      | inr e ↦
          let (pre, post, s, l, r) = parts x ys w ws.1 h.1 in
          (y ∷ pre, post, ap (λ t. y ∷ t) s, (e, l), r)
    ]

    not_before :
        (x : A) (xs : List A)
        → within x ≡ true
        → All within true xs
        → All (lt x) true xs
        → All (λ z. lt z x) false xs
    not_before x [] w ws h = tt
    not_before x (y ∷ ys) w ws h = (asym x y w ws.0 h.0, not_before x ys w ws.1 h.1)

    pub insort-InOrder :
        (x : A) (xs : List A)
        → within x ≡ true
        → All within true xs
        → InOrder xs
        → InOrder (insort lt x xs) × All within true (insort lt x xs)
    insort-InOrder x xs w ws h =
        let (pre, post, s, l, r) = parts x xs w ws h in
        let place : insort lt x xs ≡ pre ++ x ∷ post =
          ap (insort lt x) s ∙ insort-split lt x pre post l r in
        let ws' = subst (All within true) s ws in
        subst (λ ys. InOrder ys × All within true ys) (sym place)
          (
            insert-InOrder x pre post (subst InOrder s h) l
                (not_before x post w (All-split within true pre post ws').1 r),
            All-insert within true x pre post ws' w,
          )

module _ {A : Type 0} where
  All-same :
      (lt lt' : A → A → Bool) (within : A → Bool)
      → ((x y : A) → within x ≡ true → within y ≡ true → lt x y ≡ lt' x y)
      → (y : A) (ys : List A) → within y ≡ true
      → All within true ys
      → All (λ z. lt z y) false ys
      → All (λ z. lt' z y) false ys
  All-same lt lt' within f y [] h k a = tt
  All-same lt lt' within f y (x ∷ ys) h k a =
      (sym (f x y k.0 h) ∙ a.0, All-same lt lt' within f y ys h k.1 a.1)

  -- Two relations that agree on the elements have the same order.
  pub InOrder-same :
      (lt lt' : A → A → Bool) (within : A → Bool)
      → ((x y : A) → within x ≡ true → within y ≡ true → lt x y ≡ lt' x y)
      → (ys : List A) → All within true ys
      → InOrder lt ys
      → InOrder lt' ys
  InOrder-same lt lt' within f [] k s = tt
  InOrder-same lt lt' within f (y ∷ ys) k s =
      (All-same lt lt' within f y ys k.0 k.1 s.0, InOrder-same lt lt' within f ys k.1 s.1)
