-- ===== src/Policies/Order/Insort.antt =====
-- insort puts an element between those that it is not before and those that it is before.
use network_config_analyzer.Prelude.{
  ℕ, zero, suc, ◌+◌, ◌-◌, ◌/◌, ◌≤◌, ◌<◌, ◌≡◌, refl, sym, ap, ◌∙◌, Bool, true, false, List, [], ◌∷◌,
  ◌++◌, arith, ltb, length, get_or, insert, Bool-cases, ltb→lt, bool_clash, inl, inr, if_intro,
}
use network_config_analyzer.Policies.Order.{bisect_right, insort}

module _ {A : Type 0} where
  -- Every element satisfies the test, or none does.
  abbrev pub All : (A → Bool) → Bool → List A → Type 0
  All test b [] = Unit {0}
  All test b (x ∷ xs) = (test x ≡ b) × All test b xs

  get_or-All_left :
      (test : A → Bool) (pre post : List A) (i : ℕ) (d : A)
      → All test false pre
      → i < length pre
      → test (get_or (pre ++ post) i d) ≡ false
  get_or-All_left test [] post i d h l = absurd (omega arith)
  get_or-All_left test (x ∷ pre) post zero d h l = h.0
  get_or-All_left test (x ∷ pre) post (suc i) d h l =
      get_or-All_left test pre post i d h.1 (omega arith)

  get_or-All_right :
      (test : A → Bool) (pre post : List A) (i : ℕ) (d : A)
      → All test true post
      → length pre ≤ i
      → i < length (pre ++ post)
      → test (get_or (pre ++ post) i d) ≡ true
  get_or-All_right test [] [] i d h a l = absurd (omega arith)
  get_or-All_right test [] (y ∷ post) zero d h a l = h.0
  get_or-All_right test [] (y ∷ post) (suc i) d h a l =
      get_or-All_right test [] post i d h.1 (omega arith) (omega arith)
  get_or-All_right test (x ∷ pre) post zero d h a l = absurd (omega arith)
  get_or-All_right test (x ∷ pre) post (suc i) d h a l =
      get_or-All_right test pre post i d h (omega arith) (omega arith)

  length-append_le : (pre post : List A) → length pre ≤ length (pre ++ post)
  length-append_le [] post = omega arith
  length-append_le (x ∷ pre) post = let h = length-append_le pre post in omega arith

  insert-append :
      (x : A) (pre post : List A) → insert (pre ++ post) (length pre) x ≡ pre ++ x ∷ post
  insert-append x [] [] = refl
  insert-append x [] (y ∷ post) = refl
  insert-append x (y ∷ pre) post = ap (λ l. y ∷ l) (insert-append x pre post)

module _ {A : Type 0} (lt : A → A → Bool) where
  module _ (x : A) (pre post : List A) (below : All (lt x) false pre)
      (above : All (lt x) true post) where
    at_or_after : (i : ℕ) → lt x (get_or (pre ++ post) i x) ≡ true → length pre ≤ i
    at_or_after i e = elim (Bool-cases (ltb i (length pre))) [
      | inl l ↦
          absurd (bool_clash (sym e ∙ get_or-All_left (lt x) pre post i x below (ltb→lt _ _ l)))
      | inr l ↦ ground arith
    ]

    is_before :
        (i : ℕ)
        → lt x (get_or (pre ++ post) i x) ≡ false
        → i < length (pre ++ post)
        → i < length pre
    is_before i e l = elim (Bool-cases (ltb i (length pre))) [
      | inl k ↦ ltb→lt _ _ k
      | inr k ↦
          absurd
            (bool_clash (sym (get_or-All_right (lt x) pre post i x above (ground arith) l) ∙ e))
    ]

    bisect_right-split :
        (fuel lo hi : ℕ)
        → lo ≤ length pre
        → length pre ≤ hi
        → hi ≤ length (pre ++ post)
        → hi - lo < fuel
        → bisect_right lt fuel x (pre ++ post) lo hi ≡ length pre
    unfolding bisect_right
    bisect_right-split zero lo hi a b c f = absurd (omega arith)
    bisect_right-split (suc fuel) lo hi a b c f =
        let mid = (lo + hi) / 2 in
        if_intro (λ r. r ≡ length pre) (ltb lo hi)
          (λ l.
            let h = ltb→lt lo hi l in
            elim (Bool-cases (lt x (get_or (pre ++ post) mid x))) [
              | inl e ↦
                  rw (e) (
                    bisect_right-split fuel lo mid a (at_or_after mid e) (omega arith)
                      (omega arith))
              | inr e ↦ rw (e) (
                  bisect_right-split fuel (mid + 1) hi
                    (let k = is_before mid e (omega arith) in omega arith) b c (omega arith))
            ])
          (λ l. ground arith)

    -- A list in two parts, whose first elements the new one is not before and whose last ones it is:
    -- insort puts it between them.
    pub insort-split : insort lt x (pre ++ post) ≡ pre ++ x ∷ post
    unfolding insort
    insort-split =
        let n = length (pre ++ post) in
        ap (λ i. insert (pre ++ post) i x)
          (bisect_right-split (suc n) 0 n (omega arith) (length-append_le pre post) (omega arith)
            (omega arith))
        ∙ insert-append x pre post
