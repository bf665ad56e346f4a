-- ===== src/HyperCubes/Union/Points.antt =====
-- _apply_layer_elements_union merges the pairs with equal sub-cubes and keeps the points.
use Prim.Native.String.{String}
use network_config_analyzer.Prelude.{
  ◌≡◌, refl, sym, ap, or_nothing, or_intro, or_intro_right, or_false, excluded, ◌∙◌, Bool, true,
  false, ◌&&◌, ◌||◌, List, [], ◌∷◌, ◌++◌, arith, Bool-cases, inl, inr,
}
use network_config_analyzer.Prelude.Outcome.{ok, ◌>>=◌}
use network_config_analyzer.HyperCubes.Elem.{LayerElem, ElemLaws}
use network_config_analyzer.HyperCubes.Layers.{Cubes, Dict, nil, layer, sub_eq, put, has_key}
use network_config_analyzer.HyperCubes.Layers.Equality.{sub_eq-sat, has_key-holds}
use network_config_analyzer.HyperCubes.Points.{
  Point, sat, sat_layers, keys_hold, IsWell, AreWell, has_cubes, Fresh, keys_hold-put,
  sat_layers-put, put-AreWell,
}
use network_config_analyzer.HyperCubes.Union.Merged.{
  IsMerged, AreUnlike, AreApart, AreUnlike-classes_of, AreApart-put, AreApart-nil, IsMerged-put,
}
use network_config_analyzer.HyperCubes.Union.{
  Classes, add_class, classes_of, join_all, class_elem, rebuild, apply_union,
}

joined : (a b x y c d : Bool) → d ≡ (a || b) → x ≡ y → (d && x || c) ≡ ((a && x || c) || b && y)
joined a b x y c d h k = ground arith

alone : (a b : Bool) → ((a || false) && b || false) ≡ (a && b)
alone a b = ground arith

or_assoc : (a b c : Bool) → (a || (b || c)) ≡ ((a || b) || c)
or_assoc a b c = ground arith

module _ (o : LayerElem) (laws : ElemLaws o) where
  open o use {Elem, Value, nonempty, join}
  open laws use {IsValid, holds}

  abbrev any_holds : List Elem → Value → Bool
  any_holds [] v = false
  any_holds (e ∷ es) v = holds e v || any_holds es v

  abbrev classes_hold : Classes o → Value → Bool
  classes_hold [] v = false
  classes_hold ((s, es) ∷ cs) v = any_holds es v || classes_hold cs v

  abbrev class_sat : Point o laws → Value → Classes o → Bool
  class_sat at v [] = false
  class_sat at v ((s, es) ∷ cs) = any_holds es v && sat o laws at s || class_sat at v cs

  abbrev AllValid : List Elem → Type 0
  AllValid [] = Unit {0}
  AllValid (e ∷ es) = IsValid e × (nonempty e ≡ true) × AllValid es

  abbrev IsSome : List Elem → Type 0
  IsSome [] = ⊥
  IsSome (e ∷ es) = Unit {0}

  abbrev AreClasses : List String → Classes o → Type 0
  AreClasses act [] = Unit {0}
  AreClasses act ((s, es) ∷ cs) =
      AllValid es
      × IsSome es
      × IsWell o laws act s
      × (has_cubes s ≡ true)
      × ((v : Value) → any_holds es v ≡ true → classes_hold cs v ≡ false)
      × AreClasses act cs

  any_holds-snoc :
      (es : List Elem) (e : Elem) (v : Value)
      → any_holds (es ++ e ∷ []) v ≡ (any_holds es v || holds e v)
  any_holds-snoc [] e v = ground arith
  any_holds-snoc (f ∷ es) e v = ground (arith, any_holds-snoc es e v)

  AllValid-snoc :
      (es : List Elem) (e : Elem)
      → IsValid e
      → nonempty e ≡ true
      → AllValid es
      → AllValid (es ++ e ∷ [])
  AllValid-snoc [] e h n k = (h, n, tt)
  AllValid-snoc (f ∷ es) e h n k = (k.0, k.1, AllValid-snoc es e h n k.2)

  IsSome-snoc : (es : List Elem) (e : Elem) → IsSome (es ++ e ∷ [])
  IsSome-snoc [] e = tt
  IsSome-snoc (f ∷ es) e = tt

  classes_hold-add_class :
      (s : Cubes o) (e : Elem) (cs : Classes o) (v : Value)
      → classes_hold (add_class o s e cs) v ≡ (classes_hold cs v || holds e v)
  unfolding add_class
  classes_hold-add_class s e [] v = ground arith
  classes_hold-add_class s e ((t, es) ∷ cs) v = elim (Bool-cases (sub_eq o t s)) [
    | inl same ↦ rw (same) (ground (arith, any_holds-snoc es e v))
    | inr other ↦ rw (other) (ground (arith, classes_hold-add_class s e cs v))
  ]

  class_sat-add_class :
      (act : List String) (s : Cubes o) (e : Elem) (cs : Classes o) (at : Point o laws) (v : Value)
      → IsWell o laws act s
      → AreClasses act cs
      → class_sat at v (add_class o s e cs) ≡ (class_sat at v cs || holds e v && sat o laws at s)
  unfolding add_class
  class_sat-add_class act s e [] at v w k = alone (holds e v) (sat o laws at s)
  class_sat-add_class act s e ((t, es) ∷ cs) at v w k = elim (Bool-cases (sub_eq o t s)) [
    | inl same ↦ rw (same) (
        joined (any_holds es v) (holds e v) _ _ (class_sat at v cs) _ (any_holds-snoc es e v)
          (sub_eq-sat o laws t s act act at k.2 w same))
    | inr other ↦ rw (other) (
        ap (λ (b : Bool). (any_holds es v && sat o laws at t) || b)
          (class_sat-add_class act s e cs at v w k.5)
        ∙ or_assoc (any_holds es v && sat o laws at t) (class_sat at v cs) _)
  ]

  add_class-AreClasses :
      (act : List String) (s : Cubes o) (e : Elem) (cs : Classes o)
      → IsValid e
      → nonempty e ≡ true
      → IsWell o laws act s
      → has_cubes s ≡ true
      → ((v : Value) → holds e v ≡ true → classes_hold cs v ≡ false)
      → AreClasses act cs
      → AreClasses act (add_class o s e cs)
  unfolding add_class
  add_class-AreClasses act s e [] h n w c f k = ((h, n, tt), tt, w, c, (λ v p. refl), tt)
  add_class-AreClasses act s e ((t, es) ∷ cs) h n w c f k = elim (Bool-cases (sub_eq o t s)) [
    | inl same ↦ rw (same) (
      AllValid-snoc es e h n k.0,
      IsSome-snoc es e,
      k.2,
      k.3,
      (λ v p. ground (arith, any_holds-snoc es e v, k.4 v, f v)),
      k.5,
    )
    | inr other ↦ rw (other) (
      k.0,
      k.1,
      k.2,
      k.3,
      (λ v p. ground (arith, classes_hold-add_class s e cs v, k.4 v, f v)),
      add_class-AreClasses act s e cs h n w c (λ v p. ground (arith, f v)) k.5,
    )
  ]

  -- The classes of a whole dict.
  classes_of_lem :
      (act : List String) (l : Dict o) (cs : Classes o)
      → AreWell o laws act l
      → AreClasses act cs
      → ((v : Value) → keys_hold o laws l v ≡ true → classes_hold cs v ≡ false)
      → AreClasses act (classes_of o l cs)
        × ((v : Value)
            → classes_hold (classes_of o l cs) v ≡ (classes_hold cs v || keys_hold o laws l v))
        × ((at : Point o laws) (v : Value)
            → class_sat at v (classes_of o l cs) ≡ (class_sat at v cs || sat_layers o laws at v l))
  unfolding classes_of
  classes_of_lem act nil cs w k f = (k, (λ v. ground arith), λ at v. ground arith)
  classes_of_lem act (layer e s l) cs w k f =
      let k' = add_class-AreClasses act s e cs w.0 w.1 w.2 w.3 (λ v p. f v (or_intro _ _ p)) k in
      let (a, b, c) =
        classes_of_lem act l (add_class o s e cs) w.5 k'
          (λ v p. ground (arith, classes_hold-add_class s e cs v, f v, w.4 v)) in
      (
        a,
        (λ v. ground (arith, b v, classes_hold-add_class s e cs v)),
        λ at v.
            c at v
            ∙ ap (λ (x : Bool). x || sat_layers o laws at v l)
                (class_sat-add_class act s e cs at v w.2 k)
            ∙ sym (
                or_assoc (class_sat at v cs) (holds e v && sat o laws at s)
                  (sat_layers o laws at v l)),
      )

  join_all-ok :
      (e : Elem) (es : List Elem)
      → IsValid e
      → AllValid es
      → (g : Elem) × (join_all o e es ≡ ok g)
        × IsValid g
        × ((v : Value) → holds g v ≡ (holds e v || any_holds es v))
  unfolding join_all
  join_all-ok e [] h k = (e, refl, h, λ v. ground arith)
  join_all-ok e (f ∷ fs) h k =
      let (g, p, m, q) = laws.join-ok e f h k.0 in
      let (g', p', m', q') = join_all-ok g fs m k.2 in
      (g', rw (p, ◌>>=◌) p', m', λ v. ground (arith, q v, q' v))

  class_elem-ok :
      (es : List Elem)
      → AllValid es
      → IsSome es
      → (g : Elem) × (class_elem o es ≡ ok g)
        × IsValid g
        × (nonempty g ≡ true)
        × ((v : Value) → holds g v ≡ any_holds es v)
  unfolding class_elem
  class_elem-ok [] k x = elim x [ ]
  class_elem-ok (e ∷ es) k x =
      let (g, p, m, q) = join_all-ok e es k.0 k.2 in
      let (v, hv) = laws.nonempty-value e k.0 k.1 in
      (
        g,
        p,
        m,
        elim (Bool-cases (nonempty g)) [
          | inl y ↦ y
          | inr none ↦ absurd (ground (arith, q v, laws.empty-holds g v))
        ],
        q,
      )

  has_key-Fresh :
      (e : Elem) (l : Dict o)
      → IsValid e
      → nonempty e ≡ true
      → Fresh o laws e l
      → has_key o e l ≡ false
  has_key-Fresh e l h n fresh = elim (Bool-cases (has_key o e l)) [
    | inl there ↦
        let (v, p) = laws.nonempty-value e h n in
        let q = has_key-holds o laws e l v there p in absurd (ground (arith, fresh v, q, p))
    | inr new ↦ new
  ]

  rebuild-ok :
      (act : List String) (cs : Classes o) (r : Dict o)
      → AreClasses act cs
      → AreWell o laws act r
      → ((v : Value) → classes_hold cs v ≡ true → keys_hold o laws r v ≡ false)
      → AreUnlike o cs
      → AreApart o r cs
      → IsMerged o r
      → (r' : Dict o) × (rebuild o cs r ≡ ok r')
        × AreWell o laws act r'
        × ((v : Value) → keys_hold o laws r' v ≡ (keys_hold o laws r v || classes_hold cs v))
        × ((at : Point o laws) (v : Value)
            → sat_layers o laws at v r' ≡ (sat_layers o laws at v r || class_sat at v cs))
        × IsMerged o r'
  unfolding rebuild
  rebuild-ok act [] r k w f u a m = (r, refl, w, (λ v. or_nothing _), (λ at v. or_nothing _), m)
  rebuild-ok act ((s, es) ∷ cs) r k w f u a m =
      let (g, p, gv, n, q) = class_elem-ok es k.0 k.1 in
      let fresh : Fresh o laws g r = λ v h. f v (or_intro _ _ (sym (q v) ∙ h)) in
      let (r', p', w', b, c, merged) =
        rebuild-ok act cs (put o g s r) k.5 (put-AreWell o laws act g s r gv n fresh k.2 k.3 w)
          (λ v h.
            keys_hold-put o laws g s r v gv n fresh
            ∙ or_false _ _ (f v (or_intro_right _ _ h))
                (q v ∙ excluded (any_holds es v) (classes_hold cs v) (k.4 v) h))
          u.1 (AreApart-put o g s r cs u.0 a.1)
          (IsMerged-put o g s r (has_key-Fresh g r gv n fresh) a.0 m) in
      (
        r',
        rw (p, ◌>>=◌) p',
        w',
        (λ v.
            b v
            ∙ ap (λ (x : Bool). x || classes_hold cs v) (keys_hold-put o laws g s r v gv n fresh)
            ∙ rw (q v)
                (sym (or_assoc (keys_hold o laws r v) (any_holds es v) (classes_hold cs v)))),
        (λ at v.
            c at v
            ∙ ap (λ (x : Bool). x || class_sat at v cs)
                (sat_layers-put o laws g s r at v gv n fresh)
            ∙ rw (q v) (
                sym (
                  or_assoc (sat_layers o laws at v r) (any_holds es v && sat o laws at s)
                    (class_sat at v cs)))),
        merged,
      )

  -- _apply_layer_elements_union on a dict with valid, disjoint keys returns, and the dict that it
  -- returns is such a dict, has no two pairs with equal sub-cubes, and has the same keys' values and
  -- the same points.
  pub apply_union-ok :
      (act : List String) (l : Dict o)
      → AreWell o laws act l
      → (r : Dict o) × (apply_union o l ≡ ok r)
        × AreWell o laws act r
        × ((v : Value) → keys_hold o laws r v ≡ keys_hold o laws l v)
        × ((at : Point o laws) (v : Value) → sat_layers o laws at v r ≡ sat_layers o laws at v l)
        × IsMerged o r
  unfolding apply_union
  apply_union-ok act l w =
      let (k, a, b) = classes_of_lem act l [] w tt (λ v p. refl) in
      let apart : AreApart o nil (classes_of o l []) = AreApart-nil o (classes_of o l []) in
      let (r, p, w', c, d, merged) =
        rebuild-ok act (classes_of o l []) nil k tt (λ v p. refl) (AreUnlike-classes_of o l [] tt)
          apart tt in
      (r, p, w', (λ v. c v ∙ a v), (λ at v. d at v ∙ b at v), merged)
