-- ===== src/HyperCubes/Reduce/Free.antt =====
-- Objects of which the dimensions that go have their whole domain as only key, and the loops of
-- _remove_some_active_dimensions over the layers.
use Prim.Native.String.{String}
use text.Mathlib.Text.{◌==◌ as str_eq}
use network_config_analyzer.Prelude.{
  ◌≡◌, refl, sym, ap, ap₂, ◌∙◌, Bool, true, false, ◌&&◌, ◌||◌, List, [], ◌∷◌, arith, if◌then◌else◌,
}
use network_config_analyzer.Prelude.Outcome.{Outcome, ok, ◌>>=◌}
use network_config_analyzer.HyperCubes.Elem.{LayerElem, ElemLaws}
use network_config_analyzer.HyperCubes.Layers.{Cubes, Dict, nil, layer, cubes, empty_interval}
use network_config_analyzer.HyperCubes.Points.{
  Point, sat, sat_layers, keys_hold, IsWell, AreWell, has_cubes,
}
use network_config_analyzer.HyperCubes.Dimensions.{map_layers, set_layers}
use network_config_analyzer.HyperCubes.Dimensions.Build.{InDomains}
use network_config_analyzer.HyperCubes.Reduce.Values.{KeysAt, LayersAt}

pub in_domain : (a b : Bool) → a ≡ true → (a && b || false) ≡ b
in_domain a b h = ground arith

module _ (o : LayerElem) (laws : ElemLaws o) (domain : String → o.Elem) where
  open o use {Elem, Value, nonempty}
  open laws use {IsValid, holds}

  -- The key is the whole domain, if the dimension is the given one.
  abbrev pub IsFull : String → String → Elem → Type 0
  IsFull x d e = str_eq x d ≡ true → e ≡ domain d

  abbrev pub AllKeys : Elem → Dict o → Type 0
  AllKeys e nil = Unit {0}
  AllKeys e (layer f s l) = (f ≡ e) × AllKeys e l

  -- Each dimension of the first list that is not in the second one, a part of it, has its whole
  -- domain as only key.
  abbrev mutual
    pub IsFree : List String → List String → Cubes o → Type 0
    IsFree act new empty_interval = Unit {0}
    IsFree [] new (cubes ds l) = Unit {0}
    IsFree (d ∷ act) [] (cubes ds l) = AllKeys (domain d) l × AreFree act [] l
    IsFree (d ∷ act) (x ∷ new) (cubes ds l) =
        if str_eq d x then AreFree act new l else (AllKeys (domain d) l × AreFree act (x ∷ new) l)

    pub AreFree : List String → List String → Dict o → Type 0
    AreFree act new nil = Unit {0}
    AreFree act new (layer e s l) = IsFree act new s × AreFree act new l

  free_layers :
      (x : String) (act : List String) (d : String) (l : Dict o)
      → ((s : Cubes o) → IsWell o laws act s → IsFree act [] s → KeysAt o (IsFull x) s)
      → AreWell o laws act l
      → AllKeys (domain d) l
      → AreFree act [] l
      → LayersAt o (IsFull x) d l
  free_layers x act d nil f w k g = tt
  free_layers x act d (layer e s l) f w k g =
      ((λ same. k.0), f s w.2 g.0, free_layers x act d l f w.5 k.1 g.1)

  -- Where all dimensions go, all keys are whole domains.
  free_keys :
      (x : String) (act : List String) (s : Cubes o)
      → IsWell o laws act s
      → IsFree act [] s
      → KeysAt o (IsFull x) s
  free_keys x act empty_interval w f = tt
  free_keys x [] (cubes ds l) w f = elim w [ ]
  free_keys x (d ∷ act) (cubes ds l) w f =
      rw w.0 (free_layers x act d l (free_keys x act) w.1 f.0 f.1)

  pub full_sat :
      (act : List String) (s : Cubes o) (at : Point o laws)
      → IsWell o laws act s
      → has_cubes s ≡ true
      → IsFree act [] s
      → InDomains o laws domain at act
      → sat o laws at s ≡ true
  full_sat [] empty_interval at w h f i = refl
  full_sat [] (cubes ds l) at w h f i = elim w [ ]
  full_sat (d ∷ act) empty_interval at w h f i = elim w [ ]
  full_sat (d ∷ act) (cubes ds nil) at w h f i = cc
  full_sat (d ∷ act) (cubes ds (layer e s l)) at w h f i =
      let below = full_sat act s at w.1.2 w.1.3 f.1.0 i.1 in rw (w.0, f.0.0, i.0, below) refl

  -- What a removal of active dimensions promises.
  abbrev pub Shrinks : List String → List String → Cubes o → Cubes o → Type 0
  Shrinks act new s r =
      IsWell o laws new r
      × (has_cubes r ≡ true)
      × ((at : Point o laws) → InDomains o laws domain at act → sat o laws at r ≡ sat o laws at s)
      × ((x : String) → KeysAt o (IsFull x) r → KeysAt o (IsFull x) s)

  pub each-ok :
      (act new : List String) (remove : Cubes o → Outcome (Cubes o)) (l : Dict o)
      → ((s : Cubes o)
          → IsWell o laws act s
          → has_cubes s ≡ true
          → IsFree act new s
          → (r : Cubes o) × (remove s ≡ ok r) × Shrinks act new s r)
      → AreWell o laws act l
      → AreFree act new l
      → (l' : Dict o) × (map_layers o remove l ≡ ok l')
        × AreWell o laws new l'
        × ((v : Value) → keys_hold o laws l' v ≡ keys_hold o laws l v)
        × ((ds es : List String) → has_cubes (cubes es l') ≡ has_cubes (cubes ds l))
        × ((at : Point o laws) (v : Value)
            → InDomains o laws domain at act
            → sat_layers o laws at v l' ≡ sat_layers o laws at v l)
        × ((x d : String) → LayersAt o (IsFull x) d l' → LayersAt o (IsFull x) d l)
  unfolding map_layers
  each-ok act new remove nil f w g =
      (nil, refl, tt, (λ v. refl), (λ ds es. refl), (λ at v i. refl), λ x d k. k)
  each-ok act new remove (layer e s l) f w g =
      let (r, p, shrunk) = f s w.2 w.3 g.0 in
      let (wr, hr, same, keep) = shrunk in
      let (l', q, wl, k, h, same', keep') = each-ok act new remove l f w.5 g.1 in
      (
        layer e r l',
        rw (p, ◌>>=◌) (rw (q, ◌>>=◌)),
        (w.0, w.1, wr, hr, (λ v x. k v ∙ w.4 v x), wl),
        (λ v. ap (λ (b : Bool). holds e v || b) (k v)),
        (λ ds es. refl),
        (λ at v i. ap₂ (λ (x y : Bool). holds e v && x || y) (same at i) (same' at v i)),
        λ x d b. (b.0, keep x b.1, keep' x d b.2),
      )

  pub last-ok :
      (act : List String) (l : Dict o)
      → AreWell o laws act l
      → AreFree act [] l
      → AreWell o laws [] (set_layers o empty_interval l)
        × ((v : Value) → keys_hold o laws (set_layers o empty_interval l) v ≡ keys_hold o laws l v)
        × ((ds es : List String)
            → has_cubes (cubes es (set_layers o empty_interval l)) ≡ has_cubes (cubes ds l))
        × ((at : Point o laws) (v : Value)
            → InDomains o laws domain at act
            → sat_layers o laws at v (set_layers o empty_interval l) ≡ sat_layers o laws at v l)
        × ((x d : String)
            → LayersAt o (IsFull x) d (set_layers o empty_interval l)
            → LayersAt o (IsFull x) d l)
  unfolding set_layers
  last-ok act nil w f = (tt, (λ v. refl), (λ ds es. refl), (λ at v i. refl), λ x d k. k)
  last-ok act (layer e s l) w f =
      let (a, k, c, same, keep) = last-ok act l w.5 f.1 in
      (
        (w.0, w.1, tt, refl, (λ v x. k v ∙ w.4 v x), a),
        (λ v. ap (λ (b : Bool). holds e v || b) (k v)),
        (λ ds es. refl),
        (λ at v i.
            ap₂ (λ (x y : Bool). holds e v && x || y) (sym (full_sat act s at w.2 w.3 f.0 i))
              (same at v i)),
        λ x d b. (b.0, free_keys x act s w.2 f.0, keep x d b.2),
      )

  -- Keys that share no value and are all the domain: there is one.
  pub one_key :
      (act : List String) (d : String) (e : Elem) (s : Cubes o) (l : Dict o)
      → AreWell o laws act (layer e s l)
      → AllKeys (domain d) (layer e s l)
      → l ≡ nil
  one_key act d e s nil w k = refl
  one_key act d e s (layer f t l) w k =
      let (v, h) = laws.nonempty-value e w.0 w.1 in
      let g : holds f v ≡ true = rw (k.1.0, sym k.0) h in absurd (ground (arith, w.4 v h, g))
