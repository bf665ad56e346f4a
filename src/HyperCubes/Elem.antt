-- ===== src/HyperCubes/Elem.antt =====
-- The values of one dimension, as CanonicalHyperCubeSet uses them: a CanonicalIntervalSet or a
-- MinDFA. The operations are a record, and their laws a second one.
use network_config_analyzer.Prelude.{◌≡◌, ◌↔◌, Bool, true, false, not, ◌&&◌, ◌||◌}
use network_config_analyzer.Prelude.Outcome.{Outcome, ok}

pub record LayerElem : Type 1 where
  pub Elem : Type 0
  pub Value : Type 0
  -- `bool(e)`, `e == f`, `v in e`, `e & f`, `e - f`, `e | f`, `e.contained_in(f)`
  pub nonempty : Elem → Bool
  pub elem_eq : Elem → Elem → Bool
  pub contains : Elem → Value → Outcome Bool
  pub meet : Elem → Elem → Elem
  pub minus : Elem → Elem → Elem
  pub join : Elem → Elem → Outcome Elem
  pub contained_in : Elem → Elem → Outcome Bool

pub record ElemLaws (o : LayerElem) : Type 1 where
  -- The class invariant, and the values that an element holds.
  pub IsValid : o.Elem → Type 0
  pub holds : o.Elem → o.Value → Bool
  pub eq_iff : (e f : o.Elem) → (o.elem_eq e f ≡ true) ↔ (e ≡ f)
  pub contains-holds : (e : o.Elem) (v : o.Value) → IsValid e → o.contains e v ≡ ok (holds e v)
  pub nonempty-value :
      (e : o.Elem) → IsValid e → o.nonempty e ≡ true → (v : o.Value) × (holds e v ≡ true)
  pub empty-holds : (e : o.Elem) (v : o.Value) → o.nonempty e ≡ false → holds e v ≡ false
  pub meet-IsValid : (e f : o.Elem) → IsValid e → IsValid f → IsValid (o.meet e f)
  pub holds-meet : (e f : o.Elem) (v : o.Value) → holds (o.meet e f) v ≡ (holds e v && holds f v)
  pub minus-IsValid : (e f : o.Elem) → IsValid e → IsValid f → IsValid (o.minus e f)
  pub holds-minus :
      (e f : o.Elem) (v : o.Value) → holds (o.minus e f) v ≡ (holds e v && not (holds f v))
  pub join-ok :
      (e f : o.Elem)
      → IsValid e
      → IsValid f
      → (g : o.Elem) × (o.join e f ≡ ok g)
        × IsValid g
        × ((v : o.Value) → holds g v ≡ (holds e v || holds f v))
  pub ext : (e f : o.Elem) → IsValid e → IsValid f → ((v : o.Value) → holds e v ≡ holds f v) → e ≡ f
  pub contained_in-ok :
      (e f : o.Elem)
      → IsValid e
      → IsValid f
      → (b : Bool) × (o.contained_in e f ≡ ok b)
        × ((b ≡ true) ↔ ((v : o.Value) → holds e v ≡ true → holds f v ≡ true))
