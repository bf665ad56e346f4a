-- ===== src/HyperCubes/Combine.antt =====
-- _and_aux, or_aux and sub_aux: the operators on two objects with the same active dimensions. Each
-- inner loop is a function of its own that is given the recursive call on the sub-cube of `self`.
-- Objects are values here, so copy() of a layer or of a sub-cube is the thing itself.
mod Bools
pub mod And
pub mod Rest
pub mod Or
pub mod Minus
use Prim.Native.String.{String}
use network_config_analyzer.Prelude.{ℕ, Bool, List, [], ◌∷◌, length, if◌then◌else◌, ◌==◌}
use network_config_analyzer.Prelude.Outcome.{Outcome, ok, raised, Exn, ◌>>=◌, ◌>>◌, assert}
use network_config_analyzer.HyperCubes.Elem.{LayerElem}
use network_config_analyzer.HyperCubes.Layers.{
  Cubes, Dict, nil, layer, cubes, empty_interval, put, is_true, dims_eq,
}
use network_config_analyzer.HyperCubes.Union.{apply_union}

-- `self._is_last_dimension()`
unfoldable pub is_last : List String → Bool
is_last ds = length ds == 1

module _ (o : LayerElem) where
  open o use {Elem, nonempty, meet, minus}

  -- One round of the inner loop of _and_aux.
  unfoldable pub and_step :
      Bool → Elem → (Cubes o → Outcome (Cubes o)) → Elem → Cubes o → Dict o → Outcome (Dict o)
  unfolding put is_true
  and_step last e sub f t r =
      let common = meet e f in
      if nonempty common
      then (if last
          then ok (put o common empty_interval r)
          else sub t >>= λ n. ok (if is_true o n then put o common n r else r))
      else ok r

  unfoldable pub and_inner :
      Bool → Elem → (Cubes o → Outcome (Cubes o)) → Dict o → Dict o → Outcome (Dict o)
  unfolding and_step
  and_inner last e sub nil r = ok r
  and_inner last e sub (layer f t m) r =
      and_step last e sub f t r >>= λ r'. and_inner last e sub m r'

  unfoldable mutual
    unfolding and_inner is_last dims_eq apply_union

    pub and_aux : Cubes o → Cubes o → Outcome (Cubes o)
    and_aux empty_interval other = raised Exn.exception
    and_aux (cubes ds l) empty_interval = raised Exn.exception
    and_aux (cubes ds l) (cubes es m) =
        assert (dims_eq ds es)
        >> (and_layers (is_last ds) l m nil >>= λ r. apply_union o r >>= λ r'. ok (cubes ds r'))

    -- The outer loop.
    pub and_layers : Bool → Dict o → Dict o → Dict o → Outcome (Dict o)
    and_layers last nil m r = ok r
    and_layers last (layer e s l) m r =
        and_inner last e (and_aux s) m r >>= λ r'. and_layers last l m r'

  -- What the inner loop of or_aux changes beside the value in `remaining_other_layers`.
  pub record OrState : Type 0 where
    pub remaining : Elem
    pub layers : Dict o

  -- One round: `g` is what remains of the other's layer `f`.
  unfoldable pub or_step :
      Bool
      → Elem
      → (Cubes o → Outcome (Cubes o))
      → Elem
      → Cubes o
      → Elem
      → OrState
      → Outcome (Elem × OrState)
  unfolding put
  or_step last e sub f t g st =
      let common = meet e f in
      if nonempty common
      then (let g' = minus g common in
          let rest = minus st.remaining common in
          if last
          then ok (g', record { remaining = rest; layers = put o common empty_interval st.layers })
          else sub t >>= λ n.
              ok (g', record { remaining = rest; layers = put o common n st.layers }))
      else ok (g, st)

  -- The dict `remaining_other_layers` has the keys of `other.layers` in their order: the list holds
  -- its values.
  unfoldable pub or_inner :
      Bool
      → Elem
      → (Cubes o → Outcome (Cubes o))
      → Dict o
      → List Elem
      → OrState
      → Outcome (List Elem × OrState)
  unfolding or_step
  or_inner last e sub nil gs st = ok (gs, st)
  or_inner last e sub (layer f t m) [] st = raised Exn.exception
  or_inner last e sub (layer f t m) (g ∷ gs) st =
      or_step last e sub f t g st >>= λ p. or_inner last e sub m gs p.1 >>= λ q. ok (p.0 ∷ q.0, q.1)

  unfoldable pub keep_rest : Elem → Cubes o → Dict o → Dict o
  unfolding put
  keep_rest rest s r = if nonempty rest then put o rest s r else r

  -- The last loop of or_aux, over `remaining_other_layers`.
  unfoldable pub or_rest : Dict o → List Elem → Dict o → Outcome (Dict o)
  unfolding keep_rest
  or_rest nil gs r = ok r
  or_rest (layer f t m) [] r = raised Exn.exception
  or_rest (layer f t m) (g ∷ gs) r = or_rest m gs (keep_rest g t r)

  unfoldable pub keys : Dict o → List Elem
  keys nil = []
  keys (layer e s l) = e ∷ keys l

  unfoldable mutual
    unfolding or_inner or_rest keys is_last dims_eq apply_union

    pub or_aux : Cubes o → Cubes o → Outcome (Cubes o)
    or_aux empty_interval other = raised Exn.exception
    or_aux (cubes ds l) empty_interval = raised Exn.exception
    or_aux (cubes ds l) (cubes es m) =
        assert (dims_eq ds es)
        >> (or_layers (is_last ds) l m (keys m) nil >>= λ p.
            or_rest m p.0 p.1 >>= λ r. apply_union o r >>= λ r'. ok (cubes ds r'))

    pub or_layers : Bool → Dict o → Dict o → List Elem → Dict o → Outcome (List Elem × Dict o)
    or_layers last nil m gs r = ok (gs, r)
    or_layers last (layer e s l) m gs r =
        or_inner last e (or_aux s) m gs (record { remaining = e; layers = r }) >>= λ p.
        or_layers last l m p.0 (keep_rest p.1.remaining s p.1.layers)

  -- One round of the inner loop of sub_aux.
  unfoldable pub sub_step :
      Bool → Elem → (Cubes o → Outcome (Cubes o)) → Elem → Cubes o → OrState → Outcome OrState
  unfolding put is_true
  sub_step last e sub f t st =
      let common = meet e f in
      if nonempty common
      then (let rest = minus st.remaining common in
          if last
          then ok (record { remaining = rest; layers = st.layers })
          else sub t >>= λ n. ok (record {
            remaining = rest;
            layers = if is_true o n then put o common n st.layers else st.layers;
          }))
      else ok st

  unfoldable pub sub_inner :
      Bool → Elem → (Cubes o → Outcome (Cubes o)) → Dict o → OrState → Outcome OrState
  unfolding sub_step
  sub_inner last e sub nil st = ok st
  sub_inner last e sub (layer f t m) st =
      sub_step last e sub f t st >>= λ st'. sub_inner last e sub m st'

  unfoldable mutual
    unfolding sub_inner keep_rest is_last dims_eq apply_union

    pub sub_aux : Cubes o → Cubes o → Outcome (Cubes o)
    sub_aux empty_interval other = raised Exn.exception
    sub_aux (cubes ds l) empty_interval = raised Exn.exception
    sub_aux (cubes ds l) (cubes es m) =
        assert (dims_eq ds es)
        >> (sub_layers (is_last ds) l m nil >>= λ r. apply_union o r >>= λ r'. ok (cubes ds r'))

    pub sub_layers : Bool → Dict o → Dict o → Dict o → Outcome (Dict o)
    sub_layers last nil m r = ok r
    sub_layers last (layer e s l) m r =
        sub_inner last e (sub_aux s) m (record { remaining = e; layers = r }) >>= λ st.
        sub_layers last l m (keep_rest st.remaining s st.layers)
