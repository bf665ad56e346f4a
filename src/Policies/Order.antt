-- ===== src/Policies/Order.antt =====
-- The order of the policies in a layer: `insort` of Python's library on lists, with `<` of policies.
pub mod Insort
pub mod Sorted
use network_config_analyzer.Prelude.{
  ℕ, zero, suc, ◌+◌, ◌/◌, Bool, true, false, List, [], ◌∷◌, if◌then◌else◌, ltb, length, get_or,
  insert,
}

module _ {A : Type 0} (lt : A → A → Bool) where
  -- The loop of bisect_right on xs[lo:hi].
  unfoldable pub bisect_right : ℕ → A → List A → ℕ → ℕ → ℕ
  bisect_right zero x xs lo hi = lo
  bisect_right (suc fuel) x xs lo hi =
      let mid = (lo + hi) / 2 in
      let before = lt x (get_or xs mid x) in
      let rest =
        bisect_right fuel x xs (if before then lo else mid + 1) (if before then mid else hi) in
      if ltb lo hi then rest else lo

  unfoldable pub insort : A → List A → List A
  unfolding bisect_right
  insort x xs = insert xs (bisect_right (suc (length xs)) x xs 0 (length xs)) x
