-- ===== src/Sort.antt =====
-- `std::sort` and `std::binary_search` of <algorithm>, for any comparison.
pub mod Sorted
pub mod Search
use sqlitewrite.Base.{
  ℕ, zero, suc, ◌+◌, ◌-◌, ◌/◌, Bool, true, false, not, Option, none, some, List, [], ◌∷◌, eqb,
  if◌then◌else◌,
}
use sqlitewrite.Base.Lists.{length, get_elem?}

module _ {A : Type 0} (less : A → A → Bool) where
  unfoldable pub insert_by : A → List A → List A
  insert_by x [] = x ∷ []
  insert_by x (y ∷ ys) = if less y x then y ∷ insert_by x ys else x ∷ y ∷ ys

  -- The sorted arrangement. Of elements that compare equal `std::sort` may give any order; the
  -- stable one is taken.
  unfoldable pub sort : List A → List A
  unfolding insert_by
  sort [] = []
  sort (x ∷ xs) = insert_by x (sort xs)

  -- `std::lower_bound` on the `len` elements from `first`: the interval is halved until it is
  -- empty. Each round shortens it, so `len` rounds are enough.
  lower_bound : ℕ → List A → A → ℕ → ℕ → ℕ
  lower_bound zero xs v first len = first
  lower_bound (suc fuel) xs v first len =
      let half = len / 2 in
      let right = lower_bound fuel xs v (first + half + 1) (len - half - 1) in
      let left = lower_bound fuel xs v first half in
      if eqb len 0 then first else elim (get_elem? xs (first + half)) [
        | none ↦ first
        | some x ↦ if less x v then right else left
      ]

  -- `std::binary_search(xs.begin(), xs.end(), v, less)`
  unfoldable pub binary_search : List A → A → Bool
  unfolding lower_bound
  binary_search xs v = elim (get_elem? xs (lower_bound (length xs) xs v 0 (length xs))) [
    | none ↦ false
    | some x ↦ not (less v x)
  ]
