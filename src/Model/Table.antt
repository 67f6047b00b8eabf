-- ===== src/Model/Table.antt =====
-- A table is the list of its rows, and a query is a walk over it.
pub mod Laws
pub mod Find
use splitbind.Base.{
  ℕ, suc, Bool, false, Option, none, some, List, [], ◌∷◌, ltb, ◌==◌, ◌&&◌, ◌||◌, if◌then◌else◌,
}

module _ {ℓ} {A : Type ℓ} where
  -- `.filter(test).first()` of rows that are told apart by the test
  unfoldable pub find : (A → Bool) → List A → Option A
  find test [] = none
  find test (x ∷ xs) = if test x then some x else find test xs

  -- `.filter(test).exists()`
  unfoldable pub exists : (A → Bool) → List A → Bool
  exists test [] = false
  exists test (x ∷ xs) = test x || exists test xs

  -- `.filter(test).count()`
  unfoldable pub count_rows : (A → Bool) → List A → ℕ
  count_rows test [] = 0
  count_rows test (x ∷ xs) = let n = count_rows test xs in if test x then suc n else n

  -- `save` of the row that the test finds, with the changes that `f` makes
  unfoldable pub update_row : (A → Bool) → (A → A) → List A → List A
  update_row test f [] = []
  update_row test f (x ∷ xs) = (if test x then f x else x) ∷ update_row test f xs

  -- the lexicographic order of two keys, as `order_by(first, second)` has it
  abbrev pub before : (A → ℕ) → (A → ℕ) → A → A → Bool
  before first second x y =
      ltb (first x) (first y) || (first x == first y && ltb (second x) (second y))

  pick : (A → ℕ) → (A → ℕ) → A → Option A → A
  pick first second x none = x
  pick first second x (some y) = if before first second y x then y else x

  -- `.filter(test).order_by(first, second).first()`
  unfoldable pub first_by : (A → ℕ) → (A → ℕ) → (A → Bool) → List A → Option A
  unfolding pick
  first_by first second test [] = none
  first_by first second test (x ∷ xs) =
      let rest = first_by first second test xs in
      if test x then some (pick first second x rest) else rest
