-- ===== src/Model/Table/Find.antt =====
-- What a query finds before and after a save.
use mathlib.Core.Path.{subst}
use splitbind.Base.{
  ℕ, ◌≡◌, refl, sym, ◌∙◌, ◌⊎◌, inl, inr, Bool, true, false, ◌&&◌, Option, some, List, [], ◌∷◌,
  Bool-cases, some-inv, if◌then◌else◌, &&-inv, ◌==◌,
}
use splitbind.Access.{filter_rows}
use splitbind.Model.Table.{find, update_row}
use splitbind.Model.Table.Laws.{Among}

if-some :
    {A : Type 0} (b : Bool) (x a : A) (rest : Option A)
    → (if b then some x else rest) ≡ some a
    → ((b ≡ true) × (x ≡ a)) ⊎ ((b ≡ false) × (rest ≡ some a))
if-some true x a rest e = inl (refl, some-inv e)
if-some false x a rest e = inr (refl, e)

module _ {A : Type 0} (test : A → Bool) where
  -- What is found satisfies the test and stands in the table.
  pub find-Among : (xs : List A) (a : A) → find test xs ≡ some a → (test a ≡ true) × Among a xs
  unfolding find
  find-Among [] a e = cc
  find-Among (x ∷ xs) a e = elim (if-some (test x) x a (find test xs) e) [
    | inl (hit, same) ↦ (subst (λ y. test y ≡ true) same hit, inl (sym same))
    | inr (miss, rest) ↦ (let (hit, m) = find-Among xs a rest in (hit, inr m))
  ]

  -- A row of the table after a save is the saved one or was there.
  pub update_row-Among :
      (row : A) (xs : List A) (a : A)
      → Among a (update_row test (λ r. row) xs)
      → (a ≡ row) ⊎ Among a xs
  unfolding update_row
  update_row-Among row [] a m = absurd m
  update_row-Among row (x ∷ xs) a (inl e) = elim (Bool-cases (test x)) [
    | inl hit ↦ inl (e ∙ rw hit refl)
    | inr miss ↦ inr (inl (e ∙ rw miss refl))
  ]
  update_row-Among row (x ∷ xs) a (inr m) = elim (update_row-Among row xs a m) [
    | inl e ↦ inl e
    | inr n ↦ inr (inr n)
  ]

saved_row :
    {A : Type 0} (key : A → ℕ) (k : ℕ) (row x : A)
    → (key (if key x == k then row else x) == k) ≡ true
    → (if key x == k then row else x) ≡ row
saved_row key k row x e = elim (Bool-cases (key x == k)) [
  | inl hit ↦ rw hit refl
  | inr miss ↦ absurd (cc (e, miss))
]

-- The row that a query by a key finds is the saved one.
pub find-saved :
    {A : Type 0} (key : A → ℕ) (k : ℕ) (row : A) (xs : List A) (a : A)
    → find (λ r. key r == k) (update_row (λ r. key r == k) (λ r. row) xs) ≡ some a
    → a ≡ row
unfolding find update_row
find-saved key k row [] a e = cc
find-saved {A} key k row (x ∷ xs) a e =
    let y : A = if key x == k then row else x in
    elim (if-some (key y == k) y a
      (find (λ r. key r == k) (update_row (λ r. key r == k) (λ r. row) xs)) e) [
        | inl (hit, same) ↦ sym same ∙ saved_row key k row x hit
        | inr (miss, rest) ↦ find-saved key k row xs a rest
      ]

-- Rows that a query finds by a key whose row was just saved are the saved row.
pub find-update_row :
    {A : Type 0} (key : A → ℕ) (k : ℕ) (test : A → Bool) (row : A) (xs : List A) (a : A)
    → find (λ r. key r == k && test r) (update_row (λ r. key r == k) (λ r. row) xs) ≡ some a
    → a ≡ row
unfolding find update_row
find-update_row {A} key k test row [] a e = cc
find-update_row {A} key k test row (x ∷ xs) a e =
    let y : A = if key x == k then row else x in
    elim (if-some (key y == k && test y) y a
      (find (λ r. key r == k && test r) (update_row (λ r. key r == k) (λ r. row) xs)) e) [
        | inl (found, same) ↦ sym same ∙ saved_row key k row x (&&-inv _ _ found).0
        | inr (miss, rest) ↦ find-update_row key k test row xs a rest
      ]

changed_view :
    {A : Type 0} (view : A → Bool) (f : A → A)
    → ((r : A) → view (f r) ≡ view r)
    → (b : Bool) (x : A) → view (if b then f x else x) ≡ view x
changed_view view f same true x = same x
changed_view view f same false x = refl

module _ {A : Type 0} (test : A → Bool) where
  hidden_row :
      (b : Bool) (x : A) (rows : List A)
      → b ≡ false
      → find test (if b then x ∷ rows else rows) ≡ find test rows
  hidden_row true x rows e = cc
  hidden_row false x rows e = refl

  shown_row :
      (b : Bool) (x : A) (rows : List A)
      → b ≡ true
      → find test (if b then x ∷ rows else rows) ≡ (if test x then some x else find test rows)
  unfolding find
  shown_row true x rows e = refl
  shown_row false x rows e = cc

-- A query that a save does not disturb finds the changed row.
pub find-filter-update :
    {A : Type 0} (test seen saved : A → Bool) (f : A → A)
    → ((r : A) → test (f r) ≡ test r)
    → ((r : A) → seen (f r) ≡ seen r)
    → ((r : A) → test r ≡ true → saved r ≡ true)
    → (xs : List A) (a : A) → find test (filter_rows seen xs) ≡ some a
    → find test (filter_rows seen (update_row saved f xs)) ≡ some (f a)
unfolding find update_row filter_rows
find-filter-update test seen saved f t s c [] a e = cc
find-filter-update {A} test seen saved f t s c (x ∷ xs) a e =
    let y : A = if saved x then f x else x in
    let rest = find-filter-update test seen saved f t s c xs in
    let rows = filter_rows seen (update_row saved f xs) in
    elim (Bool-cases (seen x)) [
      | inr hidden ↦
          hidden_row test (seen y) y rows (changed_view seen f s (saved x) x ∙ hidden)
          ∙ rest a (sym (hidden_row test (seen x) x (filter_rows seen xs) hidden) ∙ e)
      | inl shown ↦
          shown_row test (seen y) y rows (changed_view seen f s (saved x) x ∙ shown)
          ∙ (elim (if-some (test x) x a (find test (filter_rows seen xs))
              (sym (shown_row test (seen x) x (filter_rows seen xs) shown) ∙ e)) [
                | inl (hit, same) ↦ rw (c x hit, t x, hit, same) refl
                | inr (miss, later) ↦ rw (changed_view test f t (saved x) x ∙ miss) (rest a later)
              ])
    ]
