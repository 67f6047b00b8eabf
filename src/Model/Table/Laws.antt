-- ===== src/Model/Table/Laws.antt =====
-- What the queries find, and what an update keeps.
use splitbind.Base.{
  ℕ, ◌≡◌, refl, sym, ap, ◌∙◌, ◌≢◌, ◌⊎◌, inl, inr, Bool, true, false, Option, none, some, List, [],
  ◌∷◌, arith, ◌==◌, ==_iff, All, Bool-cases, some-inv, if◌then◌else◌,
}
use mathlib.Core.Path.{subst}
use splitbind.Model.Table.{update_row, before, pick, first_by}

-- The row stands in the table.
abbrev pub Among : {A : Type 0} → A → List A → Type 0
Among a [] = ⊥
Among a (x ∷ xs) = (a ≡ x) ⊎ Among a xs

-- No two rows have the same key.
abbrev pub Unique : {A : Type 0} → (A → ℕ) → List A → Type 0
Unique key [] = Unit
Unique key (x ∷ xs) = All (λ y. key y ≢ key x) xs × Unique key xs

pub All-Among {κ} :
    {A : Type 0} (P : A → Type κ) (a : A) (xs : List A) → All P xs → Among a xs → P a
All-Among P a [] h m = absurd m
All-Among P a (x ∷ xs) h (inl e) = rw e h.0
All-Among P a (x ∷ xs) h (inr m) = All-Among P a xs h.1 m

pub All-map {κ μ} :
    {A : Type 0} (P : A → Type κ) (Q : A → Type μ)
    → ((a : A) → P a → Q a)
    → (xs : List A) → All P xs
    → All Q xs
All-map P Q f [] h = tt
All-map P Q f (x ∷ xs) h = (f x h.0, All-map P Q f xs h.1)

module _ {A : Type 0} (first second : A → ℕ) where
  pick-closed :
      (P : A → Type 0) (x : A) (o : Option A)
      → P x
      → ((y : A) → o ≡ some y → P y)
      → P (pick first second x o)
  unfolding pick
  pick-closed P x none p h = p
  pick-closed P x (some y) p h = elim (Bool-cases (before first second y x)) [
    | inl b ↦ rw b (h y refl)
    | inr b ↦ rw b p
  ]

  -- The comparison of two keys is transitive in its negation.
  not_before_trans :
      (a b c : A)
      → before first second a b ≡ false
      → before first second b c ≡ false
      → before first second a c ≡ false
  not_before_trans a b c p q = ground arith

  not_before_asym : (a b : A) → before first second a b ≡ true → before first second b a ≡ false
  not_before_asym a b p = ground arith

  pick-least :
      (x : A) (o : Option A)
      → (before first second x (pick first second x o) ≡ false)
        × ((y : A) → o ≡ some y → before first second y (pick first second x o) ≡ false)
  unfolding pick
  pick-least x none = (ground arith, λ y e. cc)
  pick-least x (some z) = elim (Bool-cases (before first second z x)) [
    | inl b ↦ rw b (
      not_before_asym z x b,
      λ y e. subst (λ w. before first second w z ≡ false) (some-inv e) (ground arith),
    )
    | inr b ↦
        rw b (ground arith, λ y e. subst (λ w. before first second w x ≡ false) (some-inv e) b)
  ]

module _ {A : Type 0} (first second : A → ℕ) (test : A → Bool) where
  pub first_by-Among :
      (xs : List A) (j : A) → first_by first second test xs ≡ some j → Among j xs × (test j ≡ true)
  unfolding first_by
  first_by-Among [] j e = cc
  first_by-Among (x ∷ xs) j e = elim (Bool-cases (test x)) [
    | inl t ↦
        subst (λ k. Among k (x ∷ xs) × (test k ≡ true)) (some-inv (rw t at e))
          (pick-closed first second (λ y. Among y (x ∷ xs) × (test y ≡ true)) x
            (first_by first second test xs) (inl refl, t)
            (λ y h. let (m, u) = first_by-Among xs y h in (inr m, u)))
    | inr t ↦ let (m, u) = first_by-Among xs j (rw t at e) in (inr m, u)
  ]

  pub first_by-none :
      (xs : List A) → first_by first second test xs ≡ none → All (λ x. test x ≡ false) xs
  unfolding first_by
  first_by-none [] e = tt
  first_by-none (x ∷ xs) e = elim (Bool-cases (test x)) [
    | inl t ↦ absurd (cc (rw t at e))
    | inr t ↦ (t, first_by-none xs (rw t at e))
  ]

  least_of_pick :
      (x : A) (xs : List A) (o : Option A)
      → first_by first second test xs ≡ o
      → ((j : A)
          → first_by first second test xs ≡ some j
          → All (λ y. test y ≡ true → before first second y j ≡ false) xs)
      → All (λ y. test y ≡ true → before first second y (pick first second x o) ≡ false) (x ∷ xs)
  least_of_pick x xs none e least = (
    λ h. (pick-least first second x none).0,
    All-map (λ y. test y ≡ false)
        (λ y. test y ≡ true → before first second y (pick first second x none) ≡ false)
        (λ y f t. cc) xs (first_by-none xs e),
  )
  least_of_pick x xs (some z) e least = (
    λ h. (pick-least first second x (some z)).0,
    All-map (λ y. test y ≡ true → before first second y z ≡ false)
        (λ y. test y ≡ true → before first second y (pick first second x (some z)) ≡ false)
        (λ y f t.
          not_before_trans first second y z _ (f t) ((pick-least first second x (some z)).1 z refl))
        xs (least z e),
  )

  -- No row that passes the test comes before the first one.
  pub first_by-least :
      (xs : List A) (j : A)
      → first_by first second test xs ≡ some j
      → All (λ x. test x ≡ true → before first second x j ≡ false) xs
  unfolding first_by
  first_by-least [] j e = tt
  first_by-least (x ∷ xs) j e = elim (Bool-cases (test x)) [
    | inl t ↦
        subst (λ k. All (λ y. test y ≡ true → before first second y k ≡ false) (x ∷ xs))
          (some-inv (rw t at e))
          (least_of_pick x xs (first_by first second test xs) refl (first_by-least xs))
    | inr t ↦ (λ h. cc, first_by-least xs j (rw t at e))
  ]

module _ {κ} {A : Type 0} (key : A → ℕ) (P Q : A → Type κ) (j : A) (f : A → A)
    (others : (r : A) → key r ≢ key j → P r → Q r) (changed : P j → Q (f j)) where
  row-All : (x : A) → (j ≡ x) ⊎ (key x ≢ key j) → P x → Q (if key x == key j then f x else x)
  row-All x (inl e) h =
      subst (λ y. Q (if key y == key j then f y else y)) e
        (rw ((==_iff (key j) (key j)).1 refl) (changed (subst P (sym e) h)))
  row-All x (inr n) h = elim (Bool-cases (key x == key j)) [
    | inl t ↦ absurd (n ((==_iff (key x) (key j)).0 t))
    | inr t ↦ rw t (others x n h)
  ]

  untouched-All :
      (xs : List A)
      → All (λ y. key y ≢ key j) xs
      → All P xs
      → All Q (update_row (λ r. key r == key j) f xs)
  unfolding update_row
  untouched-All [] n h = tt
  untouched-All (x ∷ xs) n h = (row-All x (inr n.0) h.0, untouched-All xs n.1 h.1)

  pub update_row-All :
      (xs : List A)
      → Unique key xs
      → Among j xs
      → All P xs
      → All Q (update_row (λ r. key r == key j) f xs)
  unfolding update_row
  update_row-All [] u m h = tt
  update_row-All (x ∷ xs) u (inl e) h =
      (row-All x (inl e) h.0, untouched-All xs (rw (← e) at u.0) h.1)
  update_row-All (x ∷ xs) u (inr m) h =
      let n = All-Among (λ y. key y ≢ key x) j xs u.0 m in
      (row-All x (inr (λ e. n (sym e))) h.0, update_row-All xs u.1 m h.1)

module _ {A : Type 0} (key : A → ℕ) (test : A → Bool) (f : A → A)
    (same : (r : A) → key (f r) ≡ key r) where
  row-key : (x : A) → key (if test x then f x else x) ≡ key x
  row-key x = elim (Bool-cases (test x)) [ inl t ↦ rw t (same x) | inr t ↦ rw t ]

  update_row-ne :
      (k : ℕ) (xs : List A) → All (λ y. key y ≢ k) xs → All (λ y. key y ≢ k) (update_row test f xs)
  unfolding update_row
  update_row-ne k [] h = tt
  update_row-ne k (x ∷ xs) h = (rw (row-key x) h.0, update_row-ne k xs h.1)

  pub update_row-Unique : (xs : List A) → Unique key xs → Unique key (update_row test f xs)
  unfolding update_row
  update_row-Unique [] u = tt
  update_row-Unique (x ∷ xs) u =
      (rw (row-key x) (update_row-ne (key x) xs u.0), update_row-Unique xs u.1)

module _ {A : Type 0} {B : Type 0} (view : A → B) (test : A → Bool) (f : A → A)
    (same : (r : A) → view (f r) ≡ view r) where
  row-view : (x : A) → view (if test x then f x else x) ≡ view x
  row-view x = elim (Bool-cases (test x)) [ inl t ↦ rw t (same x) | inr t ↦ rw t ]

  -- A row of the changed table comes from a row that shows the same.
  pub Among-update_row :
      (xs : List A) (b : A)
      → Among b (update_row test f xs)
      → (a : A) × Among a xs × (view a ≡ view b)
  unfolding update_row
  Among-update_row [] b m = absurd m
  Among-update_row (x ∷ xs) b (inl e) = (x, inl refl, sym (ap view e ∙ row-view x))
  Among-update_row (x ∷ xs) b (inr m) = let (a, n, e) = Among-update_row xs b m in (a, inr n, e)

  pub Among-kept :
      (xs : List A) (a : A)
      → Among a xs
      → (b : A) × Among b (update_row test f xs) × (view b ≡ view a)
  unfolding update_row
  Among-kept [] a m = absurd m
  Among-kept (x ∷ xs) a (inl e) =
      (if test x then f x else x, inl refl, row-view x ∙ sym (ap view e))
  Among-kept (x ∷ xs) a (inr m) = let (b, n, e) = Among-kept xs a m in (b, inr n, e)

pub Unique-Among :
    {A : Type 0} (key : A → ℕ) (a b : A) (xs : List A)
    → Unique key xs
    → Among a xs
    → Among b xs
    → key a ≡ key b
    → a ≡ b
Unique-Among key a b [] u m n e = absurd m
Unique-Among key a b (x ∷ xs) u (inl p) (inl q) e = p ∙ sym q
Unique-Among key a b (x ∷ xs) u (inl p) (inr n) e =
    absurd (All-Among (λ y. key y ≢ key x) b xs u.0 n (sym e ∙ ap key p))
Unique-Among key a b (x ∷ xs) u (inr m) (inl q) e =
    absurd (All-Among (λ y. key y ≢ key x) a xs u.0 m (e ∙ ap key q))
Unique-Among key a b (x ∷ xs) u (inr m) (inr n) e = Unique-Among key a b xs u.1 m n e
