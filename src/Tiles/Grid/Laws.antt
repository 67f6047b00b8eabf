-- ===== src/Tiles/Grid/Laws.antt =====
-- The slots of a page lie inside it and do not overlap.
use splitbind.Base.{
  ℕ, zero, suc, ◌+◌, ◌-◌, ◌≡◌, refl, sym, ◌≢◌, ◌≤◌, ◌<◌, ◌⊎◌, inl, inr, some, List, [], ◌∷◌, ◌++◌,
  ltb, get_elem?, arith, All, All-append, Bool-cases, some-inv, ap, ltb→lt,
}
use mathlib.Core.Path.{subst}
use splitbind.Model.Table.Laws.{All-map}
use splitbind.Tiles.Grid.{Tile, range_from, row_tiles, rows_tiles, page_slots}

-- Two tiles that share no pixel.
abbrev pub Apart : Tile → Tile → Type 0
Apart a b =
    (a.x + a.width ≤ b.x)
    ⊎ ((b.x + b.width ≤ a.x) ⊎ ((a.y + a.height ≤ b.y) ⊎ (b.y + b.height ≤ a.y)))

pub Apart-sym : (a b : Tile) → Apart a b → Apart b a
Apart-sym a b (inl h) = inr (inl h)
Apart-sym a b (inr (inl h)) = inl h
Apart-sym a b (inr (inr (inl h))) = inr (inr (inr h))
Apart-sym a b (inr (inr (inr h))) = inr (inr (inl h))

-- Every element is related to every later one.
abbrev pub Pairwise {ℓ κ} : {A : Type ℓ} → (A → A → Type κ) → List A → Type κ
Pairwise R [] = Unit
Pairwise R (x ∷ xs) = All (R x) xs × Pairwise R xs

module _ {ℓ κ} {A : Type ℓ} (R : A → A → Type κ) where
  pub Pairwise-append :
      (xs ys : List A)
      → Pairwise R xs
      → Pairwise R ys
      → All (λ x. All (R x) ys) xs
      → Pairwise R (xs ++ ys)
  Pairwise-append [] ys p q r = q
  Pairwise-append (x ∷ xs) ys p q r =
      (All-append (R x) xs ys p.0 r.0, Pairwise-append xs ys p.1 q r.1)

-- What holds of every element holds of the one at a place.
pub All-get {ℓ κ} :
    {A : Type ℓ} (P : A → Type κ) (xs : List A) (i : ℕ) (a : A)
    → All P xs
    → get_elem? xs i ≡ some a
    → P a
All-get P [] i a h e = absurd (cc e)
All-get P (x ∷ xs) zero a h e = subst P (some-inv e) h.0
All-get P (x ∷ xs) (suc i) a h e = All-get P xs i a h.1 e

-- Elements at two places are related when the relation is symmetric.
pub Pairwise-get :
    {A : Type 0} (R : A → A → Type 0)
    → ((a b : A) → R a b → R b a)
    → (xs : List A) (i j : ℕ) (a b : A) → Pairwise R xs
    → i ≢ j
    → get_elem? xs i ≡ some a
    → get_elem? xs j ≡ some b
    → R a b
Pairwise-get R s [] i j a b p n e f = absurd (cc e)
Pairwise-get R s (x ∷ xs) zero zero a b p n e f = absurd (n refl)
Pairwise-get R s (x ∷ xs) zero (suc j) a b p n e f =
    subst (λ y. R y b) (some-inv e) (All-get (R x) xs j b p.0 f)
Pairwise-get R s (x ∷ xs) (suc i) zero a b p n e f =
    s b a (subst (λ y. R y a) (some-inv f) (All-get (R x) xs i a p.0 e))
Pairwise-get R s (x ∷ xs) (suc i) (suc j) a b p n e f =
    Pairwise-get R s xs i j a b p.1 (λ same. n (ap suc same)) e f

range_from-bounds :
    (fuel start stop step : ℕ)
    → All (λ v. (start ≤ v) × (v < stop)) (range_from fuel start stop step)
unfolding range_from
range_from-bounds zero start stop step = tt
range_from-bounds (suc fuel) start stop step = elim (Bool-cases (ltb start stop)) [
  | inr done ↦ rw (range_from, done) tt
  | inl more ↦
      rw (range_from, more)
        (
          (omega arith, ltb→lt start stop more),
          All-map (λ v. (start + step ≤ v) × (v < stop)) (λ v. (start ≤ v) × (v < stop))
              (λ v h. (omega (arith, h.0), h.1)) (range_from fuel (start + step) stop step)
              (range_from-bounds fuel (start + step) stop step),
        )
]

range_from-spread :
    (fuel start stop step : ℕ) → Pairwise (λ v w. v + step ≤ w) (range_from fuel start stop step)
unfolding range_from
range_from-spread zero start stop step = tt
range_from-spread (suc fuel) start stop step = elim (Bool-cases (ltb start stop)) [
  | inr done ↦ rw (range_from, done) tt
  | inl more ↦
      rw (range_from, more)
        (
          All-map (λ v. (start + step ≤ v) × (v < stop)) (λ v. start + step ≤ v) (λ v h. h.0)
              (range_from fuel (start + step) stop step)
              (range_from-bounds fuel (start + step) stop step),
          range_from-spread fuel (start + step) stop step,
        )
]

-- A tile of the row `y`, whose left edge is one of the numbers that `P` allows.
abbrev pub InRow : ℕ → ℕ → (ℕ → Type 0) → Tile → Type 0
InRow size y P t = (t.y ≡ y) × (t.width ≡ size) × (t.height ≡ size) × P t.x

row_tiles-InRow :
    (size y : ℕ) (P : ℕ → Type 0) (xs : List ℕ)
    → All P xs
    → All (InRow size y P) (row_tiles size y xs)
unfolding row_tiles
row_tiles-InRow size y P [] h = tt
row_tiles-InRow size y P (x ∷ xs) h = ((refl, refl, refl, h.0), row_tiles-InRow size y P xs h.1)

row_tiles-Apart :
    (size y : ℕ) (xs : List ℕ)
    → Pairwise (λ v w. v + size ≤ w) xs
    → Pairwise Apart (row_tiles size y xs)
unfolding row_tiles
row_tiles-Apart size y [] h = tt
row_tiles-Apart size y (x ∷ xs) h = (
  All-map (InRow size y (λ w. x + size ≤ w))
      (Apart (record { x = x; y = y; width = size; height = size })) (λ t r. inl r.3)
      (row_tiles size y xs) (row_tiles-InRow size y (λ w. x + size ≤ w) xs h.0),
  row_tiles-Apart size y xs h.1,
)

-- A tile whose edges are among the numbers that `P` and `Q` allow.
abbrev pub InRows : ℕ → (ℕ → Type 0) → (ℕ → Type 0) → Tile → Type 0
InRows size P Q t = (t.width ≡ size) × (t.height ≡ size) × P t.x × Q t.y

rows_tiles-InRows :
    (size : ℕ) (P Q : ℕ → Type 0) (xs ys : List ℕ)
    → All P xs
    → All Q ys
    → All (InRows size P Q) (rows_tiles size xs ys)
unfolding rows_tiles
rows_tiles-InRows size P Q xs [] p q = tt
rows_tiles-InRows size P Q xs (y ∷ ys) p q =
    All-append (InRows size P Q) (row_tiles size y xs) (rows_tiles size xs ys)
      (All-map (InRow size y P) (InRows size P Q) (λ t r. (r.1, r.2, r.3, subst Q (sym r.0) q.0))
        (row_tiles size y xs) (row_tiles-InRow size y P xs p))
      (rows_tiles-InRows size P Q xs ys p q.1)

always : (xs : List ℕ) → All (λ x. Unit {0}) xs
always [] = tt
always (x ∷ xs) = (tt, always xs)

rows_tiles-Apart :
    (size : ℕ) (xs ys : List ℕ)
    → Pairwise (λ v w. v + size ≤ w) xs
    → Pairwise (λ v w. v + size ≤ w) ys
    → Pairwise Apart (rows_tiles size xs ys)
unfolding rows_tiles
rows_tiles-Apart size xs [] h k = tt
rows_tiles-Apart size xs (y ∷ ys) h k =
    Pairwise-append Apart (row_tiles size y xs) (rows_tiles size xs ys)
      (row_tiles-Apart size y xs h) (rows_tiles-Apart size xs ys h k.1)
      (All-map (InRow size y (λ x. Unit)) (λ a. All (Apart a) (rows_tiles size xs ys))
        (λ a r.
          All-map (InRows size (λ x. Unit) (λ w. y + size ≤ w)) (Apart a)
            (λ b s. inr (inr (inl (omega (arith, r.0, r.2, s.3))))) (rows_tiles size xs ys)
            (rows_tiles-InRows size (λ x. Unit) (λ w. y + size ≤ w) xs ys (always xs) k.0))
        (row_tiles size y xs) (row_tiles-InRow size y (λ x. Unit) xs (always xs)))

-- A tile of the size that lies inside the page.
pub record IsInside (height width size : ℕ) (t : Tile) : Type 0 where
  pub wide : t.width ≡ size
  pub high : t.height ≡ size
  pub right : t.x + t.width ≤ width
  pub bottom : t.y + t.height ≤ height

pub page_slots-IsInside :
    (height width size : ℕ)
    → size ≤ height
    → size ≤ width
    → All (IsInside height width size) (page_slots height width size)
unfolding page_slots
page_slots-IsInside height width size h w =
    All-map
      (InRows size (λ x. (0 ≤ x) × (x < width - size + 1)) (λ y. (0 ≤ y) × (y < height - size + 1)))
      (IsInside height width size)
      (λ t r. record {
        wide = r.0;
        high = r.1;
        right = omega (arith, r.0, r.2.1, w);
        bottom = omega (arith, r.1, r.3.1, h);
      })
      (page_slots height width size)
      (rows_tiles-InRows size (λ x. (0 ≤ x) × (x < width - size + 1))
        (λ y. (0 ≤ y) × (y < height - size + 1)) _ _
        (range_from-bounds (width - size + 1) 0 (width - size + 1) size)
        (range_from-bounds (height - size + 1) 0 (height - size + 1) size))

pub page_slots-Apart : (height width size : ℕ) → Pairwise Apart (page_slots height width size)
unfolding page_slots
page_slots-Apart height width size =
    rows_tiles-Apart size _ _ (range_from-spread (width - size + 1) 0 (width - size + 1) size)
      (range_from-spread (height - size + 1) 0 (height - size + 1) size)
