-- ===== src/Tiles/LayoutV3/Laws.antt =====
-- The layout of version 3: putting the tiles that survive the centre crops first keeps it a layout.
use splitbind.Base.{
  ℕ, zero, suc, ◌+◌, ◌*◌, ◌≡◌, refl, ◌∙◌, ◌≢◌, ◌≤◌, ◌++◌, Bool, some, List, [], ◌∷◌, length, take,
  get_elem?, inl, inr, Result, ok, arith, All, All-append, >>-eq-ok, >>=-eq-ok, guard-eq-ok, ok-inv,
  &&-inv, leb→le, length-take, length-append, Bool-cases,
}
use mathlib.Core.Path.{subst}
use splitbind.Payload.{Bytes}
use splitbind.Tiles.Grid.{Tile, page_slots}
use splitbind.Tiles.Grid.Laws.{
  Apart, Apart-sym, IsInside, Pairwise, Pairwise-append, All-get, Pairwise-get, page_slots-IsInside,
  page_slots-Apart,
}
use splitbind.Tiles.Layout.{Profile, check_fits}
use splitbind.Tiles.Layout.Laws.{IsLayout, get-take}
use splitbind.Tiles.LayoutV3.{
  split_by, survivors_first, survives_center_crops, place_v3, derive_tiles_v3, stream_domain_v3,
}
use splitbind.Tiles.Shuffle.{shuffle}
use splitbind.Tiles.Shuffle.Laws.{shuffle-IsRearranged}
use splitbind.Tiles.Stream.{LayoutError}

-- What holds of the element at each place holds of every element.
get-All :
    {A : Type 0} (P : A → Type 0) (xs : List A)
    → ((i : ℕ) (a : A) → get_elem? xs i ≡ some a → P a)
    → All P xs
get-All P [] h = tt
get-All P (x ∷ xs) h = (h zero x refl, get-All P xs (λ i a e. h (suc i) a e))

get-Pairwise :
    {A : Type 0} (R : A → A → Type 0) (xs : List A)
    → ((i j : ℕ) (a b : A) → i ≢ j → get_elem? xs i ≡ some a → get_elem? xs j ≡ some b → R a b)
    → Pairwise R xs
get-Pairwise R [] h = tt
get-Pairwise R (x ∷ xs) h = (
  get-All (R x) xs (λ j b e. h zero (suc j) x b (λ same. omega (arith, same)) refl e),
  get-Pairwise R xs (λ i j a b n e f. h (suc i) (suc j) a b (λ same. n (omega (arith, same))) e f),
)

cross_cons :
    (R : Tile → Tile → Type 0)
    → ((a b : Tile) → R a b → R b a)
    → (x : Tile) (xs ys : List Tile) → All (R x) xs
    → All (λ a. All (R a) ys) xs
    → All (λ a. All (R a) (x ∷ ys)) xs
cross_cons R s x [] ys h c = tt
cross_cons R s x (y ∷ xs) ys h c = ((s x y h.0, c.0), cross_cons R s x xs ys h.1 c.1)

module _ (survives : Tile → Bool) where
  split_by-All :
      (P : Tile → Type 0) (xs : List Tile)
      → All P xs
      → All P (split_by survives xs).0 × All P (split_by survives xs).1
  unfolding split_by
  split_by-All P [] h = (tt, tt)
  split_by-All P (x ∷ xs) h =
      let (p, q) = split_by-All P xs h.1 in
      elim (Bool-cases (survives x)) [
        | inl kept ↦ rw (split_by, kept) ((h.0, p), q)
        | inr cut ↦ rw (split_by, cut) (p, (h.0, q))
      ]

  split_by-Pairwise :
      (R : Tile → Tile → Type 0)
      → ((a b : Tile) → R a b → R b a)
      → (xs : List Tile) → Pairwise R xs
      → Pairwise R (split_by survives xs).0
        × Pairwise R (split_by survives xs).1
        × All (λ a. All (R a) (split_by survives xs).1) (split_by survives xs).0
  unfolding split_by
  split_by-Pairwise R s [] h = (tt, tt, tt)
  split_by-Pairwise R s (x ∷ xs) h =
      let (p, q, c) = split_by-Pairwise R s xs h.1 in
      let (first, second) = split_by-All (R x) xs h.0 in
      elim (Bool-cases (survives x)) [
        | inl kept ↦ rw (split_by, kept) ((first, p), q, (second, c))
        | inr cut ↦ rw (split_by, cut) (p, (second, q), cross_cons R s x _ _ first c)
      ]

  split_by-length :
      (xs : List Tile)
      → length (split_by survives xs).0 + length (split_by survives xs).1 ≡ length xs
  unfolding split_by
  split_by-length [] = refl
  split_by-length (x ∷ xs) =
      let ih = split_by-length xs in
      elim (Bool-cases (survives x)) [
        | inl kept ↦ rw (split_by, kept) (omega (arith, ih))
        | inr cut ↦ rw (split_by, cut) (omega (arith, ih))
      ]

  -- Tiles that are inside a page and apart stay so when the survivors come first.
  survivors_first-IsLayout :
      (height width size count : ℕ) (tiles : List Tile)
      → count ≤ length tiles
      → All (IsInside height width size) tiles
      → Pairwise Apart tiles
      → IsLayout height width size count (take count (survivors_first survives tiles))
  unfolding survivors_first
  survivors_first-IsLayout height width size count tiles enough inside apart =
      let parts = split_by survives tiles in
      let (p, q) = split_by-All (IsInside height width size) tiles inside in
      let (r, s, c) = split_by-Pairwise Apart Apart-sym tiles apart in
      let total = length-append parts.0 parts.1 ∙ split_by-length tiles in
      let every = All-append (IsInside height width size) parts.0 parts.1 p q in
      let pairs = Pairwise-append Apart parts.0 parts.1 r s c in
      record {
        number = length-take count (parts.0 ++ parts.1) ∙ omega (arith, total, enough);
        inside = λ i a e.
            All-get (IsInside height width size) (parts.0 ++ parts.1) i a every
              (get-take count (parts.0 ++ parts.1) i a e);
        apart = λ i j a b n e f.
            Pairwise-get Apart Apart-sym (parts.0 ++ parts.1) i j a b pairs n
              (get-take count (parts.0 ++ parts.1) i a e)
              (get-take count (parts.0 ++ parts.1) j b f);
      }

module _ (hmac : Bytes → Bytes → Bytes) where
  place_v3-IsLayout :
      (draws : ℕ) (seed : Bytes) (height width size count : ℕ) (scales : List (ℕ → ℕ))
      (tiles : List Tile)
      → check_fits height width size ≡ ok tt
      → place_v3 hmac draws seed height width size count scales ≡ ok tiles
      → IsLayout height width size count tiles
  unfolding place_v3 check_fits
  place_v3-IsLayout draws seed height width size count scales tiles fits e =
      let (enough, run) = >>-eq-ok _ _ e in
      let slots = page_slots height width size in
      let survives = λ (tile : Tile). survives_center_crops tile height width scales in
      let (shuffled, moved, taken) =
        >>=-eq-ok
          (shuffle hmac stream_domain_v3 draws slots
            (record { seed = seed; counter = 0; buffer = [] }))
          (λ tiles. ok (take count (survivors_first survives tiles))) run in
      let r = shuffle-IsRearranged hmac stream_domain_v3 draws slots shuffled _ moved in
      let inside = &&-inv _ _ (guard-eq-ok _ _ fits) in
      let bound = leb→le _ _ (guard-eq-ok _ _ enough) in
      subst (λ ts. IsLayout height width size count ts) (ok-inv taken)
        (survivors_first-IsLayout survives height width size count shuffled
          (omega (arith, bound, r.size))
          (get-All (IsInside height width size) shuffled (λ i a f.
            All-get (IsInside height width size) slots (r.place i) a
              (page_slots-IsInside height width size (leb→le _ _ inside.0) (leb→le _ _ inside.1))
              (r.same i a f)))
          (get-Pairwise Apart shuffled (λ i j a b n f g.
            Pairwise-get Apart Apart-sym slots (r.place i) (r.place j) a b
              (page_slots-Apart height width size) (λ same. n (r.distinct i j same)) (r.same i a f)
              (r.same j b g))))

  -- The tiles that `derive_tiles_v3` answers, for every identifier of the profile and all crop scales,
  -- are as many as it asks for, have its size, lie inside the page and share no pixel, and the page has
  -- at most forty million pixels.
  pub derive_tiles_v3-IsLayout :
      (identifier : Result LayoutError Bytes) (scales : List (ℕ → ℕ)) (draws height width : ℕ)
      (key : Bytes) (page_index : ℕ) (profile : Profile) (tiles : List Tile)
      → derive_tiles_v3 hmac identifier scales draws height width key page_index profile ≡ ok tiles
      → IsLayout height width profile.tile_size_px profile.tiles_per_page tiles
        × (height * width ≤ 40000000)
  unfolding derive_tiles_v3
  derive_tiles_v3-IsLayout identifier scales draws height width key page_index profile tiles e =
      let (id, known, rest) = >>=-eq-ok identifier _ (>>-eq-ok _ _ e).1 in
      let placed = >>-eq-ok _ _ rest in
      let fits = >>-eq-ok _ _ placed.0 in
      (
        place_v3-IsLayout draws _ height width profile.tile_size_px profile.tiles_per_page scales
            tiles fits.1 placed.1,
        leb→le _ _ (guard-eq-ok _ _ fits.0),
      )
