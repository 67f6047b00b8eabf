-- ===== src/Tiles/Layout/Laws.antt =====
-- The tiles that are placed on a page lie inside it, do not overlap, and are as many as the profile
-- asks for.
use splitbind.Base.{
  ℕ, zero, suc, ◌*◌, ◌≡◌, ◌∙◌, ◌≢◌, ◌≤◌, some, List, [], ◌∷◌, length, take, get_elem?, Result, ok,
  arith, >>-eq-ok, >>=-eq-ok, guard-eq-ok, ok-inv, &&-inv, leb→le, length-take,
}
use mathlib.Core.Path.{subst}
use splitbind.Payload.{Bytes}
use splitbind.Tiles.Grid.{Tile, page_slots}
use splitbind.Tiles.Grid.Laws.{
  Apart, Apart-sym, IsInside, All-get, Pairwise-get, page_slots-IsInside, page_slots-Apart,
}
use splitbind.Tiles.Layout.{
  Profile, place, derive_tiles, derive_tiles_v2, check_fits, permutation_domain, stream_domain_v2,
}
use splitbind.Tiles.Shuffle.{shuffle}
use splitbind.Tiles.Shuffle.Laws.{IsRearranged, shuffle-IsRearranged}
use splitbind.Tiles.Stream.{LayoutError}

-- A layout of `count` tiles of a size on a page.
pub record IsLayout (height width size count : ℕ) (tiles : List Tile) : Type 0 where
  pub number : length tiles ≡ count
  pub inside : (i : ℕ) (a : Tile) → get_elem? tiles i ≡ some a → IsInside height width size a
  pub apart :
      (i j : ℕ) (a b : Tile)
      → i ≢ j
      → get_elem? tiles i ≡ some a
      → get_elem? tiles j ≡ some b
      → Apart a b

pub get-take :
    {A : Type 0} (n : ℕ) (xs : List A) (i : ℕ) (a : A)
    → get_elem? (take n xs) i ≡ some a
    → get_elem? xs i ≡ some a
get-take zero xs i a e = absurd (cc e)
get-take (suc n) [] i a e = e
get-take (suc n) (x ∷ xs) zero a e = e
get-take (suc n) (x ∷ xs) (suc i) a e = get-take n xs i a e

rearranged-IsLayout :
    (height width size count : ℕ) (tiles : List Tile)
    → size ≤ height
    → size ≤ width
    → count ≤ length (page_slots height width size)
    → IsRearranged (page_slots height width size) tiles
    → IsLayout height width size count (take count tiles)
rearranged-IsLayout height width size count tiles h w enough r = record {
  number = length-take count tiles ∙ omega (arith, r.size, enough);
  inside = λ i a e.
      All-get (IsInside height width size) (page_slots height width size) (r.place i) a
        (page_slots-IsInside height width size h w) (r.same i a (get-take count tiles i a e));
  apart = λ i j a b n e f.
      Pairwise-get Apart Apart-sym (page_slots height width size) (r.place i) (r.place j) a b
        (page_slots-Apart height width size) (λ same. n (r.distinct i j same))
        (r.same i a (get-take count tiles i a e)) (r.same j b (get-take count tiles j b f));
}

module _ (hmac : Bytes → Bytes → Bytes) where
  place-IsLayout :
      (domain : Bytes) (draws : ℕ) (seed : Bytes) (height width size count : ℕ) (tiles : List Tile)
      → check_fits height width size ≡ ok tt
      → place hmac domain draws seed height width size count ≡ ok tiles
      → IsLayout height width size count tiles
  unfolding place check_fits
  place-IsLayout domain draws seed height width size count tiles fits e =
      let (enough, run) = >>-eq-ok _ _ e in
      let (shuffled, moved, taken) =
        >>=-eq-ok
          (shuffle hmac domain draws (page_slots height width size)
            (record { seed = seed; counter = 0; buffer = [] }))
          (λ tiles. ok (take count tiles)) run in
      let inside = &&-inv _ _ (guard-eq-ok _ _ fits) in
      subst (λ ts. IsLayout height width size count ts) (ok-inv taken)
        (rearranged-IsLayout height width size count shuffled (leb→le _ _ inside.0)
          (leb→le _ _ inside.1) (leb→le _ _ (guard-eq-ok _ _ enough))
          (shuffle-IsRearranged hmac domain draws (page_slots height width size) shuffled _ moved))

  -- The tiles that `derive_tiles` answers are as many as the profile asks for, have its size, lie inside
  -- the page and share no pixel, whatever HMAC, key, nonce and page index are.
  pub derive_tiles-IsLayout :
      (draws height width : ℕ) (key document_nonce : Bytes) (page_index : ℕ) (profile : Profile)
      (tiles : List Tile)
      → derive_tiles hmac draws height width key document_nonce page_index profile ≡ ok tiles
      → IsLayout height width profile.tile_size_px profile.tiles_per_page tiles
  unfolding derive_tiles
  derive_tiles-IsLayout draws height width key document_nonce page_index profile tiles e =
      let placed = >>-eq-ok _ _ e in
      let fits = >>-eq-ok _ _ placed.0 in
      place-IsLayout permutation_domain draws _ height width profile.tile_size_px
        profile.tiles_per_page tiles fits.1 placed.1

  -- The same holds of `derive_tiles_v2`, for every identifier of the profile, and the page has at most
  -- forty million pixels.
  derive_tiles_v2-IsLayout :
      (identifier : Result LayoutError Bytes) (draws height width : ℕ) (key : Bytes)
      (page_index : ℕ) (profile : Profile) (tiles : List Tile)
      → derive_tiles_v2 hmac identifier draws height width key page_index profile ≡ ok tiles
      → IsLayout height width profile.tile_size_px profile.tiles_per_page tiles
        × (height * width ≤ 40000000)
  unfolding derive_tiles_v2
  derive_tiles_v2-IsLayout identifier draws height width key page_index profile tiles e =
      let (id, known, rest) = >>=-eq-ok identifier _ (>>-eq-ok _ _ e).1 in
      let placed = >>-eq-ok _ _ rest in
      let fits = >>-eq-ok _ _ placed.0 in
      (
        place-IsLayout stream_domain_v2 draws _ height width profile.tile_size_px
            profile.tiles_per_page tiles fits.1 placed.1,
        leb→le _ _ (guard-eq-ok _ _ fits.0),
      )
