-- ===== src/Tiles/Tests.antt =====
-- Runs of the placement with a small stand-in for HMAC, and its theorems there.
use splitbind.Base.{
  ℕ, ◌+◌, ◌*◌, ◌%◌, ◌/◌, ◌≡◌, refl, ◌≤◌, ◌<◌, ◌⊎◌, List, [], ◌∷◌, length, Result, ok, err, arith,
}
use splitbind.Payload.{Bytes, from_bytes}
use splitbind.Tiles.Grid.{Tile}
use splitbind.Tiles.Layout.{Profile, derive_tiles, derive_tiles_v2}
use splitbind.Tiles.Layout.Laws.{IsLayout, derive_tiles-IsLayout}
use splitbind.Tiles.LayoutV3.{derive_tiles_v3}
use splitbind.Tiles.LayoutV3.Laws.{derive_tiles_v3-IsLayout}
use splitbind.Tiles.Shuffle.{shuffle}
use splitbind.Tiles.Shuffle.Laws.{IsRearranged, shuffle-IsRearranged}
use splitbind.Tiles.Stream.{
  LayoutError, HmacByteStream, randbelow, byte_count, acceptance_limit, sample_space, bad_key,
  page_too_small, out_of_draws,
}
use splitbind.Tiles.Stream.Laws.{randbelow-bounded, AllRejected}

-- a digest of four bytes that depends on the key and the message
abbrev digest : Bytes → Bytes → Bytes
digest key message =
    let n = from_bytes 0 message % 251 in
    (n * 7 % 256) ∷ (n * 11 % 256) ∷ (n * 13 % 256) ∷ (length key) ∷ []

abbrev profile : ℕ → Profile
profile version = record { schema_version = version; tile_size_px = 256; tiles_per_page = 12 }

-- the answer, or nothing
abbrev tiles_of : {A : Type 0} → Result LayoutError (List A) → List A
tiles_of (ok tiles) = tiles
tiles_of (err e) = []

abbrev placed : List Tile
unfolding derive_tiles
placed = tiles_of (derive_tiles digest 9 800 1100 (1 ∷ []) (2 ∷ []) 0 (profile 1))

-- A page of 800 by 1100 has three rows of four slots.
places : derive_tiles digest 9 800 1100 (1 ∷ []) (2 ∷ []) 0 (profile 1) ≡ ok placed
unfolding derive_tiles placed
places = refl

places_twelve : length placed ≡ 12
unfolding derive_tiles placed
places_twelve = refl

no_key : derive_tiles digest 9 800 1100 [] (2 ∷ []) 0 (profile 1) ≡ err bad_key
unfolding derive_tiles
no_key = refl

small_page : derive_tiles digest 9 200 1100 (1 ∷ []) (2 ∷ []) 0 (profile 1) ≡ err page_too_small
unfolding derive_tiles
small_page = refl

derive_tiles-IsLayout_example : IsLayout 800 1100 256 12 placed
derive_tiles-IsLayout_example =
    derive_tiles-IsLayout digest 9 800 1100 (1 ∷ []) (2 ∷ []) 0 (profile 1) placed places

abbrev placed_v2 : List Tile
unfolding derive_tiles_v2
placed_v2 = tiles_of (derive_tiles_v2 digest (ok (5 ∷ [])) 9 800 1100 (1 ∷ []) 0 (profile 2))

places_v2 : derive_tiles_v2 digest (ok (5 ∷ [])) 9 800 1100 (1 ∷ []) 0 (profile 2) ≡ ok placed_v2
unfolding derive_tiles_v2 placed_v2
places_v2 = refl

-- a crop that retains half of a side and 228 pixels
abbrev half : ℕ → ℕ
half side = side / 2 + 228

abbrev placed_v3 : List Tile
unfolding derive_tiles_v3
placed_v3 =
    tiles_of (derive_tiles_v3 digest (ok (5 ∷ [])) (half ∷ []) 9 800 1100 (1 ∷ []) 0 (profile 3))

places_v3 :
    derive_tiles_v3 digest (ok (5 ∷ [])) (half ∷ []) 9 800 1100 (1 ∷ []) 0 (profile 3)
    ≡ ok placed_v3
unfolding derive_tiles_v3 placed_v3
places_v3 = refl

derive_tiles_v3-IsLayout_example : IsLayout 800 1100 256 12 placed_v3 × (800 * 1100 ≤ 40000000)
derive_tiles_v3-IsLayout_example =
    derive_tiles_v3-IsLayout digest (ok (5 ∷ [])) (half ∷ []) 9 800 1100 (1 ∷ []) 0 (profile 3)
      placed_v3 places_v3

abbrev stream : HmacByteStream
stream = record { seed = 3 ∷ []; counter = 0; buffer = [] }

abbrev shuffled : List ℕ
unfolding shuffle
shuffled = tiles_of (shuffle digest [] 9 (1 ∷ 2 ∷ 3 ∷ 4 ∷ []) stream)

shuffles : shuffle digest [] 9 (1 ∷ 2 ∷ 3 ∷ 4 ∷ []) stream ≡ ok shuffled
unfolding shuffle shuffled
shuffles = refl

shuffle-IsRearranged_example : IsRearranged (1 ∷ 2 ∷ 3 ∷ 4 ∷ []) shuffled
shuffle-IsRearranged_example =
    shuffle-IsRearranged digest [] 9 (1 ∷ 2 ∷ 3 ∷ 4 ∷ []) shuffled stream shuffles

-- Of the 256 values of a byte 250 are accepted for a bound of 10, and 246 for one of 6 + 117.
limits :
    (byte_count 10 ≡ 1)
    × (acceptance_limit 10 ≡ 250)
    × (acceptance_limit 123 ≡ 246)
    × (byte_count 256 ≡ 2)
unfolding byte_count acceptance_limit
limits = (refl, refl, refl, refl)

digest_has_bytes : (key message : Bytes) → 1 ≤ length (digest key message)
digest_has_bytes key message = omega arith

counter_fits : (stream.counter + 9 * byte_count 10) ≤ 4294967296
unfolding byte_count
counter_fits = omega arith

randbelow-bounded_example :
    (sample_space 10 < 2 * acceptance_limit 10)
    × (acceptance_limit 10 % 10 ≡ 0)
    × (((value : ℕ) × (rest : HmacByteStream) × (randbelow digest [] 9 10 stream ≡ ok (value, rest))
          × (value < 10))
        ⊎ (randbelow digest [] 9 10 stream ≡ err out_of_draws)
          × AllRejected digest [] digest_has_bytes 9 10 stream)
randbelow-bounded_example =
    randbelow-bounded digest [] digest_has_bytes 9 10 stream (omega arith) counter_fits
