-- ===== src/Tiles/Layout.antt =====
-- `derive_tiles` of research/python/src/splitbind_ref/tile_layout.py and `derive_tiles_v2` of
-- tile_layout_v2.py, with the numbers of contracts/algorithm/fingerprint-candidates.v1.json. The
-- dimensions, the page index and the profile are natural numbers here: the tests of their Python types
-- cannot fail, and a negative number fails the tests that zero fails. `draws` bounds the rejections of
-- one random number.
pub mod Laws
use splitbind.Base.{
  ℕ, ◌+◌, ◌*◌, Bool, true, false, not, ◌&&◌, ◌||◌, List, [], ◌∷◌, ◌++◌, length, take, Result, ok,
  err, ◌>>=◌, ◌>>◌, guard, ltb, leb, ◌==◌, if◌then◌else◌,
}
use splitbind.Payload.{Bytes, to_bytes4}
use splitbind.Tiles.Grid.{Tile, page_slots}
use splitbind.Tiles.Shuffle.{shuffle}
use splitbind.Tiles.Stream.{
  LayoutError, HmacByteStream, bad_page_shape, bad_key, bad_nonce, bad_page_index, bad_profile,
  page_too_large, page_too_small, too_few_slots,
}

-- "splitbind-tile-permutation\0"
abbrev pub permutation_domain : Bytes
permutation_domain =
    115 ∷ 112 ∷ 108 ∷ 105 ∷ 116 ∷ 98 ∷ 105 ∷ 110 ∷ 100 ∷ 45 ∷ 116 ∷ 105 ∷ 108 ∷ 101 ∷ 45 ∷ 112 ∷ 101
    ∷ 114 ∷ 109 ∷ 117 ∷ 116 ∷ 97 ∷ 116 ∷ 105 ∷ 111 ∷ 110 ∷ 0 ∷ []

-- "splitbind-v2-tile-layout\0"
abbrev pub seed_domain_v2 : Bytes
seed_domain_v2 =
    115 ∷ 112 ∷ 108 ∷ 105 ∷ 116 ∷ 98 ∷ 105 ∷ 110 ∷ 100 ∷ 45 ∷ 118 ∷ 50 ∷ 45 ∷ 116 ∷ 105 ∷ 108 ∷ 101
    ∷ 45 ∷ 108 ∷ 97 ∷ 121 ∷ 111 ∷ 117 ∷ 116 ∷ 0 ∷ []

-- "splitbind-v2-tile-permutation\0"
abbrev pub stream_domain_v2 : Bytes
stream_domain_v2 =
    115 ∷ 112 ∷ 108 ∷ 105 ∷ 116 ∷ 98 ∷ 105 ∷ 110 ∷ 100 ∷ 45 ∷ 118 ∷ 50 ∷ 45 ∷ 116 ∷ 105 ∷ 108 ∷ 101
    ∷ 45 ∷ 112 ∷ 101 ∷ 114 ∷ 109 ∷ 117 ∷ 116 ∷ 97 ∷ 116 ∷ 105 ∷ 111 ∷ 110 ∷ 0 ∷ []

-- the mapping that `derive_tiles` gets as its profile
pub record Profile : Type 0 where
  pub schema_version : ℕ
  pub tile_size_px : ℕ
  pub tiles_per_page : ℕ

abbrev pub among : ℕ → List ℕ → Bool
among n [] = false
among n (x ∷ xs) = n == x || among n xs

-- `_validate_page_shape`, `_validate_bytes` and the test of the page index
unfoldable pub validate_page_shape : ℕ → ℕ → Result LayoutError (Unit {0})
validate_page_shape height width = guard (ltb 0 height && ltb 0 width) bad_page_shape

unfoldable pub validate_bytes : LayoutError → Bytes → Result LayoutError (Unit {0})
validate_bytes name value = guard (ltb 0 (length value)) name

unfoldable pub validate_page_index : ℕ → Result LayoutError (Unit {0})
validate_page_index page_index = guard (leb page_index 4294967295) bad_page_index

-- `_validate_profile` of version 1
unfoldable pub validate_profile : Profile → Result LayoutError (Unit {0})
validate_profile profile =
    guard
      (profile.schema_version == 1
        && (among profile.tile_size_px (256 ∷ 384 ∷ [])
            && among profile.tiles_per_page (12 ∷ 18 ∷ 24 ∷ [])))
      bad_profile

-- `_validate_profile` of version 2, before the identifier
unfoldable pub validate_profile_v2 : Profile → Result LayoutError (Unit {0})
validate_profile_v2 profile =
    guard
      (profile.schema_version == 2 && (ltb 0 profile.tile_size_px && ltb 0 profile.tiles_per_page))
      bad_profile

unfoldable pub check_fits : ℕ → ℕ → ℕ → Result LayoutError (Unit {0})
check_fits height width size = guard (leb size height && leb size width) page_too_small

module _ (hmac : Bytes → Bytes → Bytes) where
  -- the slots, their shuffle by the stream of the seed, and the first tiles of it
  unfoldable pub place : Bytes → ℕ → Bytes → ℕ → ℕ → ℕ → ℕ → Result LayoutError (List Tile)
  unfolding page_slots shuffle
  place domain draws seed height width size count =
      guard (leb count (length (page_slots height width size))) too_few_slots
      >> (shuffle hmac domain draws (page_slots height width size)
            (record { seed = seed; counter = 0; buffer = [] })
          >>= λ tiles. ok (take count tiles))

  unfoldable pub derive_tiles :
      ℕ → ℕ → ℕ → Bytes → Bytes → ℕ → Profile → Result LayoutError (List Tile)
  unfolding validate_page_shape validate_bytes validate_page_index validate_profile check_fits place
      to_bytes4
  derive_tiles draws height width key document_nonce page_index profile =
      validate_page_shape height width
      >> validate_bytes bad_key key
      >> validate_bytes bad_nonce document_nonce
      >> validate_page_index page_index
      >> validate_profile profile
      >> check_fits height width profile.tile_size_px
      >> place permutation_domain draws
          (hmac key (document_nonce ++ (to_bytes4 page_index ++ to_bytes4 profile.schema_version)))
          height width profile.tile_size_px profile.tiles_per_page

  -- `candidate_identifier` is what candidate_identifier_v2 answers or raises for the profile.
  unfoldable pub derive_tiles_v2 :
      Result LayoutError Bytes → ℕ → ℕ → ℕ → Bytes → ℕ → Profile → Result LayoutError (List Tile)
  unfolding validate_page_shape validate_bytes validate_page_index validate_profile_v2 check_fits
      place to_bytes4
  derive_tiles_v2 candidate_identifier draws height width key page_index profile =
      validate_page_shape height width
      >> validate_bytes bad_key key
      >> validate_page_index page_index
      >> validate_profile_v2 profile
      >> (candidate_identifier >>= λ identifier.
          guard (leb (height * width) 40000000) page_too_large
          >> check_fits height width profile.tile_size_px
          >> place stream_domain_v2 draws
              (hmac key (seed_domain_v2 ++ (to_bytes4 page_index ++ identifier))) height width
              profile.tile_size_px profile.tiles_per_page)
