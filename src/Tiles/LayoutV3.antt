-- ===== src/Tiles/LayoutV3.antt =====
-- `derive_tiles_v3` of research/python/src/splitbind_ref/tile_layout_v3.py. The stream and the shuffle
-- are those of version 1 with another domain.
pub mod Laws
use splitbind.Base.{
  ℕ, ◌+◌, ◌-◌, ◌*◌, ◌/◌, Bool, true, false, not, ◌&&◌, List, [], ◌∷◌, ◌++◌, length, take, Result,
  ok, err, ◌>>=◌, ◌>>◌, guard, ltb, leb, ◌==◌, if◌then◌else◌,
}
use splitbind.Payload.{Bytes, to_bytes4}
use splitbind.Tiles.Grid.{Tile, page_slots}
use splitbind.Tiles.Layout.{
  Profile, validate_page_shape, validate_bytes, validate_page_index, check_fits,
}
use splitbind.Tiles.Shuffle.{shuffle}
use splitbind.Tiles.Stream.{
  LayoutError, HmacByteStream, bad_key, bad_profile, page_too_large, too_few_slots,
}

-- "splitbind-v3-tile-layout\0"
abbrev pub seed_domain_v3 : Bytes
seed_domain_v3 =
    115 ∷ 112 ∷ 108 ∷ 105 ∷ 116 ∷ 98 ∷ 105 ∷ 110 ∷ 100 ∷ 45 ∷ 118 ∷ 51 ∷ 45 ∷ 116 ∷ 105 ∷ 108 ∷ 101
    ∷ 45 ∷ 108 ∷ 97 ∷ 121 ∷ 111 ∷ 117 ∷ 116 ∷ 0 ∷ []

-- "splitbind-v3-tile-permutation\0"
abbrev pub stream_domain_v3 : Bytes
stream_domain_v3 =
    115 ∷ 112 ∷ 108 ∷ 105 ∷ 116 ∷ 98 ∷ 105 ∷ 110 ∷ 100 ∷ 45 ∷ 118 ∷ 51 ∷ 45 ∷ 116 ∷ 105 ∷ 108 ∷ 101
    ∷ 45 ∷ 112 ∷ 101 ∷ 114 ∷ 109 ∷ 117 ∷ 116 ∷ 97 ∷ 116 ∷ 105 ∷ 111 ∷ 110 ∷ 0 ∷ []

-- the first and the last pixel of the retained part of a side; `(side - retained) // 2` is negative
-- where more than the side is retained
abbrev pub retained_end : ℕ → ℕ → ℕ
retained_end side retained =
    if leb retained side
    then (side - retained) / 2 + retained
    else retained - (retained - side + 1) / 2

abbrev pub retains : ℕ → ℕ → ℕ → ℕ → Bool
retains side retained start size =
    leb ((side - retained) / 2) start && leb (start + size) (retained_end side retained)

-- `_survives_center_crops`. A scale is a floating-point number: what is read of it is
-- `round(side * scale)` for a side, so a scale is that function.
unfoldable pub survives_center_crops : Tile → ℕ → ℕ → List (ℕ → ℕ) → Bool
survives_center_crops tile page_height page_width [] = true
survives_center_crops tile page_height page_width (scale ∷ scales) =
    (retains page_width (scale page_width) tile.x tile.width
      && retains page_height (scale page_height) tile.y tile.height)
    && survives_center_crops tile page_height page_width scales

-- the lists `crop_survivors` and `crop_vulnerable`
unfoldable pub split_by : (Tile → Bool) → List Tile → List Tile × List Tile
split_by survives [] = ([], [])
split_by survives (tile ∷ tiles) =
    let rest = split_by survives tiles in
    if survives tile then (tile ∷ rest.0, rest.1) else (rest.0, tile ∷ rest.1)

unfoldable pub survivors_first : (Tile → Bool) → List Tile → List Tile
unfolding split_by
survivors_first survives tiles = let parts = split_by survives tiles in parts.0 ++ parts.1

-- `_validate_profile` of version 3, before the identifier
unfoldable pub validate_profile_v3 : Profile → Result LayoutError (Unit {0})
validate_profile_v3 profile =
    guard
      (profile.schema_version == 3 && (ltb 0 profile.tile_size_px && ltb 0 profile.tiles_per_page))
      bad_profile

module _ (hmac : Bytes → Bytes → Bytes) where
  unfoldable pub place_v3 :
      ℕ → Bytes → ℕ → ℕ → ℕ → ℕ → List (ℕ → ℕ) → Result LayoutError (List Tile)
  unfolding page_slots shuffle survivors_first survives_center_crops
  place_v3 draws seed height width size count crop_retained_scales =
      guard (leb count (length (page_slots height width size))) too_few_slots
      >> (shuffle hmac stream_domain_v3 draws (page_slots height width size)
            (record { seed = seed; counter = 0; buffer = [] })
          >>= λ tiles. ok (
              take count (
                survivors_first
                  (λ tile. survives_center_crops tile height width crop_retained_scales) tiles)))

  -- `candidate_identifier` is what candidate_identifier_v3 answers or raises for the profile.
  unfoldable pub derive_tiles_v3 :
      Result LayoutError Bytes
      → List (ℕ → ℕ)
      → ℕ
      → ℕ
      → ℕ
      → Bytes
      → ℕ
      → Profile
      → Result LayoutError (List Tile)
  unfolding validate_page_shape validate_bytes validate_page_index validate_profile_v3 check_fits
      place_v3 to_bytes4
  derive_tiles_v3 candidate_identifier crop_retained_scales draws height width key page_index
        profile =
      validate_page_shape height width
      >> validate_bytes bad_key key
      >> validate_page_index page_index
      >> validate_profile_v3 profile
      >> (candidate_identifier >>= λ identifier.
          guard (leb (height * width) 40000000) page_too_large
          >> check_fits height width profile.tile_size_px
          >> place_v3 draws (hmac key (seed_domain_v3 ++ (to_bytes4 page_index ++ identifier)))
              height width profile.tile_size_px profile.tiles_per_page crop_retained_scales)
