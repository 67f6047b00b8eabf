-- ===== src/Tiles/Grid.antt =====
-- The slots of a page (the list `candidates`) and what it means that tiles do not overlap.
pub mod Laws
use splitbind.Base.{
  ℕ, zero, suc, ◌+◌, ◌-◌, ◌≡◌, ◌≢◌, ◌≤◌, ◌<◌, ◌⊎◌, Option, some, List, [], ◌∷◌, ◌++◌, map, ltb,
  if◌then◌else◌, get_elem?,
}

pub record Tile : Type 0 where
  pub x : ℕ
  pub y : ℕ
  pub width : ℕ
  pub height : ℕ

-- `range(start, stop, step)`; a positive step reaches the stop after at most `stop` rounds
unfoldable pub range_from : ℕ → ℕ → ℕ → ℕ → List ℕ
range_from zero start stop step = []
range_from (suc fuel) start stop step =
    let rest = range_from fuel (start + step) stop step in
    if ltb start stop then start ∷ rest else []

-- the tiles of a row
unfoldable pub row_tiles : ℕ → ℕ → List ℕ → List Tile
row_tiles size y [] = []
row_tiles size y (x ∷ xs) =
    record { x = x; y = y; width = size; height = size } ∷ row_tiles size y xs

unfoldable pub rows_tiles : ℕ → List ℕ → List ℕ → List Tile
unfolding row_tiles
rows_tiles size xs [] = []
rows_tiles size xs (y ∷ ys) = row_tiles size y xs ++ rows_tiles size xs ys

-- the list `candidates`
unfoldable pub page_slots : ℕ → ℕ → ℕ → List Tile
unfolding rows_tiles range_from
page_slots height width size =
    rows_tiles size (range_from (width - size + 1) 0 (width - size + 1) size)
      (range_from (height - size + 1) 0 (height - size + 1) size)
