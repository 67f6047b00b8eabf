-- ===== src/Tiles.antt =====
-- The placement of the tiles of a fingerprint on a page: tile_layout.py, tile_layout_v2.py and
-- tile_layout_v3.py of research/python/src/splitbind_ref.
pub mod Stream
pub mod Grid
pub mod Shuffle
pub mod Layout
pub mod LayoutV3
mod Tests
