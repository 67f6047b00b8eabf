-- ===== src/Tiles/Shuffle.antt =====
-- `_shuffle` of research/python/src/splitbind_ref/tile_layout.py.
pub mod Laws
use splitbind.Base.{
  ℕ, zero, suc, ◌+◌, ◌-◌, Option, none, some, List, [], length, get_elem?, set, Result, ok, err,
  ◌>>=◌,
}
use splitbind.Payload.{Bytes}
use splitbind.Tiles.Stream.{LayoutError, HmacByteStream, randbelow}

-- `values[i], values[j] = values[j], values[i]`
unfoldable pub swap : {A : Type 0} → ℕ → ℕ → List A → List A
swap i j values = elim (get_elem? values i) [
  | none ↦ values
  | some a ↦ elim (get_elem? values j) [ none ↦ values | some b ↦ set (set values i b) j a ]
]

module _ (hmac : Bytes → Bytes → Bytes) (domain : Bytes) {A : Type 0} where
  -- the loop from an index down to 1
  unfoldable pub shuffle_from : ℕ → ℕ → List A → HmacByteStream → Result LayoutError (List A)
  unfolding randbelow swap
  shuffle_from draws zero values stream = ok values
  shuffle_from draws (suc index) values stream =
      randbelow hmac domain draws (suc (suc index)) stream >>= λ (replacement, rest).
      shuffle_from draws index (swap (suc index) replacement values) rest

  unfoldable pub shuffle : ℕ → List A → HmacByteStream → Result LayoutError (List A)
  unfolding shuffle_from
  shuffle draws values stream = shuffle_from draws (length values - 1) values stream
