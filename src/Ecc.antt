-- ===== src/Ecc.antt =====
-- The interleaving of research/python/src/splitbind_ref/ecc.py around the Reed-Solomon codec, which
-- is the package reedsolo: a parameter.
pub mod Blend
pub mod Count
pub mod Laws
pub mod Codec
pub mod Ladder
pub mod Natural
pub mod Damage
mod Tests
use splitbind.Base.{
  ℕ, zero, suc, ◌+◌, ◌-◌, Bool, true, false, List, [], ◌∷◌, ◌++◌, ◌==◌, if◌then◌else◌, length, take,
  drop, Result, ok, err,
}

pub data EccError : Type 0 where
  invalid_depth invalid_payload_length invalid_parity invalid_codeword_length invalid_positions
        duplicate_positions too_many_erasures correction_failed invalid_decoded_length :
      EccError

-- the indices from `start`, `count` of them
abbrev pub indices : ℕ → ℕ → List ℕ
indices start zero = []
indices start (suc count) = start ∷ indices (suc start) count

module _ {ℓ} {A : Type ℓ} where
  -- `values[offset::depth]`, for a positive depth
  abbrev pub every : ℕ → ℕ → List A → List A
  every offset depth [] = []
  every zero depth (x ∷ xs) = x ∷ every (depth - 1) depth xs
  every (suc offset) depth (x ∷ xs) = every offset depth xs

  -- `values[offset::depth] = lane`, for a lane of the length of that slice
  abbrev pub fill : ℕ → ℕ → List A → List A → List A
  fill offset depth [] lane = []
  fill zero depth (x ∷ xs) [] = x ∷ xs
  fill zero depth (x ∷ xs) (y ∷ lane) = y ∷ fill (depth - 1) depth xs lane
  fill (suc offset) depth (x ∷ xs) lane = x ∷ fill offset depth xs lane

module _ {ℓ} {A : Type ℓ} where
  -- The lanes of the offsets from `offset`, `count` of them, joined.
  unfoldable pub join_lanes : ℕ → ℕ → ℕ → List A → List A
  join_lanes zero offset depth xs = []
  join_lanes (suc count) offset depth xs =
      every offset depth xs ++ join_lanes count (suc offset) depth xs

  -- `for offset in range(depth)`, with the offsets that are left
  unfoldable pub restore : ℕ → ℕ → ℕ → List A → ℕ → List A → List A
  restore zero offset depth restored cursor xs = restored
  restore (suc count) offset depth restored cursor xs =
      let lane_length = length (every offset depth (indices 0 (length xs))) in
      restore count (suc offset) depth
        (fill offset depth restored (take lane_length (drop cursor xs))) (cursor + lane_length) xs

  -- The model is generic in the bytes: `unset` stands for the zero byte of a new `bytearray`.
  abbrev pub repeat : A → ℕ → List A
  repeat unset zero = []
  repeat unset (suc count) = unset ∷ repeat unset count

  unfoldable pub interleave : List A → ℕ → Result EccError (List A)
  interleave xs depth = if depth == 0 then err invalid_depth else ok (join_lanes depth 0 depth xs)

  unfoldable pub deinterleave : A → List A → ℕ → Result EccError (List A)
  deinterleave unset xs depth =
      if depth == 0
      then err invalid_depth
      else ok (restore depth 0 depth (repeat unset (length xs)) 0 xs)
