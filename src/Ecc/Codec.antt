-- ===== src/Ecc/Codec.antt =====
-- Framing: the codeword is interleaved, and an erased position is mapped back to the raw codeword.
use splitbind.Base.{
  ℕ, Bool, true, false, Option, none, some, List, [], ◌∷◌, ◌==◌, ◌+◌, ltb, not, ◌&&◌, ◌||◌,
  if◌then◌else◌, length, get_elem?, Result, ok, err, ◌>>=◌, ◌>>◌, guard,
}
use splitbind.Ecc.{
  EccError, indices, interleave, deinterleave, invalid_payload_length, invalid_parity,
  invalid_codeword_length, invalid_positions, duplicate_positions, too_many_erasures,
  correction_failed, invalid_decoded_length,
}

abbrev pub message_bytes : ℕ
message_bytes = 23

abbrev pub contracted_parity : ℕ
contracted_parity = 16

abbrev pub interleave_depth : ℕ
interleave_depth = 8

abbrev pub member : ℕ → List ℕ → Bool
member a [] = false
member a (x ∷ xs) = (a == x) || member a xs

abbrev pub all_below : ℕ → List ℕ → Bool
all_below n [] = true
all_below n (x ∷ xs) = ltb x n && all_below n xs

abbrev pub distinct : List ℕ → Bool
distinct [] = true
distinct (x ∷ xs) = not (member x xs) && distinct xs

unfoldable pub validate_erase_positions : List ℕ → ℕ → Result EccError (List ℕ)
validate_erase_positions positions expected_length =
    if not (all_below expected_length positions)
    then err invalid_positions
    else if not (distinct positions)
    then err duplicate_positions
    else ok positions

-- `[raw_index[position] for position in positions]`; `none` where the index is out of range
unfoldable pub raw_positions : List ℕ → List ℕ → Option (List ℕ)
raw_positions raw_index [] = some []
raw_positions raw_index (position ∷ positions) = elim (get_elem? raw_index position) [
  | none ↦ none
  | some raw ↦ elim (raw_positions raw_index positions) [
    | none ↦ none
    | some rest ↦ some (raw ∷ rest)
  ]
]

-- `_codec(parity_symbols)`: the encoder, and the decoder of a word with its erased positions, where
-- `none` stands for ReedSolomonError.
pub record Codec : Type 0 where
  pub encode : List ℕ → List ℕ
  pub decode : List ℕ → List ℕ → Option (List ℕ)

module _ (codec : ℕ → Codec) where
  unfoldable pub encode_ecc : List ℕ → ℕ → Result EccError (List ℕ)
  encode_ecc payload parity_symbols = do
    guard (length payload == message_bytes) invalid_payload_length
    guard (parity_symbols == contracted_parity) invalid_parity
    interleave ((codec parity_symbols).encode payload) interleave_depth

  unfoldable pub decoded_message : Option (List ℕ) → Result EccError (List ℕ)
  decoded_message none = err correction_failed
  decoded_message (some decoded) =
      if length decoded == message_bytes then ok decoded else err invalid_decoded_length

  unfoldable pub decode_ecc : List ℕ → ℕ → Result EccError (List ℕ)
  decode_ecc codeword parity_symbols = do
    guard (parity_symbols == contracted_parity) invalid_parity
    guard (length codeword == message_bytes + parity_symbols) invalid_codeword_length
    let raw_codeword = (← deinterleave 0 codeword interleave_depth)
    decoded_message ((codec parity_symbols).decode raw_codeword [])

  unfoldable pub decode_ecc_with_erasures : List ℕ → List ℕ → ℕ → Result EccError (List ℕ)
  decode_ecc_with_erasures codeword erase_positions parity_symbols = do
    let expected_length = message_bytes + parity_symbols
    guard (parity_symbols == contracted_parity) invalid_parity
    guard (length codeword == expected_length) invalid_codeword_length
    let positions = (← validate_erase_positions erase_positions expected_length)
    guard (not (ltb parity_symbols (length positions))) too_many_erasures
    let raw_codeword = (← deinterleave 0 codeword interleave_depth)
    let raw_index = (← interleave (indices 0 expected_length) interleave_depth)
    elim (raw_positions raw_index positions) [
      | none ↦ err invalid_positions
      | some raw ↦ decoded_message ((codec parity_symbols).decode raw_codeword raw)
    ]
