-- ===== src/Payload/Tests.antt =====
-- A golden vector of the contract, and what the theorem says of it.
use splitbind.Base.{ℕ, ◌≡◌, ◌↔◌, refl, [], ◌∷◌, ok, length}
use splitbind.Payload.{Bytes, PayloadDecode, encode_payload, decode_payload, to_bytes4, verify_crc}
use splitbind.Payload.Laws.{decode_payload_iff}

abbrev golden_issuance : Bytes
golden_issuance =
    18 ∷ 52 ∷ 86 ∷ 120 ∷ 18 ∷ 52 ∷ 86 ∷ 120 ∷ 18 ∷ 52 ∷ 86 ∷ 120 ∷ 18 ∷ 52 ∷ 86 ∷ 120 ∷ []

-- the checksum that the contract states for it: 9a e2 42 81
abbrev golden_crc : Bytes → ℕ
golden_crc body = 2598519425

abbrev golden_payload : Bytes
golden_payload =
    83 ∷ 66 ∷ 1 ∷ 18 ∷ 52 ∷ 86 ∷ 120 ∷ 18 ∷ 52 ∷ 86 ∷ 120 ∷ 18 ∷ 52 ∷ 86 ∷ 120 ∷ 18 ∷ 52 ∷ 86 ∷ 120
    ∷ 154 ∷ 226 ∷ 66 ∷ 129 ∷ []

abbrev golden_decode : PayloadDecode
golden_decode = record { issuance_id = golden_issuance; version = 1 }

golden_encoded : encode_payload golden_crc golden_issuance 1 ≡ ok golden_payload
unfolding encode_payload to_bytes4
golden_encoded = refl

golden_decoded : decode_payload golden_crc golden_payload ≡ ok golden_decode
unfolding decode_payload verify_crc to_bytes4
golden_decoded = refl

decode_payload_iff_example : (decode_payload golden_crc golden_payload ≡ ok golden_decode) ↔ (
    (length golden_issuance ≡ 16)
    × (encode_payload golden_crc golden_issuance 1 ≡ ok golden_payload))
decode_payload_iff_example = decode_payload_iff golden_crc golden_payload golden_decode
