-- ===== src/Payload.antt =====
-- The fingerprint payload of research/python/src/splitbind_ref/payload.py, with the numbers of
-- contracts/algorithm/payload-profile.v1.json. Bytes are numbers, and `crc32` is that of zlib.
pub mod Laws
mod Tests
use splitbind.Base.{
  ℕ, ◌≡◌, Bool, List, [], ◌∷◌, ◌++◌, ◌==◌, ◌&&◌, not, if◌then◌else◌, length, take, drop, Result, ok,
  err, ◌/◌, ◌%◌, true, false, ◌+◌, ◌*◌,
}

abbrev pub Bytes : Type 0
Bytes = List ℕ

pub data PayloadError : Type 0 where
  unsupported_version : ℕ → PayloadError
  invalid_length invalid_magic crc_mismatch : PayloadError

pub record PayloadDecode : Type 0 where
  pub issuance_id : Bytes
  pub version : ℕ

abbrev pub schema_version : ℕ
schema_version = 1

abbrev pub total_bytes : ℕ
total_bytes = 23

abbrev pub input_bytes : ℕ
input_bytes = 19

abbrev pub issuance_uuid_bytes : ℕ
issuance_uuid_bytes = 16

-- "SB"
abbrev pub magic : Bytes
magic = 83 ∷ 66 ∷ []

-- `value.to_bytes(4, "big")`, for a value below 2 ** 32
unfoldable pub to_bytes4 : ℕ → Bytes
to_bytes4 value =
    (value / 16777216 % 256) ∷ (value / 65536 % 256) ∷ (value / 256 % 256) ∷ (value % 256) ∷ []

-- `int.from_bytes(data, "big")`
abbrev pub from_bytes : ℕ → Bytes → ℕ
from_bytes value [] = value
from_bytes value (b ∷ ys) = from_bytes (value * 256 + b) ys

abbrev pub bytes_eq : Bytes → Bytes → Bool
bytes_eq [] [] = true
bytes_eq (a ∷ xs) (b ∷ ys) = (a == b) && bytes_eq xs ys
bytes_eq _ _ = false

-- `data.startswith(prefix)`
abbrev pub starts_with : Bytes → Bytes → Bool
starts_with bytes prefix = bytes_eq (take (length prefix) bytes) prefix

-- `data[start:stop]`
abbrev pub slice : ℕ → ℕ → Bytes → Bytes
slice start stop bytes = drop start (take stop bytes)

module _ (crc32 : Bytes → ℕ) where
  unfoldable pub encode_payload : Bytes → ℕ → Result PayloadError Bytes
  encode_payload issuance_id version =
      if not (version == schema_version)
      then err (unsupported_version version)
      else (let body = magic ++ ((version % 256) ∷ []) ++ issuance_id in
          ok (body ++ to_bytes4 (crc32 body)))

  unfoldable pub verify_crc : Bytes → Bool
  verify_crc payload =
      if not (length payload == total_bytes)
      then false
      else bytes_eq (to_bytes4 (crc32 (take input_bytes payload))) (drop input_bytes payload)

  unfoldable pub decode_payload : Bytes → Result PayloadError PayloadDecode
  unfolding verify_crc
  decode_payload encoded =
      if not (length encoded == total_bytes)
      then err invalid_length
      else if not (starts_with encoded magic)
      then err invalid_magic
      else (let version = from_bytes 0 (slice 2 3 encoded) in
          if not (version == schema_version)
          then err (unsupported_version version)
          else if not (verify_crc encoded)
          then err crc_mismatch
          else ok (record {
            issuance_id = slice 3 (3 + issuance_uuid_bytes) encoded;
            version = version;
          }))
