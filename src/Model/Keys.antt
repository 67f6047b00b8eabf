-- ===== src/Model/Keys.antt =====
-- The controlled object keys of services/api/splitbind/integrations/storage/base.py. A key is a
-- text; the three regular expressions name its parts, and this is a key by its parts. `uncontrolled`
-- is any text that none of the three accepts. UUIDs are numbers.
pub mod Laws
use text.Mathlib.Text.{◌==◌ as str_eq}
use splitbind.Base.{ℕ, String, Bool, true, false, ◌&&◌, Result, ok, err, ◌==◌}

-- uploads/models.py `UploadPurpose`; the texts are those of `JobKind`
pub data UploadPurpose : Type 0 where
  issuance verification : UploadPurpose

abbrev pub purpose_eq : UploadPurpose → UploadPurpose → Bool
purpose_eq issuance issuance = true
purpose_eq verification verification = true
purpose_eq _ _ = false

-- the extension of an issued file
pub data Extension : Type 0 where
  pdf png : Extension

abbrev pub extension_eq : Extension → Extension → Bool
extension_eq pdf pdf = true
extension_eq png png = true
extension_eq _ _ = false

pub data ObjectKey : Type 0 where
  -- uploads/orphan/{purpose}_input/{organization}/{object}.bin
  orphan : UploadPurpose → ℕ → ℕ → ObjectKey
  -- inputs/{kind}/{organization}/{upload}.bin
  promoted : UploadPurpose → ℕ → ℕ → ObjectKey
  -- outputs/issuance/{organization}/{issuance}.{extension}
  issuance_output : ℕ → ℕ → Extension → ObjectKey
  uncontrolled : String → ObjectKey

abbrev pub key_eq : ObjectKey → ObjectKey → Bool
key_eq (orphan p o u) (orphan q r v) = purpose_eq p q && (o == r && u == v)
key_eq (promoted p o u) (promoted q r v) = purpose_eq p q && (o == r && u == v)
key_eq (issuance_output o i e) (issuance_output r j f) = extension_eq e f && (o == r && i == j)
key_eq (uncontrolled s) (uncontrolled t) = str_eq s t
key_eq _ _ = false

-- the groups of a match
pub record KeyParts : Type 0 where
  pub kind : UploadPurpose
  pub organization : ℕ
  pub object : ℕ

-- the errors of the validators, each with its own message
pub data KeyError : Type 0 where
  not_controlled not_orphan not_promoted not_output copy_boundary : KeyError

unfoldable pub validate_controlled_key : ObjectKey → Result KeyError (Unit {0})
validate_controlled_key (uncontrolled s) = err not_controlled
validate_controlled_key _ = ok tt

unfoldable pub validate_orphan_key : ObjectKey → Result KeyError KeyParts
validate_orphan_key (orphan p o u) = ok (record { kind = p; organization = o; object = u })
validate_orphan_key _ = err not_orphan

unfoldable pub validate_promoted_key : ObjectKey → Result KeyError KeyParts
validate_promoted_key (promoted p o u) = ok (record { kind = p; organization = o; object = u })
validate_promoted_key _ = err not_promoted

-- the organization and the issuance
unfoldable pub validate_issuance_output_key : ObjectKey → Result KeyError (ℕ × ℕ)
validate_issuance_output_key (issuance_output o i e) = ok (o, i)
validate_issuance_output_key _ = err not_output
