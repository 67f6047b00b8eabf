-- ===== src/Uploads/Requests.antt =====
-- services/api/splitbind/uploads/services.py: the intent of an upload and its completion. The trail
-- holds the audit rows that the two write; the storage is what its calls answer.
pub mod Laws
pub mod Created
use text.Mathlib.Text.{◌==◌ as str_eq}
use splitbind.Base.{
  ℕ, String, ◌+◌, Bool, true, false, not, ◌&&◌, ◌||◌, Option, none, some, List, ◌∷◌, Result, ok,
  err, ◌>>◌, guard, is_some, ◌==◌, leb, opt_eq, if◌then◌else◌,
}
use splitbind.Model.Keys.{ObjectKey, orphan, UploadPurpose}
use splitbind.Model.Rows.{
  User, Role, administrator, issuer, verifier, UploadRequest, PromotionStatus,
}
use splitbind.Model.Table.{find, update_row}
use splitbind.Uploads.Save.{SaveError, Field, finalized_at, save_new, save_existing}

pub data InputKind : Type 0 where
  issuance_input verification_input unknown_input : InputKind

-- the codes of `UploadRejected`
pub data RejectCode : Type 0 where
  upload_forbidden upload_kind upload_content_type upload_size upload_sha256 storage_unavailable
        upload_not_found upload_metadata_mismatch upload_expired :
      RejectCode

-- the audit rows: a denial has the kind that is known by then
pub data Entry : Type 0 where
  intent_denied complete_denied : ℕ → RejectCode → Option InputKind → Entry
  intent_created completed : ℕ → ℕ → InputKind → Option ℕ → Entry

pub record Store : Type 0 where
  pub uploads : List UploadRequest
  pub trail : List Entry

-- a rejection, or the exception of a model's `clean`
pub data Failure : Type 0 where
  rejected : RejectCode → Failure
  invalid : SaveError → Failure

-- `_KIND_TO_PURPOSE`
abbrev pub purpose_of : InputKind → Option UploadPurpose
purpose_of issuance_input = some UploadPurpose.issuance
purpose_of verification_input = some UploadPurpose.verification
purpose_of unknown_input = none

abbrev pub kind_for : UploadRequest → InputKind
kind_for upload = elim upload.purpose [
  | UploadPurpose.issuance ↦ issuance_input
  | UploadPurpose.verification ↦ verification_input
]

abbrev pub is_content_type : String → Bool
is_content_type t = str_eq t "application/pdf" || (str_eq t "image/png" || str_eq t "image/jpeg")

-- `_authorize`
unfoldable pub authorized : Role → InputKind → Bool
authorized administrator kind = true
authorized issuer issuance_input = true
authorized verifier verification_input = true
authorized _ _ = false

-- The digest is `none` if it is no text of 64 hexadecimal digits.
unfoldable pub validate_intent :
    ℕ → User → InputKind → String → ℕ → Option ℕ → Result RejectCode (Unit {0})
validate_intent max_pdf_bytes actor kind content_type size_bytes sha256 =
    guard (authorized actor.role kind) upload_forbidden
    >> guard (is_some (purpose_of kind)) upload_kind
    >> guard (is_content_type content_type) upload_content_type
    >> guard (leb 1 size_bytes && leb size_bytes max_pdf_bytes) upload_size
    >> guard (is_some sha256) upload_sha256

-- `UPLOAD_TTL`, 15 minutes
abbrev pub upload_ttl : ℕ
upload_ttl = 900000000

abbrev pub new_upload : User → UploadPurpose → String → ℕ → Option ℕ → ℕ → ℕ → UploadRequest
new_upload actor purpose content_type size_bytes sha256 upload_id now = record {
  id = upload_id;
  organization_id = actor.organization_id;
  requested_by_id = actor.id;
  purpose = purpose;
  object_key = orphan purpose actor.organization_id upload_id;
  source_content_type = content_type;
  expected_sha256 = sha256;
  size_bytes = some size_bytes;
  expires_at = now + upload_ttl;
  finalized_at = none;
  orphan_deleted_at = none;
  promotion_target_key = none;
  promotion_status = PromotionStatus.none;
  promotion_status_changed_at = now;
  safe_error_code = none;
  promotion_target_deleted_at = none;
  promotion_target_reconciled_at = none;
  created_at = now;
}

pub record Outcome : Type 0 where
  pub store : Store
  pub result : Result Failure UploadRequest

abbrev pub deny : Entry → RejectCode → Store → Outcome
deny entry code store = record {
  store = record store { trail = entry ∷ store.trail };
  result = err (rejected code);
}

-- `presigned` tells whether the storage signs the upload.
unfoldable pub store_upload :
    Bool → User → InputKind → UploadPurpose → String → ℕ → Option ℕ → ℕ → ℕ → Store → Outcome
store_upload presigned actor kind purpose content_type size_bytes sha256 upload_id now store =
    if not presigned
    then deny (intent_denied actor.id storage_unavailable (some kind)) storage_unavailable store
    else elim (save_new false actor.organization_id
        (new_upload actor purpose content_type size_bytes sha256 upload_id now)) [
          | err e ↦ record { store = store; result = err (invalid e) }
          | ok row ↦ record {
            store = record {
              uploads = row ∷ store.uploads;
              trail = intent_created actor.id row.id kind row.size_bytes ∷ store.trail;
            };
            result = ok row;
          }
        ]

unfoldable pub create_upload :
    ℕ → Bool → User → InputKind → String → ℕ → Option ℕ → ℕ → ℕ → Store → Outcome
create_upload max_pdf_bytes presigned actor kind content_type size_bytes sha256 upload_id now
      store =
    elim (validate_intent max_pdf_bytes actor kind content_type size_bytes sha256) [
      | err code ↦ deny (intent_denied actor.id code (some kind)) code store
      | ok u ↦ elim (purpose_of kind) [
        | none ↦ deny (intent_denied actor.id upload_kind (some kind)) upload_kind store
        | some purpose ↦
            store_upload presigned actor kind purpose content_type size_bytes sha256 upload_id now
              store
      ]
    ]

-- `ObjectMetadata`: the size and the digest that the client has given
pub record ObjectMetadata : Type 0 where
  pub size_bytes : ℕ
  pub client_sha256_metadata : Option ℕ

-- what `head` answers: `unavailable` stands for StorageUnavailable
pub data Head : Type 0 where
  unavailable missing : Head
  found : ObjectMetadata → Head

abbrev pub is_available : Head → Bool
is_available unavailable = false
is_available _ = true

-- `observed.size_bytes != upload.size_bytes`, and the digests
abbrev pub is_expected : UploadRequest → ObjectMetadata → Bool
is_expected upload observed =
    opt_eq (some observed.size_bytes) upload.size_bytes
    && opt_eq observed.client_sha256_metadata upload.expected_sha256

abbrev pub check_head : Head → UploadRequest → Result RejectCode (Unit {0})
check_head unavailable upload = err storage_unavailable
check_head missing upload = err upload_metadata_mismatch
check_head (found observed) upload = guard (is_expected upload observed) upload_metadata_mismatch

-- `_scoped_upload`
abbrev pub scoped_upload : User → ℕ → Store → Option UploadRequest
scoped_upload actor upload_id store =
    find
      (λ (u : UploadRequest).
        u.organization_id == actor.organization_id
        && (u.id == upload_id
            && (elim actor.role [ administrator ↦ true | _ ↦ u.requested_by_id == actor.id ])))
      store.uploads

-- The three readings of the clock are `before`, `after` and `at`. The result is the upload, and
-- whether it was finalized just now.
unfoldable pub check_completion :
    Head → ℕ → ℕ → User → Option ℕ → UploadRequest → Result RejectCode Bool
check_completion head before after actor sha256 upload =
    guard (authorized actor.role (kind_for upload)) upload_forbidden
    >> guard (opt_eq sha256 upload.expected_sha256) upload_metadata_mismatch
    >> (if is_some upload.finalized_at
        then ok false
        else guard (not (leb upload.expires_at before)) upload_expired
          >> guard (is_available head) storage_unavailable
          >> guard (not (leb upload.expires_at after)) upload_expired
          >> check_head head upload
          >> ok true)

-- `update_fields=["finalized_at"]`
abbrev pub finalized_column : Field → Bool
finalized_column finalized_at = true
finalized_column _ = false

abbrev pub finalize : ℕ → UploadRequest → UploadRequest
finalize at upload = record upload { finalized_at = some at }

-- What is written inside of the failed transaction is rolled back; one denial is written after it. An
-- exception of `save` writes nothing. `organization_of` is the table of users. The actor of the event is
-- of the upload's organization, and its texts are short constants, so `record_event` accepts it.
unfoldable pub complete_found :
    (ℕ → ℕ) → Head → ℕ → ℕ → ℕ → User → Option ℕ → UploadRequest → Store → Outcome
complete_found organization_of head before after at actor sha256 upload store =
    elim (check_completion head before after actor sha256 upload) [
      | err code ↦ deny (complete_denied actor.id code (some (kind_for upload))) code store
      | ok false ↦ record { store = store; result = ok upload }
      | ok true ↦
          elim (save_existing false (some finalized_column) (organization_of upload.requested_by_id)
            upload (finalize at upload)) [
              | err e ↦ record { store = store; result = err (invalid e) }
              | ok row ↦ record {
                store = record {
                  uploads = update_row (λ u. u.id == upload.id) (λ u. row) store.uploads;
                  trail =
                      completed actor.id upload.id (kind_for upload) upload.size_bytes
                      ∷ store.trail;
                };
                result = ok (finalize at upload);
              }
            ]
    ]

unfoldable pub complete_upload : (ℕ → ℕ) → Head → ℕ → ℕ → ℕ → User → ℕ → Option ℕ → Store → Outcome
complete_upload organization_of head before after at actor upload_id sha256 store =
    elim (scoped_upload actor upload_id store) [
      | none ↦ deny (complete_denied actor.id upload_not_found none) upload_not_found store
      | some upload ↦ complete_found organization_of head before after at actor sha256 upload store
    ]
