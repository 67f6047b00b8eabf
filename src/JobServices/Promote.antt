-- ===== src/JobServices/Promote.antt =====
-- The owner of a promoted copy: `_authorize_create`, `reserve_promotion`, `_mark_failed`,
-- `_verify_copy_observation` and `_lock_unchanged_reservation` of
-- services/api/splitbind/jobs/services.py. An `err` leaves the tables as they were.
pub mod Laws
use splitbind.Base.{
  ℕ, String, Bool, true, false, not, ◌&&◌, ◌||◌, Option, none, some, Result, ok, err, ◌>>=◌, ◌>>◌,
  guard, is_some, ◌==◌, leb, opt_eq, if◌then◌else◌,
}
use splitbind.Jobs.State.{JobKind, issuance, verification}
use splitbind.JobServices.State.{
  Site, ServiceError, ObjectMetadata, permission_denied, workflow_not_found, row_missing,
  upload_rejected, job_conflict, promotion_refused, wrong_purpose, not_finalized, expired,
  legacy_metadata, copy_mismatch, already_reserved, promotion_state,
}
use splitbind.Model.Keys.{ObjectKey, UploadPurpose, promoted, key_eq, purpose_eq}
use splitbind.Model.Rows.{
  User, Role, administrator, issuer, verifier, UploadRequest, PromotionStatus, copying, failed,
}
use splitbind.Model.Table.{find, update_row}
use splitbind.Uploads.Promotion.{PromotionError, save_promotion, status_eq, key_opt_eq}

-- `_purpose`
abbrev pub purpose_of : JobKind → UploadPurpose
purpose_of issuance = UploadPurpose.issuance
purpose_of verification = UploadPurpose.verification

unfoldable pub promoted_input_key : JobKind → ℕ → ℕ → ObjectKey
promoted_input_key kind organization_id upload_id =
    promoted (purpose_of kind) organization_id upload_id

abbrev pub may_create : Role → JobKind → Bool
may_create administrator kind = true
may_create issuer issuance = true
may_create verifier verification = true
may_create _ _ = false

unfoldable pub authorize_create : User → JobKind → Result ServiceError (Unit {0})
authorize_create actor kind = guard (may_create actor.role kind) permission_denied

-- a change of the promotion and its save
unfoldable pub promote :
    PromotionStatus
    → Option ObjectKey
    → Option String
    → ℕ
    → UploadRequest
    → Site
    → Result ServiceError (UploadRequest × Site)
unfolding save_promotion update_row
promote status target_key safe_error_code at upload site =
    elim (save_promotion (some status) target_key safe_error_code at upload) [
      | err e ↦ err (promotion_refused e)
      | ok row ↦ ok (
        row,
        record site {
          db = record site.db {
            uploads = update_row (λ r. r.id == upload.id) (λ r. row) site.db.uploads;
          };
        },
      )
    ]

-- the conditions under which an upload can be reserved, in the order of the code
unfoldable pub check_reservable : JobKind → ℕ → UploadRequest → Result ServiceError (Unit {0})
check_reservable kind now upload =
    guard (purpose_eq upload.purpose (purpose_of kind)) (upload_rejected wrong_purpose)
    >> guard (is_some upload.finalized_at) (upload_rejected not_finalized)
    >> guard (not (leb upload.expires_at now)) (upload_rejected expired)
    >> guard (is_some upload.expected_sha256 && is_some upload.size_bytes)
        (upload_rejected legacy_metadata)
    >> guard
        (status_eq upload.promotion_status PromotionStatus.none
          && not (is_some upload.promotion_target_key))
        (job_conflict already_reserved)

unfoldable pub reserve_upload :
    User → JobKind → ℕ → ℕ → UploadRequest → Site → Result ServiceError (UploadRequest × Site)
unfolding check_reservable promoted_input_key promote
reserve_upload actor kind now at upload site =
    check_reservable kind now upload
    >> promote copying (some (promoted_input_key kind actor.organization_id upload.id)) none at
        upload site

unfoldable pub reserve_promotion :
    User → ℕ → JobKind → ℕ → ℕ → Site → Result ServiceError (UploadRequest × Site)
unfolding authorize_create find reserve_upload
reserve_promotion actor upload_id kind now at site =
    authorize_create actor kind
    >> (elim (find
        (λ (u : UploadRequest).
          u.id == upload_id
          && (u.organization_id == actor.organization_id && u.requested_by_id == actor.id))
        site.db.uploads) [
          | none ↦ err workflow_not_found
          | some upload ↦ reserve_upload actor kind now at upload site
        ])

-- `_mark_failed`, whose exceptions its callers drop
unfoldable pub mark_failed : ℕ → Option ObjectKey → String → ℕ → Site → Site
unfolding find promote
mark_failed upload_id target_key safe_code at site =
    elim (find (λ (u : UploadRequest). u.id == upload_id) site.db.uploads) [
      | none ↦ site
      | some locked ↦
          if status_eq locked.promotion_status copying
            && key_opt_eq locked.promotion_target_key target_key
          then (elim (promote failed target_key (some safe_code) at locked site) [
            | err e ↦ site
            | ok p ↦ p.1
          ])
          else site
    ]

-- `_verify_copy_observation`
unfoldable pub verify_copy_observation :
    Option ObjectMetadata → UploadRequest → Result ServiceError (Unit {0})
verify_copy_observation none upload = err (upload_rejected copy_mismatch)
verify_copy_observation (some copied) upload =
    guard
      (key_opt_eq (some copied.key) upload.promotion_target_key
        && (opt_eq (some copied.size_bytes) upload.size_bytes
            && opt_eq copied.client_sha256_metadata upload.expected_sha256))
      (upload_rejected copy_mismatch)

-- the condition `unchanged`
unfoldable pub is_unchanged : User → JobKind → UploadRequest → UploadRequest → Bool
is_unchanged actor kind upload locked =
    status_eq locked.promotion_status copying
    && (key_opt_eq locked.promotion_target_key upload.promotion_target_key
        && (locked.organization_id == actor.organization_id
            && (locked.requested_by_id == actor.id
                && (purpose_eq locked.purpose (purpose_of kind)
                    && (opt_eq locked.expected_sha256 upload.expected_sha256
                        && (opt_eq locked.size_bytes upload.size_bytes
                            && (opt_eq locked.finalized_at upload.finalized_at
                                && not (is_some locked.promotion_target_deleted_at))))))))

-- `_lock_unchanged_reservation`. A row that is gone raises `DoesNotExist`.
unfoldable pub lock_unchanged_reservation :
    UploadRequest → User → JobKind → Site → Result ServiceError UploadRequest
unfolding find is_unchanged
lock_unchanged_reservation upload actor kind site =
    elim (find (λ (u : UploadRequest). u.id == upload.id) site.db.uploads) [
      | none ↦ err row_missing
      | some locked ↦
          if is_unchanged actor kind upload locked
          then ok locked
          else err (job_conflict promotion_state)
    ]
