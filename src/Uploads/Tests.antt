-- ===== src/Uploads/Tests.antt =====
-- An upload that is promoted, and what the theorems say of it.
use splitbind.Base.{ℕ, ◌≡◌, refl, Bool, true, false, Option, none, some, ok, inl}
use splitbind.Base.{[], ◌∷◌, ◌⊎◌, err}
use splitbind.Model.Table.{find}
use splitbind.Model.Rows.{User, issuer}
use splitbind.Uploads.Requests.{
  Store, Head, found, rejected, upload_expired, issuance_input, finalize, complete_upload,
  complete_found, check_completion, authorized, create_upload,
}
use splitbind.Uploads.Requests.Laws.{IsDenied, IsForeign, IsCompleted, complete_upload-outcome}
use splitbind.Uploads.Requests.Created.{IsRefused, IsCreated, create_upload-outcome}
use splitbind.Model.Keys.{issuance, orphan, promoted, validate_promoted_key}
use splitbind.Model.Rows.{UploadRequest, PromotionStatus, copying, attached}
use splitbind.Uploads.Promotion.{save_promotion, change_promotion, allowed, check_target}
use splitbind.Uploads.Promotion.Laws.{
  Changes, here, next, IsPromotion, Changes-IsPromotion, attached_absorbs,
}
use splitbind.Uploads.Save.{
  Field, finalized_at, save_existing, check_evidence, check_immutable, write,
}
use splitbind.Uploads.Save.Laws.{
  IsLater, IsSameIntent, save_existing-IsLater, save_existing-evidence,
}

abbrev upload : UploadRequest
upload = record {
  id = 4;
  organization_id = 2;
  requested_by_id = 3;
  purpose = issuance;
  object_key = orphan issuance 2 4;
  source_content_type = "application/pdf";
  expected_sha256 = some 99;
  size_bytes = some 1000;
  expires_at = 900;
  finalized_at = none;
  orphan_deleted_at = none;
  promotion_target_key = none;
  promotion_status = PromotionStatus.none;
  promotion_status_changed_at = 10;
  safe_error_code = none;
  promotion_target_deleted_at = none;
  promotion_target_reconciled_at = none;
  created_at = 10;
}

abbrev upload_copying : UploadRequest
upload_copying = record upload {
  promotion_target_key = some (promoted issuance 2 4);
  promotion_status = copying;
  promotion_status_changed_at = 20;
}

abbrev upload_attached : UploadRequest
upload_attached = record upload_copying {
  promotion_status = attached;
  promotion_status_changed_at = 30;
}

reserve_run :
    save_promotion (some copying) (some (promoted issuance 2 4)) none 20 upload ≡ ok upload_copying
unfolding save_promotion change_promotion allowed check_target validate_promoted_key
reserve_run = refl

attach_run :
    save_promotion (some attached) (some (promoted issuance 2 4)) none 30 upload_copying
    ≡ ok upload_attached
unfolding save_promotion change_promotion allowed check_target validate_promoted_key
attach_run = refl

repeat_run :
    save_promotion (some attached) (some (promoted issuance 2 4)) none 40 upload_attached
    ≡ ok upload_attached
unfolding save_promotion change_promotion allowed check_target validate_promoted_key
repeat_run = refl

upload-IsPromotion : IsPromotion upload
upload-IsPromotion = record {
  reserved = λ h. absurd (cc h);
  unreserved = λ h. refl;
  coded = λ h. absurd (cc h);
  uncoded = λ h. refl;
  owned = λ key h. absurd (cc h);
}

promotion_history : Changes upload upload_attached
promotion_history =
    next (some attached) (some (promoted issuance 2 4)) none 30 upload_attached
      (next (some copying) (some (promoted issuance 2 4)) none 20 upload_copying here reserve_run)
      attach_run

repeat_history : Changes upload_attached upload_attached
repeat_history =
    next (some attached) (some (promoted issuance 2 4)) none 40 upload_attached here repeat_run

Changes-IsPromotion_example : IsPromotion upload_attached
Changes-IsPromotion_example = Changes-IsPromotion promotion_history upload-IsPromotion

attached_absorbs_example : upload_attached ≡ upload_attached
attached_absorbs_example = attached_absorbs repeat_history (inl refl)

abbrev upload_finalized : UploadRequest
upload_finalized = record upload { finalized_at = some 15 }

abbrev only_finalized : Field → Bool
only_finalized finalized_at = true
only_finalized _ = false

finalize_run :
    save_existing false (some only_finalized) 2 upload upload_finalized ≡ ok upload_finalized
unfolding save_existing check_evidence check_immutable write
finalize_run = refl

save_existing-IsLater_example :
    IsLater upload upload_finalized × IsSameIntent upload upload_finalized
save_existing-IsLater_example =
    save_existing-IsLater false (some only_finalized) 2 upload upload_finalized upload_finalized
      finalize_run

save_existing-evidence_example :
    ((◌≡◌ {A = Option ℕ} none none))
    × (◌≡◌ {A = Option ℕ} none none)
    × (◌≡◌ {A = Option ℕ} none none)
save_existing-evidence_example =
    save_existing-evidence (some only_finalized) 2 upload upload_finalized upload_finalized
      finalize_run

abbrev issuer_user : User
issuer_user = record { id = 3; organization_id = 2; role = issuer }

abbrev uploads_store : Store
uploads_store = record { uploads = upload ∷ []; trail = [] }

abbrev stored_object : Head
stored_object = found (record { size_bytes = 1000; client_sha256_metadata = some 99 })

complete_run :
    (complete_upload
      (λ user. 2)
      stored_object
      100
      200
      300
      issuer_user
      4
      (some 99)
      uploads_store).result
    ≡ ok (finalize 300 upload)
unfolding complete_upload complete_found check_completion authorized find save_existing
    check_evidence check_immutable write
complete_run = refl

expired_run :
    (complete_upload
      (λ user. 2)
      stored_object
      900
      901
      902
      issuer_user
      4
      (some 99)
      uploads_store).result
    ≡ err (rejected upload_expired)
unfolding complete_upload complete_found check_completion authorized find
expired_run = refl

complete_upload-outcome_example :
    IsDenied issuer_user uploads_store
      (complete_upload (λ user. 2) stored_object 100 200 300 issuer_user 4 (some 99) uploads_store)
    ⊎ IsForeign
        (λ user. 2)
        issuer_user
        4
        uploads_store
        (complete_upload
          (λ user. 2)
          stored_object
          100
          200
          300
          issuer_user
          4
          (some 99)
          uploads_store)
    ⊎ IsCompleted
        (λ user. 2)
        stored_object
        100
        200
        300
        issuer_user
        4
        (some 99)
        uploads_store
        (complete_upload
          (λ user. 2)
          stored_object
          100
          200
          300
          issuer_user
          4
          (some 99)
          uploads_store)
complete_upload-outcome_example =
    complete_upload-outcome (λ user. 2) stored_object 100 200 300 issuer_user 4 (some 99)
      uploads_store

create_upload-outcome_example :
    IsRefused issuer_user issuance_input uploads_store (
      create_upload 5000 true issuer_user issuance_input "image/png" 10 (some 1) 6 50 uploads_store)
    ⊎ IsCreated 5000 issuer_user issuance_input "image/png" 10 (some 1) 6 50 uploads_store (
        create_upload 5000 true issuer_user issuance_input "image/png" 10
          (some 1)
          6
          50
          uploads_store)
create_upload-outcome_example =
    create_upload-outcome 5000 issuer_user issuance_input "image/png" 10 (some 1) 6 50 uploads_store
      true
