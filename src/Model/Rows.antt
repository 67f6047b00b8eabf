-- ===== src/Model/Rows.antt =====
-- documents/models.py, uploads/models.py, outbox/models.py and access/models.py: the rows that the
-- worker, the services and the retention read. A digest is its number, a time counts microseconds.
use splitbind.Base.{ℕ, String, Option}
use splitbind.Model.Keys.{UploadPurpose, ObjectKey}

pub data Role : Type 0 where
  administrator issuer verifier auditor : Role

pub record User : Type 0 where
  pub id : ℕ
  pub organization_id : ℕ
  pub role : Role

pub data PromotionStatus : Type 0 where
  none copying attached failed : PromotionStatus

pub record UploadRequest : Type 0 where
  pub id : ℕ
  pub organization_id : ℕ
  pub requested_by_id : ℕ
  pub purpose : UploadPurpose
  pub object_key : ObjectKey
  pub source_content_type : String
  pub expected_sha256 : Option ℕ
  pub size_bytes : Option ℕ
  pub expires_at : ℕ
  pub finalized_at : Option ℕ
  pub orphan_deleted_at : Option ℕ
  pub promotion_target_key : Option ObjectKey
  pub promotion_status : PromotionStatus
  pub promotion_status_changed_at : ℕ
  pub safe_error_code : Option String
  pub promotion_target_deleted_at : Option ℕ
  pub promotion_target_reconciled_at : Option ℕ
  pub created_at : ℕ

pub record Document : Type 0 where
  pub id : ℕ
  pub organization_id : ℕ
  pub created_by_id : ℕ
  pub upload_request_id : ℕ
  pub source_object_key : ObjectKey
  pub expected_source_sha256 : ℕ
  pub page_count : Option ℕ

pub record Issuance : Type 0 where
  pub id : ℕ
  pub organization_id : ℕ
  pub document_id : ℕ
  pub recipient_id : ℕ
  pub created_by_id : ℕ
  pub output_object_key : Option ObjectKey
  pub output_sha256 : Option ℕ
  pub output_deleted_at : Option ℕ
  pub issued_at : ℕ

pub record Verification : Type 0 where
  pub id : ℕ
  pub organization_id : ℕ
  pub upload_request_id : ℕ
  pub requested_by_id : ℕ
  pub recovered_issuance_id : Option ℕ

-- the columns of a recipient that the services read
pub record Recipient : Type 0 where
  pub id : ℕ
  pub organization_id : ℕ
