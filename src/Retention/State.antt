-- ===== src/Retention/State.antt =====
-- What the retention service reads and writes: `CleanupScheduleState` of uploads/models.py, the rows
-- of audit/models.py, the tables, and the objects that the storage was told to delete.
use splitbind.Base.{ℕ, String, Bool, Option, List, ◌∷◌}
use splitbind.Audit.{AuditOutcome}
use splitbind.Jobs.State.{Job}
use splitbind.Model.Keys.{ObjectKey}
use splitbind.Model.Rows.{UploadRequest, Issuance, Document, Verification}

pub data CleanupLane : Type 0 where
  ordinary reconciliation : CleanupLane

pub record CleanupScheduleState : Type 0 where
  pub next_lane : CleanupLane
  pub reconciliation_cursor_at : Option ℕ
  pub reconciliation_cursor_id : Option ℕ
  pub reconciliation_claim_upload_id : Option ℕ
  pub reconciliation_claim_token : Option ℕ
  pub reconciliation_claim_expires_at : Option ℕ
  pub has_run : Bool

pub data AuditTarget : Type 0 where
  upload_request issuance : AuditTarget

-- an audit row of the system; its metadata is either a status or an error code
pub record AuditEvent : Type 0 where
  pub organization_id : ℕ
  pub action : String
  pub target_type : AuditTarget
  pub target_id : ℕ
  pub outcome : AuditOutcome
  pub status : Option String
  pub safe_error_code : Option String

pub record Store : Type 0 where
  pub uploads : List UploadRequest
  pub issuances : List Issuance
  pub documents : List Document
  pub verifications : List Verification
  pub jobs : List Job
  pub schedule : CleanupScheduleState
  pub audit : List AuditEvent
  -- the keys of the calls of `storage.delete` that returned, the last one first
  pub deleted : List ObjectKey

-- `storage.delete(key=key)` returns
abbrev pub log_delete : ObjectKey → Store → Store
log_delete key store = record store { deleted = key ∷ store.deleted }
