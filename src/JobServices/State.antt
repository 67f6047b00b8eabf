-- ===== src/JobServices/State.antt =====
-- What services/api/splitbind/jobs/services.py reads and writes, its exceptions, the calls of the
-- storage, and the rows that it adds to the audit trail.
use splitbind.Base.{ℕ, Bool, true, false, Option, List, ◌∷◌, Result}
use splitbind.Audit.{AuditOutcome}
use splitbind.Jobs.State.{JobKind, JobStatus, InvalidJobTransition}
use splitbind.Model.Keys.{ObjectKey}
use splitbind.Model.Rows.{User, Recipient}
use splitbind.Retention.State.{Store, CleanupScheduleState, AuditEvent}
use splitbind.Uploads.Promotion.{PromotionError}
use splitbind.Worker.Db.{Db, JobRequest}
use splitbind.Worker.Saves.{WorkerError}

-- the codes of `UploadRejected` and of `JobConflict`
pub data RejectCode : Type 0 where
  wrong_purpose not_finalized expired legacy_metadata copy_mismatch : RejectCode

pub data ConflictCode : Type 0 where
  already_reserved promotion_state cancel_already_requested job_terminal : ConflictCode

pub data ServiceError : Type 0 where
  permission_denied workflow_not_found row_missing : ServiceError
  upload_rejected : RejectCode → ServiceError
  job_conflict : ConflictCode → ServiceError
  promotion_refused : PromotionError → ServiceError
  database_refused : WorkerError → ServiceError
  transition_refused : InvalidJobTransition → ServiceError
  storage_failed : ServiceError

-- the classes that `create_issuance` and `create_verification` catch
abbrev pub is_denial : ServiceError → Bool
is_denial permission_denied = true
is_denial workflow_not_found = true
is_denial (upload_rejected code) = true
is_denial (job_conflict code) = true
is_denial _ = false

-- the classes that `request_cancel` catches
abbrev pub is_cancel_denial : ServiceError → Bool
is_cancel_denial permission_denied = true
is_cancel_denial workflow_not_found = true
is_cancel_denial (job_conflict code) = true
is_cancel_denial _ = false

-- the actions of the services, and what an event is about
pub data Action : Type 0 where
  workflow_created create_denied : JobKind → Action
  cancel_requested cancel_denied cleanup_deferred : Action

pub data EventTarget : Type 0 where
  of_user of_issuance of_verification of_job : ℕ → EventTarget

pub data Detail : Type 0 where
  progress : JobStatus → ℕ → Detail
  denied_for : ServiceError → Detail
  deferred : JobStatus → Detail

-- The row of an event. The actor is a saved row of an organization and the target is its own, so the
-- checks of `record_event` pass.
pub record Event : Type 0 where
  pub organization_id : ℕ
  pub actor_id : ℕ
  pub action : Action
  pub target : EventTarget
  pub outcome : AuditOutcome
  pub correlation_id : ℕ
  pub detail : Detail

-- The tables, with those of the retention, and the objects that were deleted.
pub record Site : Type 0 where
  pub db : Db
  pub recipients : List Recipient
  pub schedule : CleanupScheduleState
  pub system_events : List AuditEvent
  pub deleted : List ObjectKey
  pub events : List Event

unfoldable pub record_actor_event :
    User → Action → EventTarget → AuditOutcome → ℕ → Detail → Site → Site
record_actor_event actor action target outcome correlation_id detail site = record site {
  events =
      record {
        organization_id = actor.organization_id;
        actor_id = actor.id;
        action = action;
        target = target;
        outcome = outcome;
        correlation_id = correlation_id;
        detail = detail;
      }
      ∷ site.events;
}

-- the tables as the retention service sees them, and the return to them
abbrev pub to_store : Site → Store
to_store site = record {
  uploads = site.db.uploads;
  issuances = site.db.issuances;
  documents = site.db.documents;
  verifications = site.db.verifications;
  jobs = site.db.jobs;
  schedule = site.schedule;
  audit = site.system_events;
  deleted = site.deleted;
}

-- The retention writes uploads, issuances, its schedule and its own events.
abbrev pub from_store : Store → Site → Site
from_store store site = record site {
  db = record site.db { uploads = store.uploads; issuances = store.issuances };
  schedule = store.schedule;
  system_events = store.audit;
  deleted = store.deleted;
}

-- what `copy_verified` observes of the copy
pub record ObjectMetadata : Type 0 where
  pub key : ObjectKey
  pub size_bytes : ℕ
  pub client_sha256_metadata : Option ℕ

-- What the code relies on and does not define: the storage provider, the JSON schema, the organization
-- of a user, and `settings.JOB_TIMEOUT_SECONDS`. A copy may raise or return nothing.
pub record Outside : Type 0 where
  pub copy_verified : ObjectKey → ObjectKey → Option ℕ → Result ServiceError (Option ObjectMetadata)
  pub deletes : ObjectKey → Bool
  pub schema_accepts : JobRequest → Bool
  pub organization_of : ℕ → ℕ
  pub timeout_seconds : ℕ

-- The readings of the clock and the new identifiers of one call.
pub record Call : Type 0 where
  pub now : ℕ
  pub reserved_at : ℕ
  pub job_now : ℕ
  pub attached_at : ℕ
  pub failed_at : ℕ
  pub deleted_at : ℕ
  pub document_id : ℕ
  pub domain_id : ℕ
  pub job_id : ℕ
  pub event_id : ℕ
  pub message_id : ℕ
