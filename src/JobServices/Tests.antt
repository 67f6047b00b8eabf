-- ===== src/JobServices/Tests.antt =====
-- Runs of the job services on a small site, and their theorems there.
use splitbind.Base.{ℕ, ◌≡◌, refl, ◌≢◌, true, false, none, some, [], ◌∷◌, Result, ok, err, inl, inr}
use splitbind.Access.{filter_rows}
use splitbind.Jobs.State.{Job, issuance, created, queued, cancelled}
use splitbind.JobServices.Cancel.{request_cancel}
use splitbind.JobServices.Cancel.Laws.{request_cancel_replay}
use splitbind.JobServices.Create.{create_issuance, create_verification}
use splitbind.JobServices.Finalize.{finalize, create_issuance_domain}
use splitbind.JobServices.Finalize.Queued.{stage-finalize}
use splitbind.JobServices.Promote.{reserve_promotion}
use splitbind.JobServices.Promote.Laws.{reserve_promotion_once}
use splitbind.JobServices.State.{
  Site, Outside, Call, ServiceError, Event, upload_rejected, job_conflict, copy_mismatch,
  already_reserved, cancel_already_requested,
}
use splitbind.Model.Keys.{UploadPurpose, orphan, promoted}
use splitbind.Model.Rows.{User, Recipient, UploadRequest, PromotionStatus, issuer, copying}
use splitbind.Model.Table.{count_rows}
use splitbind.Model.Table.Laws.{Among}
use splitbind.Retention.Delete.{deletion_recorded, record_deletion_evidence}
use splitbind.Retention.Eligible.{key_is_owned}
use splitbind.Retention.Lanes.{orphan_deleted}
use splitbind.Retention.State.{CleanupScheduleState, ordinary}
use splitbind.Uploads.Save.{save_existing, check_evidence, check_immutable}
use splitbind.Worker.Outbox.{stage_next_created_job}
use splitbind.Worker.Saves.{save_status, next_job}

abbrev actor : User
actor = record { id = 2; organization_id = 7; role = issuer }

abbrev recipient : Recipient
recipient = record { id = 3; organization_id = 7 }

abbrev upload : UploadRequest
upload = record {
  id = 80;
  organization_id = 7;
  requested_by_id = 2;
  purpose = UploadPurpose.issuance;
  object_key = orphan UploadPurpose.issuance 7 80;
  source_content_type = "application/pdf";
  expected_sha256 = some 777;
  size_bytes = some 1000;
  expires_at = 900;
  finalized_at = some 90;
  orphan_deleted_at = none;
  promotion_target_key = none;
  promotion_status = PromotionStatus.none;
  promotion_status_changed_at = 50;
  safe_error_code = none;
  promotion_target_deleted_at = none;
  promotion_target_reconciled_at = none;
  created_at = 50;
}

abbrev schedule : CleanupScheduleState
schedule = record {
  next_lane = ordinary;
  reconciliation_cursor_at = none;
  reconciliation_cursor_id = none;
  reconciliation_claim_upload_id = none;
  reconciliation_claim_token = none;
  reconciliation_claim_expires_at = none;
  has_run = false;
}

abbrev site : Site
site = record {
  db = record {
    jobs = [];
    outbox = [];
    issuances = [];
    documents = [];
    verifications = [];
    uploads = upload ∷ [];
    issuance_results = [];
    verification_results = [];
  };
  recipients = recipient ∷ [];
  schedule = schedule;
  system_events = [];
  deleted = [];
  events = [];
}

-- A provider whose copies have the size `size`.
abbrev outside : ℕ → Outside
outside size = record {
  copy_verified = λ source target sha256.
      ok (some (record { key = target; size_bytes = size; client_sha256_metadata = sha256 }));
  deletes = λ key. true;
  schema_accepts = λ request. true;
  organization_of = λ user. 7;
  timeout_seconds = 60;
}

abbrev call : Call
call = record {
  now = 100;
  reserved_at = 101;
  job_now = 102;
  attached_at = 103;
  failed_at = 104;
  deleted_at = 105;
  document_id = 61;
  domain_id = 41;
  job_id = 1;
  event_id = 10;
  message_id = 20;
}

abbrev reserved_upload : UploadRequest
reserved_upload = record upload {
  promotion_target_key = some (promoted UploadPurpose.issuance 7 80);
  promotion_status = copying;
  promotion_status_changed_at = 101;
}

abbrev reserved_site : Site
reserved_site = record site { db = record site.db { uploads = reserved_upload ∷ [] } }

reserves : reserve_promotion actor 80 issuance 100 101 site ≡ ok (reserved_upload, reserved_site)
unfolding reserve_promotion
reserves = refl

reserves_again :
    reserve_promotion actor 80 issuance 102 103 reserved_site ≡ err (job_conflict already_reserved)
unfolding reserve_promotion
reserves_again = refl

still_reserved :
    (u : UploadRequest) → Among u reserved_site.db.uploads → u.id ≡ 80 → u ≡ reserved_upload
unfolding reserved_site
still_reserved u (inl e) i = e
still_reserved u (inr m) i = absurd m

reserve_promotion_once_example :
    reserve_promotion actor 80 issuance 102 103 reserved_site ≢ ok (reserved_upload, reserved_site)
reserve_promotion_once_example =
    reserve_promotion_once actor actor 80 issuance issuance 100 101 102 103 reserved_upload
      reserved_upload site reserved_site reserved_site reserved_site reserves still_reserved

abbrev outcome : ℕ → Site × Result ServiceError Job
unfolding create_issuance
outcome size = create_issuance (outside size) call (λ s. s) actor 3 80 5 site

-- A creation makes one row of each table, and the source object is deleted.
creates :
    ((outcome 1000).0.deleted ≡ orphan UploadPurpose.issuance 7 80 ∷ [])
    × (count_rows (λ (j : Job). true) (outcome 1000).0.db.jobs ≡ 1)
    × (count_rows (λ (e : Event). true) (outcome 1000).0.events ≡ 1)
unfolding create_issuance count_rows key_is_owned orphan_deleted deletion_recorded
    record_deletion_evidence save_existing check_evidence check_immutable
creates = (refl, refl, refl)

-- A copy of another size is refused, and the denial is in the trail.
refuses :
    ((outcome 999).1 ≡ err (upload_rejected copy_mismatch))
    × (count_rows (λ (j : Job). true) (outcome 999).0.db.jobs ≡ 0)
    × (count_rows (λ (e : Event). true) (outcome 999).0.events ≡ 1)
unfolding create_issuance count_rows
refuses = (refl, refl, refl)

-- nothing can be verified with an upload for an issuance
abbrev wrong_kind : Site × Result ServiceError Job
unfolding create_verification
wrong_kind = create_verification (outside 1000) call (λ s. s) actor 80 5 site

-- the job and the site of a finished creation
abbrev finished : Result ServiceError (Job × Site) → Job → Job × Site
finished (ok p) job = p
finished (err e) job = (job, reserved_site)

abbrev waiting : Job
waiting = record {
  id = 1;
  organization_id = 7;
  kind = issuance;
  status = created;
  attempt = 0;
  issuance_id = some 41;
  verification_id = none;
  deadline_at = 60000102;
  correlation_id = 5;
  cancel_requested_at = none;
  safe_error_code = none;
  created_at = 102;
  updated_at = 102;
}

abbrev attached_site : Site
unfolding finalize create_issuance_domain
attached_site =
    (finished
      (finalize (outside 1000) call actor reserved_upload issuance 5
        (create_issuance_domain actor recipient call) reserved_site)
      waiting).1

finalizes :
    finalize
      (outside 1000)
      call
      actor
      reserved_upload
      issuance
      5
      (create_issuance_domain actor recipient call)
      reserved_site
    ≡ ok (waiting, attached_site)
unfolding finalize create_issuance_domain attached_site
finalizes = refl

stage-finalize_example :
    stage_next_created_job (λ request. true) true (λ i. false) 150 attached_site.db
    ≡ ok (
      save_status 150 (record waiting { status = queued }) attached_site.db,
      some (record waiting { status = queued; updated_at = 150 }),
    )
unfolding attached_site count_rows next_job
stage-finalize_example =
    stage-finalize (outside 1000) call actor recipient reserved_upload 5 150 (λ i. false)
      reserved_site attached_site waiting finalizes refl refl

abbrev cancel_run : Site × Result ServiceError Job
unfolding request_cancel attached_site
cancel_run = request_cancel actor 1 9 200 201 attached_site

abbrev cancelled_job : Job
cancelled_job = record waiting {
  status = cancelled;
  cancel_requested_at = some 200;
  updated_at = 201;
}

cancels : request_cancel actor 1 9 200 201 attached_site ≡ (cancel_run.0, ok cancelled_job)
unfolding request_cancel attached_site cancel_run filter_rows
cancels = refl

-- Another correlation id is no repetition.
cancels_again :
    (request_cancel actor 1 8 300 301 cancel_run.0).1 ≡ err (job_conflict cancel_already_requested)
unfolding request_cancel attached_site cancel_run filter_rows
cancels_again = refl

request_cancel_replay_example :
    request_cancel actor 1 9 300 301 cancel_run.0 ≡ (cancel_run.0, ok cancelled_job)
request_cancel_replay_example =
    request_cancel_replay actor 1 9 200 201 300 301 attached_site cancel_run.0 cancelled_job cancels
