-- ===== src/Worker/Recovery/Tests.antt =====
-- Runs of the recovery of a stale output, and its theorem there.
use splitbind.Base.{◌≡◌, refl, ◌≢◌, none, some, [], ◌∷◌, ok, err, true, false}
use splitbind.Demo.Output.{demo_stale_recovery_fence_code}
use splitbind.Jobs.State.{Job, JobKind, processing}
use splitbind.Model.Keys.{UploadPurpose, promoted, issuance_output, pdf}
use splitbind.Model.Rows.{Document, Issuance}
use splitbind.Worker.Cleanup.{
  begin_output_upload, authorize_output_cleanup, persist_output_cleanup, compensate_owned_output,
  record_failed_job,
}
use splitbind.Worker.Cleanup.Laws.{overtaken_processor}
use splitbind.Worker.Db.{Db, DemoIssuanceResult, uploading, cleanup_required, cleaned}
use splitbind.Worker.Recovery.{
  ProcessingClaim, claim_stale_output_recovery, authorize_stale_output_delete,
  record_stale_output_delete_failure, acknowledge_stale_output_delete, output_ownership_invalid,
}
use splitbind.Worker.Recovery.Laws.{takeover_fences}

abbrev job : Job
job = record {
  id = 1;
  organization_id = 7;
  kind = JobKind.issuance;
  status = processing;
  attempt = 0;
  issuance_id = some 41;
  verification_id = none;
  deadline_at = 900;
  correlation_id = 5;
  cancel_requested_at = none;
  safe_error_code = none;
  created_at = 100;
  updated_at = 100;
}

abbrev issued : Issuance
issued = record {
  id = 41;
  organization_id = 7;
  document_id = 61;
  recipient_id = 3;
  created_by_id = 2;
  output_object_key = none;
  output_sha256 = none;
  output_deleted_at = none;
  issued_at = 100;
}

abbrev document : Document
document = record {
  id = 61;
  organization_id = 7;
  created_by_id = 2;
  upload_request_id = 80;
  source_object_key = promoted UploadPurpose.issuance 7 80;
  expected_source_sha256 = 777;
  page_count = none;
}

abbrev evidence : DemoIssuanceResult
evidence = record {
  job_id = 1;
  organization_id = 7;
  issuance_id = 41;
  attempt = 0;
  owner_token = 500;
  output_object_key = issuance_output 7 41 pdf;
  output_state = uploading;
  algorithm_label = none;
  candidate_identifier = none;
  canvas_height = none;
  canvas_width = none;
  input_sha256 = none;
  output_sha256 = none;
  page_count = none;
  processing_ms = none;
  limitations = [];
  cleanup_failures = 0;
  safe_error_code = none;
  created_at = 100;
}

abbrev with_evidence : DemoIssuanceResult → Db
with_evidence row = record {
  jobs = job ∷ [];
  outbox = [];
  issuances = issued ∷ [];
  documents = document ∷ [];
  verifications = [];
  uploads = [];
  issuance_results = row ∷ [];
  verification_results = [];
}

abbrev claim : ProcessingClaim
claim = record {
  job_id = 1;
  organization_id = 7;
  issuance_id = 41;
  document_id = 61;
  attempt = 0;
  output_object_key = issuance_output 7 41 pdf;
  owner_token = 500;
}

abbrev taken_row : DemoIssuanceResult
taken_row = record evidence {
  owner_token = 501;
  output_state = cleanup_required;
  safe_error_code = some demo_stale_recovery_fence_code;
}

abbrev new_claim : ProcessingClaim
new_claim = record claim { owner_token = 501 }

takes_over :
    claim_stale_output_recovery claim 501 (with_evidence evidence)
    ≡ ok (with_evidence taken_row, (new_claim, 0))
unfolding claim_stale_output_recovery
takes_over = refl

-- The new claim may delete, and a refused deletion is counted.
new_owner_may_delete :
    authorize_stale_output_delete new_claim 0 (with_evidence taken_row)
    ≡ ok ((job, issued), taken_row)
unfolding authorize_stale_output_delete
new_owner_may_delete = refl

failure_is_counted :
    record_stale_output_delete_failure new_claim 0 "DEMO_STALE_OUTPUT_CLEANUP_FAILED"
      (with_evidence taken_row)
    ≡ ok (
      with_evidence (record taken_row {
        cleanup_failures = 1;
        safe_error_code = some "DEMO_STALE_OUTPUT_CLEANUP_FAILED";
      }),
      1,
    )
unfolding record_stale_output_delete_failure
failure_is_counted = refl

old_owner_is_refused :
    authorize_stale_output_delete claim 0 (with_evidence taken_row) ≡ err output_ownership_invalid
unfolding authorize_stale_output_delete
old_owner_is_refused = refl

takeover_fences_example :
    (authorize_stale_output_delete claim 0 (with_evidence taken_row)
      ≢ ok ((job, issued), taken_row))
    × (record_stale_output_delete_failure claim 0 "DEMO_STALE_OUTPUT_CLEANUP_FAILED"
          (with_evidence taken_row)
        ≢ ok (with_evidence taken_row, 1))
    × (acknowledge_stale_output_delete claim 0 "DEMO_STALE_OUTPUT_CLEANUP_FAILED" 300
          (with_evidence taken_row)
        ≢ ok (with_evidence taken_row))
    × (claim_stale_output_recovery claim 502 (with_evidence taken_row)
        ≢ ok (with_evidence taken_row, (new_claim, 0)))
takeover_fences_example =
    takeover_fences claim 501 0 502 300 "DEMO_STALE_OUTPUT_CLEANUP_FAILED" (with_evidence evidence)
      (with_evidence taken_row) (new_claim, 0) ((job, issued), taken_row)
      (with_evidence taken_row, 1) (with_evidence taken_row)
      (with_evidence taken_row, (new_claim, 0)) takes_over

-- A refused deletion of an object is recorded with its owner's code.
abbrev uncleaned_row : DemoIssuanceResult
uncleaned_row = record evidence {
  output_state = cleanup_required;
  cleanup_failures = 1;
  safe_error_code = some "DEMO_OUTPUT_CLEANUP_FAILED";
}

owner_compensates :
    compensate_owned_output claim "DEMO_OUTPUT_CLEANED" "DEMO_OUTPUT_CLEANUP_FAILED" 0 false
      (λ db. db)
      300
      (with_evidence evidence)
    ≡ ok (with_evidence uncleaned_row, (1, "DEMO_OUTPUT_CLEANUP_FAILED"))
unfolding compensate_owned_output
owner_compensates = refl

overtaken_processor_example :
    (begin_output_upload claim 300 (with_evidence taken_row) ≢ ok (with_evidence taken_row, true))
    × (authorize_output_cleanup claim (with_evidence taken_row) ≢ ok tt)
    × (persist_output_cleanup claim cleaned "DEMO_OUTPUT_CLEANED" 0 300 (with_evidence taken_row)
        ≢ ok (with_evidence taken_row))
    × (record_failed_job claim "DEMO_OUTPUT_CLEANED" 0 300 (with_evidence taken_row)
          ≡ ok (with_evidence taken_row)
        → with_evidence taken_row ≡ with_evidence taken_row)
overtaken_processor_example =
    overtaken_processor claim 501 0 300 "DEMO_OUTPUT_CLEANED" cleaned (with_evidence evidence)
      (with_evidence taken_row) (with_evidence taken_row) (new_claim, 0)
      (with_evidence taken_row, true) takes_over
