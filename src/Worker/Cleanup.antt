-- ===== src/Worker/Cleanup.antt =====
-- What the processor of an issuance job does to its output row around the upload
-- (services/api/splitbind/demo/issuance.py): the start of the upload, the failure of the job, and the
-- deletion of an object that was not committed.
pub mod Laws
use splitbind.Base.{
  ℕ, suc, String, Bool, true, false, not, ◌&&◌, ◌||◌, Option, none, some, Result, ok, err, ◌>>=◌,
  ◌>>◌, guard, is_some, ◌==◌, if◌then◌else◌,
}
use splitbind.Demo.Output.{ResultColumn, state_eq, output_state, safe_error_code, cleanup_failures}
use splitbind.Jobs.State.{Job, processing, succeeded, failed, cancelled}
use splitbind.Model.Table.{find, update_row}
use splitbind.Worker.Db.{
  Db, DemoIssuanceResult, DemoOutputState, reserved, uploading, committed, cleanup_required,
  cleaned,
}
use splitbind.Worker.Recovery.{
  ProcessingClaim, RecoveryError, output_ownership_invalid, job_refused, found, issuance_of,
  locked_job, locked_evidence, locked_rows, save_evidence,
}
use splitbind.Worker.Saves.{WorkerError, has_status, close, close_with}

abbrev pub state_column : ResultColumn → Bool
state_column output_state = true
state_column _ = false

abbrev pub cleanup_columns : ResultColumn → Bool
cleanup_columns output_state = true
cleanup_columns safe_error_code = true
cleanup_columns cleanup_failures = true
cleanup_columns _ = false

abbrev pub refused : {A : Type 0} → Result WorkerError A → Result RecoveryError A
refused (err e) = err (job_refused e)
refused (ok a) = ok a

-- `_begin_output_upload`: whether the upload may begin
unfoldable pub begin_output_upload : ProcessingClaim → ℕ → Db → Result RecoveryError (Db × Bool)
unfolding locked_rows save_evidence close
begin_output_upload claim at db = locked_rows claim db >>= λ ((job, issuance), evidence).
    guard (has_status processing job.status && state_eq evidence.output_state reserved)
      output_ownership_invalid
    >> (if is_some job.cancel_requested_at
        then (refused (close at job cancelled db) >>= λ closed.
            save_evidence false state_column job issuance evidence
              (record evidence { output_state = cleaned }) closed
            >>= λ saved. ok (saved, false))
        else (save_evidence false state_column job issuance evidence
              (record evidence { output_state = uploading }) db
            >>= λ saved. ok (saved, true)))

-- the state of the output of a job that has failed
abbrev pub failed_output : DemoOutputState → DemoOutputState
failed_output reserved = cleaned
failed_output uploading = cleanup_required
failed_output committed = committed
failed_output cleanup_required = cleanup_required
failed_output cleaned = cleaned

-- another token has taken the output over for its cleanup
abbrev pub is_overtaken : ProcessingClaim → Option DemoIssuanceResult → Bool
is_overtaken claim none = false
is_overtaken claim (some row) =
    not (row.owner_token == claim.owner_token) && state_eq row.output_state cleanup_required

-- the row of a job that has failed
abbrev pub failed_row : String → ℕ → DemoIssuanceResult → DemoIssuanceResult
failed_row code failures evidence = record evidence {
  output_state = failed_output evidence.output_state;
  safe_error_code = some code;
  cleanup_failures = failures;
}

-- the job fails, and its output row with it; the row's `clean` reads its issuance
unfoldable pub fail_job : Job → DemoIssuanceResult → String → ℕ → ℕ → Db → Result RecoveryError Db
unfolding save_evidence close_with
fail_job job evidence code failures at db = do
  closed ← refused (close_with at job failed (some code) db)
  issuance ← found (issuance_of (some evidence.issuance_id) closed)
  save_evidence false cleanup_columns job issuance evidence (failed_row code failures evidence)
      closed

-- `_record_failed_job`, with the code and the failed cleanups of the error
unfoldable pub record_failed_job : ProcessingClaim → String → ℕ → ℕ → Db → Result RecoveryError Db
unfolding locked_job find locked_evidence fail_job
record_failed_job claim code failures at db = locked_job claim.job_id db >>= λ job.
    if is_overtaken claim
      (find (λ (r : DemoIssuanceResult). r.job_id == claim.job_id) db.issuance_results)
    then ok db
    else (locked_evidence claim db >>= λ evidence.
        if has_status processing job.status
        then fail_job job evidence code failures at db
        else ok db)

-- an output that the owner may delete or mark
abbrev pub is_removable : DemoOutputState → Bool
is_removable state = state_eq state uploading || state_eq state cleanup_required

-- `_authorize_output_cleanup`
unfoldable pub authorize_output_cleanup : ProcessingClaim → Db → Result RecoveryError (Unit {0})
unfolding locked_rows
authorize_output_cleanup claim db = locked_rows claim db >>= λ ((job, issuance), evidence).
    guard
      (is_removable evidence.output_state
        && (not (is_some issuance.output_object_key) && not (has_status succeeded job.status)))
      output_ownership_invalid

-- `job.save(update_fields=["safe_error_code", "updated_at"])`
unfoldable pub save_safe_code : ℕ → ℕ → Option String → Db → Db
unfolding update_row
save_safe_code at job_id code db = record db {
  jobs =
      update_row (λ (r : Job). r.id == job_id)
        (λ r. record r { safe_error_code = code; updated_at = at }) db.jobs;
}

-- `_persist_output_cleanup`
unfoldable pub persist_output_cleanup :
    ProcessingClaim → DemoOutputState → String → ℕ → ℕ → Db → Result RecoveryError Db
unfolding locked_rows save_evidence save_safe_code
persist_output_cleanup claim state code failures at db =
    locked_rows claim db >>= λ ((job, issuance), evidence).
    guard (is_removable evidence.output_state) output_ownership_invalid
    >> (save_evidence false cleanup_columns job issuance evidence
          (record evidence {
            output_state = state;
            safe_error_code = some code;
            cleanup_failures = failures;
          })
          db
        >>= λ saved. ok (
            if has_status cancelled job.status
            then save_safe_code at job.id (if failures == 0 then none else some code) saved
            else saved))

-- `_compensate_owned_output`: `deleted` says whether the provider deletes the object, and `meanwhile`
-- what other transactions commit in that time.
unfoldable pub compensate_owned_output :
    ProcessingClaim
    → String
    → String
    → ℕ
    → Bool
    → (Db → Db)
    → ℕ
    → Db
    → Result RecoveryError (Db × (ℕ × String))
unfolding authorize_output_cleanup persist_output_cleanup
compensate_owned_output claim cleaned_code failed_code prior deleted meanwhile at db =
    authorize_output_cleanup claim db
    >> (if deleted
        then (persist_output_cleanup claim cleaned cleaned_code prior at (meanwhile db) >>= λ saved.
            ok (saved, (prior, cleaned_code)))
        else (persist_output_cleanup claim cleanup_required failed_code (suc prior) at
              (meanwhile db)
            >>= λ saved. ok (saved, (suc prior, failed_code))))
