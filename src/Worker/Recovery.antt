-- ===== src/Worker/Recovery.antt =====
-- The recovery of the output of a stale issuance job: the helpers of
-- services/api/splitbind/demo/issuance.py that demo/worker.py calls around the deletion of the object.
-- Each is one transaction; an `err` leaves the tables as they were.
pub mod Laws
mod Tests
use splitbind.Base.{
  ℕ, suc, String, Bool, true, false, not, ◌&&◌, ◌||◌, Option, none, some, Result, ok, err, ◌>>=◌,
  ◌>>◌, guard, is_some, ◌==◌, opt_eq, if◌then◌else◌,
}
use splitbind.Demo.Output.{
  ResultError, ResultColumn, save_result, state_eq, text_is, demo_stale_recovery_fence_code,
  owner_token, output_state, safe_error_code, cleanup_failures,
}
use splitbind.Jobs.State.{Job, JobKind, processing, failed}
use splitbind.Model.Keys.{ObjectKey, key_eq}
use splitbind.Model.Rows.{Issuance, Document}
use splitbind.Model.Table.{find, update_row}
use splitbind.Worker.Db.{Db, DemoIssuanceResult, DemoOutputState, uploading, cleanup_required}
use splitbind.Worker.Saves.{WorkerError, has_status, close_with}

-- the codes of `DemoIssuanceError`, a row that is missing, and what a save refuses
pub data RecoveryError : Type 0 where
  output_ownership_invalid issuance_job_invalid missing : RecoveryError
  not_saved : ResultError → RecoveryError
  job_refused : WorkerError → RecoveryError

-- `_ProcessingClaim`, beside the columns of the source, which the recovery does not read
pub record ProcessingClaim : Type 0 where
  pub job_id : ℕ
  pub organization_id : ℕ
  pub issuance_id : ℕ
  pub document_id : ℕ
  pub attempt : ℕ
  pub output_object_key : ObjectKey
  pub owner_token : ℕ

abbrev pub found : {A : Type 0} → Option A → Result RecoveryError A
found none = err missing
found (some a) = ok a

-- `_locked_job`
unfoldable pub locked_job : ℕ → Db → Result RecoveryError Job
unfolding find
locked_job job_id db = found (find (λ (j : Job). j.id == job_id && is_some j.issuance_id) db.jobs)

abbrev pub issuance_of : Option ℕ → Db → Option Issuance
unfolding find
issuance_of none db = none
issuance_of (some i) db = find (λ (r : Issuance). r.id == i) db.issuances

-- `_locked_issuance_document`
unfoldable pub locked_issuance_document : Job → Db → Result RecoveryError (Issuance × Document)
unfolding find issuance_of
locked_issuance_document job db = do
  issuance ← found (issuance_of job.issuance_id db)
  document ← found (find (λ (d : Document). d.id == issuance.document_id) db.documents)
  ok (issuance, document)

-- `_validate_locked_binding`
unfoldable pub validate_locked_binding : Job → Issuance → Document → Result RecoveryError (Unit {0})
validate_locked_binding job issuance document =
    guard
      ((elim job.kind [ JobKind.issuance ↦ true | JobKind.verification ↦ false ])
        && (opt_eq job.issuance_id (some issuance.id)
            && (issuance.organization_id == job.organization_id
                && (document.id == issuance.document_id
                    && document.organization_id == job.organization_id))))
      issuance_job_invalid

-- `_validate_claim_binding`
unfoldable pub validate_claim_binding :
    ProcessingClaim → Job → Issuance → Document → Result RecoveryError (Unit {0})
unfolding validate_locked_binding
validate_claim_binding claim job issuance document =
    validate_locked_binding job issuance document
    >> guard
        (job.id == claim.job_id
          && (job.organization_id == claim.organization_id
              && (issuance.id == claim.issuance_id
                  && (document.id == claim.document_id && job.attempt == claim.attempt))))
        output_ownership_invalid

unfoldable pub owns_evidence : ProcessingClaim → DemoIssuanceResult → Bool
owns_evidence claim evidence =
    evidence.owner_token == claim.owner_token
    && (evidence.organization_id == claim.organization_id
        && (evidence.issuance_id == claim.issuance_id
            && (evidence.attempt == claim.attempt
                && key_eq evidence.output_object_key claim.output_object_key)))

-- `_locked_evidence`
unfoldable pub locked_evidence : ProcessingClaim → Db → Result RecoveryError DemoIssuanceResult
unfolding find owns_evidence
locked_evidence claim db =
    found (find (λ (r : DemoIssuanceResult). r.job_id == claim.job_id) db.issuance_results)
    >>= λ evidence. guard (owns_evidence claim evidence) output_ownership_invalid >> ok evidence

-- the job and the issuance of a claim
unfoldable pub locked_owner : ProcessingClaim → Db → Result RecoveryError (Job × Issuance)
unfolding locked_job locked_issuance_document validate_claim_binding
locked_owner claim db = do
  job ← locked_job claim.job_id db
  rows ← locked_issuance_document job db
  bound ← validate_claim_binding claim job rows.0 rows.1
  ok (job, rows.0)

-- the rows that every step of the recovery locks and compares with the claim
unfoldable pub locked_rows :
    ProcessingClaim → Db → Result RecoveryError ((Job × Issuance) × DemoIssuanceResult)
unfolding locked_owner locked_evidence
locked_rows claim db =
    locked_owner claim db >>= λ owner. locked_evidence claim db >>= λ evidence. ok (owner, evidence)

-- `evidence.save(update_fields=...)` with the capabilities
unfoldable pub save_evidence :
    Bool
    → (ResultColumn → Bool)
    → Job
    → Issuance
    → DemoIssuanceResult
    → DemoIssuanceResult
    → Db
    → Result RecoveryError Db
unfolding save_result update_row
save_evidence transfer names job issuance old new db =
    elim (save_result true transfer names job issuance old new) [
      | err e ↦ err (not_saved e)
      | ok row ↦ ok (record db {
        issuance_results =
            update_row (λ (r : DemoIssuanceResult). r.job_id == old.job_id) (λ r. row)
              db.issuance_results;
      })
    ]

abbrev pub takeover_columns : ResultColumn → Bool
takeover_columns owner_token = true
takeover_columns output_state = true
takeover_columns safe_error_code = true
takeover_columns _ = false

abbrev pub failure_columns : ResultColumn → Bool
failure_columns cleanup_failures = true
failure_columns safe_error_code = true
failure_columns _ = false

abbrev pub acknowledge_columns : ResultColumn → Bool
acknowledge_columns output_state = true
acknowledge_columns safe_error_code = true
acknowledge_columns _ = false

-- the issuance has no output yet
abbrev pub is_unissued : Issuance → Bool
is_unissued issuance =
    not (is_some issuance.output_object_key) && not (is_some issuance.output_sha256)

-- the row that the recovery owns
abbrev pub taken_over : ℕ → DemoIssuanceResult → DemoIssuanceResult
taken_over recovery_token evidence = record evidence {
  owner_token = recovery_token;
  output_state = cleanup_required;
  safe_error_code = some demo_stale_recovery_fence_code;
}

-- `_claim_stale_output_recovery`: the claim of the recovery and the failures so far
unfoldable pub claim_stale_output_recovery :
    ProcessingClaim → ℕ → Db → Result RecoveryError (Db × (ProcessingClaim × ℕ))
unfolding locked_rows save_evidence
claim_stale_output_recovery claim recovery_token db =
    guard (not (recovery_token == claim.owner_token)) output_ownership_invalid
    >> (locked_rows claim db >>= λ ((job, issuance), evidence).
        guard
          (has_status processing job.status
            && ((state_eq evidence.output_state uploading
                  || state_eq evidence.output_state cleanup_required)
                && is_unissued issuance))
          output_ownership_invalid
        >> (save_evidence true takeover_columns job issuance evidence
              (taken_over recovery_token evidence) db
            >>= λ saved. ok (
              saved,
              (record claim { owner_token = recovery_token }, evidence.cleanup_failures),
            )))

-- the condition of `_authorize_stale_output_delete` on the locked rows
unfoldable pub is_fenced : ℕ → Job → Issuance → DemoIssuanceResult → Bool
is_fenced failures job issuance evidence =
    has_status processing job.status
    && (state_eq evidence.output_state cleanup_required
        && (text_is demo_stale_recovery_fence_code evidence.safe_error_code
            && (evidence.cleanup_failures == failures && is_unissued issuance)))

-- `_authorize_stale_output_delete`
unfoldable pub authorize_stale_output_delete :
    ProcessingClaim → ℕ → Db → Result RecoveryError ((Job × Issuance) × DemoIssuanceResult)
unfolding locked_rows is_fenced
authorize_stale_output_delete claim failures db =
    locked_rows claim db >>= λ ((job, issuance), evidence).
    guard (is_fenced failures job issuance evidence) output_ownership_invalid
    >> ok ((job, issuance), evidence)

-- `_record_stale_output_delete_failure`, after the provider has refused the deletion
unfoldable pub record_stale_output_delete_failure :
    ProcessingClaim → ℕ → String → Db → Result RecoveryError (Db × ℕ)
unfolding authorize_stale_output_delete save_evidence
record_stale_output_delete_failure claim prior code db =
    authorize_stale_output_delete claim prior db >>= λ ((job, issuance), evidence).
    save_evidence false failure_columns job issuance evidence
      (record evidence { cleanup_failures = suc prior; safe_error_code = some code }) db
    >>= λ saved. ok (saved, suc prior)

-- `_acknowledge_stale_output_delete`, after the object was deleted; `at` is the time of saving
unfoldable pub acknowledge_stale_output_delete :
    ProcessingClaim → ℕ → String → ℕ → Db → Result RecoveryError Db
unfolding authorize_stale_output_delete save_evidence close_with
acknowledge_stale_output_delete claim failures code at db =
    authorize_stale_output_delete claim failures db >>= λ ((job, issuance), evidence).
    save_evidence false acknowledge_columns job issuance evidence
      (record evidence {
        output_state = cleanup_required;
        safe_error_code = some demo_stale_recovery_fence_code;
      })
      db
    >>= λ saved. elim (close_with at job failed (some code) saved) [
      | err e ↦ err (job_refused e)
      | ok db' ↦ ok db'
    ]
