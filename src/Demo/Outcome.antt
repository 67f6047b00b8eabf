-- ===== src/Demo/Outcome.antt =====
-- `DemoVerificationResult.clean` and `DemoVerificationResult.save` of
-- services/api/splitbind/demo/models.py, with the checks that they reach in access/models.py and the
-- table's check constraint on the attempt.
pub mod Laws
use splitbind.Base.{
  ℕ, String, Bool, true, false, not, ◌&&◌, ◌||◌, Option, none, some, Result, ok, err, ◌>>◌, guard,
  is_some, ◌==◌, leb, opt_eq, if◌then◌else◌,
}
use splitbind.Demo.Evidence.{check_columns, has_content}
use splitbind.Demo.Output.{
  ResultError, write_forbidden, ownership, not_reserved, no_progress, organization_changed,
  foreign_relation, wrong_job, claims_success, incomplete, constraint, text_is,
}
use splitbind.Jobs.State.{Job, JobKind}
use splitbind.Model.Evidence.{VerificationStatus, processing_failed}
use splitbind.Model.Rows.{Issuance, Verification}
use splitbind.Worker.Db.{
  DemoVerificationResult, DemoVerificationState, reserved, committed, failed, cancelled,
}

abbrev pub is_processing_failed : Option VerificationStatus → Bool
is_processing_failed (some processing_failed) = true
is_processing_failed _ = false

abbrev pub is_reserved : DemoVerificationState → Bool
is_reserved reserved = true
is_reserved _ = false

-- the issuance that the verification recovered is in the row's organization
abbrev pub owns_recovered : ℕ → Option Issuance → Bool
owns_recovered organization none = true
owns_recovered organization (some issuance) = issuance.organization_id == organization

unfoldable pub clean_relations :
    Job → Verification → Option Issuance → DemoVerificationResult → Result ResultError (Unit {0})
clean_relations job verification recovered r =
    guard
      (job.organization_id == r.organization_id
        && (verification.organization_id == r.organization_id
            && owns_recovered r.organization_id recovered))
      foreign_relation
    >> guard
        ((elim job.kind [ JobKind.issuance ↦ false | JobKind.verification ↦ true ])
          && (opt_eq job.verification_id (some r.verification_id) && job.attempt == r.attempt))
        wrong_job

-- what a row may say in each state
unfoldable pub clean_state :
    DemoVerificationState → DemoVerificationResult → Result ResultError (Unit {0})
unfolding check_columns
clean_state reserved r =
    guard
      (not (
        is_some r.input_sha256
        || (is_some r.result_status
            || (is_some r.recovered_issuance_id
                || (is_some r.completed_at
                    || (has_content r.evidence
                        || (has_content r.metrics || is_some r.safe_error_code)))))))
      claims_success
clean_state committed r =
    guard
      (is_some r.input_sha256
        && (is_some r.result_status
            && (not (is_processing_failed r.result_status)
                && (is_some r.completed_at && not (is_some r.safe_error_code)))))
      incomplete
    >> check_columns r.evidence r.metrics
clean_state failed r =
    guard
      (is_processing_failed r.result_status
        && (not (is_some r.recovered_issuance_id)
            && (is_some r.completed_at && is_some r.safe_error_code)))
      incomplete
clean_state cancelled r =
    guard
      (not (is_some r.result_status)
        && (not (is_some r.recovered_issuance_id)
            && (is_some r.completed_at && text_is "DEMO_JOB_CANCELLED" r.safe_error_code)))
      incomplete

unfoldable pub clean_outcome :
    Job → Verification → Option Issuance → DemoVerificationResult → Result ResultError (Unit {0})
unfolding clean_relations clean_state
clean_outcome job verification recovered r =
    clean_relations job verification recovered r >> clean_state r.result_state r

unfoldable pub same_owner : DemoVerificationResult → DemoVerificationResult → Bool
same_owner new old =
    new.organization_id == old.organization_id
    && (new.job_id == old.job_id
        && (new.verification_id == old.verification_id
            && (new.attempt == old.attempt
                && (new.owner_token == old.owner_token && new.created_at == old.created_at))))

-- the columns that a save can name
pub data OutcomeColumn : Type 0 where
  job_id organization_id verification_id attempt owner_token created_at result_state input_sha256
        result_status recovered_issuance_id evidence metrics safe_error_code completed_at :
      OutcomeColumn

-- The columns of the row that are written.
unfoldable pub write_outcome :
    (OutcomeColumn → Bool)
    → DemoVerificationResult
    → DemoVerificationResult
    → DemoVerificationResult
write_outcome names old new = record {
  job_id = if names job_id then new.job_id else old.job_id;
  organization_id = if names organization_id then new.organization_id else old.organization_id;
  verification_id = if names verification_id then new.verification_id else old.verification_id;
  attempt = if names attempt then new.attempt else old.attempt;
  owner_token = if names owner_token then new.owner_token else old.owner_token;
  created_at = if names created_at then new.created_at else old.created_at;
  result_state = if names result_state then new.result_state else old.result_state;
  input_sha256 = if names input_sha256 then new.input_sha256 else old.input_sha256;
  result_status = if names result_status then new.result_status else old.result_status;
  recovered_issuance_id =
      if names recovered_issuance_id then new.recovered_issuance_id else old.recovered_issuance_id;
  evidence = if names evidence then new.evidence else old.evidence;
  metrics = if names metrics then new.metrics else old.metrics;
  safe_error_code = if names safe_error_code then new.safe_error_code else old.safe_error_code;
  completed_at = if names completed_at then new.completed_at else old.completed_at;
}

-- A save of the instance `new` over its row `old`; `names` are the columns of `update_fields`, all for a
-- plain save. The check constraint on the attempt holds of the row, whose attempt does not change.
unfoldable pub save_outcome :
    Bool
    → (OutcomeColumn → Bool)
    → Job
    → Verification
    → Option Issuance
    → DemoVerificationResult
    → DemoVerificationResult
    → Result ResultError DemoVerificationResult
unfolding same_owner clean_outcome write_outcome
save_outcome allowed names job verification recovered old new =
    guard allowed write_forbidden
    >> guard (same_owner new old) ownership
    >> guard (is_reserved old.result_state) not_reserved
    >> guard (not (is_reserved new.result_state)) no_progress
    >> guard (new.organization_id == old.organization_id) organization_changed
    >> clean_outcome job verification recovered new
    >> ok (write_outcome names old new)

-- A save of a new instance.
unfoldable pub create_outcome :
    Bool
    → Job
    → Verification
    → Option Issuance
    → DemoVerificationResult
    → Result ResultError DemoVerificationResult
unfolding clean_outcome
create_outcome allowed job verification recovered new =
    guard allowed write_forbidden
    >> clean_outcome job verification recovered new
    >> guard (leb new.attempt 2) constraint
    >> ok new
