-- ===== src/Worker/Queue.antt =====
-- `claim_next_job` of demo/worker.py and `_prepare_one_retry` of release/worker.py, each one
-- transaction.
pub mod Preserve
pub mod Claimed
use splitbind.Base.{
  ℕ, String, ◌+◌, ◌*◌, Bool, false, not, ◌||◌, Option, none, some, [], ◌∷◌, Result, ok, err, ◌>>=◌,
  leb, ◌==◌, is_some, if◌then◌else◌,
}
use splitbind.Jobs.State.{
  Job, JobKind, issuance, verification, queued, processing, retryable_failed, failed, dead_lettered,
  cancelled,
}
use splitbind.Model.Evidence.{dict}
use splitbind.Model.Keys.{issuance_output, key_eq}
use splitbind.Model.Table.{find, exists}
use splitbind.Worker.Db.{
  Db, DemoIssuanceResult, DemoVerificationResult, DemoOutputState, DemoVerificationState,
}
use splitbind.Worker.Saves.{
  WorkerError, invalid_evidence, integrity, move, save_status, save_attempt, next_job, close,
  close_with, output_extension,
}

-- the arguments of `claim_next_job` that a release sets
pub record ClaimOptions : Type 0 where
  pub enabled : Bool
  pub deadline_error_code : String
  pub timeout_seconds : Option ℕ
  pub timeout_error_code : Option String

-- a unique column of the result tables that the new row would repeat
taken_issuance : DemoIssuanceResult → Db → Bool
unfolding exists
taken_issuance e db =
    exists
      (λ r.
        r.job_id == e.job_id
        || (r.issuance_id == e.issuance_id
            || (r.owner_token == e.owner_token || key_eq r.output_object_key e.output_object_key)))
      db.issuance_results

taken_verification : DemoVerificationResult → Db → Bool
unfolding exists
taken_verification e db =
    exists
      (λ r.
        r.job_id == e.job_id
        || (r.verification_id == e.verification_id || r.owner_token == e.owner_token))
      db.verification_results

-- The new row is made at the time at which the claimed job was saved.
reserved_issuance : Job → ℕ → ℕ → Db → DemoIssuanceResult
unfolding output_extension
reserved_issuance job i token db = record {
  job_id = job.id;
  organization_id = job.organization_id;
  issuance_id = i;
  attempt = job.attempt;
  owner_token = token;
  output_object_key = issuance_output job.organization_id i (output_extension job db);
  output_state = DemoOutputState.reserved;
  algorithm_label = none;
  candidate_identifier = none;
  canvas_height = none;
  canvas_width = none;
  input_sha256 = none;
  output_sha256 = none;
  page_count = none;
  processing_ms = none;
  limitations = [];
  cleanup_failures = 0;
  safe_error_code = none;
  created_at = job.updated_at;
}

reserved_verification : Job → ℕ → ℕ → DemoVerificationResult
reserved_verification job v token = record {
  job_id = job.id;
  organization_id = job.organization_id;
  verification_id = v;
  attempt = job.attempt;
  owner_token = token;
  result_state = DemoVerificationState.reserved;
  input_sha256 = none;
  result_status = none;
  recovered_issuance_id = none;
  evidence = dict [];
  metrics = dict [];
  safe_error_code = none;
  completed_at = none;
  created_at = job.updated_at;
}

-- `evidence.save()` of a claimed issuance job: `clean` wants the issuance in the job's organization,
-- and the table refuses a repeated unique column.
reserve_issuance : Job → Option ℕ → ℕ → Db → Result WorkerError Db
unfolding find taken_issuance reserved_issuance
reserve_issuance job none token db = err invalid_evidence
reserve_issuance job (some i) token db = elim (find (λ r. r.id == i) db.issuances) [
  | none ↦ err invalid_evidence
  | some r ↦
      let e = reserved_issuance job i token db in
      if not (r.organization_id == job.organization_id)
      then err invalid_evidence
      else if taken_issuance e db
      then err integrity
      else ok (record db { issuance_results = e ∷ db.issuance_results })
]

reserve_verification : Job → Option ℕ → ℕ → Db → Result WorkerError Db
unfolding find taken_verification reserved_verification
reserve_verification job none token db = err invalid_evidence
reserve_verification job (some v) token db = elim (find (λ r. r.id == v) db.verifications) [
  | none ↦ err invalid_evidence
  | some r ↦
      let e = reserved_verification job v token in
      if not (r.organization_id == job.organization_id)
      then err invalid_evidence
      else if taken_verification e db
      then err integrity
      else ok (record db { verification_results = e ∷ db.verification_results })
]

unfoldable pub reserve : JobKind → Job → ℕ → Db → Result WorkerError Db
unfolding reserve_issuance reserve_verification
reserve issuance job token db = reserve_issuance job job.issuance_id token db
reserve verification job token db = reserve_verification job job.verification_id token db

-- the worker owns the job from here
unfoldable pub start_job : ℕ → ℕ → Job → Db → Result WorkerError (Db × Option (Job × ℕ))
unfolding move save_status
start_job token at job db = do
  j ← move job processing
  let claimed = record j { updated_at = at }
  db' ← reserve claimed.kind claimed token (save_status at j db)
  ok (db', some (claimed, token))

-- `now >= job.created_at + timedelta(seconds=timeout)`
abbrev pub timed_out : Option ℕ → ℕ → Job → Bool
timed_out none now job = false
timed_out (some seconds) now job = leb (job.created_at + seconds * 1_000_000) now

nothing : Result WorkerError Db → Result WorkerError (Db × Option (Job × ℕ))
nothing (ok db) = ok (db, none)
nothing (err e) = err e

claim_job : ClaimOptions → ℕ → ℕ → ℕ → Job → Db → Result WorkerError (Db × Option (Job × ℕ))
unfolding start_job nothing close close_with
claim_job opts token now at job db =
    if is_some job.cancel_requested_at
    then nothing (close at job cancelled db)
    else if leb job.deadline_at now
    then nothing (close_with at job failed (some opts.deadline_error_code) db)
    else if timed_out opts.timeout_seconds now job
    then nothing (close_with at job failed opts.timeout_error_code db)
    else start_job token at job db

-- The claimed job comes with the token that owns it. `locked` are the rows that other transactions
-- hold, which `skip_locked` passes over; `token` is the caller's or a new one.
unfoldable pub claim_next_job :
    ClaimOptions → (ℕ → Bool) → ℕ → ℕ → ℕ → Db → Result WorkerError (Db × Option (Job × ℕ))
unfolding next_job claim_job reserve
claim_next_job opts locked token now at db =
    if not opts.enabled
    then ok (db, none)
    else elim (next_job (λ j. j.created_at) queued locked db) [
      | none ↦ ok (db, none)
      | some job ↦ claim_job opts token now at job db
    ]

-- `result_exists`: a result row of the job's kind
unfoldable pub result_exists : JobKind → ℕ → Db → Bool
unfolding exists
result_exists issuance id db = exists (λ r. r.job_id == id) db.issuance_results
result_exists verification id db = exists (λ r. r.job_id == id) db.verification_results

requeue : ℕ → Job → Db → Result WorkerError Db
unfolding move save_attempt
requeue at job db = do
  j ← move job queued
  ok (save_attempt at (record j { attempt = job.attempt + 1; safe_error_code = none }) db)

retry_job : ℕ → ℕ → Job → Db → Result WorkerError Db
unfolding close close_with result_exists requeue
retry_job now at job db =
    if is_some job.cancel_requested_at
    then close at job cancelled db
    else if leb job.deadline_at now
    then close_with at job failed (some "INTEGRITY_JOB_DEADLINE_EXCEEDED") db
    else if result_exists job.kind job.id db
    then close_with at job dead_lettered (some "INTEGRITY_JOB_RESULT_ALREADY_OWNED") db
    else if leb 2 job.attempt
    then close_with at job dead_lettered (some "INTEGRITY_JOB_ATTEMPTS_EXHAUSTED") db
    else requeue at job db

unfoldable pub prepare_one_retry : (ℕ → Bool) → ℕ → ℕ → Db → Result WorkerError Db
unfolding next_job retry_job
prepare_one_retry locked now at db =
    elim (next_job (λ j. j.updated_at) retryable_failed locked db) [
      | none ↦ ok db
      | some job ↦ retry_job now at job db
    ]
