-- ===== src/Worker/Tests.antt =====
-- Runs of the queue on a small database, and its theorems there.
use splitbind.Base.{
  ℕ, ◌+◌, ◌≡◌, refl, Bool, true, false, none, some, [], ◌∷◌, arith, Result, ok, err,
}
use splitbind.Jobs.State.{Job, JobStatus, issuance, created, queued, processing, retryable_failed}
use splitbind.Model.Keys.{UploadPurpose, ObjectKey, promoted}
use splitbind.Model.Rows.{Document, Issuance}
use splitbind.Worker.Db.{Db, JobRequest}
use splitbind.Worker.Saves.{WorkerError}
use splitbind.Worker.Invariant.{Inv, Kept}
use splitbind.Worker.Outbox.{created_event}
use splitbind.Worker.Outbox.{create_job_event}
use splitbind.Worker.Queue.{ClaimOptions, claim_next_job, prepare_one_retry, result_exists}
use splitbind.Worker.Queue.Claimed.{IsClaim, claim_next_job_lem}
use splitbind.Worker.Queue.Preserve.{claim_next_job-Kept}
use splitbind.Worker.History.{Reach, here, next, retried, claimed_once, Reach-Kept}

abbrev job : ℕ → JobStatus → Job
job i s = record {
  id = i;
  organization_id = 1;
  kind = issuance;
  status = s;
  attempt = 0;
  issuance_id = some (40 + i);
  verification_id = none;
  deadline_at = 900;
  correlation_id = 5;
  cancel_requested_at = none;
  safe_error_code = none;
  created_at = 100;
  updated_at = 100;
}

abbrev issued : ℕ → Issuance
issued i = record {
  id = 40 + i;
  organization_id = 1;
  document_id = 60 + i;
  recipient_id = 3;
  created_by_id = 2;
  output_object_key = none;
  output_sha256 = none;
  output_deleted_at = none;
  issued_at = 100;
}

abbrev document : ℕ → Document
document i = record {
  id = 60 + i;
  organization_id = 1;
  created_by_id = 2;
  upload_request_id = 80 + i;
  source_object_key = promoted UploadPurpose.issuance 1 (80 + i);
  expected_source_sha256 = 777;
  page_count = none;
}

abbrev start : Db
start = record {
  jobs = job 8 queued ∷ job 7 queued ∷ job 9 retryable_failed ∷ [];
  outbox = [];
  issuances = issued 7 ∷ issued 8 ∷ issued 9 ∷ [];
  documents = document 7 ∷ document 8 ∷ document 9 ∷ [];
  verifications = [];
  uploads = [];
  issuance_results = [];
  verification_results = [];
}

abbrev opts : ClaimOptions
opts = record {
  enabled = true;
  deadline_error_code = "INTEGRITY_JOB_DEADLINE_EXCEEDED";
  timeout_seconds = some 600;
  timeout_error_code = some "INTEGRITY_JOB_TIMEOUT_EXCEEDED";
}

abbrev no_locks : ℕ → Bool
no_locks i = false

abbrev db_of : {A : Type 0} → Result WorkerError (Db × A) → Db
db_of (ok (db, a)) = db
db_of (err e) = start

abbrev job₇ : Job
job₇ = let j : Job = job 7 processing in record j { updated_at = 201 }

abbrev claimed : Db
claimed = db_of (claim_next_job opts no_locks 11 200 201 start)

claims_oldest : claim_next_job opts no_locks 11 200 201 start ≡ ok (claimed, some (job₇, 11))
unfolding claim_next_job
claims_oldest = refl

start-Inv : Inv start
unfolding result_exists
start-Inv = record {
  unique = omega arith;
  sound = (
    record { attempts = omega arith; unclaimed = λ w. refl },
    (
      record { attempts = omega arith; unclaimed = λ w. refl },
      (record { attempts = omega arith; unclaimed = λ w. refl }, tt),
    ),
  );
}

-- the retry puts job 9 back into the queue
abbrev retried_db : Db
retried_db = record claimed {
  jobs =
      job 8 queued
      ∷ job₇
      ∷ (let j : Job = job 9 queued in record j { attempt = 1; updated_at = 203 })
      ∷ [];
}

retries_once : prepare_one_retry no_locks 202 203 claimed ≡ ok retried_db
unfolding prepare_one_retry claim_next_job
retries_once = refl

abbrev job₈ : Job
job₈ = let j : Job = job 8 processing in record j { updated_at = 301 }

abbrev claimed_again : Db
claimed_again = db_of (claim_next_job opts no_locks 12 300 301 retried_db)

claims_next :
    claim_next_job opts no_locks 12 300 301 retried_db ≡ ok (claimed_again, some (job₈, 12))
unfolding claim_next_job
claims_next = refl

abbrev between : Reach claimed retried_db
between = next retried_db here (retried no_locks 202 203 retries_once)

claimed_once_example : ¬ (◌≡◌ {A = ℕ} 8 7)
claimed_once_example =
    claimed_once start claimed retried_db claimed_again opts opts no_locks no_locks 11 12 200 300
      201 301 11 12 job₇ job₈ start-Inv claims_oldest between claims_next

claim_next_job_lem_example : (j : Job) × IsClaim opts no_locks 200 201 start claimed job₇ j
claim_next_job_lem_example =
    claim_next_job_lem opts no_locks 11 200 201 start claimed job₇ 11 claims_oldest

Reach-Kept_example : Kept claimed retried_db
Reach-Kept_example =
    Reach-Kept between
      (claim_next_job-Kept opts no_locks 11 200 201 start claimed claims_oldest start-Inv).inv

abbrev accept_all : JobRequest → Bool
accept_all r = true

-- a job that was just created, and the tables after its outbox row was written
abbrev fresh : Db
fresh = record start { jobs = job 7 created ∷ [] }

abbrev input : ObjectKey
input = promoted UploadPurpose.issuance 1 87

abbrev written : Db
written = record fresh { outbox = created_event 1 99 (job 7 created) input 777 ∷ [] }

writes_event : create_job_event accept_all 1 99 (job 7 created) input 777 fresh ≡ ok written
unfolding create_job_event
writes_event = refl
