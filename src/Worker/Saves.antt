-- ===== src/Worker/Saves.antt =====
-- How the worker looks a job up and writes it back: the queries and the `save(update_fields=...)`
-- calls of demo/worker.py and release/worker.py. An `err` is an exception, and then the transaction
-- leaves the tables as they were. `at` is the time of saving. `save` also runs `clean`, which wants the
-- job's relations in its organization: that held when the row was made, no operation changes a
-- relation, and an organization is fixed at creation, so it is not repeated here.
use text.Mathlib.Text.{◌==◌ as str_eq}
use splitbind.Base.{
  ℕ, String, Bool, true, false, not, ◌&&◌, ◌||◌, Option, none, some, Result, ok, err, ◌>>=◌, ◌==◌,
  if◌then◌else◌,
}
use splitbind.Jobs.State.{
  Job, JobKind, JobStatus, InvalidJobTransition, issuance, verification, created, queued,
  processing, retryable_failed, succeeded, failed, dead_lettered, cancelled, transition_job,
}
use splitbind.Model.Keys.{Extension, pdf, png}
use splitbind.Model.Table.{find, update_row, first_by}
use splitbind.Worker.Db.{Db}

-- what a transaction may raise
pub data WorkerError : Type 0 where
  transition : InvalidJobTransition → WorkerError
  -- `ValidationError` of a model's `clean`
  invalid_evidence : WorkerError
  -- a unique column of the database
  integrity : WorkerError

abbrev pub kind_eq : JobKind → JobKind → Bool
kind_eq issuance issuance = true
kind_eq verification verification = true
kind_eq _ _ = false

abbrev pub has_status : JobStatus → JobStatus → Bool
has_status created created = true
has_status queued queued = true
has_status processing processing = true
has_status retryable_failed retryable_failed = true
has_status succeeded succeeded = true
has_status failed failed = true
has_status dead_lettered dead_lettered = true
has_status cancelled cancelled = true
has_status _ _ = false

-- `transition_job` inside a transaction
unfoldable pub move : Job → JobStatus → Result WorkerError Job
unfolding transition_job
move job target = elim (transition_job job (some target)) [
  | ok j ↦ ok j
  | err e ↦ err (transition e)
]

-- `job.save(update_fields=["status", "updated_at"])`
unfoldable pub save_status : ℕ → Job → Db → Db
unfolding update_row
save_status at job db = record db {
  jobs =
      update_row (λ r. r.id == job.id) (λ r. record r { status = job.status; updated_at = at })
        db.jobs;
}

-- `job.save(update_fields=["status", "safe_error_code", "updated_at"])`
unfoldable pub save_code : ℕ → Job → Db → Db
unfolding update_row
save_code at job db = record db {
  jobs =
      update_row (λ r. r.id == job.id)
        (λ r. record r {
          status = job.status;
          safe_error_code = job.safe_error_code;
          updated_at = at;
        })
        db.jobs;
}

-- `job.save(update_fields=["status", "attempt", "safe_error_code", "updated_at"])`
unfoldable pub save_attempt : ℕ → Job → Db → Db
unfolding update_row
save_attempt at job db = record db {
  jobs =
      update_row (λ r. r.id == job.id)
        (λ r. record r {
          status = job.status;
          attempt = job.attempt;
          safe_error_code = job.safe_error_code;
          updated_at = at;
        })
        db.jobs;
}

-- A waiting job with this status that no other transaction holds locked, the oldest by a time and
-- then by its id.
unfoldable pub next_job : (Job → ℕ) → JobStatus → (ℕ → Bool) → Db → Option Job
unfolding first_by
next_job time status locked db =
    first_by time (λ j. j.id) (λ j. has_status status j.status && not (locked j.id)) db.jobs

-- transition, and save with or without a code
unfoldable pub close : ℕ → Job → JobStatus → Db → Result WorkerError Db
unfolding move save_status
close at job target db = do j ← move job target; ok (save_status at j db)

unfoldable pub close_with : ℕ → Job → JobStatus → Option String → Db → Result WorkerError Db
unfolding move save_code
close_with at job target code db = do
  j ← move job target
  ok (save_code at (record j { safe_error_code = code }) db)

-- `_issuance_output_extension`
issuance_output_extension : String → Extension
issuance_output_extension content_type =
    if str_eq content_type "image/png" || str_eq content_type "image/jpeg" then png else pdf

content_type_of : Option ℕ → Db → String
unfolding find
content_type_of none db = ""
content_type_of (some i) db = elim (find (λ r. r.id == i) db.issuances) [
  | none ↦ ""
  | some r ↦ elim (find (λ d. d.id == r.document_id) db.documents) [
    | none ↦ ""
    | some d ↦ elim (find (λ u. u.id == d.upload_request_id) db.uploads) [
      | none ↦ ""
      | some u ↦ u.source_content_type
    ]
  ]
]

unfoldable pub output_extension : Job → Db → Extension
unfolding issuance_output_extension content_type_of
output_extension job db = issuance_output_extension (content_type_of job.issuance_id db)
