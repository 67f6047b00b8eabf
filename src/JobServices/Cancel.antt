-- ===== src/JobServices/Cancel.antt =====
-- `request_cancel` of services/api/splitbind/jobs/services.py: the cancellation of a job that the
-- actor may see, and the exact repetition of an accepted request.
pub mod Laws
use splitbind.Base.{
  ℕ, Bool, true, false, not, ◌&&◌, ◌||◌, Option, none, some, Result, ok, err, ◌>>=◌, is_some, ◌==◌,
  if◌then◌else◌,
}
use splitbind.Access.{scope_jobs}
use splitbind.Audit.{AuditOutcome}
use splitbind.Jobs.State.{
  Job, JobStatus, created, queued, processing, retryable_failed, succeeded, failed, dead_lettered,
  cancelled, transition_job,
}
use splitbind.JobServices.Create.{record_denial}
use splitbind.JobServices.State.{
  Site, ServiceError, Event, Action, EventTarget, permission_denied, workflow_not_found,
  job_conflict, transition_refused, cancel_already_requested, job_terminal, workflow_created,
  create_denied, cancel_requested, cancel_denied, cleanup_deferred, of_job, progress,
  is_cancel_denial, record_actor_event,
}
use splitbind.Model.Rows.{User, Role, administrator, issuer, verifier, auditor}
use splitbind.Model.Table.{find, exists, update_row}
use splitbind.Worker.Saves.{has_status}

abbrev pub is_cancel_event : Action → Bool
is_cancel_event cancel_requested = true
is_cancel_event _ = false

abbrev pub is_about_job : ℕ → EventTarget → Bool
is_about_job id (of_job j) = j == id
is_about_job id _ = false

abbrev pub is_success : AuditOutcome → Bool
is_success AuditOutcome.succeeded = true
is_success _ = false

-- an event that the filter of `_is_exact_cancel_replay` finds
abbrev pub is_replay_of : ℕ → User → ℕ → Event → Bool
is_replay_of job_id actor correlation_id event =
    event.organization_id == actor.organization_id
    && (event.actor_id == actor.id
        && (is_cancel_event event.action
            && (is_about_job job_id event.target
                && (event.correlation_id == correlation_id && is_success event.outcome))))

unfoldable pub is_exact_cancel_replay : Job → User → ℕ → Site → Bool
unfolding exists
is_exact_cancel_replay job actor correlation_id site =
    exists (is_replay_of job.id actor correlation_id) site.events

-- `job.save(update_fields=["cancel_requested_at", "status", "updated_at"])`
unfoldable pub save_cancel : ℕ → Job → Site → Site
unfolding update_row
save_cancel at job site = record site {
  db = record site.db {
    jobs =
        update_row (λ r. r.id == job.id)
          (λ r. record r {
            cancel_requested_at = job.cancel_requested_at;
            status = job.status;
            updated_at = at;
          })
          site.db.jobs;
  };
}

abbrev pub is_finished : JobStatus → Bool
is_finished succeeded = true
is_finished failed = true
is_finished dead_lettered = true
is_finished _ = false

-- the statuses in which no worker holds the job
abbrev pub is_waiting : JobStatus → Bool
is_waiting created = true
is_waiting queued = true
is_waiting retryable_failed = true
is_waiting _ = false

-- the job with the request, and cancelled at once when no worker holds it
unfoldable pub mark_cancelled : ℕ → Job → Result ServiceError Job
unfolding transition_job
mark_cancelled now job =
    let requested = record job { cancel_requested_at = some now } in
    if is_waiting job.status
    then (elim (transition_job requested (some cancelled)) [
      | err e ↦ err (transition_refused e)
      | ok j ↦ ok j
    ])
    else ok requested

-- The decision on a job that was found; `at` is the time of saving.
unfoldable pub cancel_job : User → ℕ → ℕ → ℕ → Job → Site → Result ServiceError (Job × Site)
unfolding is_exact_cancel_replay mark_cancelled save_cancel record_actor_event
cancel_job actor correlation_id now at job site =
    if is_some job.cancel_requested_at || has_status cancelled job.status
    then if is_exact_cancel_replay job actor correlation_id site
      then ok (job, site)
      else err (job_conflict cancel_already_requested)
    else if is_finished job.status
    then err (job_conflict job_terminal)
    else (do
      j ← mark_cancelled now job
      ok (
        record j { updated_at = at },
        record_actor_event actor cancel_requested (of_job j.id) AuditOutcome.succeeded
            correlation_id (progress j.status j.attempt) (save_cancel at j site),
      ))

abbrev pub is_auditor : Role → Bool
is_auditor auditor = true
is_auditor _ = false

-- the row that `scope_jobs(actor, ...).get(pk=job_id)` finds
unfoldable pub visible_job : User → ℕ → Site → Option Job
unfolding find scope_jobs
visible_job actor job_id site =
    find (λ (j : Job). j.id == job_id)
      (scope_jobs actor site.db.issuances site.db.verifications site.db.jobs)

-- `_request_cancel`, one transaction
unfoldable pub try_cancel : User → ℕ → ℕ → ℕ → ℕ → Site → Result ServiceError (Job × Site)
unfolding visible_job cancel_job
try_cancel actor job_id correlation_id now at site =
    if is_auditor actor.role then err permission_denied else elim (visible_job actor job_id site) [
      | none ↦ err workflow_not_found
      | some job ↦ cancel_job actor correlation_id now at job site
    ]

unfoldable pub request_cancel : User → ℕ → ℕ → ℕ → ℕ → Site → Site × Result ServiceError Job
unfolding try_cancel record_denial
request_cancel actor job_id correlation_id now at site =
    elim (try_cancel actor job_id correlation_id now at site) [
      | ok p ↦ (p.1, ok p.0)
      | err e ↦ (
        if is_cancel_denial e
            then record_denial actor cancel_denied correlation_id e site
            else site,
        err e,
      )
    ]
