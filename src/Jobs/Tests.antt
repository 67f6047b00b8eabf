-- ===== src/Jobs/Tests.antt =====
-- Runs of the job state machine, and its theorems at concrete jobs.
use splitbind.Base.{◌≡◌, refl, none, some, err}
use splitbind.Jobs.State.{
  Job, JobStatus, issuance, created, queued, processing, retryable_failed, succeeded, cancelled,
  job_attempt, job_transition, transition_job,
}
use splitbind.Jobs.Reach.{History, here, then, Visited, terminal_absorbs, succeeded_was_processing}

abbrev sample : JobStatus → Job
sample s = record {
  id = 7;
  organization_id = 1;
  kind = issuance;
  status = s;
  attempt = 2;
  issuance_id = some 40;
  verification_id = none;
  deadline_at = 900;
  correlation_id = 5;
  cancel_requested_at = none;
  safe_error_code = none;
  created_at = 100;
  updated_at = 100;
}

requeue_exhausted : transition_job (sample retryable_failed) (some queued) ≡ err job_attempt
unfolding transition_job
requeue_exhausted = refl

unknown_target : transition_job (sample created) none ≡ err job_transition
unfolding transition_job
unknown_target = refl

abbrev life : History (sample created) (sample succeeded)
life =
    then (sample succeeded) succeeded
      (then (sample processing) processing
        (then (sample queued) queued here (unfold transition_job in refl))
        (unfold transition_job in refl))
      (unfold transition_job in refl)

succeeded_was_processing_example : Visited processing life
succeeded_was_processing_example = succeeded_was_processing life (λ e. cc) refl

abbrev ended : History (sample cancelled) (sample cancelled)
ended = here

terminal_absorbs_example : sample cancelled ≡ sample cancelled
terminal_absorbs_example = terminal_absorbs ended refl
