-- ===== src/Jobs/State.antt =====
-- jobs/models.py (`JobKind`, `JobStatus`, `Job`) and jobs/state.py (`TRANSITIONS`,
-- `transition_job`). Identifiers are numbers, a time is a number of microseconds.
use splitbind.Base.{
  ℕ, String, Bool, true, false, not, ◌&&◌, Option, none, some, Result, ok, err, leb, ltb,
  if◌then◌else◌,
}

pub data JobKind : Type 0 where
  issuance verification : JobKind

pub data JobStatus : Type 0 where
  created queued processing retryable_failed succeeded failed dead_lettered cancelled : JobStatus

pub record Job : Type 0 where
  pub id : ℕ
  pub organization_id : ℕ
  pub kind : JobKind
  pub status : JobStatus
  pub attempt : ℕ
  pub issuance_id : Option ℕ
  pub verification_id : Option ℕ
  pub deadline_at : ℕ
  pub correlation_id : ℕ
  pub cancel_requested_at : Option ℕ
  pub safe_error_code : Option String
  pub created_at : ℕ
  pub updated_at : ℕ

-- the two messages of `InvalidJobTransition`
pub data InvalidJobTransition : Type 0 where
  job_attempt job_transition : InvalidJobTransition

-- the table `TRANSITIONS`
unfoldable pub transitions : JobStatus → JobStatus → Bool
transitions created queued = true
transitions created cancelled = true
transitions created failed = true
transitions queued processing = true
transitions queued cancelled = true
transitions queued failed = true
transitions queued dead_lettered = true
transitions processing succeeded = true
transitions processing failed = true
transitions processing retryable_failed = true
transitions processing cancelled = true
transitions retryable_failed queued = true
transitions retryable_failed failed = true
transitions retryable_failed dead_lettered = true
transitions retryable_failed cancelled = true
transitions _ _ = false

-- `job.status == RETRYABLE_FAILED and target == QUEUED`
abbrev pub is_requeue : JobStatus → JobStatus → Bool
is_requeue retryable_failed queued = true
is_requeue _ _ = false

-- The target is a text: `none` is one that `JobStatus.values` does not hold. The attempt is a
-- column of small natural numbers, so the tests of its type cannot fail.
unfoldable pub transition_job : Job → Option JobStatus → Result InvalidJobTransition Job
unfolding transitions
transition_job job target = if ltb 2 job.attempt then err job_attempt else elim target [
  | none ↦ err job_transition
  | some t ↦
      if not (transitions job.status t)
      then err job_transition
      else if is_requeue job.status t && leb 2 job.attempt
      then err job_attempt
      else ok (record job { status = t })
]
