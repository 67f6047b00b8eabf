-- ===== src/Worker/Queue/Preserve.antt =====
-- Every outcome of the claim and of the retry keeps the invariant of the queue.
use splitbind.Base.{
  ℕ, ◌+◌, ◌≤◌, ◌≡◌, refl, ◌≢◌, ◌∙◌, inl, inr, Bool, true, false, Option, none, arith, ok, err,
  is_some, leb, Bool-cases, Option-cases, Result,
}
use splitbind.Jobs.State.{
  Job, JobKind, issuance, verification, queued, processing, retryable_failed, failed, dead_lettered,
  cancelled, transition_job,
}
use splitbind.Model.Table.Laws.{Among, first_by-Among}
use splitbind.Worker.Db.{Db}
use splitbind.Worker.Saves.{WorkerError, save_status, save_attempt, next_job}
use splitbind.Worker.Invariant.{
  Inv, Kept, Kept-refl, Kept-save, Kept-update, result_exists-same, close-Kept, close_with-Kept,
}
use splitbind.Worker.Queue.{
  ClaimOptions, reserve, start_job, claim_job, nothing, timed_out, claim_next_job, result_exists,
  requeue, retry_job, prepare_one_retry,
}

reserve-jobs :
    (kind : JobKind) (job : Job) (token : ℕ) (db db' : Db)
    → reserve kind job token db ≡ ok db'
    → db'.jobs ≡ db.jobs
unfolding reserve
reserve-jobs issuance job token db db' e = ground arith
reserve-jobs verification job token db db' e = ground arith

-- The result rows of the other jobs stay as they were.
reserve-others :
    (kind : JobKind) (job : Job) (token : ℕ) (db db' : Db) (k : JobKind) (id : ℕ)
    → id ≢ job.id
    → reserve kind job token db ≡ ok db'
    → result_exists k id db' ≡ result_exists k id db
unfolding reserve result_exists
reserve-others issuance job token db db' issuance id n e = ground arith
reserve-others issuance job token db db' verification id n e = ground arith
reserve-others verification job token db db' issuance id n e = ground arith
reserve-others verification job token db db' verification id n e = ground arith

-- and no row is lost.
reserve-grows :
    (kind : JobKind) (job : Job) (token : ℕ) (db db' : Db) (k : JobKind) (id : ℕ)
    → reserve kind job token db ≡ ok db'
    → result_exists k id db ≡ true
    → result_exists k id db' ≡ true
unfolding reserve result_exists
reserve-grows issuance job token db db' issuance id e h = ground arith
reserve-grows issuance job token db db' verification id e h = ground arith
reserve-grows verification job token db db' issuance id e h = ground arith
reserve-grows verification job token db db' verification id e h = ground arith

pub start_job-eq :
    (token at : ℕ) (job : Job) (db db' : Db) {o : Option (Job × ℕ)}
    → start_job token at job db ≡ ok (db', o)
    → reserve job.kind
        (record job { status = processing; updated_at = at })
        token
        (save_status at (record job { status = processing }) db)
      ≡ ok db'
unfolding start_job transition_job
start_job-eq token at job db db' e = ground arith

module _ (token at : ℕ) (job : Job) (db db' : Db) (m : Among job db.jobs) (inv : Inv db) where
  start_job-Kept : {o : Option (Job × ℕ)} → start_job token at job db ≡ ok (db', o) → Kept db db'
  unfolding save_status
  start_job-Kept e =
      let claimed = record job { status = processing; updated_at = at } in
      let saved = save_status at (record job { status = processing }) db in
      let e' = start_job-eq token at job db db' e in
      Kept-update db db' job (λ r. record r { status = processing; updated_at = at })
        (reserve-jobs job.kind claimed token saved db' e') (λ r. (refl, refl))
        (λ k i h.
          reserve-grows job.kind claimed token saved db' k i e'
            (result_exists-same db saved k i refl refl ∙ h))
        (λ r n.
          reserve-others job.kind claimed token saved db' r.kind r.id n e'
          ∙ result_exists-same db saved r.kind r.id refl refl)
        (λ s. record { attempts = s.attempts; unclaimed = λ w. cc }) m inv

  nothing-ok :
      (r : Result WorkerError Db) {o : Option (Job × ℕ)} → nothing r ≡ ok (db', o) → r ≡ ok db'
  unfolding nothing
  nothing-ok (ok d) e = cc
  nothing-ok (err x) e = cc

  claim_job-Kept :
      (opts : ClaimOptions) (now : ℕ) {o : Option (Job × ℕ)}
      → claim_job opts token now at job db ≡ ok (db', o)
      → Kept db db'
  unfolding claim_job
  claim_job-Kept opts now e = elim (Bool-cases (is_some job.cancel_requested_at)) [
    | inl c ↦ close-Kept at job cancelled db db' refl m inv (nothing-ok _ (rw c at e))
    | inr c ↦ elim (Bool-cases (leb job.deadline_at now)) [
      | inl d ↦ close_with-Kept at job failed db db' refl m inv _ (nothing-ok _ (rw (c, d) at e))
      | inr d ↦ elim (Bool-cases (timed_out opts.timeout_seconds now job)) [
        | inl t ↦
            close_with-Kept at job failed db db' refl m inv _ (nothing-ok _ (rw (c, d, t) at e))
        | inr t ↦ start_job-Kept (rw (c, d, t) at e)
      ]
    ]
  ]

  requeue-eq :
      requeue at job db ≡ ok db'
      → db'
        ≡ save_attempt at
            (record job { status = queued; attempt = job.attempt + 1; safe_error_code = none })
            db
  unfolding requeue transition_job
  requeue-eq e = ground arith

  requeue-Kept :
      result_exists job.kind job.id db ≡ false
      → job.attempt + 1 ≤ 2
      → requeue at job db ≡ ok db'
      → Kept db db'
  unfolding save_attempt
  requeue-Kept free few e = rw (requeue-eq e) (
      Kept-save db job
        (λ r. record r {
          status = queued;
          attempt = job.attempt + 1;
          safe_error_code = none;
          updated_at = at;
        })
        (λ r. (refl, refl)) few (λ w. free) m inv)

  retry_job-Kept : (now : ℕ) → retry_job now at job db ≡ ok db' → Kept db db'
  unfolding retry_job
  retry_job-Kept now e = elim (Bool-cases (is_some job.cancel_requested_at)) [
    | inl c ↦ close-Kept at job cancelled db db' refl m inv (rw c at e)
    | inr c ↦ elim (Bool-cases (leb job.deadline_at now)) [
      | inl d ↦ close_with-Kept at job failed db db' refl m inv _ (rw (c, d) at e)
      | inr d ↦ elim (Bool-cases (result_exists job.kind job.id db)) [
        | inl t ↦ close_with-Kept at job dead_lettered db db' refl m inv _ (rw (c, d, t) at e)
        | inr t ↦ elim (Bool-cases (leb 2 job.attempt)) [
          | inl a ↦ close_with-Kept at job dead_lettered db db' refl m inv _ (rw (c, d, t, a) at e)
          | inr a ↦ requeue-Kept t (ground arith) (rw (c, d, t, a) at e)
        ]
      ]
    ]
  ]

-- A claim that does not raise, whatever it finds in the queue, keeps the invariant: ids are unique,
-- attempts are at most 2, and a job that waits has no result row.
pub claim_next_job-Kept :
    (opts : ClaimOptions) (locked : ℕ → Bool) (token now at : ℕ) (db db' : Db)
    {o : Option (Job × ℕ)}
    → claim_next_job opts locked token now at db ≡ ok (db', o)
    → Inv db
    → Kept db db'
unfolding claim_next_job
claim_next_job-Kept opts locked token now at db db' e inv = elim (Bool-cases opts.enabled) [
  | inr off ↦ Kept-refl inv (ground arith)
  | inl on ↦ elim (Option-cases (next_job (λ j. j.created_at) queued locked db)) [
    | inl empty ↦ Kept-refl inv (ground arith)
    | inr (job, found) ↦
        claim_job-Kept token at job db db'
          (first_by-Among (λ j. j.created_at) (λ j. j.id) _ db.jobs job found).0 inv opts now
          (rw (on, found) at e)
  ]
]

-- A retry that does not raise keeps the invariant, on each of its branches.
pub prepare_one_retry-Kept :
    (locked : ℕ → Bool) (now at : ℕ) (db db' : Db)
    → prepare_one_retry locked now at db ≡ ok db'
    → Inv db
    → Kept db db'
unfolding prepare_one_retry
prepare_one_retry-Kept locked now at db db' e inv =
    elim (Option-cases (next_job (λ j. j.updated_at) retryable_failed locked db)) [
      | inl empty ↦ Kept-refl inv (ground arith)
      | inr (job, found) ↦
          retry_job-Kept 0 at job db db'
            (first_by-Among (λ j. j.updated_at) (λ j. j.id) _ db.jobs job found).0 inv now
            (rw (found, prepare_one_retry) at e)
    ]
