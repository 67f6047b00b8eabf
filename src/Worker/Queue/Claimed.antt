-- ===== src/Worker/Queue/Claimed.antt =====
-- What a claimed job is.
use splitbind.Base.{
  ℕ, ◌<◌, ◌≡◌, inl, inr, Bool, true, false, not, ◌&&◌, none, some, arith, ok, err, All, Bool-cases,
  Option-cases, Result, is_some, leb, refl, sym, ◌∙◌, List, [], ◌∷◌, ◌==◌, ◌||◌, Option,
}
use splitbind.Jobs.State.{Job, JobKind, issuance, verification, queued, processing, transition_job}
use splitbind.Model.Table.{before, exists}
use splitbind.Model.Keys.{key_eq, issuance_output}
use splitbind.Model.Table.Laws.{Among, first_by-Among, first_by-least}
use splitbind.Worker.Db.{Db, DemoIssuanceResult, DemoVerificationResult}
use splitbind.Worker.Saves.{WorkerError, next_job, has_status, output_extension, save_status}
use splitbind.Worker.Queue.{
  ClaimOptions, reserve, start_job, claim_job, nothing, timed_out, claim_next_job, result_exists,
  reserve_issuance, reserve_verification, taken_issuance, taken_verification, reserved_issuance,
  reserved_verification,
}
use splitbind.Worker.Queue.Preserve.{start_job-eq}

-- The row of the queue that a claim took, and what the claim made of it.
pub record IsClaim (opts : ClaimOptions) (locked : ℕ → Bool) (now at : ℕ) (db db' : Db) (job' : Job)
    (job : Job) : Type 0 where
  pub among : Among job db.jobs
  pub taken : job' ≡ record job { status = processing; updated_at = at }
  pub waiting : job.status ≡ queued
  pub unlocked : locked job.id ≡ false
  pub wanted : job.cancel_requested_at ≡ none
  pub in_time : now < job.deadline_at
  pub not_timed_out : timed_out opts.timeout_seconds now job ≡ false
  pub oldest :
      All
        (λ r.
          (has_status queued r.status && not (locked r.id)) ≡ true
          → before (λ j. j.created_at) (λ j. j.id) r job ≡ false)
        db.jobs
  pub unclaimed : result_exists job.kind job.id db ≡ false
  pub owned : result_exists job.kind job.id db' ≡ true

reserve-owned :
    (kind : JobKind) (job : Job) (token : ℕ) (db db' : Db)
    → reserve kind job token db ≡ ok db'
    → result_exists kind job.id db' ≡ true
unfolding reserve result_exists
reserve-owned issuance job token db db' e = ground arith
reserve-owned verification job token db db' e = ground arith

exists-weaker :
    {A : Type 0} (p q : A → Bool)
    → ((x : A) → p x ≡ true → q x ≡ true)
    → (xs : List A) → exists q xs ≡ false
    → exists p xs ≡ false
unfolding exists
exists-weaker p q f [] e = refl
exists-weaker p q f (x ∷ xs) e =
    let rest = exists-weaker p q f xs (ground arith) in
    elim (Bool-cases (p x)) [
      | inl holds ↦ (let also = f x holds in absurd (ground (arith, also, e)))
      | inr fails ↦ rw (fails, rest) refl
    ]

-- The unique column of the job refuses a second row.
issuance-unclaimed :
    (job : Job) (o : Option ℕ) (token : ℕ) (db db' : Db)
    → reserve_issuance job o token db ≡ ok db'
    → exists (λ (r : DemoIssuanceResult). r.job_id == job.id) db.issuance_results ≡ false
unfolding reserve_issuance taken_issuance reserved_issuance
issuance-unclaimed job none token db db' e = cc
issuance-unclaimed job (some i) token db db' e =
    exists-weaker (λ (r : DemoIssuanceResult). r.job_id == job.id)
      (λ r.
        r.job_id == job.id
        || (r.issuance_id == i
            || (r.owner_token == token
                || key_eq r.output_object_key
                    (issuance_output job.organization_id i (output_extension job db)))))
      (λ r h. ground arith) db.issuance_results (ground arith)

verification-unclaimed :
    (job : Job) (o : Option ℕ) (token : ℕ) (db db' : Db)
    → reserve_verification job o token db ≡ ok db'
    → exists (λ (r : DemoVerificationResult). r.job_id == job.id) db.verification_results ≡ false
unfolding reserve_verification taken_verification reserved_verification
verification-unclaimed job none token db db' e = cc
verification-unclaimed job (some v) token db db' e =
    exists-weaker (λ (r : DemoVerificationResult). r.job_id == job.id)
      (λ r. r.job_id == job.id || (r.verification_id == v || r.owner_token == token))
      (λ r h. ground arith) db.verification_results (ground arith)

reserve-unclaimed :
    (kind : JobKind) (job : Job) (token : ℕ) (db db' : Db)
    → reserve kind job token db ≡ ok db'
    → result_exists kind job.id db ≡ false
unfolding reserve result_exists
reserve-unclaimed issuance job token db db' e =
    issuance-unclaimed job job.issuance_id token db db' e
reserve-unclaimed verification job token db db' e =
    verification-unclaimed job job.verification_id token db db' e

result_exists-saved :
    (kind : JobKind) (id at : ℕ) (job : Job) (db : Db)
    → result_exists kind id (save_status at job db) ≡ result_exists kind id db
unfolding result_exists save_status
result_exists-saved issuance id at job db = refl
result_exists-saved verification id at job db = refl

close-none : (r : Result WorkerError Db) {d : Db} {p : Job × ℕ} → nothing r ≡ ok (d, some p) → ⊥
unfolding nothing
close-none (ok d) e = cc
close-none (err x) e = cc

start_job-job :
    (token at : ℕ) (job job' : Job) (t : ℕ) (db db' : Db)
    → start_job token at job db ≡ ok (db', some (job', t))
    → job' ≡ record job { status = processing; updated_at = at }
unfolding start_job transition_job
start_job-job token at job job' t db db' e = ground arith

module _ (opts : ClaimOptions) (now token at : ℕ) (job job' : Job) (t : ℕ) (db db' : Db) where
  claim_job-passes :
      claim_job opts token now at job db ≡ ok (db', some (job', t))
      → (is_some job.cancel_requested_at ≡ false)
        × (leb job.deadline_at now ≡ false)
        × (timed_out opts.timeout_seconds now job ≡ false)
        × (start_job token at job db ≡ ok (db', some (job', t)))
  unfolding claim_job
  claim_job-passes e = elim (Bool-cases (is_some job.cancel_requested_at)) [
    | inl c ↦ absurd (close-none _ (rw c at e))
    | inr c ↦ elim (Bool-cases (leb job.deadline_at now)) [
      | inl d ↦ absurd (close-none _ (rw (c, d) at e))
      | inr d ↦ elim (Bool-cases (timed_out opts.timeout_seconds now job)) [
        | inl o ↦ absurd (close-none _ (rw (c, d, o) at e))
        | inr o ↦ (c, d, o, rw (c, d, o) at e)
      ]
    ]
  ]

-- A claim that yields a job took the oldest row, by creation and then by id, of those in the queue
-- that no other transaction holds; the row is not cancelled, is before its deadline and within the
-- timeout. The job is that row, now processing; it had no result row before, and has one after.
pub claim_next_job_lem :
    (opts : ClaimOptions) (locked : ℕ → Bool) (token now at : ℕ) (db db' : Db) (job' : Job) (t : ℕ)
    → claim_next_job opts locked token now at db ≡ ok (db', some (job', t))
    → (job : Job) × IsClaim opts locked now at db db' job' job
unfolding claim_next_job
claim_next_job_lem opts locked token now at db db' job' t e = elim (Bool-cases opts.enabled) [
  | inr off ↦ cc (rw off at e)
  | inl on ↦ elim (Option-cases (next_job (λ j. j.created_at) queued locked db)) [
    | inl empty ↦ cc (rw (on, empty) at e)
    | inr (job, found) ↦
        let (c, d, o, s) =
          claim_job-passes opts now token at job job' t db db' (rw (on, found) at e) in
        let (m, test) = first_by-Among (λ j. j.created_at) (λ j. j.id) _ db.jobs job found in
        let waiting : job.status ≡ queued = ground arith in
        let reserved = start_job-eq token at job db db' s in
        (
          job,
          record {
            among = m;
            taken = start_job-job token at job job' t db db' s;
            waiting = waiting;
            unlocked = ground arith;
            wanted = ground arith;
            in_time = ground arith;
            not_timed_out = o;
            oldest = first_by-least (λ j. j.created_at) (λ j. j.id) _ db.jobs job found;
            unclaimed =
                sym (result_exists-saved job.kind job.id at (record job { status = processing }) db)
                ∙ reserve-unclaimed job.kind (record job { status = processing; updated_at = at })
                    token (save_status at (record job { status = processing }) db) db' reserved;
            owned = reserve-owned job.kind _ token _ db' reserved;
          },
        )
  ]
]
