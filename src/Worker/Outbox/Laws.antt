-- ===== src/Worker/Outbox/Laws.antt =====
-- The outbox row that is written with a job is the row that the worker accepts, and no other is.
use splitbind.Base.{
  ℕ, ◌≤◌, ◌≡◌, refl, sym, ◌↔◌, ◌⊎◌, inl, inr, Bool, true, Option, none, some, ◌∷◌, arith, ok, ◌==◌,
  Bool-cases, Option-cases,
}
use splitbind.Jobs.State.{Job, created, queued, transition_job}
use splitbind.Model.Keys.{ObjectKey}
use splitbind.Model.Keys.Laws.{key_eq_iff}
use splitbind.Model.Table.{find, count_rows}
use splitbind.Model.Table.Laws.{Among, All-Among, first_by-Among}
use splitbind.Worker.Db.{Db, JobRequest, OutboxEvent}
use splitbind.Worker.Saves.{save_status, next_job}
use splitbind.Worker.Invariant.{Inv, Kept, Kept-refl, IsSound, Kept-save}
use splitbind.Worker.Outbox.{created_event}
use splitbind.Worker.Outbox.{
  build_job_request, request_eq, outbox_matches_job, payload_matches, locked_job_input, stage_job,
  stage_next_created_job, create_job_event,
}

pub request_eq_iff : (a b : JobRequest) → (request_eq a b ≡ true) ↔ (a ≡ b)
unfolding request_eq
request_eq_iff a b = (
  λ h. ground (arith, key_eq_iff a.input_object_key b.input_object_key),
  λ e. ground (arith, key_eq_iff a.input_object_key b.input_object_key),
)

payload_matches_iff :
    (accepts : JobRequest → Bool) (e : OutboxEvent) (job : Job) (key : ObjectKey) (sha256 : ℕ)
    → (payload_matches accepts e job key sha256 ≡ true) ↔ (
        (e.payload ≡ some (build_job_request e.message_id job key sha256))
        × (accepts (build_job_request e.message_id job key sha256) ≡ true))
unfolding payload_matches
payload_matches_iff accepts e job key sha256 = elim (Option-cases e.payload) [
  | inl p ↦ (λ h. ground arith, λ h. ground arith)
  | inr (r, p) ↦
      let same = request_eq_iff r (build_job_request e.message_id job key sha256) in
      (λ h. ground (arith, same), λ h. ground (arith, same))
]

-- The worker accepts an outbox row exactly when the row is the job's, unpublished, at its attempt,
-- with the topic of its kind, and its payload is the request that the job and its locked input make,
-- which the schema accepts.
outbox_matches_job_iff :
    (accepts : JobRequest → Bool) (e : OutboxEvent) (job : Job) (key : ObjectKey) (sha256 : ℕ)
    → (outbox_matches_job accepts e job (some (some key, some sha256)) ≡ true) ↔ (
        (e.organization_id ≡ job.organization_id)
        × (e.job_id ≡ job.id)
        × (e.attempt ≡ job.attempt)
        × (e.published_at ≡ none)
        × (e.topic ≡ some job.kind)
        × (e.payload ≡ some (build_job_request e.message_id job key sha256))
        × (accepts (build_job_request e.message_id job key sha256) ≡ true))
unfolding outbox_matches_job
outbox_matches_job_iff accepts e job key sha256 =
    let payload = payload_matches_iff accepts e job key sha256 in
    (λ h. ground (arith, payload), λ h. ground (arith, payload))

stage_job-eq :
    (accepts : JobRequest → Bool) (at : ℕ) (job : Job) (db db' : Db) {o : Option Job}
    → stage_job accepts at job db ≡ ok (db', o)
    → (db' ≡ db) ⊎ (db' ≡ save_status at (record job { status = queued }) db)
unfolding stage_job transition_job
stage_job-eq accepts at job db db' e = ground arith

stage_job-Kept :
    (accepts : JobRequest → Bool) (at : ℕ) (job : Job) (db db' : Db) {o : Option Job}
    → Among job db.jobs
    → job.status ≡ created
    → Inv db
    → stage_job accepts at job db ≡ ok (db', o)
    → Kept db db'
unfolding save_status
stage_job-Kept accepts at job db db' m c inv e =
    let sound = All-Among (IsSound db) job db.jobs inv.sound m in
    elim (stage_job-eq accepts at job db db' e) [
      | inl p ↦ Kept-refl inv (sym p)
      | inr p ↦ rw p (
          Kept-save db job (λ r. record r { status = queued; updated_at = at }) (λ r. (refl, refl))
            sound.attempts (λ w. sound.unclaimed (rw c)) m inv)
    ]

-- Staging keeps the invariant.
pub stage_next_created_job-Kept :
    (accepts : JobRequest → Bool) (enabled : Bool) (locked : ℕ → Bool) (at : ℕ) (db db' : Db)
    {o : Option Job}
    → stage_next_created_job accepts enabled locked at db ≡ ok (db', o)
    → Inv db
    → Kept db db'
unfolding stage_next_created_job
stage_next_created_job-Kept accepts enabled locked at db db' e inv = elim (Bool-cases enabled) [
  | inr off ↦ Kept-refl inv (ground arith)
  | inl on ↦ elim (Option-cases (next_job (λ j. j.created_at) created locked db)) [
    | inl empty ↦ Kept-refl inv (ground arith)
    | inr (job, found) ↦
        let (m, test) = first_by-Among (λ j. j.created_at) (λ j. j.id) _ db.jobs job found in
        stage_job-Kept accepts at job db db' m (ground arith) inv (rw (on, found) at e)
  ]
]

create_job_event-eq :
    (accepts : JobRequest → Bool) (id message : ℕ) (job : Job) (key : ObjectKey) (sha256 : ℕ)
    (db db' : Db)
    → create_job_event accepts id message job key sha256 db ≡ ok db'
    → (db'.outbox ≡ created_event id message job key sha256 ∷ db.outbox)
      × (accepts (build_job_request message job key sha256) ≡ true)
unfolding create_job_event
create_job_event-eq accepts id message job key sha256 db db' e = (ground arith, ground arith)

created_event-matches :
    (accepts : JobRequest → Bool) (id message : ℕ) (job : Job) (key : ObjectKey) (sha256 : ℕ)
    → accepts (build_job_request message job key sha256) ≡ true
    → outbox_matches_job accepts
        (created_event id message job key sha256)
        job
        (some (some key, some sha256))
      ≡ true
unfolding created_event
created_event-matches accepts id message job key sha256 a =
    (outbox_matches_job_iff accepts (created_event id message job key sha256) job key sha256).1
      (refl, refl, refl, refl, refl, refl, a)

stage_job-eq_ok :
    (accepts : JobRequest → Bool) (at : ℕ) (job : Job) (event : OutboxEvent) (db : Db)
    → count_rows (λ e. e.job_id == job.id) db.outbox ≡ 1
    → find (λ e. e.job_id == job.id) db.outbox ≡ some event
    → outbox_matches_job accepts event job (locked_job_input job db) ≡ true
    → job.status ≡ created
    → job.attempt ≤ 2
    → stage_job accepts at job db
      ≡ ok (
        save_status at (record job { status = queued }) db,
        some (record job { status = queued; updated_at = at }),
      )
unfolding stage_job transition_job
stage_job-eq_ok accepts at job event db one first matches c a = ground arith

-- A created job with an attempt of at most 2, whose outbox row was written from its own input and
-- is its only one, is put into the queue by the next staging that finds it the oldest created job.
pub stage-create_job_event :
    (accepts : JobRequest → Bool) (id message at : ℕ) (job : Job) (key : ObjectKey) (sha256 : ℕ)
    (locked : ℕ → Bool) (db db' : Db)
    → create_job_event accepts id message job key sha256 db ≡ ok db'
    → count_rows (λ e. e.job_id == job.id) db.outbox ≡ 0
    → locked_job_input job db' ≡ some (some key, some sha256)
    → next_job (λ j. j.created_at) created locked db' ≡ some job
    → job.status ≡ created
    → job.attempt ≤ 2
    → stage_next_created_job accepts true locked at db'
      ≡ ok (
        save_status at (record job { status = queued }) db',
        some (record job { status = queued; updated_at = at }),
      )
unfolding stage_next_created_job created_event
stage-create_job_event accepts id message at job key sha256 locked db db' e none_yet input found c
      a =
    let (outbox, accepted) = create_job_event-eq accepts id message job key sha256 db db' e in
    let event = created_event id message job key sha256 in
    let matches = created_event-matches accepts id message job key sha256 accepted in
    rw (found, stage_next_created_job)
      (stage_job-eq_ok accepts at job event db' (rw outbox (ground (arith, none_yet)))
        (rw outbox (ground arith)) (rw input matches) c a)
