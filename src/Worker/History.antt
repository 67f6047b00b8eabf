-- ===== src/Worker/History.antt =====
-- Every interleaving of the queue's transactions with those of the processors and of the services.
use mathlib.Core.Path.{subst}
use splitbind.Base.{
  ℕ, ◌≡◌, sym, ◌∙◌, ap, ◌==◌, Bool, true, false, Option, some, arith, ok, refl, ◌≢◌, ◌∷◌, inr, All,
}
use splitbind.Jobs.State.{Job, JobKind}
use splitbind.Model.Table.{update_row}
use splitbind.Model.Table.Laws.{Among, Unique, Unique-Among, All-map}
use splitbind.Worker.Db.{Db, JobRequest}
use splitbind.Worker.Invariant.{
  is_waiting, Inv, IsSound, Kept, Kept-update, Extends-refl, Extends-trans,
}
use splitbind.Worker.Outbox.{stage_next_created_job}
use splitbind.Worker.Outbox.Laws.{stage_next_created_job-Kept}
use splitbind.Worker.Queue.{ClaimOptions, claim_next_job, prepare_one_retry, result_exists}
use splitbind.Worker.Queue.Preserve.{claim_next_job-Kept, prepare_one_retry-Kept}
use splitbind.Worker.Queue.Claimed.{claim_next_job_lem}

-- A transaction that is not one of the queue (a processor, a cancellation, the recovery of a stale
-- job): it writes one job, keeps its id, kind and attempt, does not put it back to wait, and keeps
-- the result rows of every job.
pub record IsOutside (db db' : Db) : Type 0 where
  pub job : Job
  pub write : Job → Job
  pub among : Among job db.jobs
  pub jobs : db'.jobs ≡ update_row (λ r. r.id == job.id) write db.jobs
  pub shape : (r : Job) → ((write r).id ≡ r.id) × ((write r).kind ≡ r.kind)
  pub attempt : (write job).attempt ≡ job.attempt
  pub waits : is_waiting (write job).status ≡ true → is_waiting job.status ≡ true
  pub results : (kind : JobKind) (id : ℕ) → result_exists kind id db' ≡ result_exists kind id db

-- The creation of a job by the services: a new row that has made no attempt, under an id that no job
-- and no result row has.
pub record IsCreation (db db' : Db) : Type 0 where
  pub job : Job
  pub jobs : db'.jobs ≡ job ∷ db.jobs
  pub fresh : All (λ (r : Job). r.id ≢ job.id) db.jobs
  pub attempt : job.attempt ≡ 0
  pub unowned : result_exists job.kind job.id db ≡ false
  pub results : (kind : JobKind) (id : ℕ) → result_exists kind id db' ≡ result_exists kind id db

pub data Step (db db' : Db) : Type 0 where
  staged :
      (accepts : JobRequest → Bool) (enabled : Bool) (locked : ℕ → Bool) (at : ℕ) (o : Option Job)
      → stage_next_created_job accepts enabled locked at db ≡ ok (db', o)
      → Step db db'
  claimed :
      (opts : ClaimOptions) (locked : ℕ → Bool) (token now at : ℕ) (o : Option (Job × ℕ))
      → claim_next_job opts locked token now at db ≡ ok (db', o)
      → Step db db'
  retried :
      (locked : ℕ → Bool) (now at : ℕ) → prepare_one_retry locked now at db ≡ ok db' → Step db db'
  outside : IsOutside db db' → Step db db'
  created : IsCreation db db' → Step db db'

pub data Reach (db : Db) : Db → Type 0 where
  here : Reach db db
  next : {d : Db} (e : Db) → Reach db d → Step d e → Reach db e

outside-Kept : (db db' : Db) → IsOutside db db' → Inv db → Kept db db'
outside-Kept db db' o inv =
    Kept-update db db' o.job o.write o.jobs o.shape (λ k i h. o.results k i ∙ h)
      (λ r n. o.results r.kind r.id)
      (λ s. record {
        attempts = omega (arith, o.attempt, s.attempts);
        unclaimed = λ w.
            rw ((o.shape o.job).1, (o.shape o.job).0)
              (o.results o.job.kind o.job.id ∙ s.unclaimed (o.waits w));
      })
      o.among inv

creation-Kept : (db db' : Db) → IsCreation db db' → Inv db → Kept db db'
creation-Kept db db' c inv = record {
  inv = record {
    unique = subst (Unique (λ j. j.id)) (sym c.jobs) (c.fresh, inv.unique);
    sound = subst (All (IsSound db')) (sym c.jobs) (
      record {
        attempts = omega (arith, c.attempt);
        unclaimed = λ w. c.results c.job.kind c.job.id ∙ c.unowned;
      },
      All-map (IsSound db) (IsSound db')
          (λ r s. record {
            attempts = s.attempts;
            unclaimed = λ w. c.results r.kind r.id ∙ s.unclaimed w;
          })
          db.jobs inv.sound,
    );
  };
  extends = record {
    rows = λ r m. (r, subst (Among r) (sym c.jobs) (inr m), refl, refl);
    results = λ k i h. c.results k i ∙ h;
  };
}

step-Kept : {db db' : Db} → Step db db' → Inv db → Kept db db'
step-Kept {db} {db'} (staged accepts enabled locked at o e) inv =
    stage_next_created_job-Kept accepts enabled locked at db db' e inv
step-Kept {db} {db'} (claimed opts locked token now at o e) inv =
    claim_next_job-Kept opts locked token now at db db' e inv
step-Kept {db} {db'} (retried locked now at e) inv =
    prepare_one_retry-Kept locked now at db db' e inv
step-Kept {db} {db'} (outside o) inv = outside-Kept db db' o inv
step-Kept {db} {db'} (created c) inv = creation-Kept db db' c inv

-- From a sound database, every interleaving of staging, claiming, retrying, creations of jobs and
-- outside transactions (each writes one job, keeps its id, kind and attempt and all result rows, and
-- does not put it back to wait) leads to a sound one: ids are unique, no job has more than two
-- attempts, and no job that waits has a result row. And no job or result row is lost: every job is
-- still there with its id and kind.
pub Reach-Kept : {db db' : Db} → Reach db db' → Inv db → Kept db db'
Reach-Kept {db} here inv = record { inv = inv; extends = Extends-refl db }
Reach-Kept (next e r s) inv =
    let k = Reach-Kept r inv in
    let l = step-Kept s k.inv in record { inv = l.inv; extends = Extends-trans k.extends l.extends }

-- When a claim on a sound database (unique ids, attempts of at most 2, no result row for a waiting job)
-- has yielded a job, no later claim yields a job with its id, after any interleaving of staging, claims,
-- retries, creations of jobs under fresh ids, and outside transactions, each of which writes one job,
-- keeps its id, kind and attempt and all result rows, and does not put it back to wait.
pub claimed_once :
    (db₁ db₂ db₃ db₄ : Db) (opts opts' : ClaimOptions) (locked locked' : ℕ → Bool)
    (token token' now now' at at' t t' : ℕ) (job job' : Job)
    → Inv db₁
    → claim_next_job opts locked token now at db₁ ≡ ok (db₂, some (job, t))
    → Reach db₂ db₃
    → claim_next_job opts' locked' token' now' at' db₃ ≡ ok (db₄, some (job', t'))
    → ¬ (job'.id ≡ job.id)
claimed_once db₁ db₂ db₃ db₄ opts opts' locked locked' token token' now now' at at' t t' job job'
      inv first reach second same =
    let (r, c) = claim_next_job_lem opts locked token now at db₁ db₂ job t first in
    let k₁ = claim_next_job-Kept opts locked token now at db₁ db₂ first inv in
    let k₂ = Reach-Kept reach k₁.inv in
    let (r', c') = claim_next_job_lem opts' locked' token' now' at' db₃ db₄ job' t' second in
    let (q, n, i, k) = (Extends-trans k₁.extends k₂.extends).rows r c.among in
    let ids : r'.id ≡ r.id = sym (ap (λ j. j.id) c'.taken) ∙ same ∙ ap (λ j. j.id) c.taken in
    let rows : r' ≡ q =
      Unique-Among (λ j. j.id) r' q db₃.jobs k₂.inv.unique c'.among n (ids ∙ sym i) in
    let owned = k₂.extends.results r.kind r.id c.owned in
    let kinds : r'.kind ≡ r.kind = ap (λ j. j.kind) rows ∙ k in
    let free : result_exists r.kind r.id db₃ ≡ false = rw (← kinds, ← ids) c'.unclaimed in
    cc (sym owned ∙ free)
