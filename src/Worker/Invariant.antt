-- ===== src/Worker/Invariant.antt =====
-- What every transaction of the queue keeps.
use splitbind.Base.{
  ℕ, String, ◌≤◌, ◌≡◌, refl, sym, ap, ◌∙◌, ◌≢◌, Bool, true, false, Option, arith, ok, All, ◌==◌,
}
use mathlib.Core.Path.{subst}
use splitbind.Jobs.State.{
  Job, JobKind, JobStatus, issuance, verification, created, queued, transition_job,
}
use splitbind.Model.Table.{update_row}
use splitbind.Model.Table.Laws.{
  Among, Among-kept, Unique, All-Among, update_row-All, update_row-Unique,
}
use splitbind.Worker.Db.{Db}
use splitbind.Worker.Saves.{save_status, save_code, close, close_with}
use splitbind.Worker.Queue.{result_exists}

abbrev pub is_waiting : JobStatus → Bool
is_waiting created = true
is_waiting queued = true
is_waiting _ = false

-- A job has made at most two attempts more, and a job that waits has no result row yet.
pub record IsSound (db : Db) (j : Job) : Type 0 where
  pub attempts : j.attempt ≤ 2
  pub unclaimed : is_waiting j.status ≡ true → result_exists j.kind j.id db ≡ false

pub record Inv (db : Db) : Type 0 where
  pub unique : Unique (λ j. j.id) db.jobs
  pub sound : All (IsSound db) db.jobs

-- Every job of `db` is still there, with its id and kind, and no result row is lost.
pub record Extends (db db' : Db) : Type 0 where
  pub rows :
      (r : Job)
      → Among r db.jobs
      → (r' : Job) × Among r' db'.jobs × (r'.id ≡ r.id) × (r'.kind ≡ r.kind)
  pub results :
      (kind : JobKind) (id : ℕ) → result_exists kind id db ≡ true → result_exists kind id db' ≡ true

pub Extends-refl : (db : Db) → Extends db db
Extends-refl db = record { rows = λ r m. (r, m, refl, refl); results = λ k i h. h }

pub Extends-trans : {a b c : Db} → Extends a b → Extends b c → Extends a c
Extends-trans p q = record {
  rows =
      λ r m. let (s, n, i, k) = p.rows r m in let (t, o, j, l) = q.rows s n in (t, o, j ∙ i, l ∙ k);
  results = λ k i h. q.results k i (p.results k i h);
}

-- What a transaction keeps.
pub record Kept (db db' : Db) : Type 0 where
  pub inv : Inv db'
  pub extends : Extends db db'

pub Kept-refl : {db db' : Db} → Inv db → db ≡ db' → Kept db db'
Kept-refl {db} inv e = subst (Kept db) e (record { inv = inv; extends = Extends-refl db })

pub result_exists-same :
    (db db' : Db) (kind : JobKind) (id : ℕ)
    → db'.issuance_results ≡ db.issuance_results
    → db'.verification_results ≡ db.verification_results
    → result_exists kind id db' ≡ result_exists kind id db
unfolding result_exists
result_exists-same db db' issuance id p q = rw p
result_exists-same db db' verification id p q = rw q

-- One row changes, and the result rows of the other jobs stay.
module _ (db db' : Db) (job : Job) (f : Job → Job)
    (jobs : db'.jobs ≡ update_row (λ r. r.id == job.id) f db.jobs)
    (shape : (r : Job) → ((f r).id ≡ r.id) × ((f r).kind ≡ r.kind))
    (grow : (kind : JobKind) (id : ℕ)
      → result_exists kind id db ≡ true
      → result_exists kind id db' ≡ true)
    (others : (r : Job)
      → r.id ≢ job.id
      → result_exists r.kind r.id db' ≡ result_exists r.kind r.id db)
    (changed : IsSound db job → IsSound db' (f job)) where
  Inv-update : Among job db.jobs → Inv db → Inv db'
  Inv-update m inv = record {
    unique = rw jobs (
        update_row-Unique (λ j. j.id) (λ r. r.id == job.id) f (λ r. (shape r).0) db.jobs
          inv.unique);
    sound = subst (All (IsSound db')) (sym jobs) (
        update_row-All (λ j. j.id) (IsSound db) (IsSound db') job f
          (λ r n s. record {
            attempts = s.attempts;
            unclaimed = λ w. rw (others r n) (s.unclaimed w);
          })
          changed db.jobs inv.unique m inv.sound);
  }

  rows-update :
      (r : Job)
      → Among r db.jobs
      → (r' : Job) × Among r' db'.jobs × (r'.id ≡ r.id) × (r'.kind ≡ r.kind)
  rows-update r m =
      let (r', n, e) =
        Among-kept {B = ℕ × JobKind} (λ r. (r.id, r.kind)) (λ r. r.id == job.id) f
          (λ r. ground (arith, shape r)) db.jobs r m in
      (r', subst (Among r') (sym jobs) n, ap (λ p. p.0) e, ap (λ p. p.1) e)

  pub Kept-update : Among job db.jobs → Inv db → Kept db db'
  Kept-update m inv = record {
    inv = Inv-update m inv;
    extends = record { rows = rows-update; results = grow };
  }

-- A transaction that only saves the job.
module _ (db : Db) (job : Job) (f : Job → Job)
    (shape : (r : Job) → ((f r).id ≡ r.id) × ((f r).kind ≡ r.kind)) (attempts : (f job).attempt ≤ 2)
    (unclaimed : is_waiting (f job).status ≡ true
      → result_exists (f job).kind (f job).id db ≡ false) where
  pub Kept-save :
      Among job db.jobs
      → Inv db
      → Kept db (record db { jobs = update_row (λ r. r.id == job.id) f db.jobs })
  Kept-save =
      Kept-update db db2 job f refl shape (λ k i h. rw same h) (λ r n. same r.kind r.id)
        (λ s. record { attempts = attempts; unclaimed = λ w. rw same (unclaimed w) })
    where
      db2 : Db
      db2 = record db { jobs = update_row (λ r. r.id == job.id) f db.jobs }

      same : (kind : JobKind) (id : ℕ) → result_exists kind id db2 ≡ result_exists kind id db
      same kind id = result_exists-same db db2 kind id refl refl

module _ (at : ℕ) (job : Job) (target : JobStatus) (db db' : Db) (final : is_waiting target ≡ false)
    (m : Among job db.jobs) (inv : Inv db) where
  close-eq :
      close at job target db ≡ ok db' → db' ≡ save_status at (record job { status = target }) db
  unfolding close transition_job
  close-eq e = ground arith

  pub close-Kept : close at job target db ≡ ok db' → Kept db db'
  unfolding save_status
  close-Kept e = rw (close-eq e) (
      Kept-save db job (λ r. record r { status = target; updated_at = at }) (λ r. (refl, refl))
        (All-Among (IsSound db) job db.jobs inv.sound m).attempts (λ w. cc) m inv)

  close_with-eq :
      (code : Option String)
      → close_with at job target code db ≡ ok db'
      → db' ≡ save_code at (record job { status = target; safe_error_code = code }) db
  unfolding close_with transition_job
  close_with-eq code e = ground arith

  pub close_with-Kept :
      (code : Option String) → close_with at job target code db ≡ ok db' → Kept db db'
  unfolding save_code
  close_with-Kept code e = rw (close_with-eq code e) (
      Kept-save db job (λ r. record r { status = target; safe_error_code = code; updated_at = at })
        (λ r. (refl, refl)) (All-Among (IsSound db) job db.jobs inv.sound m).attempts (λ w. cc) m
        inv)
