-- ===== src/Access/Laws.antt =====
-- What the scopes let through.
use splitbind.Base.{◌≡◌, refl, sym, inl, inr, Bool, true, some, List, [], ◌∷◌, arith, Bool-cases}
use mathlib.Core.Path.{subst}
use splitbind.Jobs.State.{Job, JobKind}
use splitbind.Model.Rows.{issuer, verifier, User, Issuance, Verification}
use splitbind.Model.Table.{exists}
use splitbind.Model.Table.Laws.{Among}
use splitbind.Access.{filter_rows, scope_jobs, sees_job, created_by, requested_by}

filtered :
    {A : Type 0} (test : A → Bool) (xs : List A) (a : A)
    → Among a (filter_rows test xs)
    → Among a xs × (test a ≡ true)
unfolding filter_rows
filtered test [] a m = absurd m
filtered test (x ∷ xs) a m = elim (Bool-cases (test x)) [
  | inr t ↦ let (n, p) = filtered test xs a (rw t at m) in (inr n, p)
  | inl t ↦ elim (rw t at m) [
    | inl e ↦ (inl e, subst (λ y. test y ≡ true) (sym e) t)
    | inr n ↦ let (n', p) = filtered test xs a n in (inr n', p)
  ]
]

found_row :
    {A : Type 0} (test : A → Bool) (xs : List A)
    → exists test xs ≡ true
    → (a : A) × Among a xs × (test a ≡ true)
unfolding exists
found_row test [] e = absurd (cc e)
found_row test (x ∷ xs) e = elim (Bool-cases (test x)) [
  | inl t ↦ (x, inl refl, t)
  | inr t ↦ let (a, m, p) = found_row test xs (rw t at e) in (a, inr m, p)
]

-- A job that an actor may discover.
pub record IsVisible (actor : User) (issuances : List Issuance) (verifications : List Verification)
    (jobs : List Job) (job : Job) : Type 0 where
  pub among : Among job jobs
  pub organization : job.organization_id ≡ actor.organization_id
  pub issued :
      actor.role ≡ issuer
      → (job.kind ≡ JobKind.issuance)
        × (i : Issuance) × Among i issuances
        × (job.issuance_id ≡ some i.id)
        × (i.created_by_id ≡ actor.id)
  pub verified :
      actor.role ≡ verifier
      → (job.kind ≡ JobKind.verification)
        × (v : Verification) × Among v verifications
        × (job.verification_id ≡ some v.id)
        × (v.requested_by_id ≡ actor.id)

-- Every job in an actor's scope is a job of the actor's organization; for an issuer it issues a
-- document that the actor has created, for a verifier it is a verification that the actor has
-- requested.
pub scope_jobs-IsVisible :
    (actor : User) (issuances : List Issuance) (verifications : List Verification) (jobs : List Job)
    (job : Job)
    → Among job (scope_jobs actor issuances verifications jobs)
    → IsVisible actor issuances verifications jobs job
unfolding scope_jobs sees_job
scope_jobs-IsVisible actor issuances verifications jobs job m =
    let (n, s) = filtered (sees_job actor issuances verifications) jobs job m in
    record {
      among = n;
      organization = ground arith;
      issued = λ r.
          let (i, a, p) = found_row (created_by actor.id job) issuances (ground arith) in
          (ground arith, i, a, ground arith, ground arith);
      verified = λ r.
          let (v, a, p) = found_row (requested_by actor.id job) verifications (ground arith) in
          (ground arith, v, a, ground arith, ground arith);
    }
