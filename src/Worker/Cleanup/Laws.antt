-- ===== src/Worker/Cleanup/Laws.antt =====
-- The processor of an issuance job whose output was taken over cannot touch it any more.
use splitbind.Base.{
  ℕ, String, ◌≡◌, ◌≢◌, sym, ◌⊎◌, inl, inr, Bool, true, false, Result, ok, ok-inv, if◌then◌else◌,
  ◌>>=◌, ◌==◌, >>=-eq-ok,
}
use splitbind.Jobs.State.{processing}
use splitbind.Model.Table.{find}
use splitbind.Worker.Cleanup.{
  begin_output_upload, authorize_output_cleanup, persist_output_cleanup, record_failed_job,
  fail_job, is_overtaken,
}
use splitbind.Worker.Db.{Db, DemoIssuanceResult, DemoOutputState}
use splitbind.Worker.Recovery.{
  ProcessingClaim, claim_stale_output_recovery, locked_rows, locked_evidence, locked_job,
}
use splitbind.Worker.Recovery.Laws.{fenced_evidence, locked_rows-evidence}
use splitbind.Worker.Saves.{has_status}

begin-evidence :
    (claim : ProcessingClaim) (at : ℕ) (db : Db) (begun : Db × Bool)
    → begin_output_upload claim at db ≡ ok begun
    → (evidence : DemoIssuanceResult) × (locked_evidence claim db ≡ ok evidence)
unfolding begin_output_upload
begin-evidence claim at db begun e =
    let (((job, issuance), evidence), held, rest) = >>=-eq-ok (locked_rows claim db) _ e in
    (evidence, locked_rows-evidence claim db job issuance evidence held)

authorize_cleanup-evidence :
    (claim : ProcessingClaim) (db : Db)
    → authorize_output_cleanup claim db ≡ ok tt
    → (evidence : DemoIssuanceResult) × (locked_evidence claim db ≡ ok evidence)
unfolding authorize_output_cleanup
authorize_cleanup-evidence claim db e =
    let (((job, issuance), evidence), held, rest) = >>=-eq-ok (locked_rows claim db) _ e in
    (evidence, locked_rows-evidence claim db job issuance evidence held)

persist-evidence :
    (claim : ProcessingClaim) (state : DemoOutputState) (code : String) (failures at : ℕ)
    (db last : Db)
    → persist_output_cleanup claim state code failures at db ≡ ok last
    → (evidence : DemoIssuanceResult) × (locked_evidence claim db ≡ ok evidence)
unfolding persist_output_cleanup
persist-evidence claim state code failures at db last e =
    let (((job, issuance), evidence), held, rest) = >>=-eq-ok (locked_rows claim db) _ e in
    (evidence, locked_rows-evidence claim db job issuance evidence held)

if-eq-ok :
    {E A : Type 0} (b : Bool) {x y : Result E A} {a : A}
    → (if b then x else y) ≡ ok a
    → (x ≡ ok a) ⊎ (y ≡ ok a)
if-eq-ok true e = inl e
if-eq-ok false e = inr e

record_failed-unchanged :
    (claim : ProcessingClaim) (code : String) (failures at : ℕ) (db last : Db)
    → ((evidence : DemoIssuanceResult) → locked_evidence claim db ≢ ok evidence)
    → record_failed_job claim code failures at db ≡ ok last
    → last ≡ db
unfolding record_failed_job
record_failed-unchanged claim code failures at db last fenced e =
    let (job, looked, rest) = >>=-eq-ok (locked_job claim.job_id db) _ e in
    elim (if-eq-ok
      (is_overtaken claim
        (find (λ (r : DemoIssuanceResult). r.job_id == claim.job_id) db.issuance_results))
      {y = locked_evidence claim db >>= λ evidence.
        if has_status processing job.status
        then fail_job job evidence code failures at db
        else ok db}
      rest) [
        | inl same ↦ sym (ok-inv same)
        | inr run ↦
            (let (evidence, held, more) =
                >>=-eq-ok (locked_evidence claim db)
                  (λ evidence.
                    if has_status processing job.status
                    then fail_job job evidence code failures at db
                    else ok db)
                  run in
              absurd (fenced evidence held))
      ]

-- Once the recovery of a stale output was claimed under another token, the processor that held the
-- claim can neither begin its upload, nor be authorized to delete its object, nor record a cleanup, and
-- the recording of its failure changes nothing.
pub overtaken_processor :
    (claim : ProcessingClaim) (recovery_token failures at : ℕ) (code : String)
    (state : DemoOutputState) (db db' last : Db) (taken : ProcessingClaim × ℕ) (begun : Db × Bool)
    → claim_stale_output_recovery claim recovery_token db ≡ ok (db', taken)
    → (begin_output_upload claim at db' ≢ ok begun)
      × (authorize_output_cleanup claim db' ≢ ok tt)
      × (persist_output_cleanup claim state code failures at db' ≢ ok last)
      × (record_failed_job claim code failures at db' ≡ ok last → last ≡ db')
overtaken_processor claim recovery_token failures at code state db db' last taken begun e =
    let fenced : (evidence : DemoIssuanceResult) → locked_evidence claim db' ≢ ok evidence =
      λ evidence. fenced_evidence claim recovery_token db db' taken evidence e in
    (
      λ f. (let (evidence, held) = begin-evidence claim at db' begun f in fenced evidence held),
      λ f. (let (evidence, held) = authorize_cleanup-evidence claim db' f in fenced evidence held),
      λ f.
          (let (evidence, held) = persist-evidence claim state code failures at db' last f in
            fenced evidence held),
      record_failed-unchanged claim code failures at db' last fenced,
    )
