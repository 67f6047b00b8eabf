-- ===== src/Worker/Recovery/Laws.antt =====
-- The recovery of a stale output fences off the worker that held it.
use mathlib.Core.Path.{subst}
use splitbind.Base.{
  ℕ, String, ◌≡◌, refl, sym, ◌∙◌, ap, ◌≢◌, Bool, true, false, not, Option, some, ok, arith, ◌==◌,
  ==_iff, >>-eq-ok, >>=-eq-ok, guard-eq-ok, ok-inv, &&-inv, Result-cases, inl, inr, guard, ◌>>=◌,
  none,
}
use splitbind.Demo.Output.{ResultColumn, save_result, write_result}
use splitbind.Demo.Output.Laws.{save_result-IsPassed}
use splitbind.Jobs.State.{Job}
use splitbind.Model.Rows.{Issuance}
use splitbind.Model.Table.{find, update_row}
use splitbind.Model.Table.Find.{find-Among, find-saved}
use splitbind.Worker.Db.{Db, DemoIssuanceResult}
use splitbind.Worker.Recovery.{
  ProcessingClaim, output_ownership_invalid, found, locked_owner, locked_evidence, locked_rows,
  save_evidence, owns_evidence, takeover_columns, taken_over, claim_stale_output_recovery,
  authorize_stale_output_delete, record_stale_output_delete_failure,
  acknowledge_stale_output_delete,
}

false_of_not : (b : Bool) → not b ≡ true → b ≡ false
false_of_not true h = cc
false_of_not false h = refl

found-eq-ok : {A : Type 0} (o : Option A) (a : A) → found o ≡ ok a → o ≡ some a
found-eq-ok none a e = cc
found-eq-ok (some b) a e = ap some (ok-inv e)

locked_evidence-inv :
    (claim : ProcessingClaim) (db : Db) (evidence : DemoIssuanceResult)
    → locked_evidence claim db ≡ ok evidence
    → (find (λ (r : DemoIssuanceResult). r.job_id == claim.job_id) db.issuance_results
        ≡ some evidence)
      × (evidence.owner_token ≡ claim.owner_token)
unfolding locked_evidence owns_evidence
locked_evidence-inv claim db evidence e =
    let (row, looked, rest) =
      >>=-eq-ok
        (found (find (λ (r : DemoIssuanceResult). r.job_id == claim.job_id) db.issuance_results)) _
        e in
    let (owned, same) = >>-eq-ok _ _ rest in
    let it = ok-inv same in
    (
      found-eq-ok _ row looked ∙ ap some it,
      ap (λ r. r.owner_token) (sym it)
          ∙ (==_iff row.owner_token claim.owner_token).0 (&&-inv _ _ (guard-eq-ok _ _ owned)).0,
    )

pub locked_rows-evidence :
    (claim : ProcessingClaim) (db : Db) (job : Job) (issuance : Issuance)
    (evidence : DemoIssuanceResult)
    → locked_rows claim db ≡ ok ((job, issuance), evidence)
    → locked_evidence claim db ≡ ok evidence
unfolding locked_rows
locked_rows-evidence claim db job issuance evidence e =
    let (owner, bound, rest) =
      >>=-eq-ok (locked_owner claim db)
        (λ owner. locked_evidence claim db >>= λ evidence. ok (owner, evidence)) e in
    let (row, held, same) = >>=-eq-ok (locked_evidence claim db) _ rest in
    held ∙ ap (λ p. ok p.1) (ok-inv same)

-- The saved row is the one that the next query by its job finds.
save_evidence-inv :
    (transfer : Bool) (names : ResultColumn → Bool) (job : Job) (issuance : Issuance)
    (old new : DemoIssuanceResult) (db db' : Db)
    → save_evidence transfer names job issuance old new db ≡ ok db'
    → db' ≡ record db {
      issuance_results =
          update_row
            (λ (r : DemoIssuanceResult). r.job_id == old.job_id)
            (λ r. write_result names old new)
            db.issuance_results;
    }
unfolding save_evidence
save_evidence-inv transfer names job issuance old new db db' e =
    elim (Result-cases (save_result true transfer names job issuance old new)) [
      | inl (x, refused) ↦ absurd (ground (arith, refused))
      | inr (row, saved) ↦
          (let written =
              (save_result-IsPassed true transfer names job issuance old new row saved).written in
            rw written (ground (arith, saved)))
    ]

claim_stale_output_recovery-inv :
    (claim : ProcessingClaim) (recovery_token : ℕ) (db db' : Db) (rest : ProcessingClaim × ℕ)
    → claim_stale_output_recovery claim recovery_token db ≡ ok (db', rest)
    → (evidence : DemoIssuanceResult) × ((recovery_token == claim.owner_token) ≡ false)
      × (locked_evidence claim db ≡ ok evidence)
      × (db' ≡ record db {
        issuance_results =
            update_row
              (λ (r : DemoIssuanceResult). r.job_id == evidence.job_id)
              (λ r. write_result takeover_columns evidence (taken_over recovery_token evidence))
              db.issuance_results;
      })
unfolding claim_stale_output_recovery
claim_stale_output_recovery-inv claim recovery_token db db' rest e =
    let (fresh, e1) =
      >>-eq-ok (guard (not (recovery_token == claim.owner_token)) output_ownership_invalid) _ e in
    let (((job, issuance), evidence), held, e2) = >>=-eq-ok (locked_rows claim db) _ e1 in
    let (allowed, e3) = >>-eq-ok _ _ e2 in
    let (saved, done, e4) =
      >>=-eq-ok
        (save_evidence true takeover_columns job issuance evidence
          (taken_over recovery_token evidence) db)
        _ e3 in
    (
      evidence,
      false_of_not _ (guard-eq-ok _ _ fresh),
      locked_rows-evidence claim db job issuance evidence held,
      sym (ap (λ p. p.0) (ok-inv e4))
          ∙ save_evidence-inv true takeover_columns job issuance evidence
              (taken_over recovery_token evidence) db saved done,
    )

-- No claim with the old token owns the evidence after a takeover.
pub fenced_evidence :
    (claim : ProcessingClaim) (recovery_token : ℕ) (db db' : Db) (rest : ProcessingClaim × ℕ)
    (evidence : DemoIssuanceResult)
    → claim_stale_output_recovery claim recovery_token db ≡ ok (db', rest)
    → locked_evidence claim db' ≢ ok evidence
unfolding write_result
fenced_evidence claim recovery_token db db' rest evidence e held =
    let (old, fresh, owned, written) =
      claim_stale_output_recovery-inv claim recovery_token db db' rest e in
    let (there, token) = locked_evidence-inv claim db' evidence held in
    let (before, mine) = locked_evidence-inv claim db old owned in
    let row = write_result takeover_columns old (taken_over recovery_token old) in
    let same_job : old.job_id ≡ claim.job_id =
      (==_iff old.job_id claim.job_id).0
        (find-Among (λ (r : DemoIssuanceResult). r.job_id == claim.job_id) db.issuance_results old
          before).0 in
    let same : evidence ≡ row =
      find-saved (λ (r : DemoIssuanceResult). r.job_id) claim.job_id row db.issuance_results
        evidence
        (subst
          (λ i.
            find (λ (r : DemoIssuanceResult). r.job_id == claim.job_id)
              (update_row (λ (r : DemoIssuanceResult). r.job_id == i) (λ r. row)
                db.issuance_results)
            ≡ some evidence)
          same_job
          (subst
            (λ d.
              find (λ (r : DemoIssuanceResult). r.job_id == claim.job_id) d.issuance_results
              ≡ some evidence)
            written there)) in
    let moved : recovery_token ≡ claim.owner_token = ap (λ r. r.owner_token) (sym same) ∙ token in
    ground (arith, fresh, moved)

authorize-evidence :
    (claim : ProcessingClaim) (failures : ℕ) (db : Db)
    (rows : (Job × Issuance) × DemoIssuanceResult)
    → authorize_stale_output_delete claim failures db ≡ ok rows
    → (evidence : DemoIssuanceResult) × (locked_evidence claim db ≡ ok evidence)
unfolding authorize_stale_output_delete
authorize-evidence claim failures db rows e =
    let (((job, issuance), evidence), held, rest) = >>=-eq-ok (locked_rows claim db) _ e in
    (evidence, locked_rows-evidence claim db job issuance evidence held)

record_failure-authorized :
    (claim : ProcessingClaim) (prior : ℕ) (code : String) (db : Db) (last : Db × ℕ)
    → record_stale_output_delete_failure claim prior code db ≡ ok last
    → (rows : (Job × Issuance) × DemoIssuanceResult) × (authorize_stale_output_delete claim prior db
        ≡ ok rows)
unfolding record_stale_output_delete_failure
record_failure-authorized claim prior code db last e =
    let (rows, allowed, rest) = >>=-eq-ok (authorize_stale_output_delete claim prior db) _ e in
    (rows, allowed)

acknowledge-authorized :
    (claim : ProcessingClaim) (failures : ℕ) (code : String) (at : ℕ) (db last : Db)
    → acknowledge_stale_output_delete claim failures code at db ≡ ok last
    → (rows : (Job × Issuance) × DemoIssuanceResult) × (authorize_stale_output_delete claim failures
          db
        ≡ ok rows)
unfolding acknowledge_stale_output_delete
acknowledge-authorized claim failures code at db last e =
    let (rows, allowed, rest) = >>=-eq-ok (authorize_stale_output_delete claim failures db) _ e in
    (rows, allowed)

-- Once the recovery of a stale output was claimed under another token, the claim that was overtaken has
-- no effect: with it neither the deletion is authorized, nor its failure recorded, nor its success
-- acknowledged, nor the recovery claimed again.
pub takeover_fences :
    (claim : ProcessingClaim) (recovery_token failures again at : ℕ) (code : String) (db db' : Db)
    (taken : ProcessingClaim × ℕ) (rows : (Job × Issuance) × DemoIssuanceResult) (failed : Db × ℕ)
    (done : Db) (retaken : Db × (ProcessingClaim × ℕ))
    → claim_stale_output_recovery claim recovery_token db ≡ ok (db', taken)
    → (authorize_stale_output_delete claim failures db' ≢ ok rows)
      × (record_stale_output_delete_failure claim failures code db' ≢ ok failed)
      × (acknowledge_stale_output_delete claim failures code at db' ≢ ok done)
      × (claim_stale_output_recovery claim again db' ≢ ok retaken)
takeover_fences claim recovery_token failures again at code db db' taken rows failed done retaken
      e =
    (
      λ f.
          let (evidence, held) = authorize-evidence claim failures db' rows f in
          fenced_evidence claim recovery_token db db' taken evidence e held,
      λ f.
          let (allowed, run) = record_failure-authorized claim failures code db' failed f in
          let (evidence, held) = authorize-evidence claim failures db' allowed run in
          fenced_evidence claim recovery_token db db' taken evidence e held,
      λ f.
          let (allowed, run) = acknowledge-authorized claim failures code at db' done f in
          let (evidence, held) = authorize-evidence claim failures db' allowed run in
          fenced_evidence claim recovery_token db db' taken evidence e held,
      λ f.
          let (evidence, fresh, held, written) =
            claim_stale_output_recovery-inv claim again db' retaken.0 retaken.1 f in
          fenced_evidence claim recovery_token db db' taken evidence e held,
    )
