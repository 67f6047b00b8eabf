-- ===== src/Demo/Outcome/Laws.antt =====
-- What holds of every row of the verification results (demo/models.py), after whatever saves.
use mathlib.Core.Path.{subst}
use splitbind.Base.{
  ◌≡◌, refl, sym, ◌≢◌, Bool, true, false, not, Option, List, ok, >>-eq-ok, guard-eq-ok, ok-inv,
  Bool-cases, inl, inr, if◌then◌else◌, guard, ◌>>◌,
}
use splitbind.Demo.Evidence.{check_columns}
use splitbind.Demo.Evidence.Laws.{IsSound, check_evidence_shape-IsSound}
use splitbind.Demo.Output.{write_forbidden}
use splitbind.Demo.Outcome.{
  OutcomeColumn, write_outcome, create_outcome, save_outcome, clean_outcome, clean_state,
  is_reserved,
}
use splitbind.Jobs.State.{Job}
use splitbind.Model.Evidence.{Json, EvidenceKey, MetricKey, JsonColumn, dict, not_dict}
use splitbind.Model.Rows.{Issuance, Verification}
use splitbind.Worker.Db.{DemoVerificationResult, DemoVerificationState, committed}

-- A row of the table: made by an accepted creation, and changed by accepted saves that name the
-- evidence and the metrics whenever they name the state.
pub data IsStored : DemoVerificationResult → Type 0 where
  created :
      {row : DemoVerificationResult} (allowed : Bool) (job : Job) (verification : Verification)
      (recovered : Option Issuance) (new : DemoVerificationResult)
      → create_outcome allowed job verification recovered new ≡ ok row
      → IsStored row
  saved :
      {old row : DemoVerificationResult} (allowed : Bool) (names : OutcomeColumn → Bool) (job : Job)
      (verification : Verification) (recovered : Option Issuance) (new : DemoVerificationResult)
      → IsStored old
      → (names OutcomeColumn.result_state ≡ true
          → (names OutcomeColumn.evidence ≡ true) × (names OutcomeColumn.metrics ≡ true))
      → save_outcome allowed names job verification recovered old new ≡ ok row
      → IsStored row

-- The columns of a row are objects with sound contents.
pub record IsSoundRow (row : DemoVerificationResult) : Type 0 where
  pub entries : List (EvidenceKey × Json)
  pub counts : List (MetricKey × Json)
  pub evidence : row.evidence ≡ dict entries
  pub metrics : row.metrics ≡ dict counts
  pub sound : IsSound entries counts

check_columns-IsSound :
    (evidence : JsonColumn EvidenceKey) (metrics : JsonColumn MetricKey)
    → check_columns evidence metrics ≡ ok tt
    → (entries : List (EvidenceKey × Json)) × (counts : List (MetricKey × Json)) × (evidence
        ≡ dict entries)
      × (metrics ≡ dict counts)
      × IsSound entries counts
unfolding check_columns
check_columns-IsSound (dict entries) (dict counts) e =
    (entries, counts, refl, refl, check_evidence_shape-IsSound entries counts (>>-eq-ok _ _ e).1)
check_columns-IsSound (dict entries) (not_dict t) e = cc
check_columns-IsSound (not_dict t) (dict counts) e = cc
check_columns-IsSound (not_dict t) (not_dict u) e = cc

clean_state-IsSoundRow :
    (row : DemoVerificationResult) → clean_state committed row ≡ ok tt → IsSoundRow row
unfolding clean_state
clean_state-IsSoundRow row e =
    let (entries, counts, evidence, metrics, sound) =
      check_columns-IsSound row.evidence row.metrics (>>-eq-ok _ _ e).1 in
    record {
      entries = entries;
      counts = counts;
      evidence = evidence;
      metrics = metrics;
      sound = sound;
    }

clean_outcome-IsSoundRow :
    (job : Job) (verification : Verification) (recovered : Option Issuance)
    (row : DemoVerificationResult)
    → clean_outcome job verification recovered row ≡ ok tt
    → row.result_state ≡ committed
    → IsSoundRow row
unfolding clean_outcome
clean_outcome-IsSoundRow job verification recovered row e c =
    clean_state-IsSoundRow row (subst (λ s. clean_state s row ≡ ok tt) c (>>-eq-ok _ _ e).1)

-- What an accepted save has passed.
record IsPassed (names : OutcomeColumn → Bool) (job : Job) (verification : Verification)
    (recovered : Option Issuance) (old new row : DemoVerificationResult) : Type 0 where
  waiting : is_reserved old.result_state ≡ true
  decided : not (is_reserved new.result_state) ≡ true
  clean : clean_outcome job verification recovered new ≡ ok tt
  written : write_outcome names old new ≡ row

save_outcome-IsPassed :
    (allowed : Bool) (names : OutcomeColumn → Bool) (job : Job) (verification : Verification)
    (recovered : Option Issuance) (old new row : DemoVerificationResult)
    → save_outcome allowed names job verification recovered old new ≡ ok row
    → IsPassed names job verification recovered old new row
unfolding save_outcome
save_outcome-IsPassed allowed names job verification recovered old new row e =
    let written = >>-eq-ok _ _ e in
    let clean = >>-eq-ok _ _ written.0 in
    let organization = >>-eq-ok _ _ clean.0 in
    let decided = >>-eq-ok _ _ organization.0 in
    let waiting = >>-eq-ok _ _ decided.0 in
    record {
      waiting = guard-eq-ok _ _ waiting.1;
      decided = guard-eq-ok _ _ decided.1;
      clean = clean.1;
      written = ok-inv written.1;
    }

not_twice : (b : Bool) → b ≡ true → not b ≡ true → ⊥
not_twice true e n = cc
not_twice false e n = cc

committed_is_decided : (s : DemoVerificationState) → is_reserved s ≡ true → s ≡ committed → ⊥
committed_is_decided s r c = let same : false ≡ true = subst (λ t. is_reserved t ≡ true) c r in cc

-- A row that a save has committed carries what the instance carried.
written-IsSoundRow :
    (names : OutcomeColumn → Bool) (old new : DemoVerificationResult)
    → is_reserved old.result_state ≡ true
    → (names OutcomeColumn.result_state ≡ true
        → (names OutcomeColumn.evidence ≡ true) × (names OutcomeColumn.metrics ≡ true))
    → (new.result_state ≡ committed → IsSoundRow new)
    → (write_outcome names old new).result_state ≡ committed
    → IsSoundRow (write_outcome names old new)
unfolding write_outcome
written-IsSoundRow names old new waiting complete sound c =
    elim (Bool-cases (names OutcomeColumn.result_state)) [
      | inr kept ↦ absurd (
          committed_is_decided old.result_state waiting
            (subst (λ b. (if b then new.result_state else old.result_state) ≡ committed) kept c))
      | inl named ↦
          (let with_evidence = (complete named).0 in
            let with_metrics = (complete named).1 in
            let s = sound (
              subst (λ b. (if b then new.result_state else old.result_state) ≡ committed) named
                c) in
            record {
              entries = s.entries;
              counts = s.counts;
              evidence = rw with_evidence s.evidence;
              metrics = rw with_metrics s.metrics;
              sound = s.sound;
            })
    ]

create_outcome-clean :
    (allowed : Bool) (job : Job) (verification : Verification) (recovered : Option Issuance)
    (new row : DemoVerificationResult)
    → create_outcome allowed job verification recovered new ≡ ok row
    → clean_outcome job verification recovered row ≡ ok tt
unfolding create_outcome
create_outcome-clean allowed job verification recovered new row e =
    let written = >>-eq-ok _ _ e in
    let constraint =
      >>-eq-ok (guard allowed write_forbidden >> clean_outcome job verification recovered new) _
        written.0 in
    let clean : clean_outcome job verification recovered new ≡ ok tt =
      (>>-eq-ok (guard allowed write_forbidden) _ constraint.0).1 in
    subst (λ r. clean_outcome job verification recovered r ≡ ok tt) (ok-inv written.1) clean

-- A committed row that a creation and saves have made, each of which named the evidence and the metrics
-- when it named the state, has sound evidence: from 1 to 5 analysed pages (5 is what
-- `clean` enforces, although the documented limit of a verified file is 50 pages), which the metrics count
-- too,
-- no failed cleanup, a confidence from 0 to 1, and limitations that are allowed, distinct and begin with
-- those of every verification.
pub IsStored-IsSoundRow :
    {row : DemoVerificationResult} → IsStored row → row.result_state ≡ committed → IsSoundRow row
IsStored-IsSoundRow {row} (created allowed job verification recovered new e) c =
    clean_outcome-IsSoundRow job verification recovered row
      (create_outcome-clean allowed job verification recovered new row e) c
IsStored-IsSoundRow {row} (saved {old} allowed names job verification recovered new h complete e)
      c =
    let p = save_outcome-IsPassed allowed names job verification recovered old new row e in
    subst IsSoundRow p.written (
      written-IsSoundRow names old new p.waiting complete
        (clean_outcome-IsSoundRow job verification recovered new p.clean)
        (subst (λ r. r.result_state ≡ committed) (sym p.written) c))

written_state :
    (names : OutcomeColumn → Bool) (old new : DemoVerificationResult)
    → names OutcomeColumn.result_state ≡ true
    → (write_outcome names old new).result_state ≡ new.result_state
unfolding write_outcome
written_state names old new named = rw named refl

-- A verification result is decided once: after a save that names the state was accepted, no save of the
-- row is, whatever it names.
pub decided_once :
    (allowed again : Bool) (names others : OutcomeColumn → Bool) (job job' : Job)
    (verification verification' : Verification) (recovered recovered' : Option Issuance)
    (old new row next later : DemoVerificationResult)
    → names OutcomeColumn.result_state ≡ true
    → save_outcome allowed names job verification recovered old new ≡ ok row
    → save_outcome again others job' verification' recovered' row next ≢ ok later
decided_once allowed again names others job job' verification verification' recovered recovered' old
      new row next later named e f =
    let p = save_outcome-IsPassed allowed names job verification recovered old new row e in
    let q = save_outcome-IsPassed again others job' verification' recovered' row next later f in
    not_twice (is_reserved new.result_state)
      (subst (λ s. is_reserved s ≡ true) (written_state names old new named)
        (subst (λ r. is_reserved r.result_state ≡ true) (sym p.written) q.waiting))
      p.decided
