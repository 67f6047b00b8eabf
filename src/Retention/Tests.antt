-- ===== src/Retention/Tests.antt =====
-- A store with two tombstones and a stale copy, and what the theorems say of it.
use splitbind.Base.{ℕ, ◌≡◌, refl, true, false, none, some, [], ◌∷◌, ok, arith}
use splitbind.Model.Keys.{UploadPurpose, orphan, promoted, validate_promoted_key}
use splitbind.Model.Rows.{UploadRequest, copying, failed}
use splitbind.Model.Table.{find, first_by, exists, update_row}
use splitbind.Retention.State.{Store, CleanupScheduleState, reconciliation}
use splitbind.Retention.Eligible.{stale_promotion, key_is_owned, eligible_locked}
use splitbind.Retention.Delete.{
  delete_one, delete_locked, deletion_recorded, record_deletion_evidence,
}
use splitbind.Retention.Delete.Laws.{IsSafe, delete_one-IsSafe}
use splitbind.Retention.Candidates.{next_reconciliation_candidate, candidate_from}
use splitbind.Retention.Claims.{
  ReconciliationClaim, claim_reconciliation, claim_held, claim_upload, take_claim,
  ack_reconciliation, finish_claim, claim_matches, record_promotion_reconciliation,
  record_claim_retry, acknowledge, save_schedule, report_reconciliation,
}
use splitbind.Retention.Claims.Laws.{lease_excludes, overtaken_claim}
use splitbind.Retention.Claims.Cursor.{IsNext, next_reconciliation_candidate-IsNext}
use splitbind.Retention.Lanes.{run_reconciliation_once, run_claimed, finish_run, run_recorded}
use splitbind.Retention.Lanes.Laws.{IsRepeated, run_reconciliation_once-IsRepeated}
use splitbind.Retention.Claims.{attempt_reconciliation}
use splitbind.Uploads.Save.{save_existing, check_evidence, check_immutable, write}

abbrev tombstone : ℕ → ℕ → UploadRequest
tombstone id at = record {
  id = id;
  organization_id = 2;
  requested_by_id = 3;
  purpose = UploadPurpose.issuance;
  object_key = orphan UploadPurpose.issuance 2 id;
  source_content_type = "application/pdf";
  expected_sha256 = some 99;
  size_bytes = some 1000;
  expires_at = 900;
  finalized_at = some 15;
  orphan_deleted_at = none;
  promotion_target_key = some (promoted UploadPurpose.issuance 2 id);
  promotion_status = failed;
  promotion_status_changed_at = 30;
  safe_error_code = some "COPY";
  promotion_target_deleted_at = some at;
  promotion_target_reconciled_at = none;
  created_at = 10;
}

abbrev stale_copy : UploadRequest
stale_copy = record (tombstone 7 0) {
  promotion_target_deleted_at = none;
  promotion_status = copying;
  safe_error_code = none;
}

abbrev idle_schedule : CleanupScheduleState
idle_schedule = record {
  next_lane = reconciliation;
  reconciliation_cursor_at = some 500;
  reconciliation_cursor_id = some 4;
  reconciliation_claim_upload_id = none;
  reconciliation_claim_token = none;
  reconciliation_claim_expires_at = none;
  has_run = true;
}

abbrev store_idle : Store
store_idle = record {
  uploads = tombstone 4 500 ∷ tombstone 5 600 ∷ stale_copy ∷ [];
  issuances = [];
  documents = [];
  verifications = [];
  jobs = [];
  schedule = idle_schedule;
  audit = [];
  deleted = [];
}

abbrev store_claimed : Store
store_claimed = save_schedule (take_claim 5 88 60 1000 idle_schedule) store_idle

abbrev claim_five : ReconciliationClaim
claim_five = record { upload_id = 5; token = 88 }

claim_run : claim_reconciliation 60 1000 88 store_idle ≡ (store_claimed, some claim_five)
unfolding claim_reconciliation claim_held claim_upload next_reconciliation_candidate candidate_from
    find first_by
claim_run = refl

candidate_run : next_reconciliation_candidate store_idle ≡ some (tombstone 5 600)
unfolding next_reconciliation_candidate candidate_from first_by
candidate_run = refl

abbrev five_reconciled : UploadRequest
five_reconciled = record (tombstone 5 600) { promotion_target_reconciled_at = some 2000 }

abbrev store_acknowledged : Store
store_acknowledged =
    save_schedule (acknowledge (tombstone 5 600) (take_claim 5 88 60 1000 idle_schedule)) (
      report_reconciliation true "" five_reconciled
        (record store_claimed { uploads = tombstone 4 500 ∷ five_reconciled ∷ stale_copy ∷ [] }))

ack_run :
    ack_reconciliation (λ user. 2) claim_five 1500 2000 true "" store_claimed
    ≡ ok (true, store_acknowledged)
unfolding ack_reconciliation finish_claim claim_matches record_promotion_reconciliation
    save_existing check_evidence check_immutable write find exists update_row
ack_run = refl

lease_excludes_example : claim_reconciliation 60 2000 89 store_claimed ≡ (store_claimed, none)
lease_excludes_example =
    lease_excludes 60 1000 88 60 2000 89 store_idle store_claimed claim_five claim_run (omega arith)

overtaken_claim_example :
    (ack_reconciliation
        (λ user. 2)
        (record { upload_id = 5; token = 7 })
        1500
        2000
        true
        ""
        store_claimed
      ≡ ok (false, store_claimed))
    × (record_claim_retry
          (λ user. 2)
          (record { upload_id = 5; token = 7 })
          1500
          2000
          ""
          store_claimed
        ≡ ok (false, store_claimed))
overtaken_claim_example =
    overtaken_claim (λ user. 2) 60 1000 88 1500 2000 true "" store_idle store_claimed
      (record { upload_id = 5; token = 7 }) claim_five claim_run (λ e. omega (arith, e))

next_reconciliation_candidate-IsNext_example : IsNext 500 4 store_idle (tombstone 5 600)
next_reconciliation_candidate-IsNext_example =
    next_reconciliation_candidate-IsNext 500 4 store_idle (tombstone 5 600) refl refl candidate_run

-- The copy is stale after an hour, and its deletion is recorded.
stale_run :
    (delete_one
      (λ user. 2)
      (λ key. true)
      (λ id. false)
      7
      stale_promotion
      4000000000
      (some copying)
      store_idle).store.deleted
    ≡ promoted UploadPurpose.issuance 2 7 ∷ []
unfolding delete_one delete_locked deletion_recorded record_deletion_evidence find eligible_locked
    key_is_owned validate_promoted_key save_existing check_evidence check_immutable write update_row
stale_run = refl

delete_one-IsSafe_example :
    IsSafe
      (λ key. true)
      (λ id. false)
      7
      stale_promotion
      4000000000
      (some copying)
      store_idle
      (delete_one
        (λ user. 2)
        (λ key. true)
        (λ id. false)
        7
        stale_promotion
        4000000000
        (some copying)
        store_idle).store
delete_one-IsSafe_example =
    delete_one-IsSafe (λ user. 2) (λ key. true) (λ id. false) 7 stale_promotion 4000000000
      (some copying) store_idle

-- The lane deletes the object of the next tombstone again.
lane_run :
    (run_reconciliation_once
      (λ user. 2)
      (λ key. true)
      60
      1000
      88
      1500
      2000
      store_idle).store.deleted
    ≡ promoted UploadPurpose.issuance 2 5 ∷ []
unfolding run_reconciliation_once run_claimed finish_run run_recorded attempt_reconciliation
    claim_reconciliation claim_held claim_upload next_reconciliation_candidate candidate_from find
    first_by key_is_owned validate_promoted_key ack_reconciliation finish_claim claim_matches
    record_promotion_reconciliation save_existing check_evidence check_immutable write exists
    update_row
lane_run = refl

run_reconciliation_once-IsRepeated_example :
    IsRepeated
      (λ key. true)
      store_idle
      (run_reconciliation_once (λ user. 2) (λ key. true) 60 1000 88 1500 2000 store_idle).store
run_reconciliation_once-IsRepeated_example =
    run_reconciliation_once-IsRepeated (λ user. 2) (λ key. true) 60 1000 88 1500 2000 store_idle
