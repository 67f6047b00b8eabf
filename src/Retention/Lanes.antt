-- ===== src/Retention/Lanes.antt =====
-- The reconciliation lane of retention/services.py (`_run_reconciliation_once`), the scheduling of the
-- ordinary lane (`_preferred_lane`, `_mark_ordinary_attempt`), and the two deletions that other
-- services ask for.
pub mod Laws
use splitbind.Base.{
  ℕ, String, Bool, true, false, not, ◌&&◌, Option, none, some, Result, ok, err, is_some, ◌==◌,
  if◌then◌else◌,
}
use splitbind.Model.Keys.{ObjectKey}
use splitbind.Model.Rows.{UploadRequest, User, attached}
use splitbind.Model.Table.{find}
use splitbind.Retention.Claims.{
  ReconciliationClaim, ReconciliationAttempt, claim_reconciliation, attempt_reconciliation,
  ack_reconciliation, record_claim_retry, save_schedule, find_upload,
}
use splitbind.Retention.Delete.{Deletion, deletion_recorded, record_deletion_evidence}
use splitbind.Retention.Eligible.{orphan_source, stale_promotion, key_is_owned}
use splitbind.Retention.State.{Store, CleanupLane, reconciliation, log_delete}
use splitbind.Uploads.Promotion.{status_eq}
use splitbind.Uploads.Save.{SaveError}

unfoldable pub preferred_lane : Store → CleanupLane
preferred_lane store = store.schedule.next_lane

unfoldable pub mark_ordinary_attempt : Store → Store
mark_ordinary_attempt store =
    save_schedule (record store.schedule { next_lane = reconciliation; has_run = true }) store

-- `safe_error_code or "STORAGE_DELETE_RETRY"`
abbrev pub code_or_retry : Option String → String
code_or_retry none = "STORAGE_DELETE_RETRY"
code_or_retry (some code) = code

-- the end of a run: an exception leaves the rows as they were before its transaction
unfoldable pub run_recorded : Store → Result SaveError (Bool × Store) → Deletion
run_recorded store (ok (done, after)) = record { store = after; result = ok true }
run_recorded store (err e) = record { store = store; result = err e }

unfoldable pub finish_run :
    (ℕ → ℕ) → ReconciliationClaim → ℕ → ℕ → ReconciliationAttempt → Store → Deletion
finish_run organization_of claim now clock attempt store = run_recorded store (
    if attempt.acknowledge
    then ack_reconciliation organization_of claim now clock attempt.succeeded
        (code_or_retry attempt.safe_error_code) store
    else record_claim_retry organization_of claim now clock (code_or_retry attempt.safe_error_code)
        store)

unfoldable pub run_claimed :
    (ℕ → ℕ) → (ObjectKey → Bool) → ReconciliationClaim → ℕ → ℕ → Store → Deletion
run_claimed organization_of deletes claim now clock store =
    let (after, attempt) = attempt_reconciliation deletes claim store in
    finish_run organization_of claim now clock attempt after

-- `lease_now` and `clock` are the readings of the clock by the claim and by its end, `token` is new.
unfoldable pub run_reconciliation_once :
    (ℕ → ℕ) → (ObjectKey → Bool) → ℕ → ℕ → ℕ → ℕ → ℕ → Store → Deletion
run_reconciliation_once organization_of deletes lease_seconds lease_now token now clock store =
    let (after, claim) = claim_reconciliation lease_seconds lease_now token store in
    elim claim [
      | none ↦ record { store = after; result = ok false }
      | some c ↦ run_claimed organization_of deletes c now clock after
    ]

-- `delete_fenced_promotion_target`: what was written again after its tombstone is deleted again. A row
-- that is missing raises, as does a storage that does not delete: both are `none`.
unfoldable pub delete_fenced_promotion_target :
    (ObjectKey → Bool) → ℕ → Store → Option (Store × Bool)
delete_fenced_promotion_target deletes upload_id store = elim (find_upload upload_id store) [
  | none ↦ none
  | some upload ↦
      if not (is_some upload.promotion_target_deleted_at)
      then some (store, false)
      else elim upload.promotion_target_key [
        | none ↦ some (store, false)
        | some key ↦
            if not (key_is_owned upload stale_promotion key)
            then some (store, false)
            else if deletes key
            then some (log_delete key store, true)
            else none
      ]
]

-- the reasons for which `delete_attached_orphan_source` raises
pub data OrphanError : Type 0 where
  missing not_attached not_owned storage_failed : OrphanError
  not_saved : SaveError → OrphanError

unfoldable pub orphan_deleted : Deletion → Store × Result OrphanError Bool
orphan_deleted d = elim d.result [
  | ok done ↦ (d.store, ok done)
  | err e ↦ (d.store, err (not_saved e))
]

unfoldable pub delete_attached_orphan_source :
    (ℕ → ℕ) → (ObjectKey → Bool) → User → ℕ → ℕ → Store → Store × Result OrphanError Bool
delete_attached_orphan_source organization_of deletes actor upload_id at store =
    elim (find
      (λ (u : UploadRequest).
        u.id == upload_id
        && (u.organization_id == actor.organization_id && u.requested_by_id == actor.id))
      store.uploads) [
        | none ↦ (store, err missing)
        | some upload ↦
            if is_some upload.orphan_deleted_at
            then (store, ok false)
            else if not (status_eq upload.promotion_status attached)
            then (store, err not_attached)
            else if not (key_is_owned upload orphan_source upload.object_key)
            then (store, err not_owned)
            else if not (deletes upload.object_key)
            then (store, err storage_failed)
            else (let after = log_delete upload.object_key store in
                orphan_deleted (
                  deletion_recorded after
                    (record_deletion_evidence organization_of orphan_source at upload after)))
      ]
