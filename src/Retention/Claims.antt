-- ===== src/Retention/Claims.antt =====
-- The claims of retention/services.py: one worker at a time deletes again what a tombstone says is
-- deleted, under a lease, and a cursor moves over the tombstones when a claim is acknowledged.
pub mod Laws
pub mod Cursor
use text.Mathlib.Text.{◌==◌ as str_eq}
use splitbind.Base.{
  ℕ, String, ◌+◌, ◌*◌, Bool, true, false, not, ◌&&◌, ◌||◌, Option, none, some, List, ◌∷◌, Result,
  ok, err, is_some, ◌==◌, ltb, opt_eq, if◌then◌else◌,
}
use splitbind.Model.Keys.{ObjectKey}
use splitbind.Model.Rows.{UploadRequest}
use splitbind.Model.Table.{find, first_by, exists}
use splitbind.Retention.Candidates.{or_zero, next_reconciliation_candidate}
use splitbind.Retention.Delete.{audit_upload, put_upload}
use splitbind.Retention.Eligible.{stale_promotion, key_is_owned}
use splitbind.Audit.{AuditOutcome, succeeded, failed}
use splitbind.Retention.State.{
  AuditEvent, AuditTarget, upload_request, Store, log_delete, CleanupScheduleState, ordinary,
}
use splitbind.Uploads.Save.{Field, SaveError, save_existing, promotion_target_reconciled_at}

pub record ReconciliationClaim : Type 0 where
  pub upload_id : ℕ
  pub token : ℕ

pub record ReconciliationAttempt : Type 0 where
  pub succeeded : Bool
  pub acknowledge : Bool
  pub safe_error_code : Option String

abbrev pub clear_claim : CleanupScheduleState → CleanupScheduleState
clear_claim schedule = record schedule {
  reconciliation_claim_upload_id = none;
  reconciliation_claim_token = none;
  reconciliation_claim_expires_at = none;
}

abbrev pub save_schedule : CleanupScheduleState → Store → Store
save_schedule schedule store = record store { schedule = schedule }

abbrev pub find_upload : ℕ → Store → Option UploadRequest
find_upload id store = find (λ (u : UploadRequest). u.id == id) store.uploads

abbrev pub take_claim : ℕ → ℕ → ℕ → ℕ → CleanupScheduleState → CleanupScheduleState
take_claim upload token lease_seconds lease_now schedule = record schedule {
  reconciliation_claim_upload_id = some upload;
  reconciliation_claim_token = some token;
  reconciliation_claim_expires_at = some (lease_now + lease_seconds * 1000000);
  has_run = true;
}

-- the claim of a chosen upload, at the time `lease_now` and with a new token
unfoldable pub claim_upload : ℕ → ℕ → ℕ → ℕ → Store → Store × Option ReconciliationClaim
claim_upload lease_seconds lease_now token upload_id store = elim (find_upload upload_id store) [
  | none ↦ (save_schedule (clear_claim store.schedule) store, none)
  | some upload ↦
      if not (is_some upload.promotion_target_deleted_at)
      then (save_schedule (clear_claim store.schedule) store, none)
      else (
        save_schedule (take_claim upload.id token lease_seconds lease_now store.schedule) store,
        some (record { upload_id = upload.id; token = token }),
      )
]

-- The lease has not ended: the comparison of the source with a missing time raises, which the constraint
-- `cleanup_schedule_claim_complete` excludes
abbrev pub lease_runs : ℕ → CleanupScheduleState → Bool
lease_runs lease_now schedule = ltb lease_now (or_zero schedule.reconciliation_claim_expires_at)

-- The claim that the schedule holds, or the next candidate.
unfoldable pub claim_held : ℕ → ℕ → ℕ → Option ℕ → Store → Store × Option ReconciliationClaim
claim_held lease_seconds lease_now token (some upload_id) store =
    if lease_runs lease_now store.schedule
    then (store, none)
    else claim_upload lease_seconds lease_now token upload_id store
claim_held lease_seconds lease_now token none store = elim (next_reconciliation_candidate store) [
  | none ↦ (store, none)
  | some upload ↦ claim_upload lease_seconds lease_now token upload.id store
]

unfoldable pub claim_reconciliation : ℕ → ℕ → ℕ → Store → Store × Option ReconciliationClaim
unfolding claim_held
claim_reconciliation lease_seconds lease_now token store =
    claim_held lease_seconds lease_now token store.schedule.reconciliation_claim_upload_id store

abbrev pub attempted : Bool → Bool → Option String → ReconciliationAttempt
attempted done acknowledge code = record {
  succeeded = done;
  acknowledge = acknowledge;
  safe_error_code = code;
}

unfoldable pub attempt_reconciliation :
    (ObjectKey → Bool) → ReconciliationClaim → Store → Store × ReconciliationAttempt
attempt_reconciliation deletes claim store = elim (find_upload claim.upload_id store) [
  | none ↦ (store, attempted false true (some "MISSING_CLEANUP_OWNER"))
  | some upload ↦
      if not (is_some upload.promotion_target_deleted_at)
      then (store, attempted false true (some "INELIGIBLE_CLEANUP_OWNER"))
      else elim upload.promotion_target_key [
        | none ↦ (store, attempted false true (some "INVALID_CONTROLLED_KEY"))
        | some key ↦
            if not (key_is_owned upload stale_promotion key)
            then (store, attempted false true (some "INVALID_CONTROLLED_KEY"))
            else if not (deletes key)
            then (store, attempted false false (some "STORAGE_DELETE_RETRY"))
            else (log_delete key store, attempted true true none)
      ]
]

unfoldable pub claim_matches : CleanupScheduleState → ReconciliationClaim → Bool
claim_matches schedule claim =
    opt_eq schedule.reconciliation_claim_upload_id (some claim.upload_id)
    && opt_eq schedule.reconciliation_claim_token (some claim.token)

abbrev pub reconciliation_action : Bool → String
reconciliation_action true = "object.promotion.reconciliation.succeeded"
reconciliation_action false = "object.promotion.reconciliation.failed"

abbrev pub is_upload_target : AuditTarget → Bool
is_upload_target upload_request = true
is_upload_target _ = false

-- the outcome of a reconciliation that succeeded or failed
abbrev pub is_outcome : Bool → AuditOutcome → Bool
is_outcome true succeeded = true
is_outcome false failed = true
is_outcome _ _ = false

-- The audit row of an outcome is already there.
abbrev pub already_reported : Bool → UploadRequest → Store → Bool
already_reported done upload store =
    exists
      (λ (e : AuditEvent).
        e.organization_id == upload.organization_id
        && (str_eq e.action (reconciliation_action done)
            && (is_upload_target e.target_type
                && (e.target_id == upload.id && is_outcome done e.outcome))))
      store.audit

abbrev pub report_reconciliation : Bool → String → UploadRequest → Store → Store
report_reconciliation true code upload store =
    audit_upload (reconciliation_action true) succeeded (some "deleted") none upload store
report_reconciliation false code upload store =
    audit_upload (reconciliation_action false) failed none (some code) upload store

abbrev pub only_reconciled : Field → Bool
only_reconciled promotion_target_reconciled_at = true
only_reconciled _ = false

-- the later of the time and the last reconciliation
abbrev pub not_earlier : ℕ → Option ℕ → ℕ
not_earlier at none = at
not_earlier at (some previous) = if ltb at previous then previous else at

unfoldable pub record_promotion_reconciliation :
    (ℕ → ℕ) → ℕ → Bool → String → UploadRequest → Store → Result SaveError Store
record_promotion_reconciliation organization_of at done code upload store =
    let observed = record upload {
      promotion_target_reconciled_at = some (not_earlier at upload.promotion_target_reconciled_at);
    } in
    elim (save_existing true (some only_reconciled) (organization_of upload.requested_by_id) upload
      observed) [
        | err e ↦ err e
        | ok row ↦
            let saved = put_upload row store in
            ok (
              if already_reported done row store
              then saved
              else report_reconciliation done code row saved)
      ]

abbrev pub acknowledge : UploadRequest → CleanupScheduleState → CleanupScheduleState
acknowledge upload schedule = record (clear_claim schedule) {
  reconciliation_cursor_at = upload.promotion_target_deleted_at;
  reconciliation_cursor_id = some upload.id;
  next_lane = ordinary;
  has_run = true;
}

abbrev pub keep_claim : CleanupScheduleState → CleanupScheduleState
keep_claim schedule = record schedule { next_lane = ordinary; has_run = true }

-- What both ends of a claim do, with the change of the schedule that each makes.
unfoldable pub finish_claim :
    (ℕ → ℕ)
    → (UploadRequest → CleanupScheduleState → CleanupScheduleState)
    → ReconciliationClaim
    → ℕ
    → ℕ
    → Bool
    → String
    → Store
    → Result SaveError (Bool × Store)
finish_claim organization_of change claim at clock done code store =
    if not (claim_matches store.schedule claim)
    then ok (false, store)
    else elim (find_upload claim.upload_id store) [
      | none ↦ ok (false, save_schedule (clear_claim store.schedule) store)
      | some upload ↦
          if not (is_some upload.promotion_target_deleted_at)
          then ok (false, save_schedule (clear_claim store.schedule) store)
          else elim (record_promotion_reconciliation organization_of
              (not_earlier (not_earlier at (some clock)) upload.promotion_target_reconciled_at) done
              code upload store) [
                | err e ↦ err e
                | ok after ↦ ok (true, save_schedule (change upload store.schedule) after)
              ]
    ]

unfoldable pub ack_reconciliation :
    (ℕ → ℕ) → ReconciliationClaim → ℕ → ℕ → Bool → String → Store → Result SaveError (Bool × Store)
ack_reconciliation organization_of = finish_claim organization_of acknowledge

unfoldable pub record_claim_retry :
    (ℕ → ℕ) → ReconciliationClaim → ℕ → ℕ → String → Store → Result SaveError (Bool × Store)
record_claim_retry organization_of claim at clock code store =
    finish_claim organization_of (λ upload. keep_claim) claim at clock false code store
