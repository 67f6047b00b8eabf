-- ===== src/Retention/Eligible.antt =====
-- `_key_is_owned`, `_related_jobs`, `_all_jobs_terminal_before` and `_eligible_locked` of
-- retention/services.py. The columns of a row of either table that these read are a `Subject`.
use splitbind.Base.{
  ℕ, Bool, true, false, not, ◌-◌, ◌&&◌, ◌||◌, Option, none, some, List, ok, err, leb, ◌==◌, opt_eq,
}
use splitbind.Jobs.State.{Job, JobStatus, succeeded, cancelled, dead_lettered}
use splitbind.Model.Keys.{
  ObjectKey, UploadPurpose, purpose_eq, validate_orphan_key, validate_promoted_key,
  validate_issuance_output_key,
}
use splitbind.Model.Rows.{
  UploadRequest, PromotionStatus, copying, attached, Issuance, Document, Verification,
}
use splitbind.Model.Table.{exists}
use splitbind.Retention.Policy.{hours24, days7, days30}
use splitbind.Retention.State.{Store}
use splitbind.Uploads.Promotion.{status_eq}

-- the category of a deletion of an upload's object
pub data Category : Type 0 where
  orphan_source stale_promotion issuance_input verification_input : Category

-- `STALE_COPYING_AGE`, one hour
abbrev pub stale_copying_age : ℕ
stale_copying_age = 3600000000

unfoldable pub key_is_owned : UploadRequest → Category → ObjectKey → Bool
unfolding validate_orphan_key validate_promoted_key
key_is_owned record' orphan_source key = elim (validate_orphan_key key) [
  | err e ↦ false
  | ok parts ↦
      purpose_eq parts.kind record'.purpose
      && (parts.organization == record'.organization_id && parts.object == record'.id)
]
key_is_owned record' _ key = elim (validate_promoted_key key) [
  | err e ↦ false
  | ok parts ↦
      parts.organization == record'.organization_id
      && (parts.object == record'.id && purpose_eq parts.kind record'.purpose)
]

-- the category "issuance_output"
unfoldable pub output_is_owned : Issuance → ObjectKey → Bool
unfolding validate_issuance_output_key
output_is_owned issuance key = elim (validate_issuance_output_key key) [
  | err e ↦ false
  | ok (organization, id) ↦ organization == issuance.organization_id && id == issuance.id
]

-- `TERMINAL_JOB_STATUSES`
abbrev pub is_terminal_status : JobStatus → Bool
is_terminal_status succeeded = true
is_terminal_status JobStatus.failed = true
is_terminal_status cancelled = true
is_terminal_status dead_lettered = true
is_terminal_status _ = false

abbrev pub is_succeeded : JobStatus → Bool
is_succeeded succeeded = true
is_succeeded _ = false

-- the joins of `_related_jobs`
abbrev pub is_of_document : Store → ℕ → Job → Bool
is_of_document store upload job =
    exists
      (λ (i : Issuance).
        opt_eq (some i.id) job.issuance_id
        && exists (λ (d : Document). d.id == i.document_id && d.upload_request_id == upload)
            store.documents)
      store.issuances

abbrev pub is_of_verification : Store → ℕ → Job → Bool
is_of_verification store upload job =
    exists
      (λ (v : Verification).
        opt_eq (some v.id) job.verification_id && v.upload_request_id == upload)
      store.verifications

abbrev pub is_of_issuance : ℕ → Job → Bool
is_of_issuance issuance job = opt_eq (some issuance) job.issuance_id

-- There is a related job, all are terminal, and the last one changed at the deadline or before. The
-- latest change is at the deadline or before exactly if every change is.
unfoldable pub all_jobs_terminal_before : (Job → Bool) → ℕ → List Job → Bool
all_jobs_terminal_before related deadline jobs =
    exists related jobs
    && (not (exists (λ (j : Job). related j && not (is_terminal_status j.status)) jobs)
        && not (exists (λ (j : Job). related j && not (leb j.updated_at deadline)) jobs))

-- `now - window` before the epoch stops at 0.
unfoldable pub eligible_locked :
    UploadRequest → Category → ℕ → Option PromotionStatus → Store → Bool
eligible_locked upload stale_promotion now none store = false
eligible_locked upload stale_promotion now (some expected) store =
    status_eq upload.promotion_status expected
    && ((status_eq expected PromotionStatus.failed || status_eq expected copying)
        && leb upload.promotion_status_changed_at (now - stale_copying_age))
eligible_locked upload issuance_input now expected store =
    status_eq upload.promotion_status attached
    && (purpose_eq upload.purpose UploadPurpose.issuance
        && all_jobs_terminal_before (is_of_document store upload.id) (now - days7) store.jobs)
eligible_locked upload verification_input now expected store =
    status_eq upload.promotion_status attached
    && (purpose_eq upload.purpose UploadPurpose.verification
        && all_jobs_terminal_before (is_of_verification store upload.id) (now - hours24) store.jobs)
eligible_locked upload orphan_source now expected store = leb upload.created_at (now - hours24)

-- the category "issuance_output", which also asks for a job that succeeded
unfoldable pub output_eligible : Issuance → ℕ → Store → Bool
output_eligible issuance now store =
    all_jobs_terminal_before (is_of_issuance issuance.id) (now - days30) store.jobs
    && exists (λ (j : Job). is_of_issuance issuance.id j && is_succeeded j.status) store.jobs
