-- ===== src/Retention/Delete.antt =====
-- `_record_deletion_evidence`, `_delete_one` and `delete_fenced_promotion_target` of
-- retention/services.py for the objects of uploads. A storage is the function that tells whether the
-- deletion of a key returns; `organization_of` is the table of users.
pub mod Laws
use splitbind.Base.{
  ℕ, String, Bool, true, false, not, ◌&&◌, ◌||◌, Option, none, some, List, ◌∷◌, Result, ok, err,
  is_some, ◌==◌, if◌then◌else◌,
}
use splitbind.Model.Keys.{ObjectKey}
use splitbind.Model.Rows.{UploadRequest, PromotionStatus}
use splitbind.Model.Table.{find, update_row}
use splitbind.Retention.Eligible.{
  Category, orphan_source, stale_promotion, issuance_input, verification_input, key_is_owned,
  eligible_locked,
}
use splitbind.Audit.{AuditOutcome, succeeded, failed}
use splitbind.Retention.State.{AuditEvent, upload_request, Store, log_delete}
use splitbind.Uploads.Save.{
  Field, SaveError, save_existing, orphan_deleted_at, promotion_target_deleted_at,
}

-- the key and the tombstone of a category, and the name of the action
abbrev pub key_of : Category → UploadRequest → Option ObjectKey
key_of orphan_source upload = some upload.object_key
key_of _ upload = upload.promotion_target_key

abbrev pub tombstone_of : Category → UploadRequest → Option ℕ
tombstone_of orphan_source upload = upload.orphan_deleted_at
tombstone_of _ upload = upload.promotion_target_deleted_at

abbrev pub action_of : Category → String
action_of orphan_source = "object.orphan.deleted"
action_of stale_promotion = "object.promotion.deleted"
action_of issuance_input = "object.issuance_input.deleted"
action_of verification_input = "object.verification_input.deleted"

abbrev pub failed_action_of : Category → String
failed_action_of orphan_source = "object.orphan.deleted.failed"
failed_action_of stale_promotion = "object.promotion.deleted.failed"
failed_action_of issuance_input = "object.issuance_input.deleted.failed"
failed_action_of verification_input = "object.verification_input.deleted.failed"

-- `update_fields=[timestamp_field]`
abbrev pub tombstone_field : Category → Field → Bool
tombstone_field orphan_source orphan_deleted_at = true
tombstone_field orphan_source _ = false
tombstone_field _ promotion_target_deleted_at = true
tombstone_field _ _ = false

abbrev pub set_tombstone : Category → ℕ → UploadRequest → UploadRequest
set_tombstone orphan_source at upload = record upload { orphan_deleted_at = some at }
set_tombstone _ at upload = record upload { promotion_target_deleted_at = some at }

abbrev pub audit_upload :
    String → AuditOutcome → Option String → Option String → UploadRequest → Store → Store
audit_upload action outcome status code upload store = record store {
  audit =
      record {
        organization_id = upload.organization_id;
        action = action;
        target_type = upload_request;
        target_id = upload.id;
        outcome = outcome;
        status = status;
        safe_error_code = code;
      }
      ∷ store.audit;
}

-- the row of an upload is written
abbrev pub put_upload : UploadRequest → Store → Store
put_upload row store = record store {
  uploads = update_row (λ u. u.id == row.id) (λ u. row) store.uploads;
}

unfoldable pub record_deletion_evidence :
    (ℕ → ℕ) → Category → ℕ → UploadRequest → Store → Result SaveError (Bool × Store)
record_deletion_evidence organization_of category at upload store =
    if is_some (tombstone_of category upload)
    then ok (false, store)
    else elim (save_existing true (some (tombstone_field category))
        (organization_of upload.requested_by_id) upload (set_tombstone category at upload)) [
          | err e ↦ err e
          | ok row ↦ ok (
            true,
            audit_upload (action_of category) succeeded (some "deleted") none row
                (put_upload row store),
          )
        ]

-- What a deletion left: the store, and the result or the exception. On an exception the rows are as
-- before, but the storage has deleted what it has deleted.
pub record Deletion : Type 0 where
  pub store : Store
  pub result : Result SaveError Bool

unfoldable pub deletion_recorded : Store → Result SaveError (Bool × Store) → Deletion
deletion_recorded store (ok (done, after)) = record { store = after; result = ok done }
deletion_recorded store (err e) = record { store = store; result = err e }

unfoldable pub delete_locked :
    (ℕ → ℕ) → (ObjectKey → Bool) → Category → ℕ → UploadRequest → ObjectKey → Store → Deletion
delete_locked organization_of deletes category now upload key store =
    if not (key_is_owned upload category key)
    then record { store = store; result = ok false }
    else if not (deletes key)
    then record {
      store =
          audit_upload (failed_action_of category) failed none (some "STORAGE_DELETE_RETRY") upload
            store;
      result = ok false;
    }
    else (let after = log_delete key store in
        deletion_recorded after
          (record_deletion_evidence organization_of category now upload after))

-- `locked` tells the rows that another transaction holds, which `skip_locked` passes over.
unfoldable pub delete_one :
    (ℕ → ℕ)
    → (ObjectKey → Bool)
    → (ℕ → Bool)
    → ℕ
    → Category
    → ℕ
    → Option PromotionStatus
    → Store
    → Deletion
delete_one organization_of deletes locked pk category now expected store =
    elim (find (λ (u : UploadRequest). u.id == pk && not (locked u.id)) store.uploads) [
      | none ↦ record { store = store; result = ok false }
      | some upload ↦
          if is_some (tombstone_of category upload)
            || not (eligible_locked upload category now expected store)
          then record { store = store; result = ok false }
          else elim (key_of category upload) [
            | none ↦ record { store = store; result = ok false }
            | some key ↦ delete_locked organization_of deletes category now upload key store
          ]
    ]
