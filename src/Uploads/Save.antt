-- ===== src/Uploads/Save.antt =====
-- `UploadRequest.clean` and `UploadRequest.save` of services/api/splitbind/uploads/models.py, with
-- the check of the organization that they reach in access/models.py.
pub mod Laws
use splitbind.Base.{
  ℕ, String, Bool, true, false, not, ◌&&◌, ◌||◌, Option, none, some, Result, ok, err, ◌>>◌, guard,
  is_some, ◌==◌, List, [], ◌∷◌, ltb, leb, opt_eq, if◌then◌else◌,
}
use splitbind.Model.Keys.{key_eq, purpose_eq}
use splitbind.Model.Rows.{UploadRequest}
use splitbind.Uploads.Promotion.{status_eq, key_opt_eq, code_eq}

pub data SaveError : Type 0 where
  requires_retention_service not_monotonic immutable organization_changed foreign_relation
        checksum_missing size_out_of_bounds :
      SaveError

-- the columns that a save can name
pub data Field : Type 0 where
  requested_by source_content_type created_at finalized_at orphan_deleted_at
        promotion_target_deleted_at promotion_target_reconciled_at purpose object_key
        expected_sha256 size_bytes expires_at promotion_target_key promotion_status
        promotion_status_changed_at safe_error_code :
      Field

-- `update_fields`, where `none` is a save of every column
abbrev pub named : Option (Field → Bool) → Field → Bool
named none field = true
named (some names) field = names field

-- a new tombstone is a time where there was none
abbrev pub tombstone_changes : Option ℕ → Option ℕ → Bool
tombstone_changes old new = is_some old || not (is_some new)

abbrev pub moves_back : Option ℕ → Option ℕ → Bool
moves_back old none = true
moves_back none (some new) = false
moves_back (some old) (some new) = ltb new old

-- `names & deletion_fields`
abbrev pub names_evidence : Option (Field → Bool) → Bool
names_evidence names =
    named names orphan_deleted_at
    || (named names promotion_target_deleted_at || named names promotion_target_reconciled_at)

-- All three columns are compared as soon as one of them is named.
unfoldable pub check_evidence :
    Bool → Option (Field → Bool) → UploadRequest → UploadRequest → Result SaveError (Unit {0})
check_evidence allowed names old new =
    let orphan = names_evidence names && not (opt_eq new.orphan_deleted_at old.orphan_deleted_at) in
    let target =
      names_evidence names
      && not (opt_eq new.promotion_target_deleted_at old.promotion_target_deleted_at) in
    let reconciled =
      names_evidence names
      && not (opt_eq new.promotion_target_reconciled_at old.promotion_target_reconciled_at) in
    if not (orphan || (target || reconciled))
    then ok tt
    else if not allowed
    then err requires_retention_service
    else if (orphan && tombstone_changes old.orphan_deleted_at new.orphan_deleted_at)
        || ((target
              && tombstone_changes old.promotion_target_deleted_at new.promotion_target_deleted_at)
            || (reconciled
                && moves_back old.promotion_target_reconciled_at
                    new.promotion_target_reconciled_at))
    then err not_monotonic
    else ok tt

-- `getattr(self, name) != getattr(persisted, name)` for the names that have to be kept
abbrev pub differs : Field → UploadRequest → UploadRequest → Bool
differs purpose old new = not (purpose_eq new.purpose old.purpose)
differs object_key old new = not (key_eq new.object_key old.object_key)
differs expected_sha256 old new = not (opt_eq new.expected_sha256 old.expected_sha256)
differs size_bytes old new = not (opt_eq new.size_bytes old.size_bytes)
differs expires_at old new = not (new.expires_at == old.expires_at)
differs promotion_target_key old new =
    not (key_opt_eq new.promotion_target_key old.promotion_target_key)
differs promotion_status old new = not (status_eq new.promotion_status old.promotion_status)
differs promotion_status_changed_at old new =
    not (new.promotion_status_changed_at == old.promotion_status_changed_at)
differs safe_error_code old new = not (code_eq new.safe_error_code old.safe_error_code)
differs _ old new = false

-- `_IMMUTABLE_FIELDS`
abbrev pub immutable_fields : List Field
immutable_fields =
    purpose ∷ object_key ∷ expected_sha256 ∷ size_bytes ∷ expires_at ∷ promotion_target_key
    ∷ promotion_status ∷ promotion_status_changed_at ∷ safe_error_code ∷ []

abbrev pub any_differs : Option (Field → Bool) → List Field → UploadRequest → UploadRequest → Bool
any_differs names [] old new = false
any_differs names (field ∷ fields) old new =
    (named names field && differs field old new) || any_differs names fields old new

unfoldable pub check_immutable :
    Option (Field → Bool) → UploadRequest → UploadRequest → Result SaveError (Unit {0})
check_immutable names old new =
    if any_differs names immutable_fields old new then err immutable else ok tt

-- The columns of the row that are written.
unfoldable pub write : Option (Field → Bool) → UploadRequest → UploadRequest → UploadRequest
write names old new = record old {
  requested_by_id = if named names requested_by then new.requested_by_id else old.requested_by_id;
  source_content_type =
      if named names source_content_type then new.source_content_type else old.source_content_type;
  created_at = if named names created_at then new.created_at else old.created_at;
  finalized_at = if named names finalized_at then new.finalized_at else old.finalized_at;
  orphan_deleted_at =
      if named names orphan_deleted_at then new.orphan_deleted_at else old.orphan_deleted_at;
  promotion_target_deleted_at =
      if named names promotion_target_deleted_at
      then new.promotion_target_deleted_at
      else old.promotion_target_deleted_at;
  promotion_target_reconciled_at =
      if named names promotion_target_reconciled_at
      then new.promotion_target_reconciled_at
      else old.promotion_target_reconciled_at;
  purpose = if named names purpose then new.purpose else old.purpose;
  object_key = if named names object_key then new.object_key else old.object_key;
  expected_sha256 =
      if named names expected_sha256 then new.expected_sha256 else old.expected_sha256;
  size_bytes = if named names size_bytes then new.size_bytes else old.size_bytes;
  expires_at = if named names expires_at then new.expires_at else old.expires_at;
  promotion_target_key =
      if named names promotion_target_key
      then new.promotion_target_key
      else old.promotion_target_key;
  promotion_status =
      if named names promotion_status then new.promotion_status else old.promotion_status;
  promotion_status_changed_at =
      if named names promotion_status_changed_at
      then new.promotion_status_changed_at
      else old.promotion_status_changed_at;
  safe_error_code =
      if named names safe_error_code then new.safe_error_code else old.safe_error_code;
}

-- A save of the instance `new` over its row `old`. `allowed` is `deletion_evidence_write_allowed()`,
-- `requester` the organization of the instance's `requested_by`.
unfoldable pub save_existing :
    Bool
    → Option (Field → Bool)
    → ℕ
    → UploadRequest
    → UploadRequest
    → Result SaveError UploadRequest
save_existing allowed names requester old new =
    check_evidence allowed names old new
    >> check_immutable names old new
    >> guard (new.organization_id == old.organization_id) organization_changed
    >> guard (requester == new.organization_id) foreign_relation
    >> ok (write names old new)

-- `MAX_UPLOAD_BYTES`
abbrev pub max_upload_bytes : ℕ
max_upload_bytes = 104857600

abbrev pub size_bounded : Option ℕ → Bool
size_bounded none = false
size_bounded (some size) = leb 1 size && leb size max_upload_bytes

-- A save of a new instance.
unfoldable pub save_new : Bool → ℕ → UploadRequest → Result SaveError UploadRequest
save_new allowed requester new =
    guard
      (allowed
        || not (
            is_some new.orphan_deleted_at
            || (is_some new.promotion_target_deleted_at
                || is_some new.promotion_target_reconciled_at)))
      requires_retention_service
    >> guard (requester == new.organization_id) foreign_relation
    >> guard (is_some new.expected_sha256) checksum_missing
    >> guard (size_bounded new.size_bytes) size_out_of_bounds
    >> ok new
