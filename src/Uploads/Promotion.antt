-- ===== src/Uploads/Promotion.antt =====
-- `UploadRequest.save_promotion` of services/api/splitbind/uploads/models.py: the only path that
-- changes who owns the promoted copy of an upload.
pub mod Laws
use text.Mathlib.Text.{◌==◌ as str_eq}
use splitbind.Base.{
  ℕ, String, Bool, true, false, not, ◌&&◌, Option, none, some, Result, ok, err, is_some, ◌==◌,
  if◌then◌else◌,
}
use splitbind.Model.Keys.{
  ObjectKey, UploadPurpose, KeyParts, key_eq, purpose_eq, validate_promoted_key,
}
use splitbind.Model.Rows.{UploadRequest, PromotionStatus, copying, attached, failed}

pub data PromotionError : Type 0 where
  invalid_status target_mismatch code_missing code_not_allowed fenced invalid_transition
        target_immutable not_promoted_key wrong_owner :
      PromotionError

abbrev pub status_eq : PromotionStatus → PromotionStatus → Bool
status_eq PromotionStatus.none PromotionStatus.none = true
status_eq copying copying = true
status_eq attached attached = true
status_eq failed failed = true
status_eq _ _ = false

abbrev pub key_opt_eq : Option ObjectKey → Option ObjectKey → Bool
key_opt_eq none none = true
key_opt_eq (some a) (some b) = key_eq a b
key_opt_eq _ _ = false

abbrev pub code_eq : Option String → Option String → Bool
code_eq none none = true
code_eq (some a) (some b) = str_eq a b
code_eq _ _ = false

-- `not safe_error_code`
abbrev pub is_blank : Option String → Bool
is_blank none = true
is_blank (some code) = str_eq code ""

-- the table `allowed`
unfoldable pub allowed : PromotionStatus → PromotionStatus → Bool
allowed PromotionStatus.none copying = true
allowed copying attached = true
allowed copying failed = true
allowed failed copying = true
allowed _ _ = false

-- the target names this upload, its organization and its purpose
unfoldable pub check_target : UploadRequest → Option ObjectKey → Result PromotionError (Unit {0})
unfolding validate_promoted_key
check_target row none = ok tt
check_target row (some key) = elim (validate_promoted_key key) [
  | err e ↦ err not_promoted_key
  | ok parts ↦
      if purpose_eq parts.kind row.purpose
        && (parts.organization == row.organization_id && parts.object == row.id)
      then ok tt
      else err wrong_owner
]

-- The change after the tests of the arguments, at the time `at`.
unfoldable pub change_promotion :
    PromotionStatus
    → Option ObjectKey
    → Option String
    → ℕ
    → UploadRequest
    → Result PromotionError UploadRequest
unfolding allowed check_target
change_promotion status target_key safe_error_code at row =
    if is_some row.promotion_target_deleted_at
    then err fenced
    else if status_eq status row.promotion_status
        && (key_opt_eq target_key row.promotion_target_key
            && code_eq safe_error_code row.safe_error_code)
    then ok row
    else if not (allowed row.promotion_status status)
    then err invalid_transition
    else if is_some row.promotion_target_key && not (key_opt_eq target_key row.promotion_target_key)
    then err target_immutable
    else elim (check_target row target_key) [
      | err e ↦ err e
      | ok u ↦ ok (record row {
        promotion_status = status;
        promotion_status_changed_at = at;
        promotion_target_key = target_key;
        safe_error_code = safe_error_code;
      })
    ]

-- The status is a text: `none` is one that `PromotionStatus.values` does not hold.
unfoldable pub save_promotion :
    Option PromotionStatus
    → Option ObjectKey
    → Option String
    → ℕ
    → UploadRequest
    → Result PromotionError UploadRequest
unfolding change_promotion
save_promotion none target_key safe_error_code at row = err invalid_status
save_promotion (some status) target_key safe_error_code at row =
    let has_no_target = not (is_some target_key) in
    let starts = status_eq status PromotionStatus.none in
    if (if starts then not has_no_target else has_no_target)
    then err target_mismatch
    else if status_eq status failed && is_blank safe_error_code
    then err code_missing
    else if not (status_eq status failed) && is_some safe_error_code
    then err code_not_allowed
    else change_promotion status target_key safe_error_code at row
