-- ===== src/Retention/Policy.antt =====
-- retention/policies.py: how long an object is kept. Times count microseconds, in UTC.
use splitbind.Base.{ℕ, ◌+◌, Option, none, some, Result, ok, err}

pub data RetentionKind : Type 0 where
  orphan_upload issuance_input issuance_output verification_input manifest_metadata audit_event
        unknown_kind :
      RetentionKind

pub data PolicyError : Type 0 where
  unknown_retention_kind : PolicyError

abbrev pub hours24 : ℕ
hours24 = 86400000000

abbrev pub days7 : ℕ
days7 = 604800000000

abbrev pub days30 : ℕ
days30 = 2592000000000

-- The deadline is `none` for the kinds that are kept for ever.
unfoldable pub retention_deadline : RetentionKind → ℕ → Result PolicyError (Option ℕ)
retention_deadline orphan_upload at = ok (some (at + hours24))
retention_deadline issuance_input at = ok (some (at + days7))
retention_deadline issuance_output at = ok (some (at + days30))
retention_deadline verification_input at = ok (some (at + hours24))
retention_deadline manifest_metadata at = ok none
retention_deadline audit_event at = ok none
retention_deadline unknown_kind at = err unknown_retention_kind
