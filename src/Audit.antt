-- ===== src/Audit.antt =====
-- The audit trail: services/api/splitbind/audit. A text is the list of its code points, and the names
-- of the metadata are an enumeration of the allowed ones with `other_key` for the rest.
pub mod Redaction
pub mod Laws
mod Tests
use splitbind.Base.{
  ℕ, Bool, true, false, not, ◌&&◌, ◌||◌, Option, none, some, List, [], ◌∷◌, length, Result, ok, err,
  ltb, ◌==◌, if◌then◌else◌,
}
use splitbind.Audit.Redaction.{Text, Key, Value, UrlError, redact_metadata}

pub data AuditOutcome : Type 0 where
  succeeded denied failed : AuditOutcome

-- the messages of `ValidationError`, in the order of the tests, and the `ValueError` of the redaction
pub data AuditError : Type 0 where
  actor_without_organization organization_not_saved actor_not_saved target_not_owned
        target_not_saved foreign_target invalid_action invalid_outcome identifier_too_long
        invalid_correlation url_invalid :
      AuditError

pub record Actor : Type 0 where
  pub id : ℕ
  pub organization_id : Option ℕ
  pub saved : Bool

-- `organization_id` is `none` for an object without that attribute.
pub record Target : Type 0 where
  pub target_type : Text
  pub target_id : Text
  pub organization_id : Option ℕ
  pub saved : Bool

pub record AuditEvent : Type 0 where
  pub organization_id : ℕ
  pub actor_id : Option ℕ
  pub action : Text
  pub target_type : Text
  pub target_id : Text
  pub correlation_id : ℕ
  pub outcome : AuditOutcome
  pub metadata : List (Key × Text)

-- What both services test after the organizations: the action, the outcome, the target's texts and
-- the correlation id, where `none` is a value that is not one of those.
unfoldable pub audit_row :
    (Text → Result UrlError (Text × Text))
    → ℕ
    → Option ℕ
    → Text
    → Target
    → Option AuditOutcome
    → Option ℕ
    → List (Key × Value)
    → Result AuditError AuditEvent
audit_row urlparse organization actor action target outcome correlation_id metadata =
    if length action == 0 || ltb 120 (length action) then err invalid_action else elim outcome [
      | none ↦ err invalid_outcome
      | some o ↦
          if ltb 80 (length target.target_type) || ltb 120 (length target.target_id)
          then err identifier_too_long
          else elim correlation_id [
            | none ↦ err invalid_correlation
            | some c ↦ elim (redact_metadata urlparse metadata) [
              | err e ↦ err url_invalid
              | ok safe ↦ ok (record {
                organization_id = organization;
                actor_id = actor;
                action = action;
                target_type = target.target_type;
                target_id = target.target_id;
                correlation_id = c;
                outcome = o;
                metadata = safe;
              })
            ]
          ]
    ]

unfoldable pub check_audit_target :
    Option Target → ℕ → (Target → Result AuditError AuditEvent) → Result AuditError AuditEvent
check_audit_target none organization row = err target_not_owned
check_audit_target (some target) organization row = elim target.organization_id [
  | none ↦ err target_not_owned
  | some o ↦
      if not target.saved
      then err target_not_saved
      else if not (o == organization)
      then err foreign_target
      else row target
]

-- The new row is appended to the trail.
unfoldable pub record_event :
    (Text → Result UrlError (Text × Text))
    → Option Actor
    → Text
    → Option Target
    → Option AuditOutcome
    → Option ℕ
    → List (Key × Value)
    → Result AuditError AuditEvent
record_event urlparse none action target outcome correlation_id metadata =
    err actor_without_organization
record_event urlparse (some actor) action target outcome correlation_id metadata =
    elim actor.organization_id [
      | none ↦ err actor_without_organization
      | some organization ↦
          if not actor.saved
          then err actor_not_saved
          else check_audit_target target organization (λ t.
            audit_row urlparse organization (some actor.id) action t outcome correlation_id
              metadata)
    ]

-- `organization` is `none` for an organization that is not saved.
unfoldable pub record_system_event :
    (Text → Result UrlError (Text × Text))
    → Option ℕ
    → Text
    → Option Target
    → Option AuditOutcome
    → Option ℕ
    → List (Key × Value)
    → Result AuditError AuditEvent
record_system_event urlparse none action target outcome correlation_id metadata =
    err organization_not_saved
record_system_event urlparse (some organization) action target outcome correlation_id metadata =
    check_audit_target target organization
      (λ t. audit_row urlparse organization none action t outcome correlation_id metadata)
