-- ===== src/Audit/Tests.antt =====
-- Rows of the trail, and what the theorems say of them.
use splitbind.Base.{◌≡◌, ◌↔◌, refl, true, some, List, [], ◌∷◌, Result, ok, err, ◌==◌, if◌then◌else◌}
use splitbind.Model.Table.Laws.{Among}
use splitbind.Audit.{
  Actor, Target, AuditEvent, succeeded, record_event, check_audit_target, audit_row,
}
use splitbind.Audit.Redaction.{
  Text, Key, Value, UrlError, value_error, role, keep_entry, kind, status, other_key, scalar,
  container, redact_metadata, is_full_url,
}
use splitbind.Audit.Laws.{IsRedacted, IsRecorded, redact_metadata_iff, record_event-IsRecorded}

-- texts that begin with `h` are complete URLs, and one that begins with `[` has no network location
abbrev parse : Text → Result UrlError (Text × Text)
parse [] = ok ([], [])
parse (c ∷ rest) =
    if c == 104 then ok (c ∷ [], rest) else if c == 91 then err value_error else ok ([], [])

-- what is left of the metadata below
abbrev safe : List (Key × Text)
safe = (status, 111 ∷ 107 ∷ []) ∷ []

abbrev metadata : List (Key × Value)
metadata =
    (status, scalar (111 ∷ 107 ∷ []))
    ∷ (other_key (112 ∷ []), scalar (91 ∷ []))
    ∷ (role, scalar (104 ∷ 120 ∷ []))
    ∷ (kind, container)
    ∷ []

redact_run : redact_metadata parse metadata ≡ ok safe
unfolding redact_metadata keep_entry is_full_url
redact_run = refl

-- A scalar that `urlparse` refuses stops the redaction, and the event with it.
redact_raises : redact_metadata parse ((kind, scalar (91 ∷ [])) ∷ metadata) ≡ err value_error
unfolding redact_metadata keep_entry is_full_url
redact_raises = refl

redact_metadata_iff_example :
    Among {A = Key × Text} (status, 111 ∷ 107 ∷ []) safe
    ↔ IsRedacted parse metadata status (111 ∷ 107 ∷ [])
redact_metadata_iff_example =
    redact_metadata_iff parse metadata safe status (111 ∷ 107 ∷ []) redact_run

abbrev actor : Actor
actor = record { id = 3; organization_id = some 2; saved = true }

abbrev target : Target
target = record {
  target_type = 117 ∷ [];
  target_id = 52 ∷ [];
  organization_id = some 2;
  saved = true;
}

abbrev event : AuditEvent
event = record {
  organization_id = 2;
  actor_id = some 3;
  action = 97 ∷ [];
  target_type = 117 ∷ [];
  target_id = 52 ∷ [];
  correlation_id = 9;
  outcome = succeeded;
  metadata = (status, 111 ∷ 107 ∷ []) ∷ [];
}

record_run :
    record_event parse (some actor) (97 ∷ []) (some target) (some succeeded) (some 9) metadata
    ≡ ok event
unfolding record_event check_audit_target audit_row redact_metadata keep_entry is_full_url
record_run = refl

record_event-IsRecorded_example : IsRecorded actor target event
record_event-IsRecorded_example =
    record_event-IsRecorded parse actor (97 ∷ []) target (some succeeded) (some 9) metadata event
      record_run
