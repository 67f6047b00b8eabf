-- ===== src/Audit/Laws.antt =====
-- What the trail holds.
use mathlib.Core.Path.{subst}
use splitbind.Base.{
  ℕ, ◌≤◌, ◌≡◌, sym, ◌↔◌, inl, inr, true, false, Option, some, List, [], ◌∷◌, length, take, ok,
  arith, Result, Bool-cases, Option-cases, ap, ◌⊎◌, Bool, false, >>=-eq-ok, ok-inv, ◌>>=◌,
  if◌then◌else◌,
}
use splitbind.Audit.Redaction.{
  UrlError, keep_entry, Text, Key, Value, scalar, container, unsupported, is_safe_key, is_full_url,
  redact_metadata, max_value_length,
}
use splitbind.Model.Table.Laws.{Among}
use splitbind.Audit.{
  Actor, Target, AuditEvent, AuditOutcome, AuditError, record_event, check_audit_target, audit_row,
}

-- Where an entry of redacted metadata comes from.
pub record IsRedacted (urlparse : Text → Result UrlError (Text × Text))
    (metadata : List (Key × Value)) (key : Key) (text : Text) : Type 0 where
  pub value : Text
  pub among : Among (key, scalar value) metadata
  pub safe : is_safe_key key ≡ true
  pub local : is_full_url urlparse value ≡ ok false
  pub cut : text ≡ take max_value_length value

module _ (urlparse : Text → Result UrlError (Text × Text)) where
  later :
      (entry : Key × Value) (rest : List (Key × Value)) (key : Key) (text : Text)
      → IsRedacted urlparse rest key text
      → IsRedacted urlparse (entry ∷ rest) key text
  later entry rest key text r = record {
    value = r.value;
    among = inr r.among;
    safe = r.safe;
    local = r.local;
    cut = r.cut;
  }

  -- What an entry with a scalar leaves.
  record IsKept (key : Key) (value : Text) (rest : List (Key × Value)) (safe : List (Key × Text))
      : Type 0 where
    full : Bool
    kept : List (Key × Text)
    allowed : is_safe_key key ≡ true
    parsed : is_full_url urlparse value ≡ ok full
    later_safe : redact_metadata urlparse rest ≡ ok kept
    made : (if full then kept else (key, take max_value_length value) ∷ kept) ≡ safe

  scalar_entry :
      (key : Key) (value : Text) (rest : List (Key × Value)) (safe : List (Key × Text))
      → redact_metadata urlparse ((key, scalar value) ∷ rest) ≡ ok safe
      → ((is_safe_key key ≡ false) × (redact_metadata urlparse rest ≡ ok safe))
        ⊎ IsKept key value rest safe
  unfolding redact_metadata keep_entry
  scalar_entry key value rest safe e = elim (Bool-cases (is_safe_key key)) [
    | inr unsafe ↦ inl (unsafe, rw unsafe at e)
    | inl allowed ↦
        let (full, parsed, more) =
          >>=-eq-ok (is_full_url urlparse value)
            (λ full. redact_metadata urlparse rest >>= λ kept.
              ok (if full then kept else (key, take max_value_length value) ∷ kept))
            (rw allowed at e) in
        let (kept, later_safe, made) =
          >>=-eq-ok (redact_metadata urlparse rest)
            (λ kept. ok (if full then kept else (key, take max_value_length value) ∷ kept)) more in
        inr (record {
          full = full;
          kept = kept;
          allowed = allowed;
          parsed = parsed;
          later_safe = later_safe;
          made = ok-inv made;
        })
  ]

  redacted_entry :
      (k : Key) (v : Text) (rest : List (Key × Value)) (key : Key) (text : Text) (full : Bool)
      (kept : List (Key × Text))
      → is_safe_key k ≡ true
      → is_full_url urlparse v ≡ ok full
      → redact_metadata urlparse rest ≡ ok kept
      → Among (key, text) (if full then kept else (k, take max_value_length v) ∷ kept)
      → (Among (key, text) kept → IsRedacted urlparse rest key text)
      → IsRedacted urlparse ((k, scalar v) ∷ rest) key text
  redacted_entry k v rest key text true kept s p r m f = later _ rest key text (f m)
  redacted_entry k v rest key text false kept s p r (inr m) f = later _ rest key text (f m)
  redacted_entry k v rest key text false kept s p r (inl e) f = record {
    value = v;
    among = inl (ap (λ t. (t.0, scalar v)) e);
    safe = subst (λ q. is_safe_key q ≡ true) (sym (ap (λ t. t.0) e)) s;
    local = p;
    cut = ap (λ t. t.1) e;
  }

  redacted :
      (metadata : List (Key × Value)) (safe : List (Key × Text)) (key : Key) (text : Text)
      → redact_metadata urlparse metadata ≡ ok safe
      → Among (key, text) safe
      → IsRedacted urlparse metadata key text
  unfolding redact_metadata
  redacted [] safe key text e m = absurd (subst (Among (key, text)) (sym (ok-inv e)) m)
  redacted ((k, container) ∷ rest) safe key text e m =
      later _ rest key text (redacted rest safe key text e m)
  redacted ((k, unsupported) ∷ rest) safe key text e m =
      later _ rest key text (redacted rest safe key text e m)
  redacted ((k, scalar v) ∷ rest) safe key text e m = elim (scalar_entry k v rest safe e) [
    | inl (unsafe, r) ↦ later _ rest key text (redacted rest safe key text r m)
    | inr i ↦
        redacted_entry k v rest key text i.full i.kept i.allowed i.parsed i.later_safe
          (subst (Among (key, text)) (sym i.made) m) (redacted rest i.kept key text i.later_safe)
  ]

  -- The entries that are kept of the rest stay.
  kept_later :
      (k : Key) (v : Text) (key : Key) (text : Text) (full : Bool) (kept : List (Key × Text))
      → Among (key, text) kept
      → Among (key, text) (if full then kept else (k, take max_value_length v) ∷ kept)
  kept_later k v key text true kept m = m
  kept_later k v key text false kept m = inr m

  kept_first :
      (v : Text) (key : Key) (text : Text) (full : Bool) (kept : List (Key × Text))
      → is_full_url urlparse v ≡ ok full
      → is_full_url urlparse v ≡ ok false
      → text ≡ take max_value_length v
      → Among (key, text) (if full then kept else (key, take max_value_length v) ∷ kept)
  kept_first v key text true kept p l c = absurd (cc (p, l))
  kept_first v key text false kept p l c = inl (ap (λ t. (key, t)) c)

  found :
      (metadata : List (Key × Value)) (safe : List (Key × Text)) (key : Key) (text value : Text)
      → redact_metadata urlparse metadata ≡ ok safe
      → Among (key, scalar value) metadata
      → is_safe_key key ≡ true
      → is_full_url urlparse value ≡ ok false
      → text ≡ take max_value_length value
      → Among (key, text) safe
  unfolding redact_metadata
  found [] safe key text value e m s l c = absurd m
  found ((k, container) ∷ rest) safe key text value e (inl q) s l c = absurd (cc (ap (λ t. t.1) q))
  found ((k, container) ∷ rest) safe key text value e (inr m) s l c =
      found rest safe key text value e m s l c
  found ((k, unsupported) ∷ rest) safe key text value e (inl q) s l c =
      absurd (cc (ap (λ t. t.1) q))
  found ((k, unsupported) ∷ rest) safe key text value e (inr m) s l c =
      found rest safe key text value e m s l c
  found ((k, scalar v) ∷ rest) safe key text value e (inl q) s l c =
      let entry : redact_metadata urlparse ((key, scalar value) ∷ rest) ≡ ok safe =
        subst (λ x. redact_metadata urlparse (x ∷ rest) ≡ ok safe) (sym q) e in
      elim (scalar_entry key value rest safe entry) [
        | inl (unsafe, r) ↦ absurd (cc (unsafe, s))
        | inr i ↦
            subst (Among (key, text)) i.made (kept_first value key text i.full i.kept i.parsed l c)
      ]
  found ((k, scalar v) ∷ rest) safe key text value e (inr m) s l c =
      elim (scalar_entry k v rest safe e) [
        | inl (unsafe, r) ↦ found rest safe key text value r m s l c
        | inr i ↦ subst (Among (key, text)) i.made (
            kept_later k v key text i.full i.kept
              (found rest i.kept key text value i.later_safe m s l c))
      ]

  -- When the redaction does not raise, an entry is in its result exactly when its key is allowed, the
  -- metadata has a scalar for the key that is no complete URL, and its text is the first 256 characters
  -- of that scalar's text.
  pub redact_metadata_iff :
      (metadata : List (Key × Value)) (safe : List (Key × Text)) (key : Key) (text : Text)
      → redact_metadata urlparse metadata ≡ ok safe
      → Among (key, text) safe ↔ IsRedacted urlparse metadata key text
  redact_metadata_iff metadata safe key text e = (
    redacted metadata safe key text e,
    λ r. found metadata safe key text r.value e r.among r.safe r.local r.cut,
  )

-- What a row of the trail tells of its actor and its target.
pub record IsRecorded (actor : Actor) (target : Target) (event : AuditEvent) : Type 0 where
  pub organization : actor.organization_id ≡ some event.organization_id
  pub shared : target.organization_id ≡ some event.organization_id
  pub saved : (actor.saved ≡ true) × (target.saved ≡ true)
  pub owner : event.actor_id ≡ some actor.id
  pub action : (1 ≤ length event.action) × (length event.action ≤ 120)
  pub identified : (event.target_type ≡ target.target_type) × (event.target_id ≡ target.target_id)
  pub bounded : (length event.target_type ≤ 80) × (length event.target_id ≤ 120)

record_row :
    (urlparse : Text → Result UrlError (Text × Text)) (organization : ℕ) (actor : Actor)
    (action : Text) (target : Target) (outcome : Option AuditOutcome) (correlation_id : Option ℕ)
    (metadata : List (Key × Value)) (event : AuditEvent)
    → audit_row urlparse organization (some actor.id) action target outcome correlation_id metadata
      ≡ ok event
    → actor.organization_id ≡ some organization
    → target.organization_id ≡ some organization
    → actor.saved ≡ true
    → target.saved ≡ true
    → IsRecorded actor target event
unfolding audit_row
record_row urlparse organization actor action target outcome correlation_id metadata event e a t s
      u =
    record {
      organization = ground arith;
      shared = ground arith;
      saved = (s, u);
      owner = ground arith;
      action = ground arith;
      identified = ground arith;
      bounded = ground arith;
    }

checked_target :
    (target : Target) (organization : ℕ) (row : Target → Result AuditError AuditEvent)
    (event : AuditEvent)
    → check_audit_target (some target) organization row ≡ ok event
    → (target.organization_id ≡ some organization) × (target.saved ≡ true) × (row target ≡ ok event)
unfolding check_audit_target
checked_target target organization row event e = elim (Option-cases target.organization_id) [
  | inl n ↦ absurd (cc (rw (check_audit_target, n) at e))
  | inr (o, n) ↦ ground (arith, rw (check_audit_target, n) at e, n)
]

-- A recorded event names its actor and target, both saved and of the organization that it is recorded
-- for, and its texts are within the bounds of their columns.
pub record_event-IsRecorded :
    (urlparse : Text → Result UrlError (Text × Text)) (actor : Actor) (action : Text)
    (target : Target) (outcome : Option AuditOutcome) (correlation_id : Option ℕ)
    (metadata : List (Key × Value)) (event : AuditEvent)
    → record_event urlparse (some actor) action (some target) outcome correlation_id metadata
      ≡ ok event
    → IsRecorded actor target event
unfolding record_event
record_event-IsRecorded urlparse actor action target outcome correlation_id metadata event e =
    elim (Option-cases actor.organization_id) [
      | inl a ↦ absurd (cc (rw a at e))
      | inr (o, a) ↦ elim (Bool-cases actor.saved) [
        | inr u ↦ absurd (cc (rw (record_event, a, u) at e))
        | inl s ↦
            let (t, u, made) = checked_target target o _ event (rw (record_event, a, s) at e) in
            record_row urlparse o actor action target outcome correlation_id metadata event made a t
              s u
      ]
    ]
