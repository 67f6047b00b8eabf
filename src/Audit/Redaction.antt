-- ===== src/Audit/Redaction.antt =====
-- audit/redaction.py: what of the metadata gets into the trail. `urlparse` of urllib is a parameter: it
-- gives the scheme and the network location of a text, or raises ValueError.
use splitbind.Base.{
  Result, ok, ◌>>=◌, ℕ, Bool, true, false, not, ◌&&◌, ◌||◌, List, [], ◌∷◌, take, ◌==◌,
  if◌then◌else◌,
}

abbrev pub Text : Type 0
Text = List ℕ

pub data Key : Type 0 where
  kind role status safe_error_code object_size attempt : Key
  other_key : Text → Key

-- `SAFE_AUDIT_KEYS`
abbrev pub is_safe_key : Key → Bool
is_safe_key (other_key name) = false
is_safe_key _ = true

-- a text, a number or a truth value by its `str`; a container; anything else, None included
pub data Value : Type 0 where
  scalar : Text → Value
  container unsupported : Value

abbrev pub is_empty : Text → Bool
is_empty [] = true
is_empty (c ∷ cs) = false

-- `value.startswith("//")`
abbrev pub starts_with_slashes : Text → Bool
starts_with_slashes (a ∷ b ∷ cs) = a == 47 && b == 47
starts_with_slashes _ = false

-- `MAX_AUDIT_METADATA_VALUE_LENGTH`
abbrev pub max_value_length : ℕ
max_value_length = 256

-- `ValueError` of `urlparse`
pub data UrlError : Type 0 where
  value_error : UrlError

module _ (urlparse : Text → Result UrlError (Text × Text)) where
  unfoldable pub is_full_url : Text → Result UrlError Bool
  is_full_url value = urlparse value >>= λ (scheme, netloc).
      ok (not (is_empty netloc) && (not (is_empty scheme) || starts_with_slashes value))

  -- one entry with an allowed key before the entries that are kept of the rest
  unfoldable pub keep_entry :
      Key → Text → Result UrlError (List (Key × Text)) → Result UrlError (List (Key × Text))
  unfolding is_full_url
  keep_entry key value kept = do
    full ← is_full_url value
    safe ← kept
    ok (if full then safe else (key, take max_value_length value) ∷ safe)

  -- The keys of a mapping are distinct, so the assignment to `safe[key]` appends.
  unfoldable pub redact_metadata : List (Key × Value) → Result UrlError (List (Key × Text))
  unfolding keep_entry
  redact_metadata [] = ok []
  redact_metadata ((key, container) ∷ rest) = redact_metadata rest
  redact_metadata ((key, unsupported) ∷ rest) = redact_metadata rest
  redact_metadata ((key, scalar value) ∷ rest) =
      let kept = redact_metadata rest in if is_safe_key key then keep_entry key value kept else kept
