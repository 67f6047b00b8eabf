-- ===== src/Model/Evidence.antt =====
-- The JSON columns of a verification result (services/api/splitbind/demo/models.py) and the status of
-- a verification (documents/models.py).
use splitbind.Base.{ℕ, String, Bool, List}

pub data VerificationStatus : Type 0 where
  verified_intact source_identified_modified partial_evidence no_watermark invalid_manifest
        processing_failed :
      VerificationStatus

-- an element of a JSON array: a text; a number, a truth value or null; an array or an object
pub data Element : Type 0 where
  label : String → Element
  plain nested : Element

-- A JSON value as Python reads it. `negative n` is -(n + 1); `float sign n k` is n / 2 ^ k, or its
-- negation, as a finite double is.
pub data Json : Type 0 where
  null object : Json
  boolean : Bool → Json
  integer negative : ℕ → Json
  float : Bool → ℕ → ℕ → Json
  string : String → Json
  array : List Element → Json

-- `_DEMO_VERIFICATION_EVIDENCE_KEYS` and any other key
pub data EvidenceKey : Type 0 where
  algorithm_label decode_status fingerprint_confidence valid_vote_count analyzed_page_count
        manifest_signature_valid exact_file_hash_match limitations :
      EvidenceKey
  other_key : String → EvidenceKey

-- `_DEMO_VERIFICATION_METRIC_KEYS` and any other key
pub data MetricKey : Type 0 where
  processing_ms pages_processed cleanup_failures : MetricKey
  other_key : String → MetricKey

-- a column of any JSON value: a dict, or another value by its truth
pub data JsonColumn (K : Type 0) : Type 0 where
  dict : List (K × Json) → JsonColumn K
  not_dict : Bool → JsonColumn K
