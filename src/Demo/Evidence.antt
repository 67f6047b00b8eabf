-- ===== src/Demo/Evidence.antt =====
-- The part of `DemoVerificationResult.clean` (services/api/splitbind/demo/models.py) that reads the
-- evidence and the metrics of a committed verification.
pub mod Laws
use text.Mathlib.Text.{◌==◌ as str_eq}
use splitbind.Base.{
  ℕ, String, Bool, true, false, not, ◌&&◌, ◌||◌, Option, none, some, Result, ok, err, ◌>>◌, guard,
  is_some, ◌==◌, ◌^◌, List, [], ◌∷◌, leb, if◌then◌else◌,
}
use splitbind.Demo.Output.{ResultError, incomplete, wrong_shape, unhashable, demo_algorithm_label}
use splitbind.Model.Evidence.{
  Json, Element, EvidenceKey, MetricKey, JsonColumn, label, plain, nested, null, object, boolean,
  integer, negative, float, string, array, dict, not_dict,
}

abbrev pub evidence_key_eq : EvidenceKey → EvidenceKey → Bool
evidence_key_eq EvidenceKey.algorithm_label EvidenceKey.algorithm_label = true
evidence_key_eq EvidenceKey.decode_status EvidenceKey.decode_status = true
evidence_key_eq EvidenceKey.fingerprint_confidence EvidenceKey.fingerprint_confidence = true
evidence_key_eq EvidenceKey.valid_vote_count EvidenceKey.valid_vote_count = true
evidence_key_eq EvidenceKey.analyzed_page_count EvidenceKey.analyzed_page_count = true
evidence_key_eq EvidenceKey.manifest_signature_valid EvidenceKey.manifest_signature_valid = true
evidence_key_eq EvidenceKey.exact_file_hash_match EvidenceKey.exact_file_hash_match = true
evidence_key_eq EvidenceKey.limitations EvidenceKey.limitations = true
evidence_key_eq (EvidenceKey.other_key a) (EvidenceKey.other_key b) = str_eq a b
evidence_key_eq _ _ = false

abbrev pub metric_key_eq : MetricKey → MetricKey → Bool
metric_key_eq MetricKey.processing_ms MetricKey.processing_ms = true
metric_key_eq MetricKey.pages_processed MetricKey.pages_processed = true
metric_key_eq MetricKey.cleanup_failures MetricKey.cleanup_failures = true
metric_key_eq (MetricKey.other_key a) (MetricKey.other_key b) = str_eq a b
metric_key_eq _ _ = false

module _ {K : Type 0} where
  -- `.get(key)`, and `[key]` for a key that is there
  unfoldable pub lookup : (K → Bool) → List (K × Json) → Option Json
  lookup is_key [] = none
  lookup is_key ((k, v) ∷ entries) = if is_key k then some v else lookup is_key entries

  unfoldable pub every_value : (Json → Bool) → List (K × Json) → Bool
  every_value test [] = true
  every_value test ((k, v) ∷ entries) = test v && every_value test entries

  -- no key but the expected ones
  unfoldable pub every_key : (K → Bool) → List (K × Json) → Bool
  every_key test [] = true
  every_key test ((k, v) ∷ entries) = test k && every_key test entries

abbrev pub is_evidence_key : EvidenceKey → Bool
is_evidence_key (EvidenceKey.other_key a) = false
is_evidence_key _ = true

abbrev pub is_metric_key : MetricKey → Bool
is_metric_key (MetricKey.other_key a) = false
is_metric_key _ = true

abbrev pub item : EvidenceKey → List (EvidenceKey × Json) → Option Json
unfolding lookup
item key entries = lookup (evidence_key_eq key) entries

abbrev pub metric : MetricKey → List (MetricKey × Json) → Option Json
unfolding lookup
metric key entries = lookup (metric_key_eq key) entries

abbrev pub string_is : String → Option Json → Bool
string_is wanted (some (string t)) = str_eq t wanted
string_is wanted _ = false

abbrev pub member : String → List String → Bool
member t [] = false
member t (x ∷ xs) = str_eq t x || member t xs

-- `_DEMO_VERIFICATION_DECODE_STATUSES`
abbrev pub decode_statuses : List String
decode_statuses =
    "decoded" ∷ "partial_payload_evidence" ∷ "payload_not_detected" ∷ "insufficient_sync_evidence"
    ∷ "geometry_rejected" ∷ []

-- `DEMO_VERIFICATION_LIMITATIONS`
abbrev pub verification_limitations : List String
verification_limitations =
    "fingerprint.experimental_unreleased_v2" ∷ "fingerprint.not_gate_g1_evidence"
    ∷ "evidence.not_proof_of_leak_edit_or_distribution" ∷ "integrity.not_evaluated" ∷ []

-- `_DEMO_VERIFICATION_ALLOWED_LIMITATIONS`
abbrev pub allowed_limitations : List String
allowed_limitations =
    "fingerprint.experimental_unreleased_v2" ∷ "fingerprint.not_gate_g1_evidence"
    ∷ "evidence.not_proof_of_leak_edit_or_distribution" ∷ "integrity.not_evaluated"
    ∷ "evidence.exact_hash_ambiguous" ∷ "evidence.retained_issuance_invalid"
    ∷ "fingerprint.decoded_source_not_available" ∷ "fingerprint.no_watermark_not_exclusion"
    ∷ "fingerprint.partial_payload_evidence" ∷ "manifest.signed_evidence_unavailable" ∷ []

-- A test `value in {...}`: an array or an object cannot be hashed.
unfoldable pub check_decode_status : Option Json → Result ResultError (Unit {0})
check_decode_status (some (string t)) = guard (member t decode_statuses) wrong_shape
check_decode_status (some (array xs)) = err unhashable
check_decode_status (some object) = err unhashable
check_decode_status _ = err wrong_shape

-- an `int` or `float`, not a `bool`, from 0.0 to 1.0
abbrev pub is_confidence : Option Json → Bool
is_confidence (some (integer n)) = leb n 1
is_confidence (some (float sign n k)) = (not sign || n == 0) && leb n (2 ^ k)
is_confidence _ = false

-- an `int`, not a `bool`, of at least 0
abbrev pub is_count : Json → Bool
is_count (integer n) = true
is_count _ = false

abbrev pub is_vote_count : Option Json → Bool
is_vote_count none = false
is_vote_count (some v) = is_count v

abbrev pub is_page_count : Option Json → Bool
is_page_count (some (integer n)) = leb 1 n && leb n 5
is_page_count _ = false

abbrev pub is_boolean : Option Json → Bool
is_boolean (some (boolean b)) = true
is_boolean _ = false

-- `in (True, False, None)`, where 1 and 1.0 equal `True`, and 0 and 0.0 equal `False`
abbrev pub is_validity : Option Json → Bool
is_validity (some null) = true
is_validity (some (boolean b)) = true
is_validity (some (integer n)) = leb n 1
is_validity (some (float sign n k)) = n == 0 || (not sign && n == 2 ^ k)
is_validity _ = false

-- the first limitations are those of every verification, in their order
unfoldable pub begins_with : List String → List Element → Bool
begins_with [] xs = true
begins_with (t ∷ ts) (label x ∷ xs) = str_eq x t && begins_with ts xs
begins_with _ _ = false

unfoldable pub all_hashable : List Element → Bool
all_hashable [] = true
all_hashable (nested ∷ xs) = false
all_hashable (_ ∷ xs) = all_hashable xs

unfoldable pub repeats : String → List Element → Bool
repeats t [] = false
repeats t (label x ∷ xs) = str_eq t x || repeats t xs
repeats t (_ ∷ xs) = repeats t xs

-- The texts are distinct. Other values are refused by the last test of the limitations, with the same
-- error.
unfoldable pub all_distinct : List Element → Bool
unfolding repeats
all_distinct [] = true
all_distinct (label x ∷ xs) = not (repeats x xs) && all_distinct xs
all_distinct (_ ∷ xs) = all_distinct xs

unfoldable pub all_allowed : List Element → Bool
all_allowed [] = true
all_allowed (label x ∷ xs) = member x allowed_limitations && all_allowed xs
all_allowed (_ ∷ xs) = false

unfoldable pub check_limitations : Option Json → Result ResultError (Unit {0})
unfolding begins_with all_hashable all_distinct all_allowed
check_limitations (some (array xs)) =
    guard (begins_with verification_limitations xs) wrong_shape
    >> guard (all_hashable xs) unhashable
    >> guard (all_distinct xs) wrong_shape
    >> guard (all_allowed xs) wrong_shape
check_limitations _ = err wrong_shape

-- equality of two counts
abbrev pub same_count : Option Json → Option Json → Bool
same_count (some (integer a)) (some (integer b)) = a == b
same_count _ _ = false

-- The keys are exactly the expected ones.
unfoldable pub has_shape : List (EvidenceKey × Json) → List (MetricKey × Json) → Bool
unfolding every_key lookup
has_shape evidence metrics =
    every_key is_evidence_key evidence
    && (every_key is_metric_key metrics
        && (is_some (item EvidenceKey.algorithm_label evidence)
            && (is_some (item EvidenceKey.decode_status evidence)
                && (is_some (item EvidenceKey.fingerprint_confidence evidence)
                    && (is_some (item EvidenceKey.valid_vote_count evidence)
                        && (is_some (item EvidenceKey.analyzed_page_count evidence)
                            && (is_some (item EvidenceKey.manifest_signature_valid evidence)
                                && (is_some (item EvidenceKey.exact_file_hash_match evidence)
                                    && (is_some (item EvidenceKey.limitations evidence)
                                        && (is_some (metric MetricKey.processing_ms metrics)
                                            && (is_some (metric MetricKey.pages_processed metrics)
                                                && is_some (
                                                    metric MetricKey.cleanup_failures
                                                      metrics))))))))))))

-- The tests of the two columns of a committed verification, in the order of the code.
unfoldable pub check_evidence_shape :
    List (EvidenceKey × Json) → List (MetricKey × Json) → Result ResultError (Unit {0})
unfolding has_shape check_decode_status check_limitations every_value lookup
check_evidence_shape evidence metrics =
    guard (has_shape evidence metrics) wrong_shape
    >> check_decode_status (item EvidenceKey.decode_status evidence)
    >> guard (is_confidence (item EvidenceKey.fingerprint_confidence evidence)) wrong_shape
    >> guard (is_vote_count (item EvidenceKey.valid_vote_count evidence)) wrong_shape
    >> guard (is_page_count (item EvidenceKey.analyzed_page_count evidence)) wrong_shape
    >> guard (is_boolean (item EvidenceKey.exact_file_hash_match evidence)) wrong_shape
    >> guard (is_validity (item EvidenceKey.manifest_signature_valid evidence)) wrong_shape
    >> check_limitations (item EvidenceKey.limitations evidence)
    >> guard (every_value is_count metrics) wrong_shape
    >> guard
        (same_count (metric MetricKey.pages_processed metrics)
          (item EvidenceKey.analyzed_page_count evidence))
        wrong_shape
    >> guard (same_count (metric MetricKey.cleanup_failures metrics) (some (integer 0))) wrong_shape

-- `isinstance(..., dict)` for both columns, and the label
unfoldable pub check_columns :
    JsonColumn EvidenceKey → JsonColumn MetricKey → Result ResultError (Unit {0})
unfolding lookup check_evidence_shape
check_columns (dict evidence) (dict metrics) =
    guard (string_is demo_algorithm_label (item EvidenceKey.algorithm_label evidence)) incomplete
    >> check_evidence_shape evidence metrics
check_columns _ _ = err incomplete

-- the truth of a column
abbrev pub has_content : {K : Type 0} → JsonColumn K → Bool
has_content (dict []) = false
has_content (dict (entry ∷ entries)) = true
has_content (not_dict truth) = truth
