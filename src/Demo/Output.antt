-- ===== src/Demo/Output.antt =====
-- `DemoIssuanceResult.clean` and `DemoIssuanceResult.save` of services/api/splitbind/demo/models.py,
-- with the checks that they reach in access/models.py and the table's check constraints.
pub mod Laws
use text.Mathlib.Text.{◌==◌ as str_eq}
use splitbind.Base.{
  ℕ, String, Bool, true, false, not, ◌&&◌, ◌||◌, Option, none, some, Result, ok, err, ◌>>◌, guard,
  is_some, ◌==◌, List, [], ◌∷◌, leb, opt_eq, if◌then◌else◌,
}
use splitbind.Jobs.State.{Job, JobKind}
use splitbind.Model.Keys.{ObjectKey, pdf, png, issuance_output, key_eq}
use splitbind.Model.Rows.{Issuance}
use splitbind.Worker.Db.{
  DemoIssuanceResult, DemoOutputState, reserved, uploading, committed, cleanup_required, cleaned,
}

-- the messages of `ValidationError` of the two models, `IntegrityError` for a check constraint, and
-- `TypeError` for a value that cannot be hashed
pub data ResultError : Type 0 where
  write_forbidden ownership committed_immutable invalid_transition organization_changed
        foreign_relation wrong_job wrong_key incomplete invalid_evidence claims_success
        no_failure_evidence constraint not_reserved no_progress wrong_shape unhashable :
      ResultError

abbrev pub state_eq : DemoOutputState → DemoOutputState → Bool
state_eq reserved reserved = true
state_eq uploading uploading = true
state_eq committed committed = true
state_eq cleanup_required cleanup_required = true
state_eq cleaned cleaned = true
state_eq _ _ = false

-- the table `allowed_transitions`; a committed row is refused before it is read
unfoldable pub allowed_transitions : DemoOutputState → DemoOutputState → Bool
allowed_transitions reserved uploading = true
allowed_transitions reserved cleaned = true
allowed_transitions uploading committed = true
allowed_transitions uploading cleanup_required = true
allowed_transitions uploading cleaned = true
allowed_transitions cleanup_required cleanup_required = true
allowed_transitions cleanup_required cleaned = true
allowed_transitions cleaned cleaned = true
allowed_transitions _ _ = false

-- `DEMO_ALGORITHM_LABEL`, `DEMO_CANONICAL_CANVAS`, `DEMO_ACCEPTED_CANDIDATE_IDENTIFIERS`,
-- `DEMO_LIMITATIONS` and `DEMO_MAX_COMMITTED_PAGES`
abbrev pub demo_algorithm_label : String
demo_algorithm_label = "experimental_unreleased_fingerprint_v2"

abbrev pub demo_frozen_candidate_identifier : String
demo_frozen_candidate_identifier =
    "5342463201e7490f80b69ef1a3289afce40ef02989c9a4d89f00b916055cbf1c4c83a97b88000000024040000000000000400000000000000000000180000000120000000300000003"

abbrev pub demo_legacy_candidate_identifier : String
demo_legacy_candidate_identifier =
    "5342463201e7490f80b69ef1a3289afce40ef02989c9a4d89f00b916055cbf1c4c83a97b880000000240380000000000003ff800000000000000000180000000120000000300000003"

abbrev pub demo_limitations : List String
demo_limitations =
    "fingerprint.experimental_unreleased_v2" ∷ "fingerprint.not_gate_g1_evidence"
    ∷ "evidence.not_proof_of_leak_edit_or_distribution" ∷ []

abbrev pub demo_max_committed_pages : ℕ
demo_max_committed_pages = 50

abbrev pub demo_stale_recovery_fence_code : String
demo_stale_recovery_fence_code = "DEMO_STALE_RECOVERY_FENCED"

abbrev pub text_is : String → Option String → Bool
text_is wanted none = false
text_is wanted (some text) = str_eq text wanted

abbrev pub texts_eq : List String → List String → Bool
texts_eq [] [] = true
texts_eq (x ∷ xs) (y ∷ ys) = str_eq x y && texts_eq xs ys
texts_eq _ _ = false

abbrev pub is_accepted_candidate : Option String → Bool
is_accepted_candidate candidate =
    text_is demo_frozen_candidate_identifier candidate
    || text_is demo_legacy_candidate_identifier candidate

-- `any(value is None for value in success_values)`
abbrev pub lacks_success : DemoIssuanceResult → Bool
lacks_success r = not (
    is_some r.algorithm_label
    && (is_some r.candidate_identifier
        && (is_some r.canvas_height
            && (is_some r.canvas_width
                && (is_some r.input_sha256
                    && (is_some r.output_sha256
                        && (is_some r.page_count && is_some r.processing_ms)))))))

-- `any(value is not None for value in success_values)`
abbrev pub has_success : DemoIssuanceResult → Bool
has_success r =
    is_some r.algorithm_label
    || (is_some r.candidate_identifier
        || (is_some r.canvas_height
            || (is_some r.canvas_width
                || (is_some r.input_sha256
                    || (is_some r.output_sha256
                        || (is_some r.page_count || is_some r.processing_ms))))))

-- what a committed row says of the algorithm that made it and of failures
unfoldable pub success_is_canonical : DemoIssuanceResult → Bool
success_is_canonical r =
    text_is demo_algorithm_label r.algorithm_label
    && (is_accepted_candidate r.candidate_identifier
        && (opt_eq r.canvas_height (some 2304)
            && (opt_eq r.canvas_width (some 1152)
                && (texts_eq r.limitations demo_limitations
                    && (r.cleanup_failures == 0 && not (is_some r.safe_error_code))))))

-- the relations, and the job and the output key that the row has to name
unfoldable pub clean_owner : Job → Issuance → DemoIssuanceResult → Result ResultError (Unit {0})
clean_owner job issuance r =
    guard
      (job.organization_id == r.organization_id && issuance.organization_id == r.organization_id)
      foreign_relation
    >> guard
        ((elim job.kind [ JobKind.issuance ↦ true | JobKind.verification ↦ false ])
          && (opt_eq job.issuance_id (some r.issuance_id) && job.attempt == r.attempt))
        wrong_job
    >> guard
        (key_eq r.output_object_key (issuance_output r.organization_id r.issuance_id pdf)
          || key_eq r.output_object_key (issuance_output r.organization_id r.issuance_id png))
        wrong_key

abbrev pub no_texts : List String → Bool
no_texts [] = true
no_texts (x ∷ xs) = false

-- the failure that a row waiting for cleanup has to name
abbrev pub failure_is_named : DemoIssuanceResult → Bool
failure_is_named r =
    is_some r.safe_error_code
    && (text_is demo_stale_recovery_fence_code r.safe_error_code || leb 1 r.cleanup_failures)

unfoldable pub clean_success : DemoOutputState → DemoIssuanceResult → Result ResultError (Unit {0})
unfolding success_is_canonical
clean_success committed r =
    guard (not (lacks_success r)) incomplete >> guard (success_is_canonical r) invalid_evidence
clean_success cleanup_required r =
    guard (not (has_success r) && no_texts r.limitations) claims_success
    >> guard (failure_is_named r) no_failure_evidence
clean_success _ r = guard (not (has_success r) && no_texts r.limitations) claims_success

unfoldable pub clean_result : Job → Issuance → DemoIssuanceResult → Result ResultError (Unit {0})
unfolding clean_owner clean_success
clean_result job issuance r = clean_owner job issuance r >> clean_success r.output_state r

-- the columns that a save can name
pub data ResultColumn : Type 0 where
  job_id organization_id issuance_id attempt output_object_key created_at owner_token output_state
        algorithm_label candidate_identifier canvas_height canvas_width input_sha256 output_sha256
        page_count processing_ms limitations cleanup_failures safe_error_code :
      ResultColumn

-- The columns of the row that are written.
unfoldable pub write_result :
    (ResultColumn → Bool) → DemoIssuanceResult → DemoIssuanceResult → DemoIssuanceResult
write_result names old new = record {
  job_id = if names job_id then new.job_id else old.job_id;
  organization_id = if names organization_id then new.organization_id else old.organization_id;
  issuance_id = if names issuance_id then new.issuance_id else old.issuance_id;
  attempt = if names attempt then new.attempt else old.attempt;
  output_object_key =
      if names output_object_key then new.output_object_key else old.output_object_key;
  created_at = if names created_at then new.created_at else old.created_at;
  owner_token = if names owner_token then new.owner_token else old.owner_token;
  output_state = if names output_state then new.output_state else old.output_state;
  algorithm_label = if names algorithm_label then new.algorithm_label else old.algorithm_label;
  candidate_identifier =
      if names candidate_identifier then new.candidate_identifier else old.candidate_identifier;
  canvas_height = if names canvas_height then new.canvas_height else old.canvas_height;
  canvas_width = if names canvas_width then new.canvas_width else old.canvas_width;
  input_sha256 = if names input_sha256 then new.input_sha256 else old.input_sha256;
  output_sha256 = if names output_sha256 then new.output_sha256 else old.output_sha256;
  page_count = if names page_count then new.page_count else old.page_count;
  processing_ms = if names processing_ms then new.processing_ms else old.processing_ms;
  limitations = if names limitations then new.limitations else old.limitations;
  cleanup_failures = if names cleanup_failures then new.cleanup_failures else old.cleanup_failures;
  safe_error_code = if names safe_error_code then new.safe_error_code else old.safe_error_code;
}

abbrev pub in_range : ℕ → ℕ → Option ℕ → Bool
in_range low high none = false
in_range low high (some n) = leb low n && leb n high

-- A comparison with NULL is neither true nor false, and a check constraint refuses only what is false.
abbrev pub unless_null : {A : Type 0} → Option A → Bool → Bool
unless_null none test = true
unless_null (some a) test = test

-- `demo_result_committed_complete` of a committed row
unfoldable pub passes_committed : DemoIssuanceResult → Bool
passes_committed r =
    unless_null r.algorithm_label (text_is demo_algorithm_label r.algorithm_label)
    && (unless_null r.candidate_identifier (is_accepted_candidate r.candidate_identifier)
        && (unless_null r.canvas_height (opt_eq r.canvas_height (some 2304))
            && (unless_null r.canvas_width (opt_eq r.canvas_width (some 1152))
                && (is_some r.input_sha256
                    && (is_some r.output_sha256
                        && (unless_null r.page_count
                              (in_range 1 demo_max_committed_pages r.page_count)
                            && (is_some r.processing_ms
                                && (texts_eq r.limitations demo_limitations
                                    && (r.cleanup_failures == 0
                                        && not (is_some r.safe_error_code))))))))))

-- `demo_result_committed_complete` and `demo_result_attempt_0_2`
unfoldable pub satisfies_constraints : DemoIssuanceResult → Bool
unfolding passes_committed
satisfies_constraints r =
    leb r.attempt 2 && (not (state_eq r.output_state committed) || passes_committed r)

-- identity columns beside the owner's token
unfoldable pub same_identity : DemoIssuanceResult → DemoIssuanceResult → Bool
same_identity new old =
    new.organization_id == old.organization_id
    && (new.job_id == old.job_id
        && (new.issuance_id == old.issuance_id
            && (new.attempt == old.attempt
                && (key_eq new.output_object_key old.output_object_key
                    && new.created_at == old.created_at))))

-- `recovery_transfer`, for a row of which only the token differs
unfoldable pub recovery_transfer : Bool → DemoOutputState → DemoOutputState → Bool
recovery_transfer allowed old new =
    allowed
    && ((state_eq old uploading || state_eq old cleanup_required) && state_eq new cleanup_required)

unfoldable pub check_identity :
    Bool → DemoIssuanceResult → DemoIssuanceResult → Result ResultError (Unit {0})
unfolding same_identity recovery_transfer
check_identity transfer old new =
    guard
      (same_identity new old
        && (new.owner_token == old.owner_token
            || recovery_transfer transfer old.output_state new.output_state))
      ownership

unfoldable pub check_transition : DemoOutputState → DemoOutputState → Result ResultError (Unit {0})
unfolding allowed_transitions
check_transition old new =
    guard (not (state_eq old committed)) committed_immutable
    >> guard (allowed_transitions old new) invalid_transition

-- A save of the instance `new`, whose job and issuance are given, over its row `old`. `allowed` and
-- `transfer` are the two capabilities, `names` the columns of `update_fields`, all for a plain save.
unfoldable pub save_result :
    Bool
    → Bool
    → (ResultColumn → Bool)
    → Job
    → Issuance
    → DemoIssuanceResult
    → DemoIssuanceResult
    → Result ResultError DemoIssuanceResult
unfolding check_identity check_transition clean_result write_result satisfies_constraints
save_result allowed transfer names job issuance old new =
    let row = write_result names old new in
    guard allowed write_forbidden
    >> check_identity transfer old new
    >> check_transition old.output_state new.output_state
    >> guard (new.organization_id == old.organization_id) organization_changed
    >> clean_result job issuance new
    >> guard (satisfies_constraints row) constraint
    >> ok row

-- A save of a new instance.
unfoldable pub create_result :
    Bool → Job → Issuance → DemoIssuanceResult → Result ResultError DemoIssuanceResult
unfolding clean_result satisfies_constraints
create_result allowed job issuance new =
    guard allowed write_forbidden
    >> clean_result job issuance new
    >> guard (satisfies_constraints new) constraint
    >> ok new
