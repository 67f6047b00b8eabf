-- ===== src/Demo/Tests.antt =====
-- Runs of the saves of the two result rows, and their theorems there.
use splitbind.Base.{◌≡◌, refl, ◌≢◌, ◌≤◌, Bool, true, false, none, some, List, [], ◌∷◌, map, ok, err}
use splitbind.Demo.Evidence.{verification_limitations, check_columns}
use splitbind.Demo.Outcome.{OutcomeColumn, save_outcome, create_outcome}
use splitbind.Demo.Outcome.Laws.{
  IsStored, created, saved, IsSoundRow, IsStored-IsSoundRow, decided_once,
}
use splitbind.Demo.Output.{
  ResultColumn, save_result, demo_algorithm_label, demo_frozen_candidate_identifier,
  demo_limitations, demo_stale_recovery_fence_code, invalid_transition, ownership, unhashable,
}
use splitbind.Demo.Output.Laws.{
  History, IsSameRow, Visited, progress, History-IsSameRow, owner_without_transfer,
  committed_was_uploading, IsCommittedRow,
}
use splitbind.Jobs.State.{Job, JobKind, processing}
use splitbind.Model.Evidence.{
  EvidenceKey, MetricKey, Json, VerificationStatus, Element, label, nested, dict, integer, boolean,
  null, string, array, float,
}
use splitbind.Model.Keys.{issuance_output, pdf}
use splitbind.Model.Rows.{Issuance, Verification}
use splitbind.Worker.Db.{
  DemoIssuanceResult, DemoOutputState, DemoVerificationResult, DemoVerificationState, reserved,
  uploading, committed, cleanup_required,
}

abbrev job : JobKind → Job
job kind = record {
  id = 1;
  organization_id = 7;
  kind = kind;
  status = processing;
  attempt = 0;
  issuance_id = some 41;
  verification_id = some 42;
  deadline_at = 900;
  correlation_id = 5;
  cancel_requested_at = none;
  safe_error_code = none;
  created_at = 100;
  updated_at = 100;
}

abbrev issued : Issuance
issued = record {
  id = 41;
  organization_id = 7;
  document_id = 61;
  recipient_id = 3;
  created_by_id = 2;
  output_object_key = none;
  output_sha256 = none;
  output_deleted_at = none;
  issued_at = 100;
}

abbrev verified : Verification
verified = record {
  id = 42;
  organization_id = 7;
  upload_request_id = 82;
  requested_by_id = 2;
  recovered_issuance_id = none;
}

abbrev output : DemoOutputState → DemoIssuanceResult
output state = record {
  job_id = 1;
  organization_id = 7;
  issuance_id = 41;
  attempt = 0;
  owner_token = 500;
  output_object_key = issuance_output 7 41 pdf;
  output_state = state;
  algorithm_label = none;
  candidate_identifier = none;
  canvas_height = none;
  canvas_width = none;
  input_sha256 = none;
  output_sha256 = none;
  page_count = none;
  processing_ms = none;
  limitations = [];
  cleanup_failures = 0;
  safe_error_code = none;
  created_at = 100;
}

-- the row of a finished issuance
abbrev finished : DemoIssuanceResult
finished = record (output committed) {
  algorithm_label = some demo_algorithm_label;
  candidate_identifier = some demo_frozen_candidate_identifier;
  canvas_height = some 2304;
  canvas_width = some 1152;
  input_sha256 = some 11;
  output_sha256 = some 12;
  page_count = some 3;
  processing_ms = some 80;
  limitations = demo_limitations;
}

abbrev all_columns : ResultColumn → Bool
all_columns c = true

uploads :
    save_result true false all_columns
      (job JobKind.issuance)
      issued
      (output reserved)
      (output uploading)
    ≡ ok (output uploading)
unfolding save_result
uploads = refl

commits :
    save_result true false all_columns (job JobKind.issuance) issued (output uploading) finished
    ≡ ok finished
unfolding save_result
commits = refl

-- A save that names these columns commits a row in which the others stay NULL.
abbrev some_columns : ResultColumn → Bool
some_columns ResultColumn.output_state = true
some_columns ResultColumn.input_sha256 = true
some_columns ResultColumn.output_sha256 = true
some_columns ResultColumn.processing_ms = true
some_columns ResultColumn.limitations = true
some_columns _ = false

commits_incomplete :
    save_result true false some_columns (job JobKind.issuance) issued (output uploading) finished
    ≡ ok (record finished {
      algorithm_label = none;
      candidate_identifier = none;
      canvas_height = none;
      canvas_width = none;
      page_count = none;
    })
unfolding save_result
commits_incomplete = refl

commit_from_reserved_refused :
    save_result true false all_columns (job JobKind.issuance) issued (output reserved) finished
    ≡ err invalid_transition
unfolding save_result
commit_from_reserved_refused = refl

-- the row that the recovery of a stale job takes over
abbrev fenced : DemoIssuanceResult
fenced = record (output cleanup_required) {
  owner_token = 501;
  safe_error_code = some demo_stale_recovery_fence_code;
}

recovery_takes_over :
    save_result true true all_columns (job JobKind.issuance) issued (output uploading) fenced
    ≡ ok fenced
unfolding save_result
recovery_takes_over = refl

no_recovery_without_capability :
    save_result true false all_columns (job JobKind.issuance) issued (output uploading) fenced
    ≡ err ownership
unfolding save_result
no_recovery_without_capability = refl

history : History false (output reserved) finished
history =
    History.saved finished true all_columns (job JobKind.issuance) issued finished
      (History.saved (output uploading) true all_columns (job JobKind.issuance) issued
        (output uploading) History.here uploads)
      commits

History-IsSameRow_example :
    IsSameRow (output reserved) finished
    × (progress reserved ≤ progress committed)
    × ((output reserved).output_state ≡ committed → finished ≡ output reserved)
History-IsSameRow_example = History-IsSameRow history

owner_without_transfer_example : finished.owner_token ≡ (output reserved).owner_token
owner_without_transfer_example = owner_without_transfer history

reserved_is_not_committed : (output reserved).output_state ≢ committed
reserved_is_not_committed same = cc

committed_was_uploading_example : Visited uploading history × IsCommittedRow finished
committed_was_uploading_example = committed_was_uploading history reserved_is_not_committed refl

abbrev every_column : OutcomeColumn → Bool
every_column c = true

abbrev outcome : DemoVerificationState → DemoVerificationResult
outcome state = record {
  job_id = 1;
  organization_id = 7;
  verification_id = 42;
  attempt = 0;
  owner_token = 500;
  result_state = state;
  input_sha256 = none;
  result_status = none;
  recovered_issuance_id = none;
  evidence = dict [];
  metrics = dict [];
  safe_error_code = none;
  completed_at = none;
  created_at = 100;
}

abbrev entries : List Element → List (EvidenceKey × Json)
entries limitations =
    (EvidenceKey.algorithm_label, string demo_algorithm_label)
    ∷ (EvidenceKey.decode_status, string "decoded")
    ∷ (EvidenceKey.fingerprint_confidence, float false 3 2)
    ∷ (EvidenceKey.valid_vote_count, integer 40)
    ∷ (EvidenceKey.analyzed_page_count, integer 2)
    ∷ (EvidenceKey.manifest_signature_valid, null)
    ∷ (EvidenceKey.exact_file_hash_match, boolean false)
    ∷ (EvidenceKey.limitations, array limitations)
    ∷ []

abbrev counts : List (MetricKey × Json)
counts =
    (MetricKey.processing_ms, integer 90)
    ∷ (MetricKey.pages_processed, integer 2)
    ∷ (MetricKey.cleanup_failures, integer 0)
    ∷ []

abbrev decided : DemoVerificationResult
decided = record (outcome DemoVerificationState.committed) {
  input_sha256 = some 11;
  result_status = some VerificationStatus.source_identified_modified;
  evidence = dict (entries (map label verification_limitations));
  metrics = dict counts;
  completed_at = some 300;
}

reserves :
    create_outcome true
      (job JobKind.verification)
      verified
      none
      (outcome DemoVerificationState.reserved)
    ≡ ok (outcome DemoVerificationState.reserved)
unfolding create_outcome
reserves = refl

decides :
    save_outcome true every_column
      (job JobKind.verification)
      verified
      none
      (outcome DemoVerificationState.reserved)
      decided
    ≡ ok decided
unfolding save_outcome
decides = refl

-- A list among the limitations stops the check with a `TypeError`.
nested_limitation :
    check_columns
      (dict (
        entries (
          label "fingerprint.experimental_unreleased_v2"
          ∷ label "fingerprint.not_gate_g1_evidence"
          ∷ label "evidence.not_proof_of_leak_edit_or_distribution"
          ∷ label "integrity.not_evaluated"
          ∷ nested
          ∷ [])))
      (dict counts)
    ≡ err unhashable
unfolding check_columns
nested_limitation = refl

stored : IsStored decided
stored =
    saved true every_column (job JobKind.verification) verified none decided
      (created true (job JobKind.verification) verified none
        (outcome DemoVerificationState.reserved) reserves)
      (λ n. (refl, refl)) decides

IsStored-IsSoundRow_example : IsSoundRow decided
IsStored-IsSoundRow_example = IsStored-IsSoundRow stored refl

decided_once_example :
    save_outcome true every_column (job JobKind.verification) verified none decided decided
    ≢ ok decided
decided_once_example =
    decided_once true true every_column every_column (job JobKind.verification)
      (job JobKind.verification) verified verified none none
      (outcome DemoVerificationState.reserved) decided decided decided decided refl decides
