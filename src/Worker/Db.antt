-- ===== src/Worker/Db.antt =====
-- The tables that the worker reads and writes. demo/models.py gives the two result rows.
use splitbind.Base.{ℕ, String, Option, List}
use splitbind.Jobs.State.{Job, JobKind}
use splitbind.Model.Evidence.{VerificationStatus, EvidenceKey, MetricKey, JsonColumn}
use splitbind.Model.Keys.{ObjectKey}
use splitbind.Model.Rows.{Document, Issuance, Verification, UploadRequest}

pub data DemoOutputState : Type 0 where
  reserved uploading committed cleanup_required cleaned : DemoOutputState

pub record DemoIssuanceResult : Type 0 where
  pub job_id : ℕ
  pub organization_id : ℕ
  pub issuance_id : ℕ
  pub attempt : ℕ
  pub owner_token : ℕ
  pub output_object_key : ObjectKey
  pub output_state : DemoOutputState
  pub algorithm_label : Option String
  pub candidate_identifier : Option String
  pub canvas_height : Option ℕ
  pub canvas_width : Option ℕ
  pub input_sha256 : Option ℕ
  pub output_sha256 : Option ℕ
  pub page_count : Option ℕ
  pub processing_ms : Option ℕ
  pub limitations : List String
  pub cleanup_failures : ℕ
  pub safe_error_code : Option String
  pub created_at : ℕ

pub data DemoVerificationState : Type 0 where
  reserved committed failed cancelled : DemoVerificationState

pub record DemoVerificationResult : Type 0 where
  pub job_id : ℕ
  pub organization_id : ℕ
  pub verification_id : ℕ
  pub attempt : ℕ
  pub owner_token : ℕ
  pub result_state : DemoVerificationState
  pub input_sha256 : Option ℕ
  pub result_status : Option VerificationStatus
  pub recovered_issuance_id : Option ℕ
  pub evidence : JsonColumn EvidenceKey
  pub metrics : JsonColumn MetricKey
  pub safe_error_code : Option String
  pub completed_at : Option ℕ
  pub created_at : ℕ

-- outbox/messages.py: the payload that `build_job_request` makes. `message_type` is the text
-- "{kind}.requested", so it is the kind.
pub record JobRequest : Type 0 where
  pub schema_version : ℕ
  pub message_type : JobKind
  pub message_id : ℕ
  pub job_id : ℕ
  pub attempt : ℕ
  pub issuance_id : Option ℕ
  pub verification_id : Option ℕ
  pub input_object_key : ObjectKey
  pub input_sha256 : ℕ
  pub deadline_at : ℕ
  pub correlation_id : ℕ

-- outbox/models.py. A stored payload is any JSON value: `none` is one that is not a request.
pub record OutboxEvent : Type 0 where
  pub id : ℕ
  pub organization_id : ℕ
  pub message_id : ℕ
  pub job_id : ℕ
  pub attempt : ℕ
  pub topic : Option JobKind
  pub payload : Option JobRequest
  pub published_at : Option ℕ

pub record Db : Type 0 where
  pub jobs : List Job
  pub outbox : List OutboxEvent
  pub issuances : List Issuance
  pub documents : List Document
  pub verifications : List Verification
  pub uploads : List UploadRequest
  pub issuance_results : List DemoIssuanceResult
  pub verification_results : List DemoVerificationResult
