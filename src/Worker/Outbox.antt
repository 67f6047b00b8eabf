-- ===== src/Worker/Outbox.antt =====
-- The outbox row of a job (outbox/messages.py, outbox/services.py) and `stage_next_created_job` of
-- demo/worker.py, which puts a created job into the queue if its outbox row is sound.
pub mod Laws
use splitbind.Base.{
  ℕ, Bool, false, not, ◌&&◌, ◌||◌, Option, none, some, ◌∷◌, Result, ok, err, ◌>>=◌, ◌==◌, opt_eq,
  is_some, if◌then◌else◌,
}
use splitbind.Jobs.State.{Job, JobKind, issuance, verification, created, queued}
use splitbind.Model.Keys.{ObjectKey, key_eq}
use splitbind.Model.Table.{find, exists, count_rows}
use splitbind.Worker.Db.{Db, JobRequest, OutboxEvent}
use splitbind.Worker.Saves.{
  WorkerError, invalid_evidence, integrity, kind_eq, move, save_status, next_job,
}

-- `build_job_request`: the message that a worker would get
unfoldable pub build_job_request : ℕ → Job → ObjectKey → ℕ → JobRequest
build_job_request message job key sha256 = record {
  schema_version = 1;
  message_type = job.kind;
  message_id = message;
  job_id = job.id;
  attempt = job.attempt;
  issuance_id = job.issuance_id;
  verification_id = job.verification_id;
  input_object_key = key;
  input_sha256 = sha256;
  deadline_at = job.deadline_at;
  correlation_id = job.correlation_id;
}

unfoldable pub request_eq : JobRequest → JobRequest → Bool
request_eq a b =
    a.schema_version == b.schema_version
    && kind_eq a.message_type b.message_type
    && a.message_id == b.message_id
    && a.job_id == b.job_id
    && a.attempt == b.attempt
    && opt_eq a.issuance_id b.issuance_id
    && opt_eq a.verification_id b.verification_id
    && key_eq a.input_object_key b.input_object_key
    && a.input_sha256 == b.input_sha256
    && a.deadline_at == b.deadline_at
    && a.correlation_id == b.correlation_id

-- the object key and the digest of a job's input, either of which an upload may lack
abbrev pub InputBinding : Type 0
InputBinding = Option ObjectKey × Option ℕ

issuance_input : Job → Option ℕ → Db → Option InputBinding
unfolding find
issuance_input job none db = none
issuance_input job (some i) db = elim (find (λ r. r.id == i) db.issuances) [
  | none ↦ none
  | some r ↦
      if not (r.organization_id == job.organization_id)
      then none
      else elim (find (λ d. d.id == r.document_id) db.documents) [
        | none ↦ none
        | some d ↦
            if not (d.organization_id == job.organization_id)
            then none
            else some (some d.source_object_key, some d.expected_source_sha256)
      ]
]

verification_input : Job → Option ℕ → Db → Option InputBinding
unfolding find
verification_input job none db = none
verification_input job (some v) db = elim (find (λ r. r.id == v) db.verifications) [
  | none ↦ none
  | some r ↦
      if not (r.organization_id == job.organization_id)
      then none
      else elim (find (λ u. u.id == r.upload_request_id) db.uploads) [
        | none ↦ none
        | some u ↦
            if not (u.organization_id == job.organization_id)
            then none
            else some (u.promotion_target_key, u.expected_sha256)
      ]
]

job_input : JobKind → Job → Db → Option InputBinding
unfolding issuance_input verification_input
job_input issuance job db = issuance_input job job.issuance_id db
job_input verification job db = verification_input job job.verification_id db

-- `_locked_job_input`
unfoldable pub locked_job_input : Job → Db → Option InputBinding
unfolding job_input
locked_job_input job db = job_input job.kind job db

abbrev topic_is : Option JobKind → JobKind → Bool
topic_is none kind = false
topic_is (some t) kind = kind_eq t kind

-- `_outbox_matches_job`. `schema_accepts` is the validator of contracts/jsonschema/
-- job-request-v1.schema.json. A binding without key or digest makes an expected payload with a null
-- in it, which no request is.
unfoldable pub payload_matches : (JobRequest → Bool) → OutboxEvent → Job → ObjectKey → ℕ → Bool
payload_matches schema_accepts event job key sha256 = elim event.payload [
  | none ↦ false
  | some p ↦ request_eq p (build_job_request event.message_id job key sha256) && schema_accepts p
]

unfoldable pub outbox_matches_job :
    (JobRequest → Bool) → OutboxEvent → Job → Option InputBinding → Bool
outbox_matches_job schema_accepts event job binding =
    if not (event.organization_id == job.organization_id)
      || not (event.job_id == job.id)
      || not (event.attempt == job.attempt)
      || is_some event.published_at
    then false
    else elim binding [
      | some (some key, some sha256) ↦
          topic_is event.topic job.kind && payload_matches schema_accepts event job key sha256
      | _ ↦ false
    ]

unfoldable pub stage_job : (JobRequest → Bool) → ℕ → Job → Db → Result WorkerError (Db × Option Job)
unfolding find count_rows outbox_matches_job payload_matches request_eq build_job_request
    locked_job_input move save_status
stage_job schema_accepts at job db =
    if not (count_rows (λ e. e.job_id == job.id) db.outbox == 1)
    then ok (db, none)
    else elim (find (λ e. e.job_id == job.id) db.outbox) [
      | none ↦ ok (db, none)
      | some event ↦
          if not (outbox_matches_job schema_accepts event job (locked_job_input job db))
          then ok (db, none)
          else (do
            j ← move job queued
            ok (save_status at j db, some (record j { updated_at = at })))
    ]

-- `locked` are the rows that other transactions hold.
unfoldable pub stage_next_created_job :
    (JobRequest → Bool) → Bool → (ℕ → Bool) → ℕ → Db → Result WorkerError (Db × Option Job)
unfolding next_job stage_job
stage_next_created_job schema_accepts enabled locked at db =
    if not enabled then ok (db, none) else elim (next_job (λ j. j.created_at) created locked db) [
      | none ↦ ok (db, none)
      | some job ↦ stage_job schema_accepts at job db
    ]

-- the row that `create_job_event` makes
unfoldable pub created_event : ℕ → ℕ → Job → ObjectKey → ℕ → OutboxEvent
unfolding build_job_request
created_event id message job key sha256 = record {
  id = id;
  organization_id = job.organization_id;
  message_id = message;
  job_id = job.id;
  attempt = job.attempt;
  topic = some job.kind;
  payload = some (build_job_request message job key sha256);
  published_at = none;
}

-- `create_job_event` (outbox/services.py): the row, or an error if the request breaks the schema.
-- The row's id is the next number of the sequence. A job has one row for each attempt.
unfoldable pub create_job_event :
    (JobRequest → Bool) → ℕ → ℕ → Job → ObjectKey → ℕ → Db → Result WorkerError Db
unfolding exists
create_job_event schema_accepts id message job key sha256 db =
    if not (schema_accepts (build_job_request message job key sha256))
    then err invalid_evidence
    else if exists (λ e. e.job_id == job.id && e.attempt == job.attempt) db.outbox
    then err integrity
    else ok (record db { outbox = created_event id message job key sha256 ∷ db.outbox })
