-- ===== src/JobServices/Finalize.antt =====
-- `_copy_then_finalize` of services/api/splitbind/jobs/services.py: the copy of the object, the
-- transaction that makes the rows, and what is undone after a failure.
pub mod Laws
pub mod Queued
pub mod Step
use splitbind.Base.{
  ℕ, String, ◌+◌, ◌*◌, Bool, true, false, not, ◌&&◌, Option, none, some, ◌∷◌, Result, ok, err,
  ◌>>=◌, ◌>>◌, guard, ◌==◌, if◌then◌else◌,
}
use splitbind.Audit.{AuditOutcome}
use splitbind.Jobs.State.{Job, JobKind, issuance, verification, created}
use splitbind.JobServices.Promote.{
  promote, mark_failed, verify_copy_observation, lock_unchanged_reservation,
}
use splitbind.JobServices.State.{
  Site, Outside, Call, ServiceError, ObjectMetadata, EventTarget, of_issuance, of_verification,
  database_refused, workflow_created, cleanup_deferred, progress, deferred, storage_failed,
  record_actor_event, to_store, from_store,
}
use splitbind.Model.Keys.{ObjectKey, key_eq}
use splitbind.Model.Rows.{
  User, Recipient, UploadRequest, Document, Issuance, Verification, attached,
}
use splitbind.Model.Table.{exists}
use splitbind.Retention.Lanes.{delete_attached_orphan_source, delete_fenced_promotion_target}
use splitbind.Worker.Db.{Db}
use splitbind.Worker.Outbox.{create_job_event}
use splitbind.Worker.Saves.{WorkerError, invalid_evidence, integrity}

-- the row that a job is about, made from the locked upload
abbrev pub CreateDomain : Type 0
CreateDomain = UploadRequest → Db → Result ServiceError Db

unfoldable pub new_document : User → Call → UploadRequest → ObjectKey → ℕ → Document
new_document actor call locked key sha256 = record {
  id = call.document_id;
  organization_id = actor.organization_id;
  created_by_id = actor.id;
  upload_request_id = locked.id;
  source_object_key = key;
  expected_source_sha256 = sha256;
  page_count = none;
}

unfoldable pub new_issuance : User → Recipient → Call → Issuance
new_issuance actor recipient call = record {
  id = call.domain_id;
  organization_id = actor.organization_id;
  document_id = call.document_id;
  recipient_id = recipient.id;
  created_by_id = actor.id;
  output_object_key = none;
  output_sha256 = none;
  output_deleted_at = none;
  issued_at = call.job_now;
}

unfoldable pub new_verification : User → Call → UploadRequest → Verification
new_verification actor call locked = record {
  id = call.domain_id;
  organization_id = actor.organization_id;
  upload_request_id = locked.id;
  requested_by_id = actor.id;
  recovered_issuance_id = none;
}

-- `create_domain` of `_create_issuance`: a document has its own upload and its own key. The relations
-- have to be in the organization, and a column that is null breaks the table.
unfoldable pub create_issuance_domain : User → Recipient → Call → CreateDomain
unfolding exists new_document new_issuance
create_issuance_domain actor recipient call locked db =
    guard (locked.organization_id == actor.organization_id) (database_refused invalid_evidence)
    >> (elim locked.promotion_target_key [
      | none ↦ err (database_refused integrity)
      | some key ↦ elim locked.expected_sha256 [
        | none ↦ err (database_refused integrity)
        | some sha256 ↦
            guard
              (not (exists (λ (d : Document). d.upload_request_id == locked.id) db.documents)
                && not (exists (λ (d : Document). key_eq d.source_object_key key) db.documents))
              (database_refused integrity)
            >> guard (recipient.organization_id == actor.organization_id)
                (database_refused invalid_evidence)
            >> ok (record db {
              documents = new_document actor call locked key sha256 ∷ db.documents;
              issuances = new_issuance actor recipient call ∷ db.issuances;
            })
      ]
    ])

-- `create_domain` of `_create_verification`
unfoldable pub create_verification_domain : User → Call → CreateDomain
unfolding exists new_verification
create_verification_domain actor call locked db =
    guard (locked.organization_id == actor.organization_id) (database_refused invalid_evidence)
    >> guard
        (not (exists (λ (v : Verification). v.upload_request_id == locked.id) db.verifications))
        (database_refused integrity)
    >> ok (record db { verifications = new_verification actor call locked ∷ db.verifications })

-- the row of `Job.objects.create`
unfoldable pub new_job : Outside → Call → User → JobKind → ℕ → Job
new_job outside call actor kind correlation_id = record {
  id = call.job_id;
  organization_id = actor.organization_id;
  kind = kind;
  status = created;
  attempt = 0;
  issuance_id = elim kind [ issuance ↦ some call.domain_id | verification ↦ none ];
  verification_id = elim kind [ issuance ↦ none | verification ↦ some call.domain_id ];
  deadline_at = call.job_now + outside.timeout_seconds * 1_000_000;
  correlation_id = correlation_id;
  cancel_requested_at = none;
  safe_error_code = none;
  created_at = call.job_now;
  updated_at = call.job_now;
}

abbrev pub domain_target : JobKind → ℕ → EventTarget
domain_target issuance id = of_issuance id
domain_target verification id = of_verification id

-- `create_job_event` with a key and a checksum that are there
unfoldable pub queue_event :
    Outside → Call → Job → Option ObjectKey → Option ℕ → Db → Result ServiceError Db
unfolding create_job_event
queue_event outside call job (some key) (some sha256) db =
    elim (create_job_event outside.schema_accepts call.event_id call.message_id job key sha256 db) [
      | err e ↦ err (database_refused e)
      | ok db' ↦ ok db'
    ]
queue_event outside call job _ _ db = err (database_refused invalid_evidence)

-- the event of the creation, and the promotion that belongs to the job from here
unfoldable pub attach_upload :
    Call
    → User
    → Option ObjectKey
    → JobKind
    → ℕ
    → UploadRequest
    → Job
    → Site
    → Result ServiceError (Job × Site)
unfolding record_actor_event promote
attach_upload call actor target kind correlation_id locked job site =
    promote attached target none call.attached_at locked (
      record_actor_event actor (workflow_created kind) (domain_target kind call.domain_id)
        AuditOutcome.succeeded correlation_id (progress job.status job.attempt) site)
    >>= λ saved. ok (job, saved.1)

-- the job and its outbox row
unfoldable pub attach_job :
    Outside
    → Call
    → User
    → Option ObjectKey
    → JobKind
    → ℕ
    → UploadRequest
    → Job
    → Site
    → Result ServiceError (Job × Site)
unfolding queue_event attach_upload
attach_job outside call actor target kind correlation_id locked job site =
    queue_event outside call job target locked.expected_sha256
      (record site.db { jobs = job ∷ site.db.jobs })
    >>= λ queued.
        attach_upload call actor target kind correlation_id locked job (record site { db = queued })

-- The rows after the locked upload is known to be unchanged.
unfoldable pub attach :
    Outside
    → Call
    → User
    → Option ObjectKey
    → JobKind
    → ℕ
    → CreateDomain
    → UploadRequest
    → Site
    → Result ServiceError (Job × Site)
unfolding new_job attach_job
attach outside call actor target kind correlation_id create_domain locked site =
    create_domain locked site.db >>= λ db.
    attach_job outside call actor target kind correlation_id locked
      (new_job outside call actor kind correlation_id) (record site { db = db })

-- the second transaction
unfoldable pub finalize :
    Outside
    → Call
    → User
    → UploadRequest
    → JobKind
    → ℕ
    → CreateDomain
    → Site
    → Result ServiceError (Job × Site)
unfolding lock_unchanged_reservation attach
finalize outside call actor upload kind correlation_id create_domain site = do
  locked ← lock_unchanged_reservation upload actor kind site
  attach outside call actor upload.promotion_target_key kind correlation_id create_domain locked
      site

-- the copy and what it has to show
unfoldable pub copy_object : Outside → UploadRequest → Result ServiceError (Unit {0})
unfolding verify_copy_observation
copy_object outside upload = elim upload.promotion_target_key [
  | none ↦ err storage_failed
  | some target ↦
      outside.copy_verified upload.object_key target upload.expected_sha256 >>= λ copied.
      verify_copy_observation copied upload
]

-- the deletion behind a tombstone, whose exceptions are dropped
unfoldable pub delete_fenced : Outside → UploadRequest → Site → Site
unfolding delete_fenced_promotion_target
delete_fenced outside upload site =
    elim (delete_fenced_promotion_target outside.deletes upload.id (to_store site)) [
      | none ↦ site
      | some p ↦ from_store p.0 site
    ]

-- What is tried after a failure; the exceptions of either part are dropped.
unfoldable pub undo : Outside → Call → UploadRequest → String → Site → Site
unfolding delete_fenced mark_failed
undo outside call upload safe_code site =
    mark_failed upload.id upload.promotion_target_key safe_code call.failed_at
      (delete_fenced outside upload site)

-- the deletion of the source, and the event when it is left to the lifecycle of the bucket
unfoldable pub clean_source :
    Outside → Call → User → UploadRequest → JobKind → ℕ → Job → Site → Site
unfolding delete_attached_orphan_source record_actor_event
clean_source outside call actor upload kind correlation_id job site =
    let (store, result) =
      delete_attached_orphan_source outside.organization_of outside.deletes actor upload.id
        call.deleted_at (to_store site) in
    elim result [
      | ok done ↦ from_store store site
      | err e ↦
          record_actor_event actor cleanup_deferred (domain_target kind call.domain_id)
            AuditOutcome.failed correlation_id (deferred job.status) (from_store store site)
    ]

-- `interfere` is what other transactions commit while the object is copied. The domain row that the
-- code returns is the one with the number `call.domain_id`.
unfoldable pub copy_then_finalize :
    Outside
    → Call
    → (Site → Site)
    → User
    → UploadRequest
    → JobKind
    → ℕ
    → CreateDomain
    → Site
    → Site × Result ServiceError Job
unfolding copy_object finalize undo clean_source
copy_then_finalize outside call interfere actor upload kind correlation_id create_domain site =
    let shared = interfere site in
    elim (copy_object outside upload) [
      | err e ↦ (undo outside call upload "PROMOTION_COPY_FAILED" shared, err e)
      | ok done ↦
          elim (finalize outside call actor upload kind correlation_id create_domain shared) [
            | err e ↦ (undo outside call upload "PROMOTION_FINALIZE_FAILED" shared, err e)
            | ok p ↦ (clean_source outside call actor upload kind correlation_id p.0 p.1, ok p.0)
          ]
    ]
