-- ===== src/JobServices/Finalize/Queued.antt =====
-- What a successful creation leaves for the worker.
use mathlib.Core.Path.{subst}
use splitbind.Base.{
  ℕ, ◌≡◌, refl, sym, ◌∙◌, ap, Bool, true, false, Option, none, some, List, ◌∷◌, ok, arith, ◌==◌,
  &&-inv, Option-cases, Bool-cases, Result-cases, inl, inr, >>=-eq-ok, some-inv, ◌≤◌,
}
use splitbind.Audit.{AuditOutcome}
use splitbind.Jobs.State.{Job, JobKind, issuance, created, queued}
use splitbind.JobServices.Finalize.{
  finalize, attach, attach_job, attach_upload, CreateDomain, create_issuance_domain, new_job,
  new_document, new_issuance, queue_event, domain_target,
}
use splitbind.JobServices.Promote.{promote, lock_unchanged_reservation, is_unchanged}
use splitbind.JobServices.Promote.Laws.{promote-inv}
use splitbind.JobServices.State.{
  Site, Outside, Call, record_actor_event, workflow_created, progress,
}
use splitbind.Model.Keys.{ObjectKey}
use splitbind.Model.Rows.{User, Recipient, UploadRequest, PromotionStatus, copying, attached}
use splitbind.Model.Table.{find, update_row, count_rows}
use splitbind.Uploads.Promotion.{status_eq, save_promotion}
use splitbind.Uploads.Save.Laws.{key_opt_eq→≡}
use splitbind.Worker.Db.{Db, JobRequest}
use splitbind.Worker.Outbox.{create_job_event, locked_job_input, stage_next_created_job}
use splitbind.Worker.Outbox.Laws.{stage-create_job_event}
use splitbind.Worker.Saves.{next_job, save_status}

lock-inv :
    (upload locked : UploadRequest) (actor : User) (kind : JobKind) (site : Site)
    → lock_unchanged_reservation upload actor kind site ≡ ok locked
    → is_unchanged actor kind upload locked ≡ true
unfolding lock_unchanged_reservation
lock-inv upload locked actor kind site e =
    elim (Option-cases (find (λ (u : UploadRequest). u.id == upload.id) site.db.uploads)) [
      | inl missing ↦ absurd (ground (arith, missing))
      | inr (row, found) ↦ elim (Bool-cases (is_unchanged actor kind upload row)) [
        | inl same ↦
            (let it : row ≡ locked = ground (arith, found, same) in
              subst (λ r. is_unchanged actor kind upload r ≡ true) it same)
        | inr moved ↦ absurd (ground (arith, found, moved))
      ]
    ]

copying_is_not_attached :
    (s : PromotionStatus) → status_eq s copying ≡ true → status_eq attached s ≡ false
copying_is_not_attached s h = ground arith

same_target :
    (actor : User) (kind : JobKind) (upload locked : UploadRequest)
    → is_unchanged actor kind upload locked ≡ true
    → (locked.promotion_target_key ≡ upload.promotion_target_key)
      × (status_eq attached locked.promotion_status ≡ false)
unfolding is_unchanged
same_target actor kind upload locked e =
    let first = &&-inv _ _ e in
    (
      key_opt_eq→≡ locked.promotion_target_key upload.promotion_target_key (&&-inv _ _ first.1).0,
      copying_is_not_attached locked.promotion_status first.0,
    )

attach_upload-inv :
    (call : Call) (actor : User) (target : Option ObjectKey) (kind : JobKind) (correlation_id : ℕ)
    (locked : UploadRequest) (job job' : Job) (site site' : Site)
    → attach_upload call actor target kind correlation_id locked job site ≡ ok (job', site')
    → (job' ≡ job)
      × (row : UploadRequest) × (save_promotion (some attached) target none call.attached_at locked
          ≡ ok row)
      × (site'.db ≡ record site.db {
        uploads = update_row (λ (r : UploadRequest). r.id == locked.id) (λ r. row) site.db.uploads;
      })
unfolding attach_upload record_actor_event
attach_upload-inv call actor target kind correlation_id locked job job' site site' e =
    let told =
      record_actor_event actor (workflow_created kind) (domain_target kind call.domain_id)
        AuditOutcome.succeeded correlation_id (progress job.status job.attempt) site in
    elim (Result-cases (promote attached target none call.attached_at locked told)) [
      | inl (x, failed) ↦ absurd (ground (arith, failed))
      | inr ((row, last), done) ↦
          (let (change, written) =
              promote-inv attached target none call.attached_at locked row told last done in
            let moved : last ≡ site' = ground (arith, done) in
            (ground (arith, done), row, change, ap (λ s. s.db) (sym moved ∙ written)))
    ]

attach_job-inv :
    (outside : Outside) (call : Call) (actor : User) (target : Option ObjectKey) (kind : JobKind)
    (correlation_id : ℕ) (locked : UploadRequest) (job job' : Job) (site site' : Site)
    → attach_job outside call actor target kind correlation_id locked job site ≡ ok (job', site')
    → (job' ≡ job)
      × (queue : Db) × (row : UploadRequest) × (queue_event outside call job target
            locked.expected_sha256
            (record site.db { jobs = job ∷ site.db.jobs })
          ≡ ok queue)
      × (save_promotion (some attached) target none call.attached_at locked ≡ ok row)
      × (site'.db ≡ record queue {
        uploads = update_row (λ (r : UploadRequest). r.id == locked.id) (λ r. row) queue.uploads;
      })
unfolding attach_job
attach_job-inv outside call actor target kind correlation_id locked job job' site site' e =
    let (queue, event, rest) =
      >>=-eq-ok
        (queue_event outside call job target locked.expected_sha256
          (record site.db { jobs = job ∷ site.db.jobs }))
        (λ queued.
          attach_upload call actor target kind correlation_id locked job
            (record site { db = queued }))
        e in
    let (same, row, change, written) =
      attach_upload-inv call actor target kind correlation_id locked job job'
        (record site { db = queue }) site' rest in
    (same, queue, row, event, change, written)

pub queue_event-inv :
    (outside : Outside) (call : Call) (job : Job) (target : Option ObjectKey) (sha256 : Option ℕ)
    (db queue : Db)
    → queue_event outside call job target sha256 db ≡ ok queue
    → (key : ObjectKey) × (digest : ℕ) × (target ≡ some key)
      × (sha256 ≡ some digest)
      × (create_job_event outside.schema_accepts call.event_id call.message_id job key digest db
          ≡ ok queue)
unfolding queue_event
queue_event-inv outside call job (some key) (some digest) db queue e =
    elim (Result-cases
      (create_job_event outside.schema_accepts call.event_id call.message_id job key digest db)) [
        | inl (x, failed) ↦ absurd (ground (arith, failed))
        | inr (q, done) ↦ (key, digest, refl, refl, done ∙ ground (arith, done))
      ]
queue_event-inv outside call job none sha256 db queue e = cc
queue_event-inv outside call job (some key) none db queue e = cc

create_job_event-uploads :
    (accepts : JobRequest → Bool) (id message : ℕ) (job : Job) (key : ObjectKey) (sha256 : ℕ)
    (db queue : Db) (uploads : List UploadRequest)
    → create_job_event accepts id message job key sha256 db ≡ ok queue
    → (create_job_event accepts id message job key sha256 (record db { uploads = uploads })
        ≡ ok (record queue { uploads = uploads }))
      × (queue.issuances ≡ db.issuances)
      × (queue.documents ≡ db.documents)
      × (queue.verifications ≡ db.verifications)
      × (queue.uploads ≡ db.uploads)
unfolding create_job_event
create_job_event-uploads accepts id message job key sha256 db queue uploads e = ground arith

pub create_issuance_domain-inv :
    (actor : User) (recipient : Recipient) (call : Call) (locked : UploadRequest) (db db' : Db)
    → create_issuance_domain actor recipient call locked db ≡ ok db'
    → (key : ObjectKey) × (digest : ℕ) × (locked.promotion_target_key ≡ some key)
      × (locked.expected_sha256 ≡ some digest)
      × (db' ≡ record db {
        documents = new_document actor call locked key digest ∷ db.documents;
        issuances = new_issuance actor recipient call ∷ db.issuances;
      })
unfolding create_issuance_domain
create_issuance_domain-inv actor recipient call locked db db' e =
    elim (Option-cases locked.promotion_target_key) [
      | inl missing ↦ absurd (ground (arith, missing))
      | inr (key, target) ↦ elim (Option-cases locked.expected_sha256) [
        | inl missing ↦ absurd (ground (arith, target, missing))
        | inr (digest, sha256) ↦ (key, digest, target, sha256, ground (arith, target, sha256))
      ]
    ]

pub finalize-inv :
    (outside : Outside) (call : Call) (actor : User) (upload : UploadRequest) (kind : JobKind)
    (correlation_id : ℕ) (create_domain : CreateDomain) (site site' : Site) (job : Job)
    → finalize outside call actor upload kind correlation_id create_domain site ≡ ok (job, site')
    → (locked : UploadRequest) × (domain queue : Db) × (row : UploadRequest) × (is_unchanged actor
          kind upload locked
        ≡ true)
      × (create_domain locked site.db ≡ ok domain)
      × (job ≡ new_job outside call actor kind correlation_id)
      × (queue_event outside call
            (new_job outside call actor kind correlation_id)
            upload.promotion_target_key
            locked.expected_sha256
            (record domain { jobs = new_job outside call actor kind correlation_id ∷ domain.jobs })
          ≡ ok queue)
      × (save_promotion (some attached) upload.promotion_target_key none call.attached_at locked
          ≡ ok row)
      × (site'.db ≡ record queue {
        uploads = update_row (λ (r : UploadRequest). r.id == locked.id) (λ r. row) queue.uploads;
      })
unfolding finalize attach
finalize-inv outside call actor upload kind correlation_id create_domain site site' job e =
    let made = new_job outside call actor kind correlation_id in
    let (locked, held, e1) =
      >>=-eq-ok (lock_unchanged_reservation upload actor kind site)
        (λ locked.
          attach outside call actor upload.promotion_target_key kind correlation_id create_domain
            locked site)
        e in
    let (domain, created', e2) =
      >>=-eq-ok (create_domain locked site.db)
        (λ db.
          attach_job outside call actor upload.promotion_target_key kind correlation_id locked made
            (record site { db = db }))
        e1 in
    let (same, queue, row, event, change, written) =
      attach_job-inv outside call actor upload.promotion_target_key kind correlation_id locked made
        job (record site { db = domain }) site' e2 in
    (
      locked,
      domain,
      queue,
      row,
      lock-inv upload locked actor kind site held,
      created',
      same,
      event,
      change,
      written,
    )

-- The input that the worker will read of a new issuance job is the promoted object of its upload.
issuance_job_input :
    (outside : Outside) (call : Call) (actor : User) (recipient : Recipient)
    (locked : UploadRequest) (correlation_id : ℕ) (key : ObjectKey) (digest : ℕ) (db queue : Db)
    → queue.issuances ≡ new_issuance actor recipient call ∷ db.issuances
    → queue.documents ≡ new_document actor call locked key digest ∷ db.documents
    → locked_job_input (new_job outside call actor issuance correlation_id) queue
      ≡ some (some key, some digest)
unfolding locked_job_input find new_job new_issuance new_document
issuance_job_input outside call actor recipient locked correlation_id key digest db queue i d =
    rw (locked_job_input, i, d) (ground arith)

-- A new job whose outbox row was made from its own input is staged when it is the oldest.
stage_sent :
    (outside : Outside) (call : Call) (job : Job) (key : ObjectKey) (digest at : ℕ)
    (locked : ℕ → Bool) (db queue : Db) (uploads : List UploadRequest)
    → create_job_event outside.schema_accepts call.event_id call.message_id job key digest db
      ≡ ok queue
    → count_rows (λ e. e.job_id == job.id) db.outbox ≡ 0
    → locked_job_input job (record queue { uploads = uploads }) ≡ some (some key, some digest)
    → next_job (λ j. j.created_at) created locked (record queue { uploads = uploads }) ≡ some job
    → job.status ≡ created
    → job.attempt ≤ 2
    → stage_next_created_job outside.schema_accepts true locked at
        (record queue { uploads = uploads })
      ≡ ok (
        save_status at (record job { status = queued }) (record queue { uploads = uploads }),
        some (record job { status = queued; updated_at = at }),
      )
stage_sent outside call job key digest at locked db queue uploads sent fresh input oldest status
      attempt =
    stage-create_job_event outside.schema_accepts call.event_id call.message_id at job key digest
      locked (record db { uploads = uploads }) (record queue { uploads = uploads })
      (create_job_event-uploads outside.schema_accepts call.event_id call.message_id job key digest
        db queue uploads sent).0
      fresh input oldest status attempt

-- The job of an issuance that was created, under an id without an outbox row so far, is put into the
-- queue by the next staging that finds it the oldest created job: its outbox row is the request made
-- from the promoted object of its upload.
pub stage-finalize :
    (outside : Outside) (call : Call) (actor : User) (recipient : Recipient)
    (upload : UploadRequest) (correlation_id at : ℕ) (locked : ℕ → Bool) (site site' : Site)
    (job : Job)
    → finalize outside call actor upload issuance correlation_id
        (create_issuance_domain actor recipient call)
        site
      ≡ ok (job, site')
    → count_rows (λ e. e.job_id == call.job_id) site.db.outbox ≡ 0
    → next_job (λ j. j.created_at) created locked site'.db ≡ some job
    → stage_next_created_job outside.schema_accepts true locked at site'.db
      ≡ ok (
        save_status at (record job { status = queued }) site'.db,
        some (record job { status = queued; updated_at = at }),
      )
unfolding new_job
stage-finalize outside call actor recipient upload correlation_id at others site site' job e fresh
      oldest =
    let (locked, domain, queue, row, held, created', same, event, change, written) =
      finalize-inv outside call actor upload issuance correlation_id
        (create_issuance_domain actor recipient call) site site' job e in
    let (key, digest, target, sha256, rows) =
      create_issuance_domain-inv actor recipient call locked site.db domain created' in
    let (asked, checksum, wanted, found, sent) =
      queue_event-inv outside call (new_job outside call actor issuance correlation_id)
        upload.promotion_target_key locked.expected_sha256 _ queue event in
    let uploads = update_row (λ (r : UploadRequest). r.id == locked.id) (λ r. row) queue.uploads in
    let kept =
      create_job_event-uploads outside.schema_accepts call.event_id call.message_id
        (new_job outside call actor issuance correlation_id) asked checksum _ queue uploads sent in
    let same_key : key ≡ asked =
      some-inv (sym target ∙ (same_target actor issuance upload locked held).0 ∙ wanted) in
    let same_digest : digest ≡ checksum = some-inv (sym sha256 ∙ found) in
    let input : locked_job_input (new_job outside call actor issuance correlation_id)
          (record queue { uploads = uploads })
        ≡ some (some key, some digest) =
      issuance_job_input outside call actor recipient locked correlation_id key digest site.db
        (record queue { uploads = uploads }) (kept.1 ∙ ap (λ d. d.issuances) rows)
        (kept.2 ∙ ap (λ d. d.documents) rows) in
    rw (written, same)
      (stage_sent outside call (new_job outside call actor issuance correlation_id) asked checksum
        at others _ queue uploads sent
        (subst (λ rows. count_rows (λ e. e.job_id == call.job_id) rows ≡ 0)
          (sym (ap (λ d. d.outbox) rows)) fresh)
        (input ∙ rw (same_key, same_digest) refl)
        (subst
          (λ d.
            next_job (λ j. j.created_at) created others d
            ≡ some (new_job outside call actor issuance correlation_id))
          written (oldest ∙ ap some same))
        refl (omega arith))
