-- ===== src/JobServices/Finalize/Step.antt =====
-- The transaction of a creation is one of the steps that the job queue reckons with.
use splitbind.Base.{ℕ, ◌≡◌, refl, ◌∙◌, ap, ◌≢◌, Bool, false, ◌∷◌, All, ok, arith}
use splitbind.Jobs.State.{Job, JobKind, issuance, verification}
use splitbind.JobServices.Finalize.{
  finalize, CreateDomain, create_issuance_domain, create_verification_domain, new_job,
}
use splitbind.JobServices.Finalize.Queued.{
  finalize-inv, queue_event-inv, create_issuance_domain-inv,
}
use splitbind.JobServices.State.{Site, Outside, Call}
use splitbind.Model.Keys.{ObjectKey}
use splitbind.Model.Rows.{User, Recipient, UploadRequest}
use splitbind.Worker.Db.{Db, JobRequest}
use splitbind.Worker.History.{IsCreation}
use splitbind.Worker.Invariant.{result_exists-same}
use splitbind.Worker.Outbox.{create_job_event}
use splitbind.Worker.Queue.{result_exists}

-- The jobs and the result rows are the same.
record IsSameQueue (db db' : Db) : Type 0 where
  jobs : db'.jobs ≡ db.jobs
  issuances : db'.issuance_results ≡ db.issuance_results
  verifications : db'.verification_results ≡ db.verification_results

create_job_event-IsSameQueue :
    (accepts : JobRequest → Bool) (id message : ℕ) (job : Job) (key : ObjectKey) (sha256 : ℕ)
    (db queue : Db)
    → create_job_event accepts id message job key sha256 db ≡ ok queue
    → IsSameQueue db queue
unfolding create_job_event
create_job_event-IsSameQueue accepts id message job key sha256 db queue e = record {
  jobs = ground arith;
  issuances = ground arith;
  verifications = ground arith;
}

issuance_domain-IsSameQueue :
    (actor : User) (recipient : Recipient) (call : Call) (locked : UploadRequest) (db db' : Db)
    → create_issuance_domain actor recipient call locked db ≡ ok db'
    → IsSameQueue db db'
issuance_domain-IsSameQueue actor recipient call locked db db' e =
    let (key, digest, target, sha256, rows) =
      create_issuance_domain-inv actor recipient call locked db db' e in
    record {
      jobs = ap (λ d. d.jobs) rows;
      issuances = ap (λ d. d.issuance_results) rows;
      verifications = ap (λ d. d.verification_results) rows;
    }

verification_domain-IsSameQueue :
    (actor : User) (call : Call) (locked : UploadRequest) (db db' : Db)
    → create_verification_domain actor call locked db ≡ ok db'
    → IsSameQueue db db'
unfolding create_verification_domain
verification_domain-IsSameQueue actor call locked db db' e = record {
  jobs = ground arith;
  issuances = ground arith;
  verifications = ground arith;
}

module _ (outside : Outside) (call : Call) (actor : User) (upload : UploadRequest)
    (correlation_id : ℕ) (site site' : Site) (job : Job)
    (fresh : All (λ (r : Job). r.id ≢ call.job_id) site.db.jobs) where
  finalize-IsCreation :
      (kind : JobKind) (create_domain : CreateDomain)
      → ((locked : UploadRequest) (db db' : Db)
          → create_domain locked db ≡ ok db'
          → IsSameQueue db db')
      → result_exists kind call.job_id site.db ≡ false
      → finalize outside call actor upload kind correlation_id create_domain site ≡ ok (job, site')
      → IsCreation site.db site'.db
  unfolding new_job
  finalize-IsCreation kind create_domain keeps unowned e =
      let (locked, domain, queue, row, held, created', same, event, change, written) =
        finalize-inv outside call actor upload kind correlation_id create_domain site site' job e in
      let made = new_job outside call actor kind correlation_id in
      let (asked, checksum, wanted, found, sent) =
        queue_event-inv outside call made upload.promotion_target_key locked.expected_sha256
          (record domain { jobs = made ∷ domain.jobs }) queue event in
      let d = keeps locked site.db domain created' in
      let q =
        create_job_event-IsSameQueue outside.schema_accepts call.event_id call.message_id made asked
          checksum (record domain { jobs = made ∷ domain.jobs }) queue sent in
      record {
        job = made;
        jobs = ap (λ x. x.jobs) written ∙ q.jobs ∙ ap (λ rows. made ∷ rows) d.jobs;
        fresh = fresh;
        attempt = refl;
        unowned = unowned;
        results = λ k i.
            result_exists-same site.db site'.db k i
              (ap (λ x. x.issuance_results) written ∙ q.issuances ∙ d.issuances)
              (ap (λ x. x.verification_results) written ∙ q.verifications ∙ d.verifications);
      }

  -- The transaction that makes the job of an issuance, under an id that no job and no result row has, is
  -- a creation in the interleavings of the queue.
  pub finalize_issuance-IsCreation :
      (recipient : Recipient)
      → result_exists issuance call.job_id site.db ≡ false
      → finalize outside call actor upload issuance correlation_id
          (create_issuance_domain actor recipient call)
          site
        ≡ ok (job, site')
      → IsCreation site.db site'.db
  finalize_issuance-IsCreation recipient =
      finalize-IsCreation issuance (create_issuance_domain actor recipient call)
        (issuance_domain-IsSameQueue actor recipient call)

  -- The same holds of the transaction that makes the job of a verification.
  pub finalize_verification-IsCreation :
      result_exists verification call.job_id site.db ≡ false
      → finalize outside call actor upload verification correlation_id
          (create_verification_domain actor call)
          site
        ≡ ok (job, site')
      → IsCreation site.db site'.db
  finalize_verification-IsCreation =
      finalize-IsCreation verification (create_verification_domain actor call)
        (verification_domain-IsSameQueue actor call)
