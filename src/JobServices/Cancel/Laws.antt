-- ===== src/JobServices/Cancel/Laws.antt =====
-- The exact repetition of an accepted cancellation.
use splitbind.Base.{
  ℕ, ◌≡◌, refl, ◌∙◌, ap, true, false, ◌||◌, some, ok, arith, ◌==◌, Option-cases, Result-cases,
  is_some, Bool-cases, ◌⊎◌, inl, inr,
}
use splitbind.Access.{scope_jobs, sees_job}
use splitbind.Audit.{AuditOutcome}
use splitbind.Jobs.State.{Job, cancelled, transition_job}
use splitbind.JobServices.Cancel.{
  request_cancel, try_cancel, cancel_job, visible_job, mark_cancelled, save_cancel,
  is_exact_cancel_replay, is_auditor,
}
use splitbind.JobServices.State.{Site, record_actor_event, cancel_requested, of_job, progress}
use splitbind.Model.Rows.{User}
use splitbind.Model.Table.{find, exists, update_row}
use splitbind.Model.Table.Find.{find-filter-update, find-Among}
use splitbind.Worker.Saves.{has_status}

mark_cancelled-eq :
    (now : ℕ) (job j : Job)
    → mark_cancelled now job ≡ ok j
    → j ≡ record job { cancel_requested_at = some now; status = j.status }
unfolding mark_cancelled transition_job
mark_cancelled-eq now job j e = ground arith

-- A request that was accepted either repeated an earlier one and changed nothing, or saved the job and
-- its event.
cancel_job-cases :
    (actor : User) (correlation_id now at : ℕ) (job j : Job) (site site' : Site)
    → cancel_job actor correlation_id now at job site ≡ ok (j, site')
    → ((j ≡ job)
        × (site' ≡ site)
        × ((is_some job.cancel_requested_at || has_status cancelled job.status) ≡ true)
        × (is_exact_cancel_replay job actor correlation_id site ≡ true))
      ⊎ ((k : Job) × (mark_cancelled now job ≡ ok k)
          × (j ≡ record k { updated_at = at })
          × (site'
              ≡ record_actor_event actor cancel_requested
                  (of_job k.id)
                  AuditOutcome.succeeded
                  correlation_id
                  (progress k.status k.attempt)
                  (save_cancel at k site)))
unfolding cancel_job
cancel_job-cases actor correlation_id now at job j site site' e =
    elim (Bool-cases (is_some job.cancel_requested_at || has_status cancelled job.status)) [
      | inl again ↦ inl (ground arith)
      | inr first ↦ elim (Result-cases (mark_cancelled now job)) [
        | inl (x, failed) ↦ absurd (ground (arith, failed))
        | inr (k, marked) ↦ inr (k, marked, ground (arith, marked), ground (arith, marked))
      ]
    ]

request_cancel-inv :
    (actor : User) (job_id correlation_id now at : ℕ) (site site' : Site) (j : Job)
    → request_cancel actor job_id correlation_id now at site ≡ (site', ok j)
    → (job : Job) × (visible_job actor job_id site ≡ some job)
      × (is_auditor actor.role ≡ false)
      × (cancel_job actor correlation_id now at job site ≡ ok (j, site'))
unfolding request_cancel try_cancel
request_cancel-inv actor job_id correlation_id now at site site' j e =
    elim (Bool-cases (is_auditor actor.role)) [
      | inl auditor ↦ absurd (ground (arith, auditor))
      | inr other ↦ elim (Option-cases (visible_job actor job_id site)) [
        | inl missing ↦ absurd (ground (arith, missing, other))
        | inr (job, found) ↦ elim (Result-cases (cancel_job actor correlation_id now at job site)) [
          | inl (x, failed) ↦ absurd (ground (arith, found, other, failed))
          | inr (p, done) ↦ (job, found, other, ground (arith, found, other, done))
        ]
      ]
    ]

accepted :
    (actor : User) (job_id correlation_id now at : ℕ) (site site' : Site) (job j : Job)
    → is_auditor actor.role ≡ false
    → visible_job actor job_id site ≡ some job
    → cancel_job actor correlation_id now at job site ≡ ok (j, site')
    → request_cancel actor job_id correlation_id now at site ≡ (site', ok j)
unfolding request_cancel try_cancel
accepted actor job_id correlation_id now at site site' job j other found done =
    rw (request_cancel, other, found, done) refl

replayed :
    (actor : User) (correlation_id now at : ℕ) (job : Job) (site : Site)
    → (is_some job.cancel_requested_at || has_status cancelled job.status) ≡ true
    → is_exact_cancel_replay job actor correlation_id site ≡ true
    → cancel_job actor correlation_id now at job site ≡ ok (job, site)
unfolding cancel_job
replayed actor correlation_id now at job site again replay = rw (again, replay) refl

-- what the save makes of a row
unfoldable pub saved_job : ℕ → Job → Job → Job
saved_job at k r = record r {
  cancel_requested_at = k.cancel_requested_at;
  status = k.status;
  updated_at = at;
}

visible_after_save :
    (actor : User) (job_id at : ℕ) (site : Site) (job k : Job)
    → k.id ≡ job.id
    → visible_job actor job_id site ≡ some job
    → find
        (λ (r : Job). r.id == job_id)
        (scope_jobs actor site.db.issuances site.db.verifications
          (update_row (λ r. r.id == k.id) (saved_job at k) site.db.jobs))
      ≡ some (saved_job at k job)
unfolding visible_job scope_jobs saved_job
visible_after_save actor job_id at site job k same found =
    let hit = find-Among (λ (r : Job). r.id == job_id) _ job found in
    find-filter-update (λ (r : Job). r.id == job_id)
      (sees_job actor site.db.issuances site.db.verifications) (λ r. r.id == k.id) (saved_job at k)
      (λ r. refl) (λ r. refl) (λ r h. ground arith) site.db.jobs job found

replay_recorded :
    (actor : User) (correlation_id at : ℕ) (k j : Job) (site : Site)
    → j.id ≡ k.id
    → is_exact_cancel_replay j actor correlation_id (
        record_actor_event actor cancel_requested
          (of_job k.id)
          AuditOutcome.succeeded
          correlation_id
          (progress k.status k.attempt)
          (save_cancel at k site))
      ≡ true
unfolding is_exact_cancel_replay record_actor_event exists
replay_recorded actor correlation_id at k j site same = ground arith

saved_is_visible :
    (actor : User) (job_id correlation_id at : ℕ) (site : Site) (job k : Job)
    → k.id ≡ job.id
    → visible_job actor job_id site ≡ some job
    → visible_job actor job_id (
        record_actor_event actor cancel_requested
          (of_job k.id)
          AuditOutcome.succeeded
          correlation_id
          (progress k.status k.attempt)
          (save_cancel at k site))
      ≡ some (saved_job at k job)
unfolding visible_job record_actor_event save_cancel saved_job
saved_is_visible actor job_id correlation_id at site job k same found =
    visible_after_save actor job_id at site job k same found

saved_row :
    (now at : ℕ) (job j k : Job)
    → mark_cancelled now job ≡ ok k
    → j ≡ record k { updated_at = at }
    → saved_job at k job ≡ j
unfolding saved_job
saved_row now at job j k marked same =
    let changed = mark_cancelled-eq now job k marked in ground (arith, changed, same)

requested :
    (now : ℕ) {at : ℕ} (job j k : Job)
    → mark_cancelled now job ≡ ok k
    → j ≡ record k { updated_at = at }
    → (is_some j.cancel_requested_at || has_status cancelled j.status) ≡ true
requested now job j k marked same =
    let changed = mark_cancelled-eq now job k marked in ground (arith, changed, same)

-- The exact repetition of a cancellation that was accepted, by the same actor under the same
-- correlation id, at whatever time, is accepted, answers the same job and changes nothing.
pub request_cancel_replay :
    (actor : User) (job_id correlation_id now at later later_at : ℕ) (site site' : Site) (j : Job)
    → request_cancel actor job_id correlation_id now at site ≡ (site', ok j)
    → request_cancel actor job_id correlation_id later later_at site' ≡ (site', ok j)
unfolding saved_job
request_cancel_replay actor job_id correlation_id now at later later_at site site' j e =
    let (job, found, other, done) =
      request_cancel-inv actor job_id correlation_id now at site site' j e in
    elim (cancel_job-cases actor correlation_id now at job j site site' done) [
      | inl (same, unchanged, again, replay) ↦
          rw (unchanged, same)
            (accepted actor job_id correlation_id later later_at site site job job other found
              (replayed actor correlation_id later later_at job site again replay))
      | inr (k, marked, same, told) ↦
          (let changed = mark_cancelled-eq now job k marked in
            let row : saved_job at k job ≡ j = saved_row now at job j k marked same in
            rw told (
              accepted actor job_id correlation_id later later_at _ _ j j other
                (saved_is_visible actor job_id correlation_id at site job k (ap (λ x. x.id) changed)
                    found
                  ∙ ap some row)
                (replayed actor correlation_id later later_at j _
                  (requested now job j k marked same)
                  (replay_recorded actor correlation_id at k j site (ap (λ x. x.id) same)))))
    ]
