-- ===== src/Uploads/Requests/Laws.antt =====
-- What a request on an upload leaves, on every branch.
use splitbind.Base.{
  Result-cases, ℕ, ◌<◌, ◌≡◌, refl, ◌⊎◌, inl, inr, Bool, true, false, Option, none, some, ◌∷◌, ok,
  err, arith, Option-cases, not, if◌then◌else◌, ◌==◌, is_some, ◌≢◌, Bool-cases,
}
use splitbind.Model.Rows.{User, UploadRequest}
use splitbind.Model.Table.{update_row}
use splitbind.Uploads.Save.{foreign_relation, save_existing, check_evidence, check_immutable, write}
use splitbind.Uploads.Requests.{
  Head, found, ObjectMetadata, Store, Outcome, RejectCode, rejected, InputKind, complete_denied,
  completed, complete_upload, complete_found, check_completion, scoped_upload, kind_for, finalize,
  authorized, is_expected, check_head, upload_not_found, invalid, finalized_column,
}

-- What a completion has checked when it finalizes an upload.
pub record IsFinalized (head : Head) (before after : ℕ) (upload : UploadRequest) : Type 0 where
  pub in_time : (before < upload.expires_at) × (after < upload.expires_at)
  pub observed : (o : ObjectMetadata) × (head ≡ found o) × (is_expected upload o ≡ true)

-- What a completion has checked when it accepts an upload.
pub record IsAccepted (head : Head) (before after : ℕ) (actor : User) (sha256 : Option ℕ)
    (upload : UploadRequest) (fresh : Bool) : Type 0 where
  pub allowed : authorized actor.role (kind_for upload) ≡ true
  pub digest : sha256 ≡ upload.expected_sha256
  pub finalized : is_some upload.finalized_at ≡ not fresh
  pub checked : fresh ≡ true → IsFinalized head before after upload

checked_head :
    (head : Head) (upload : UploadRequest)
    → check_head head upload ≡ ok tt
    → (o : ObjectMetadata) × (head ≡ found o) × (is_expected upload o ≡ true)
checked_head (found o) upload e = (o, refl, ground arith)
checked_head Head.unavailable upload e = absurd (cc e)
checked_head Head.missing upload e = absurd (cc e)

check_completion-IsAccepted :
    (head : Head) (before after : ℕ) (actor : User) (sha256 : Option ℕ) (upload : UploadRequest)
    (fresh : Bool)
    → check_completion head before after actor sha256 upload ≡ ok fresh
    → IsAccepted head before after actor sha256 upload fresh
unfolding check_completion
check_completion-IsAccepted head before after actor sha256 upload fresh e = record {
  allowed = ground arith;
  digest = ground arith;
  finalized = ground arith;
  checked =
      λ t. record { in_time = ground arith; observed = checked_head head upload (ground arith) };
}

-- The request is rejected: the uploads are as before, and the trail has one more row, the denial.
pub record IsDenied (actor : User) (store : Store) (outcome : Outcome) : Type 0 where
  pub code : RejectCode
  pub kind : Option InputKind
  pub result : outcome.result ≡ err (rejected code)
  pub uploads : outcome.store.uploads ≡ store.uploads
  pub trail : outcome.store.trail ≡ complete_denied actor.id code kind ∷ store.trail

-- The request is accepted: the upload is in the actor's scope, and either it was final and nothing
-- changes, or it becomes final in its row, and the trail has one more row.
pub record IsCompleted (organization_of : ℕ → ℕ) (head : Head) (before after at : ℕ) (actor : User)
    (upload_id : ℕ) (sha256 : Option ℕ) (store : Store) (outcome : Outcome) : Type 0 where
  pub upload : UploadRequest
  pub scoped : scoped_upload actor upload_id store ≡ some upload
  pub fresh : Bool
  pub own_requester : fresh ≡ true → organization_of upload.requested_by_id ≡ upload.organization_id
  pub accepted : IsAccepted head before after actor sha256 upload fresh
  pub result : outcome.result ≡ ok (if fresh then finalize at upload else upload)
  pub uploads : outcome.store.uploads ≡ (
      if fresh
      then update_row (λ u. u.id == upload.id) (λ u. finalize at upload) store.uploads
      else store.uploads)
  pub trail : outcome.store.trail ≡ (
      if fresh
      then completed actor.id upload.id (kind_for upload) upload.size_bytes ∷ store.trail
      else store.trail)

-- The request stops at the save, since the user who asked for the upload is of another organization.
pub record IsForeign (organization_of : ℕ → ℕ) (actor : User) (upload_id : ℕ) (store : Store)
    (outcome : Outcome) : Type 0 where
  pub upload : UploadRequest
  pub scoped : scoped_upload actor upload_id store ≡ some upload
  pub foreign : organization_of upload.requested_by_id ≢ upload.organization_id
  pub unchanged : outcome ≡ record { store = store; result = err (invalid foreign_relation) }

-- The save of a finalization can only fail for its requester.
finalize-saved :
    (requester at : ℕ) (upload : UploadRequest)
    → save_existing false (some finalized_column) requester upload (finalize at upload) ≡ (
        if requester == upload.organization_id
        then ok (finalize at upload)
        else err foreign_relation)
unfolding save_existing check_evidence check_immutable write
finalize-saved requester at upload =
    let same : (upload.organization_id == upload.organization_id) ≡ true = ground arith in
    elim (Bool-cases (requester == upload.organization_id)) [
      | inl own ↦ rw (same, own) refl
      | inr other ↦ rw (same, other) refl
    ]

complete_found-outcome :
    (organization_of : ℕ → ℕ) (head : Head) (before after at : ℕ) (actor : User) (upload_id : ℕ)
    (sha256 : Option ℕ) (upload : UploadRequest) (store : Store)
    → scoped_upload actor upload_id store ≡ some upload
    → IsDenied actor store
        (complete_found organization_of head before after at actor sha256 upload store)
      ⊎ IsForeign organization_of actor upload_id store
          (complete_found organization_of head before after at actor sha256 upload store)
      ⊎ IsCompleted organization_of head before after at actor upload_id sha256 store
          (complete_found organization_of head before after at actor sha256 upload store)
unfolding complete_found
complete_found-outcome organization_of head before after at actor upload_id sha256 upload store s =
    elim (Result-cases (check_completion head before after actor sha256 upload)) [
      | inl (code, e) ↦
          rw (complete_found, e)
            (inl (record {
              code = code;
              kind = some (kind_for upload);
              result = refl;
              uploads = refl;
              trail = refl;
            }))
      | inr (false, e) ↦
          rw (complete_found, e)
            (inr (
              inr (record {
                upload = upload;
                scoped = s;
                fresh = false;
                own_requester = λ f. cc;
                accepted =
                    check_completion-IsAccepted head before after actor sha256 upload false e;
                result = refl;
                uploads = refl;
                trail = refl;
              })))
      | inr (true, e) ↦
          let saved = finalize-saved (organization_of upload.requested_by_id) at upload in
          elim (Bool-cases (organization_of upload.requested_by_id == upload.organization_id)) [
            | inr other ↦
                rw (complete_found, e, saved, other)
                  (inr (
                    inl (record {
                      upload = upload;
                      scoped = s;
                      foreign = λ own. ground (arith, other, own);
                      unchanged = refl;
                    })))
            | inl own ↦
                rw (complete_found, e, saved, own)
                  (inr (
                    inr (record {
                      upload = upload;
                      scoped = s;
                      fresh = true;
                      own_requester = λ f. ground (arith, own);
                      accepted =
                          check_completion-IsAccepted head before after actor sha256 upload true e;
                      result = refl;
                      uploads = refl;
                      trail = refl;
                    })))
          ]
    ]

-- Every completion has one of three outcomes. It is rejected, with the uploads as before and exactly
-- one denial in the trail. Or it stops at the save with nothing changed, since the user who asked for the
-- upload is of another organization. Or it is accepted for an upload in the actor's scope whose digest
-- was given: then it was final already and nothing changes, or it is made final in its row, after two
-- readings of the clock that were both before its deadline, with the expected size and digest at the
-- storage.
pub complete_upload-outcome :
    (organization_of : ℕ → ℕ) (head : Head) (before after at : ℕ) (actor : User) (upload_id : ℕ)
    (sha256 : Option ℕ) (store : Store)
    → IsDenied actor store
        (complete_upload organization_of head before after at actor upload_id sha256 store)
      ⊎ IsForeign organization_of actor upload_id store
          (complete_upload organization_of head before after at actor upload_id sha256 store)
      ⊎ IsCompleted organization_of head before after at actor upload_id sha256 store
          (complete_upload organization_of head before after at actor upload_id sha256 store)
unfolding complete_upload
complete_upload-outcome organization_of head before after at actor upload_id sha256 store =
    elim (Option-cases (scoped_upload actor upload_id store)) [
      | inl n ↦
          rw (complete_upload, n)
            (inl (record {
              code = upload_not_found;
              kind = none;
              result = refl;
              uploads = refl;
              trail = refl;
            }))
      | inr (upload, s) ↦
          rw (complete_upload, s)
            (complete_found-outcome organization_of head before after at actor upload_id sha256
              upload store s)
    ]
