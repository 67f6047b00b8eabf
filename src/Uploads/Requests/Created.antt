-- ===== src/Uploads/Requests/Created.antt =====
-- What a request for an upload leaves, on every branch.
use mathlib.Core.Path.{subst}
use splitbind.Base.{
  Result-cases, ℕ, String, ◌≤◌, ◌≡◌, refl, ◌⊎◌, inl, inr, Bool, true, false, Option, some, ◌∷◌, ok,
  err, arith, Option-cases, is_some, sym, none, ◌+◌, ◌*◌,
}
use splitbind.Model.Keys.{UploadPurpose, orphan}
use splitbind.Model.Rows.{User, UploadRequest, PromotionStatus}
use splitbind.Uploads.Save.{SaveError, save_new, max_upload_bytes}
use splitbind.Uploads.Requests.{
  Store, Outcome, RejectCode, Failure, rejected, invalid, InputKind, intent_denied, intent_created,
  create_upload, store_upload, validate_intent, new_upload, authorized, purpose_of, upload_kind,
  storage_unavailable, is_content_type,
}

-- The uploads are as before, and the trail has at most one more row, the denial.
pub record IsRefused (actor : User) (kind : InputKind) (store : Store) (outcome : Outcome)
    : Type 0 where
  pub failure : Failure
  pub result : outcome.result ≡ err failure
  pub uploads : outcome.store.uploads ≡ store.uploads
  pub trail :
      ((code : RejectCode) × (failure ≡ rejected code)
        × (outcome.store.trail ≡ intent_denied actor.id code (some kind) ∷ store.trail))
      ⊎ ((e : SaveError) × (failure ≡ invalid e) × (outcome.store.trail ≡ store.trail))

-- A row of the actor's organization, under a key that names it, for 15 minutes, with nothing promoted,
-- finalized or deleted yet.
pub record IsFresh (actor : User) (purpose : UploadPurpose) (content_type : String) (size_bytes : ℕ)
    (sha256 : Option ℕ) (upload_id now : ℕ) (row : UploadRequest) : Type 0 where
  pub id : row.id ≡ upload_id
  pub organization : row.organization_id ≡ actor.organization_id
  pub requester : row.requested_by_id ≡ actor.id
  pub purposed : row.purpose ≡ purpose
  pub key : row.object_key ≡ orphan purpose actor.organization_id upload_id
  pub typed : row.source_content_type ≡ content_type
  pub size : row.size_bytes ≡ some size_bytes
  pub digest : row.expected_sha256 ≡ sha256
  pub deadline : row.expires_at ≡ now + 15 * 60 * 1_000_000
  pub unfinished : row.finalized_at ≡ none
  pub unpromoted : (row.promotion_status ≡ PromotionStatus.none) × (row.promotion_target_key ≡ none)
  pub present : (row.orphan_deleted_at ≡ none) × (row.promotion_target_deleted_at ≡ none)

new_upload-IsFresh :
    (actor : User) (purpose : UploadPurpose) (content_type : String) (size_bytes : ℕ)
    (sha256 : Option ℕ) (upload_id now : ℕ)
    → IsFresh actor purpose content_type size_bytes sha256 upload_id now
        (new_upload actor purpose content_type size_bytes sha256 upload_id now)
new_upload-IsFresh actor purpose content_type size_bytes sha256 upload_id now = record {
  id = refl;
  organization = refl;
  requester = refl;
  purposed = refl;
  key = refl;
  typed = refl;
  size = refl;
  digest = refl;
  deadline = omega arith;
  unfinished = refl;
  unpromoted = (refl, refl);
  present = (refl, refl);
}

-- One row is new; its size and its type are allowed.
pub record IsCreated (max_pdf_bytes : ℕ) (actor : User) (kind : InputKind) (content_type : String)
    (size_bytes : ℕ) (sha256 : Option ℕ) (upload_id now : ℕ) (store : Store) (outcome : Outcome)
    : Type 0 where
  pub purpose : UploadPurpose
  pub purposed : purpose_of kind ≡ some purpose
  pub allowed : authorized actor.role kind ≡ true
  pub row : UploadRequest
  pub made : IsFresh actor purpose content_type size_bytes sha256 upload_id now row
  pub sized : (1 ≤ size_bytes) × (size_bytes ≤ max_pdf_bytes) × (size_bytes ≤ max_upload_bytes)
  pub checked : (is_content_type content_type ≡ true) × (is_some sha256 ≡ true)
  pub result : outcome.result ≡ ok row
  pub uploads : outcome.store.uploads ≡ row ∷ store.uploads
  pub trail : outcome.store.trail ≡ intent_created actor.id row.id kind row.size_bytes ∷ store.trail

-- What the validation of an intent has checked.
record IsValid (max_pdf_bytes : ℕ) (actor : User) (kind : InputKind) (content_type : String)
    (size_bytes : ℕ) : Type 0 where
  allowed : authorized actor.role kind ≡ true
  typed : is_content_type content_type ≡ true
  low : 1 ≤ size_bytes
  high : size_bytes ≤ max_pdf_bytes

validate_intent-IsValid :
    (max_pdf_bytes : ℕ) (actor : User) (kind : InputKind) (content_type : String) (size_bytes : ℕ)
    (sha256 : Option ℕ)
    → validate_intent max_pdf_bytes actor kind content_type size_bytes sha256 ≡ ok tt
    → IsValid max_pdf_bytes actor kind content_type size_bytes
unfolding validate_intent
validate_intent-IsValid max_pdf_bytes actor kind content_type size_bytes sha256 e = record {
  allowed = ground arith;
  typed = ground arith;
  low = ground arith;
  high = ground arith;
}

save_new-made :
    (actor : User) (purpose : UploadPurpose) (content_type : String) (size_bytes : ℕ)
    (sha256 : Option ℕ) (upload_id now : ℕ) (row : UploadRequest)
    → save_new false actor.organization_id
        (new_upload actor purpose content_type size_bytes sha256 upload_id now)
      ≡ ok row
    → (row ≡ new_upload actor purpose content_type size_bytes sha256 upload_id now)
      × (1 ≤ size_bytes)
      × (size_bytes ≤ max_upload_bytes)
      × (is_some sha256 ≡ true)
unfolding save_new
save_new-made actor purpose content_type size_bytes sha256 upload_id now row e = ground arith

module _ (max_pdf_bytes : ℕ) (actor : User) (kind : InputKind) (content_type : String)
    (size_bytes : ℕ) (sha256 : Option ℕ) (upload_id now : ℕ) (store : Store) where
  store_upload-outcome :
      (presigned : Bool) (purpose : UploadPurpose)
      → purpose_of kind ≡ some purpose
      → IsValid max_pdf_bytes actor kind content_type size_bytes
      → IsRefused actor kind store (
          store_upload presigned actor kind purpose content_type size_bytes sha256 upload_id now
            store)
        ⊎ IsCreated max_pdf_bytes actor kind content_type size_bytes sha256 upload_id now store (
            store_upload presigned actor kind purpose content_type size_bytes sha256 upload_id now
              store)
  unfolding store_upload
  store_upload-outcome false purpose p v = inl (record {
    failure = rejected storage_unavailable;
    result = refl;
    uploads = refl;
    trail = inl (storage_unavailable, refl, refl);
  })
  store_upload-outcome true purpose p v =
      elim (Result-cases (
        save_new false actor.organization_id
          (new_upload actor purpose content_type size_bytes sha256 upload_id now))) [
            | inl (e, s) ↦
                rw (store_upload, s)
                  (inl (record {
                    failure = invalid e;
                    result = refl;
                    uploads = refl;
                    trail = inr (e, refl, refl);
                  }))
            | inr (row, s) ↦
                let (made, low, high, digest) =
                  save_new-made actor purpose content_type size_bytes sha256 upload_id now row s in
                rw (store_upload, s)
                  (inr (record {
                    purpose = purpose;
                    purposed = p;
                    allowed = v.allowed;
                    row = row;
                    made =
                        subst (IsFresh actor purpose content_type size_bytes sha256 upload_id now)
                          (sym made)
                          (new_upload-IsFresh actor purpose content_type size_bytes sha256 upload_id
                            now);
                    sized = (low, v.high, high);
                    checked = (v.typed, digest);
                    result = refl;
                    uploads = refl;
                    trail = refl;
                  }))
          ]

  -- Every request for an upload is either refused, with the uploads as before and at most one denial
  -- in the trail, or it adds one row and one event: the row belongs to the organization of an actor who
  -- may upload the kind, its key names the purpose, the organization and the row, its size is from 1 to
  -- both limits, its type is allowed and its digest given, it ends after 15 minutes, and it is not
  -- finalized, promoted or deleted.
  pub create_upload-outcome :
      (presigned : Bool)
      → IsRefused actor kind store (
          create_upload max_pdf_bytes presigned actor kind content_type size_bytes sha256 upload_id
            now store)
        ⊎ IsCreated max_pdf_bytes actor kind content_type size_bytes sha256 upload_id now store (
            create_upload max_pdf_bytes presigned actor kind content_type size_bytes sha256
              upload_id now store)
  unfolding create_upload
  create_upload-outcome presigned =
      elim (Result-cases
        (validate_intent max_pdf_bytes actor kind content_type size_bytes sha256)) [
          | inl (code, e) ↦
              rw (create_upload, e)
                (inl (record {
                  failure = rejected code;
                  result = refl;
                  uploads = refl;
                  trail = inl (code, refl, refl);
                }))
          | inr (u, e) ↦ elim (Option-cases (purpose_of kind)) [
            | inl n ↦
                rw (create_upload, e, n)
                  (inl (record {
                    failure = rejected upload_kind;
                    result = refl;
                    uploads = refl;
                    trail = inl (upload_kind, refl, refl);
                  }))
            | inr (purpose, p) ↦
                rw (create_upload, e, p)
                  (store_upload-outcome presigned purpose p (
                    validate_intent-IsValid max_pdf_bytes actor kind content_type size_bytes sha256
                      e))
          ]
        ]
