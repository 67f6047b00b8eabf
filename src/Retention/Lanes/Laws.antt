-- ===== src/Retention/Lanes/Laws.antt =====
-- A reconciliation deletes only what has a tombstone.
use splitbind.Base.{
  Result-cases, ℕ, ◌≡◌, refl, ◌∙◌, ◌⊎◌, inl, inr, Bool, true, false, some, List, ◌∷◌, arith, ok,
  is_some, ap, ◌==◌, Bool-cases, Option-cases, String,
}
use mathlib.Core.Path.{subst}
use splitbind.Model.Keys.{ObjectKey}
use splitbind.Model.Rows.{UploadRequest}
use splitbind.Model.Table.{find}
use splitbind.Retention.State.{Store, CleanupScheduleState}
use splitbind.Retention.Eligible.{stale_promotion, key_is_owned}
use splitbind.Retention.Claims.{
  ReconciliationClaim, ReconciliationAttempt, claim_reconciliation, claim_held, claim_upload,
  attempt_reconciliation, ack_reconciliation, record_claim_retry, finish_claim,
  record_promotion_reconciliation, find_upload, claim_matches, not_earlier, acknowledge, keep_claim,
}
use splitbind.Retention.Lanes.{run_reconciliation_once, run_claimed, finish_run, run_recorded}

-- The upload whose object was deleted again.
pub record IsFenced (uploads : List UploadRequest) (key : ObjectKey) : Type 0 where
  pub upload : UploadRequest
  pub id : ℕ
  pub row : find (λ (u : UploadRequest). u.id == id) uploads ≡ some upload
  pub tombstone : is_some upload.promotion_target_deleted_at ≡ true
  pub keyed : upload.promotion_target_key ≡ some key
  pub owned : key_is_owned upload stale_promotion key ≡ true

-- Nothing was deleted, or the object of an upload with a tombstone, under the key that it owns.
abbrev pub IsRepeated : (ObjectKey → Bool) → Store → Store → Type 0
IsRepeated deletes store after =
    (after.deleted ≡ store.deleted)
    ⊎ ((key : ObjectKey) × (after.deleted ≡ key ∷ store.deleted)
        × (deletes key ≡ true)
        × IsFenced store.uploads key)

record_keeps :
    (organization_of : ℕ → ℕ) (at : ℕ) (done : Bool) (code : String) (upload : UploadRequest)
    (store after : Store)
    → record_promotion_reconciliation organization_of at done code upload store ≡ ok after
    → after.deleted ≡ store.deleted
unfolding record_promotion_reconciliation
record_keeps organization_of at done code upload store after e = ground arith

finish_keeps :
    (organization_of : ℕ → ℕ) (change : UploadRequest → CleanupScheduleState → CleanupScheduleState)
    (claim : ReconciliationClaim) (at clock : ℕ) (done : Bool) (code : String) (store : Store)
    → (run_recorded store
        (finish_claim organization_of change claim at clock done code store)).store.deleted
      ≡ store.deleted
unfolding finish_claim run_recorded
finish_keeps organization_of change claim at clock done code store =
    elim (Bool-cases (claim_matches store.schedule claim)) [
      | inr m ↦ rw (finish_claim, m) refl
      | inl m ↦ elim (Option-cases (find_upload claim.upload_id store)) [
        | inl n ↦ rw (finish_claim, m, n) refl
        | inr (upload, u) ↦ elim (Bool-cases (is_some upload.promotion_target_deleted_at)) [
          | inr d ↦ rw (finish_claim, m, u, d) refl
          | inl d ↦
              elim (Result-cases (
                record_promotion_reconciliation organization_of
                  (not_earlier (not_earlier at (some clock)) upload.promotion_target_reconciled_at)
                  done code upload store)) [
                    | inl (e, r) ↦ rw (finish_claim, m, u, d, r) refl
                    | inr (after, r) ↦
                        rw (finish_claim, m, u, d, r)
                          (record_keeps organization_of _ done code upload store after r)
                  ]
        ]
      ]
    ]

claim_keeps :
    (lease_seconds lease_now token : ℕ) (store : Store)
    → (claim_reconciliation lease_seconds lease_now token store).0.deleted ≡ store.deleted
unfolding claim_reconciliation claim_held claim_upload
claim_keeps lease_seconds lease_now token store = ground arith

claim_keeps_uploads :
    (lease_seconds lease_now token : ℕ) (store : Store)
    → (claim_reconciliation lease_seconds lease_now token store).0.uploads ≡ store.uploads
unfolding claim_reconciliation claim_held claim_upload
claim_keeps_uploads lease_seconds lease_now token store = ground arith

attempt-IsRepeated :
    (deletes : ObjectKey → Bool) (claim : ReconciliationClaim) (store : Store)
    → IsRepeated deletes store (attempt_reconciliation deletes claim store).0
unfolding attempt_reconciliation
attempt-IsRepeated deletes claim store = elim (Option-cases (find_upload claim.upload_id store)) [
  | inl n ↦ rw (attempt_reconciliation, n) (inl refl)
  | inr (upload, u) ↦ elim (Bool-cases (is_some upload.promotion_target_deleted_at)) [
    | inr d ↦ rw (attempt_reconciliation, u, d) (inl refl)
    | inl d ↦ elim (Option-cases upload.promotion_target_key) [
      | inl k ↦ rw (attempt_reconciliation, u, d, k) (inl refl)
      | inr (key, k) ↦ elim (Bool-cases (key_is_owned upload stale_promotion key)) [
        | inr o ↦ rw (attempt_reconciliation, u, d, k, o) (inl refl)
        | inl o ↦ elim (Bool-cases (deletes key)) [
          | inr t ↦ rw (attempt_reconciliation, u, d, k, o, t) (inl refl)
          | inl t ↦
              rw (attempt_reconciliation, u, d, k, o, t)
                (inr (
                  key,
                  refl,
                  t,
                  record {
                    upload = upload;
                    id = claim.upload_id;
                    row = u;
                    tombstone = d;
                    keyed = k;
                    owned = o;
                  },
                ))
        ]
      ]
    ]
  ]
]

finish_run-keeps :
    (organization_of : ℕ → ℕ) (claim : ReconciliationClaim) (now clock : ℕ)
    (attempt : ReconciliationAttempt) (store : Store)
    → (finish_run organization_of claim now clock attempt store).store.deleted ≡ store.deleted
unfolding finish_run ack_reconciliation record_claim_retry
finish_run-keeps organization_of claim now clock attempt store =
    elim (Bool-cases attempt.acknowledge) [
      | inl a ↦
          rw (finish_run, a) (finish_keeps organization_of acknowledge claim now clock _ _ store)
      | inr a ↦
          rw (finish_run, a)
            (finish_keeps organization_of (λ upload. keep_claim) claim now clock false _ store)
    ]

run_claimed-IsRepeated :
    (organization_of : ℕ → ℕ) (deletes : ObjectKey → Bool) (claim : ReconciliationClaim)
    (now clock : ℕ) (store : Store)
    → IsRepeated deletes store (run_claimed organization_of deletes claim now clock store).store
unfolding run_claimed
run_claimed-IsRepeated organization_of deletes claim now clock store =
    let (after, attempt) = attempt_reconciliation deletes claim store in
    let k = finish_run-keeps organization_of claim now clock attempt after in
    elim (attempt-IsRepeated deletes claim store) [
      | inl same ↦ inl (k ∙ same)
      | inr (key, one, t, f) ↦ inr (key, k ∙ one, t, f)
    ]

-- A run of the reconciliation lane deletes at most one object: that of an upload that has a tombstone,
-- under the key that the upload owns.
pub run_reconciliation_once-IsRepeated :
    (organization_of : ℕ → ℕ) (deletes : ObjectKey → Bool)
    (lease_seconds lease_now token now clock : ℕ) (store : Store)
    → IsRepeated deletes store
        (run_reconciliation_once organization_of deletes lease_seconds lease_now token now clock
          store).store
unfolding run_reconciliation_once
run_reconciliation_once-IsRepeated organization_of deletes lease_seconds lease_now token now clock
      store =
    let after = (claim_reconciliation lease_seconds lease_now token store).0 in
    let d = claim_keeps lease_seconds lease_now token store in
    let u = claim_keeps_uploads lease_seconds lease_now token store in
    elim (Option-cases (claim_reconciliation lease_seconds lease_now token store).1) [
      | inl n ↦ rw (run_reconciliation_once, n) (inl d)
      | inr (claim, c) ↦
          rw (run_reconciliation_once, c)
            (elim (run_claimed-IsRepeated organization_of deletes claim now clock after) [
              | inl same ↦ inl (same ∙ d)
              | inr (key, one, t, f) ↦
                  inr (key, one ∙ ap (λ l. key ∷ l) d, t, subst (λ l. IsFenced l key) u f)
            ])
    ]
