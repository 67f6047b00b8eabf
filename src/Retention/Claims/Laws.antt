-- ===== src/Retention/Claims/Laws.antt =====
-- One claim at a time, and a claim that was taken over has no effect.
use splitbind.Base.{
  ℕ, String, ◌≢◌, ◌+◌, ◌*◌, ◌<◌, ◌≡◌, refl, inl, inr, Bool, false, Option, none, some, arith, ok,
  Bool-cases, Option-cases, lt→ltb,
}
use splitbind.Retention.State.{Store}
use splitbind.Retention.Candidates.{next_reconciliation_candidate}
use splitbind.Retention.Claims.{
  ReconciliationClaim, claim_reconciliation, claim_upload, claim_held, ack_reconciliation,
  record_claim_retry, finish_claim, claim_matches, lease_runs, take_claim, save_schedule,
}

-- What a claim wrote: itself, and the end of its lease.
record IsTaken (lease_seconds lease_now token : ℕ) (store after : Store)
    (claim : ReconciliationClaim) : Type 0 where
  own : claim.token ≡ token
  written :
      after
      ≡ save_schedule
          (take_claim claim.upload_id token lease_seconds lease_now store.schedule)
          store

claim_upload-IsTaken :
    (lease_seconds lease_now token upload_id : ℕ) (store after : Store)
    (claim : ReconciliationClaim)
    → claim_upload lease_seconds lease_now token upload_id store ≡ (after, some claim)
    → IsTaken lease_seconds lease_now token store after claim
unfolding claim_upload
claim_upload-IsTaken lease_seconds lease_now token upload_id store after claim e = record {
  own = ground arith;
  written = ground arith;
}

claim_held-IsTaken :
    (lease_seconds lease_now token : ℕ) (held : Option ℕ) (store after : Store)
    (claim : ReconciliationClaim)
    → claim_held lease_seconds lease_now token held store ≡ (after, some claim)
    → IsTaken lease_seconds lease_now token store after claim
unfolding claim_held
claim_held-IsTaken lease_seconds lease_now token (some id) store after claim e =
    elim (Bool-cases (lease_runs lease_now store.schedule)) [
      | inl r ↦ absurd (cc (rw r at e))
      | inr r ↦ claim_upload-IsTaken lease_seconds lease_now token id store after claim (rw r at e)
    ]
claim_held-IsTaken lease_seconds lease_now token none store after claim e =
    elim (Option-cases (next_reconciliation_candidate store)) [
      | inl n ↦ absurd (cc (rw (claim_held, n) at e))
      | inr (upload, n) ↦
          claim_upload-IsTaken lease_seconds lease_now token upload.id store after claim
            (rw (claim_held, n) at e)
    ]

claim_reconciliation-IsTaken :
    (lease_seconds lease_now token : ℕ) (store after : Store) (claim : ReconciliationClaim)
    → claim_reconciliation lease_seconds lease_now token store ≡ (after, some claim)
    → IsTaken lease_seconds lease_now token store after claim
unfolding claim_reconciliation
claim_reconciliation-IsTaken lease_seconds lease_now token store after claim e =
    claim_held-IsTaken lease_seconds lease_now token store.schedule.reconciliation_claim_upload_id
      store after claim e

-- While the lease of a claim runs, nobody else gets a claim, and the attempt to get one changes
-- nothing.
pub lease_excludes :
    (lease_seconds lease_now token lease_seconds' later token' : ℕ) (store after : Store)
    (claim : ReconciliationClaim)
    → claim_reconciliation lease_seconds lease_now token store ≡ (after, some claim)
    → later < lease_now + lease_seconds * 1000000
    → claim_reconciliation lease_seconds' later token' after ≡ (after, none)
unfolding claim_reconciliation claim_held
lease_excludes lease_seconds lease_now token lease_seconds' later token' store after claim e lt =
    let w = claim_reconciliation-IsTaken lease_seconds lease_now token store after claim e in
    rw (w.written, lt→ltb later (lease_now + lease_seconds * 1000000) lt) refl

-- A claim that another worker has taken over after its lease has no effect: neither its
-- acknowledgement nor its retry changes anything, whatever the outcome that they report.
pub overtaken_claim :
    (organization_of : ℕ → ℕ) (lease_seconds lease_now token at clock : ℕ) (done : Bool)
    (code : String) (store after : Store) (old new : ReconciliationClaim)
    → claim_reconciliation lease_seconds lease_now token store ≡ (after, some new)
    → old.token ≢ token
    → (ack_reconciliation organization_of old at clock done code after ≡ ok (false, after))
      × (record_claim_retry organization_of old at clock code after ≡ ok (false, after))
unfolding ack_reconciliation record_claim_retry finish_claim claim_matches
overtaken_claim organization_of lease_seconds lease_now token at clock done code store after old new
      e other =
    let w = claim_reconciliation-IsTaken lease_seconds lease_now token store after new e in
    let stale : claim_matches after.schedule old ≡ false = ground (arith, w.written) in
    (rw stale refl, rw stale refl)
