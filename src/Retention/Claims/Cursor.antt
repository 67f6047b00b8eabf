-- ===== src/Retention/Claims/Cursor.antt =====
-- The order in which the tombstones are taken.
use mathlib.Core.Path.{subst}
use splitbind.Base.{
  ℕ, ◌≡◌, refl, ◌∙◌, inl, inr, Bool, true, false, none, some, arith, ok, Option-cases, All, ◌&&◌,
  String,
}
use splitbind.Model.Rows.{UploadRequest}
use splitbind.Model.Table.{before}
use splitbind.Model.Table.Laws.{Among, All-map, first_by-Among, first_by-least, first_by-none}
use splitbind.Retention.State.{Store}
use splitbind.Retention.Candidates.{
  next_reconciliation_candidate, candidate_from, deleted_time, is_tombstone, is_after,
  first_tombstone,
}
use splitbind.Retention.Claims.{
  ReconciliationClaim, ack_reconciliation, finish_claim, claim_matches,
}

-- the order of the tombstones
abbrev pub earlier : UploadRequest → UploadRequest → Bool
earlier = before deleted_time (λ (u : UploadRequest). u.id)

-- The next candidate for a cursor: a tombstone such that no tombstone after the cursor is left out
-- before it.
pub record IsNext (at id : ℕ) (store : Store) (upload : UploadRequest) : Type 0 where
  pub among : Among upload store.uploads
  pub tombstone : is_tombstone upload ≡ true
  pub least :
      All
        (λ v.
          (is_tombstone v && is_after at id v) ≡ true
          → (is_after at id upload ≡ true) × (earlier v upload ≡ false))
        store.uploads

wrapped-IsNext :
    (at id : ℕ) (store : Store) (upload : UploadRequest)
    → first_tombstone (λ u. is_tombstone u && is_after at id u) store.uploads ≡ none
    → first_tombstone is_tombstone store.uploads ≡ some upload
    → IsNext at id store upload
wrapped-IsNext at id store upload n e =
    let (m, t) =
      first_by-Among deleted_time (λ (u : UploadRequest). u.id) is_tombstone store.uploads upload
        e in
    record {
      among = m;
      tombstone = t;
      least =
          All-map (λ v. (is_tombstone v && is_after at id v) ≡ false) _ (λ v f h. cc) store.uploads
            (first_by-none deleted_time (λ (u : UploadRequest). u.id) _ store.uploads n);
    }

after-IsNext :
    (at id : ℕ) (store : Store) (upload : UploadRequest)
    → first_tombstone (λ u. is_tombstone u && is_after at id u) store.uploads ≡ some upload
    → IsNext at id store upload
after-IsNext at id store upload e =
    let (m, t) =
      first_by-Among deleted_time (λ (u : UploadRequest). u.id)
        (λ u. is_tombstone u && is_after at id u) store.uploads upload e in
    record {
      among = m;
      tombstone = ground (arith, t);
      least =
          All-map (λ v. (is_tombstone v && is_after at id v) ≡ true → earlier v upload ≡ false) _
            (λ v f h. (ground (arith, t), f h)) store.uploads
            (first_by-least deleted_time (λ (u : UploadRequest). u.id) _ store.uploads upload e);
    }

-- The next candidate is a tombstone. If there is a tombstone after the cursor, it is after the cursor
-- too, and no tombstone after the cursor comes before it.
pub next_reconciliation_candidate-IsNext :
    (at id : ℕ) (store : Store) (upload : UploadRequest)
    → store.schedule.reconciliation_cursor_at ≡ some at
    → store.schedule.reconciliation_cursor_id ≡ some id
    → next_reconciliation_candidate store ≡ some upload
    → IsNext at id store upload
unfolding next_reconciliation_candidate candidate_from
next_reconciliation_candidate-IsNext at id store upload a i e =
    let from : candidate_from (some at) (some id) store.uploads ≡ some upload =
      subst (λ c. candidate_from c (some id) store.uploads ≡ some upload) a
        (subst
          (λ c.
            candidate_from store.schedule.reconciliation_cursor_at c store.uploads ≡ some upload)
          i e) in
    elim (Option-cases (first_tombstone (λ u. is_tombstone u && is_after at id u) store.uploads)) [
      | inl n ↦ wrapped-IsNext at id store upload n (rw (candidate_from, n) at from)
      | inr (found, f) ↦ after-IsNext at id store upload (f ∙ rw (candidate_from, f) at from)
    ]

-- A claim is acknowledged at most once: after an acknowledgement that was accepted, another one of the
-- same claim changes nothing.
pub acknowledged_once :
    (organization_of : ℕ → ℕ) (claim : ReconciliationClaim) (at clock at' clock' : ℕ)
    (done done' : Bool) (code code' : String) (store after : Store)
    → ack_reconciliation organization_of claim at clock done code store ≡ ok (true, after)
    → ack_reconciliation organization_of claim at' clock' done' code' after ≡ ok (false, after)
unfolding ack_reconciliation finish_claim claim_matches
acknowledged_once organization_of claim at clock at' clock' done done' code code' store after e =
    let free : after.schedule.reconciliation_claim_token ≡ none = ground arith in
    let stale : claim_matches after.schedule claim ≡ false = ground (arith, free) in rw stale refl
