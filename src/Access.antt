-- ===== src/Access.antt =====
-- Who may see what: access/selectors.py of services/api/splitbind.
pub mod Laws
mod Tests
use splitbind.Base.{
  ℕ, Bool, true, false, ◌&&◌, ◌||◌, Option, none, some, List, [], ◌∷◌, ◌==◌, opt_eq, if◌then◌else◌,
}
use splitbind.Jobs.State.{Job, JobKind}
use splitbind.Model.Rows.{
  Role, administrator, issuer, verifier, auditor, User, Issuance, Verification,
}
use splitbind.Model.Table.{exists}

-- `.filter(test)`
unfoldable pub filter_rows {ℓ} : {A : Type ℓ} → (A → Bool) → List A → List A
filter_rows test [] = []
filter_rows test (x ∷ xs) = let rest = filter_rows test xs in if test x then x ∷ rest else rest

abbrev pub sees_issuance : User → Issuance → Bool
sees_issuance actor issuance =
    issuance.organization_id == actor.organization_id && (elim actor.role [
      | administrator ↦ true
      | auditor ↦ true
      | issuer ↦ issuance.created_by_id == actor.id
      | verifier ↦ false
    ])

unfoldable pub scope_issuances : User → List Issuance → List Issuance
scope_issuances actor issuances = filter_rows (sees_issuance actor) issuances

abbrev pub sees_verification : User → Verification → Bool
sees_verification actor verification =
    verification.organization_id == actor.organization_id && (elim actor.role [
      | administrator ↦ true
      | auditor ↦ true
      | issuer ↦ false
      | verifier ↦ verification.requested_by_id == actor.id
    ])

unfoldable pub scope_verifications : User → List Verification → List Verification
scope_verifications actor verifications = filter_rows (sees_verification actor) verifications

abbrev pub is_issuance_kind : JobKind → Bool
is_issuance_kind JobKind.issuance = true
is_issuance_kind JobKind.verification = false

abbrev pub is_verification_kind : JobKind → Bool
is_verification_kind JobKind.issuance = false
is_verification_kind JobKind.verification = true

-- the joins `issuance__created_by_id` and `verification__requested_by_id`
abbrev pub created_by : ℕ → Job → Issuance → Bool
created_by actor job issuance =
    opt_eq job.issuance_id (some issuance.id) && issuance.created_by_id == actor

abbrev pub requested_by : ℕ → Job → Verification → Bool
requested_by actor job verification =
    opt_eq job.verification_id (some verification.id) && verification.requested_by_id == actor

unfoldable pub sees_job : User → List Issuance → List Verification → Job → Bool
sees_job actor issuances verifications job =
    job.organization_id == actor.organization_id && (elim actor.role [
      | administrator ↦ true
      | auditor ↦ true
      | issuer ↦ is_issuance_kind job.kind && exists (created_by actor.id job) issuances
      | verifier ↦ is_verification_kind job.kind && exists (requested_by actor.id job) verifications
    ])

unfoldable pub scope_jobs : User → List Issuance → List Verification → List Job → List Job
unfolding sees_job
scope_jobs actor issuances verifications jobs =
    filter_rows (sees_job actor issuances verifications) jobs
