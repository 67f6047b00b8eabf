-- ===== src/JobServices/Create.antt =====
-- `create_issuance` and `create_verification` of services/api/splitbind/jobs/services.py, with the
-- event of a denial.
pub mod Laws
use splitbind.Base.{ℕ, ◌&&◌, Option, none, some, Result, ok, err, ◌==◌, if◌then◌else◌}
use splitbind.Audit.{AuditOutcome}
use splitbind.Jobs.State.{Job, JobKind, issuance, verification}
use splitbind.JobServices.Finalize.{
  CreateDomain, copy_then_finalize, create_issuance_domain, create_verification_domain,
}
use splitbind.JobServices.Promote.{authorize_create, reserve_promotion}
use splitbind.JobServices.State.{
  Site, Outside, Call, ServiceError, Action, of_user, denied_for, create_denied, is_denial,
  workflow_not_found, record_actor_event,
}
use splitbind.Model.Rows.{User, Recipient}
use splitbind.Model.Table.{find}

-- `_record_denial`
unfoldable pub record_denial : User → Action → ℕ → ServiceError → Site → Site
unfolding record_actor_event
record_denial actor action correlation_id error site =
    record_actor_event actor action (of_user actor.id) AuditOutcome.denied correlation_id
      (denied_for error) site

-- the `except` clause of both services: an exception of another class leaves no event
unfoldable pub with_denial :
    User → JobKind → ℕ → Site × Result ServiceError Job → Site × Result ServiceError Job
unfolding record_denial
with_denial actor kind correlation_id (site, ok job) = (site, ok job)
with_denial actor kind correlation_id (site, err e) = (
  if is_denial e then record_denial actor (create_denied kind) correlation_id e site else site,
  err e,
)

-- the reservation and what follows, where a refused reservation changes nothing
unfoldable pub reserve_and_run :
    Outside
    → Call
    → (Site → Site)
    → User
    → ℕ
    → JobKind
    → ℕ
    → CreateDomain
    → Site
    → Site × Result ServiceError Job
unfolding reserve_promotion copy_then_finalize
reserve_and_run outside call interfere actor upload_id kind correlation_id create_domain site =
    elim (reserve_promotion actor upload_id kind call.now call.reserved_at site) [
      | err e ↦ (site, err e)
      | ok p ↦
          copy_then_finalize outside call interfere actor p.0 kind correlation_id create_domain p.1
    ]

find_recipient : User → ℕ → Site → Option Recipient
unfolding find
find_recipient actor recipient_id site =
    find (λ (r : Recipient). r.id == recipient_id && r.organization_id == actor.organization_id)
      site.recipients

-- `_create_issuance`
unfoldable pub issue :
    Outside → Call → (Site → Site) → User → ℕ → ℕ → ℕ → Site → Site × Result ServiceError Job
unfolding authorize_create find_recipient reserve_and_run create_issuance_domain
issue outside call interfere actor recipient_id upload_id correlation_id site =
    elim (authorize_create actor issuance) [
      | err e ↦ (site, err e)
      | ok allowed ↦ elim (find_recipient actor recipient_id site) [
        | none ↦ (site, err workflow_not_found)
        | some recipient ↦
            reserve_and_run outside call interfere actor upload_id issuance correlation_id
              (create_issuance_domain actor recipient call) site
      ]
    ]

-- `_create_verification`
unfoldable pub verify :
    Outside → Call → (Site → Site) → User → ℕ → ℕ → Site → Site × Result ServiceError Job
unfolding authorize_create reserve_and_run create_verification_domain
verify outside call interfere actor upload_id correlation_id site =
    elim (authorize_create actor verification) [
      | err e ↦ (site, err e)
      | ok allowed ↦
          reserve_and_run outside call interfere actor upload_id verification correlation_id
            (create_verification_domain actor call) site
    ]

unfoldable pub create_issuance :
    Outside → Call → (Site → Site) → User → ℕ → ℕ → ℕ → Site → Site × Result ServiceError Job
unfolding with_denial issue
create_issuance outside call interfere actor recipient_id upload_id correlation_id site =
    with_denial actor issuance correlation_id
      (issue outside call interfere actor recipient_id upload_id correlation_id site)

unfoldable pub create_verification :
    Outside → Call → (Site → Site) → User → ℕ → ℕ → Site → Site × Result ServiceError Job
unfolding with_denial verify
create_verification outside call interfere actor upload_id correlation_id site =
    with_denial actor verification correlation_id
      (verify outside call interfere actor upload_id correlation_id site)
