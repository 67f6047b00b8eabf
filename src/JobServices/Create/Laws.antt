-- ===== src/JobServices/Create/Laws.antt =====
-- What a failed creation of an issuance or of a verification leaves behind.
use splitbind.Base.{ℕ, ◌≡◌, ◌⊎◌, ok, if◌then◌else◌}
use splitbind.Jobs.State.{JobKind}
use splitbind.JobServices.Create.{record_denial}
use splitbind.JobServices.Finalize.Laws.{IsUndone}
use splitbind.JobServices.Promote.{reserve_promotion}
use splitbind.JobServices.State.{Site, Call, ServiceError, create_denied, is_denial}
use splitbind.Model.Rows.{User, UploadRequest}

-- The site before the event of the denial. It is compared with the site of the request, or, when the
-- upload was reserved, with what other transactions made of the reserved site during the copy.
pub record IsLeft (interfere : Site → Site) (call : Call) (actor : User) (upload_id : ℕ)
    (kind : JobKind) (site left : Site) : Type 0 where
  pub base : Site
  pub start :
      (base ≡ site)
      ⊎ ((row : UploadRequest) × (reserved : Site) × (reserve_promotion actor upload_id kind
              call.now call.reserved_at site
            ≡ ok (row, reserved))
          × (base ≡ interfere reserved))
  pub undone : IsUndone base left

-- The denial of a rejection or a conflict is added to what is left.
pub record IsFailed (interfere : Site → Site) (call : Call) (actor : User) (upload_id : ℕ)
    (kind : JobKind) (correlation_id : ℕ) (e : ServiceError) (site site' : Site) : Type 0 where
  pub left : Site
  pub kept : IsLeft interfere call actor upload_id kind site left
  pub denied : site' ≡ (
      if is_denial e then record_denial actor (create_denied kind) correlation_id e left else left)
