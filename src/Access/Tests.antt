-- ===== src/Access/Tests.antt =====
-- An issuer's job, and what the theorem says of it.
use splitbind.Base.{◌≡◌, refl, inl, none, some, [], ◌∷◌}
use splitbind.Jobs.State.{Job, JobKind, queued}
use splitbind.Model.Rows.{User, issuer, Issuance}
use splitbind.Model.Table.{exists}
use splitbind.Access.{filter_rows, scope_jobs, sees_job}
use splitbind.Access.Laws.{IsVisible, scope_jobs-IsVisible}

abbrev actor : User
actor = record { id = 3; organization_id = 2; role = issuer }

abbrev own_issuance : Issuance
own_issuance = record {
  id = 8;
  organization_id = 2;
  document_id = 7;
  recipient_id = 6;
  created_by_id = 3;
  output_object_key = none;
  output_sha256 = none;
  output_deleted_at = none;
  issued_at = 10;
}

abbrev own_job : Job
own_job = record {
  id = 9;
  organization_id = 2;
  kind = JobKind.issuance;
  status = queued;
  attempt = 1;
  issuance_id = some 8;
  verification_id = none;
  deadline_at = 900;
  correlation_id = 1;
  cancel_requested_at = none;
  safe_error_code = none;
  created_at = 10;
  updated_at = 10;
}

abbrev other_job : Job
other_job = record own_job { id = 10; issuance_id = some 5 }

scope_run : scope_jobs actor (own_issuance ∷ []) [] (other_job ∷ own_job ∷ []) ≡ own_job ∷ []
unfolding scope_jobs sees_job filter_rows exists
scope_run = refl

scope_jobs-IsVisible_example : IsVisible actor (own_issuance ∷ []) [] (own_job ∷ []) own_job
unfolding scope_jobs sees_job filter_rows exists
scope_jobs-IsVisible_example =
    scope_jobs-IsVisible actor (own_issuance ∷ []) [] (own_job ∷ []) own_job (inl refl)
