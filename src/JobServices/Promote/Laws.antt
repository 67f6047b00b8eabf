-- ===== src/JobServices/Promote/Laws.antt =====
-- An upload is reserved at most once.
use mathlib.Core.Path.{subst}
use splitbind.Base.{
  ℕ, String, ◌≡◌, ◌∙◌, ap, ◌≢◌, true, false, not, ◌&&◌, Option, none, some, ok, arith, ◌==◌, ==_iff,
  &&-inv, Option-cases, inl, inr, is_some, >>-eq-ok, guard-eq-ok, Result-cases,
}
use splitbind.Jobs.State.{JobKind}
use splitbind.JobServices.Promote.{
  reserve_promotion, reserve_upload, check_reservable, promote, promoted_input_key,
}
use splitbind.JobServices.State.{Site}
use splitbind.Model.Keys.{ObjectKey}
use splitbind.Model.Rows.{User, UploadRequest, PromotionStatus, copying}
use splitbind.Model.Table.{find, update_row}
use splitbind.Model.Table.Laws.{Among}
use splitbind.Model.Table.Find.{find-Among}
use splitbind.Uploads.Promotion.{save_promotion, change_promotion, status_eq}

-- A change of a promotion that was accepted saved the row that it answers.
pub promote-inv :
    (status : PromotionStatus) (target : Option ObjectKey) (code : Option String) (at : ℕ)
    (upload row : UploadRequest) (site site' : Site)
    → promote status target code at upload site ≡ ok (row, site')
    → (save_promotion (some status) target code at upload ≡ ok row)
      × (site' ≡ record site {
        db = record site.db {
          uploads =
              update_row (λ (r : UploadRequest). r.id == upload.id) (λ r. row) site.db.uploads;
        };
      })
unfolding promote
promote-inv status target code at upload row site site' e =
    elim (Result-cases (save_promotion (some status) target code at upload)) [
      | inl (x, failed) ↦ absurd (ground (arith, failed))
      | inr (r, saved) ↦ (ground (arith, saved), ground (arith, saved))
    ]

-- The row that a reservation answers: the upload that the actor asked for, now being copied to the one
-- key of its promoted copy.
pub record IsReservation (actor : User) (upload_id : ℕ) (kind : JobKind) (row : UploadRequest)
    (site site' : Site) : Type 0 where
  pub id : row.id ≡ upload_id
  pub status : row.promotion_status ≡ copying
  pub target :
      row.promotion_target_key ≡ some (promoted_input_key kind actor.organization_id upload_id)
  pub written : site' ≡ record site {
    db = record site.db {
      uploads = update_row (λ (r : UploadRequest). r.id == upload_id) (λ r. row) site.db.uploads;
    };
  }

-- A change to another status writes the four columns of the promotion.
pub changed_row :
    (status : PromotionStatus) (target : Option ObjectKey) (code : Option String) (at : ℕ)
    (upload row : UploadRequest)
    → save_promotion (some status) target code at upload ≡ ok row
    → status_eq status upload.promotion_status ≡ false
    → row ≡ record upload {
      promotion_status = status;
      promotion_status_changed_at = at;
      promotion_target_key = target;
      safe_error_code = code;
    }
unfolding save_promotion change_promotion
changed_row status target code at upload row e differs = ground (arith, differs)

check_unused :
    (kind : JobKind) (now : ℕ) (upload : UploadRequest)
    → check_reservable kind now upload ≡ ok tt
    → status_eq upload.promotion_status PromotionStatus.none ≡ true
unfolding check_reservable
check_unused kind now upload e =
    let last : (status_eq upload.promotion_status PromotionStatus.none
          && not (is_some upload.promotion_target_key))
        ≡ true =
      guard-eq-ok _ _ (>>-eq-ok _ _ e).1 in
    (&&-inv _ _ last).0

not_reservable :
    (kind : JobKind) (now : ℕ) (row : UploadRequest)
    → row.promotion_status ≡ copying
    → check_reservable kind now row ≢ ok tt
not_reservable kind now row c e = let unused = check_unused kind now row e in cc (unused, c)

reservable_status :
    (kind : JobKind) (now : ℕ) (upload : UploadRequest)
    → check_reservable kind now upload ≡ ok tt
    → status_eq copying upload.promotion_status ≡ false
reservable_status kind now upload e =
    let unused = check_unused kind now upload e in ground (arith, unused)

reserve_upload-inv :
    (actor : User) (kind : JobKind) (now at : ℕ) (upload row : UploadRequest) (site site' : Site)
    → reserve_upload actor kind now at upload site ≡ ok (row, site')
    → (check_reservable kind now upload ≡ ok tt) × IsReservation actor upload.id kind row site site'
unfolding reserve_upload
reserve_upload-inv actor kind now at upload row site site' e =
    let passed = >>-eq-ok _ _ e in
    let target = some (promoted_input_key kind actor.organization_id upload.id) in
    let (saved, written) = promote-inv copying target none at upload row site site' passed.1 in
    let same =
      changed_row copying target none at upload row saved
        (reservable_status kind now upload passed.0) in
    (
      passed.0,
      record {
        id = ap (λ r. r.id) same;
        status = ap (λ r. r.promotion_status) same;
        target = ap (λ r. r.promotion_target_key) same;
        written = written;
      },
    )

reserve_promotion-inv :
    (actor : User) (upload_id : ℕ) (kind : JobKind) (now at : ℕ) (row : UploadRequest)
    (site site' : Site)
    → reserve_promotion actor upload_id kind now at site ≡ ok (row, site')
    → (upload : UploadRequest) × (find
          (λ (u : UploadRequest).
            u.id == upload_id
            && (u.organization_id == actor.organization_id && u.requested_by_id == actor.id))
          site.db.uploads
        ≡ some upload)
      × (reserve_upload actor kind now at upload site ≡ ok (row, site'))
unfolding reserve_promotion
reserve_promotion-inv actor upload_id kind now at row site site' e =
    elim (Option-cases (
      find
        (λ (u : UploadRequest).
          u.id == upload_id
          && (u.organization_id == actor.organization_id && u.requested_by_id == actor.id))
        site.db.uploads)) [
          | inl missing ↦ absurd (ground (arith, missing))
          | inr (upload, found) ↦ (upload, found, ground (arith, found))
        ]

-- A reservation that was accepted answers the upload with the id asked for, now in copying towards the
-- one key of its promoted copy, and changes the row of this upload alone.
pub reserve_promotion-IsReservation :
    (actor : User) (upload_id : ℕ) (kind : JobKind) (now at : ℕ) (row : UploadRequest)
    (site site' : Site)
    → reserve_promotion actor upload_id kind now at site ≡ ok (row, site')
    → IsReservation actor upload_id kind row site site'
reserve_promotion-IsReservation actor upload_id kind now at row site site' e =
    let (upload, found, reserved) =
      reserve_promotion-inv actor upload_id kind now at row site site' e in
    let id = (==_iff upload.id upload_id).0 (&&-inv _ _ (find-Among _ _ upload found).0).0 in
    subst (λ i. IsReservation actor i kind row site site') id
      (reserve_upload-inv actor kind now at upload row site site' reserved).1

-- After a reservation was accepted no reservation of that upload is, by whoever, of whatever kind, at
-- whatever time and whatever else has changed, as long as the row of the upload is still as the
-- reservation left it.
pub reserve_promotion_once :
    (actor other : User) (upload_id : ℕ) (kind other_kind : JobKind) (now at later later_at : ℕ)
    (row again : UploadRequest) (site site' between last : Site)
    → reserve_promotion actor upload_id kind now at site ≡ ok (row, site')
    → ((u : UploadRequest) → Among u between.db.uploads → u.id ≡ upload_id → u ≡ row)
    → reserve_promotion other upload_id other_kind later later_at between ≢ ok (again, last)
reserve_promotion_once actor other upload_id kind other_kind now at later later_at row again site
      site' between last e still f =
    let first = reserve_promotion-IsReservation actor upload_id kind now at row site site' e in
    let (upload, found, reserved) =
      reserve_promotion-inv other upload_id other_kind later later_at again between last f in
    let (passed, among) = find-Among _ _ upload found in
    let same = still upload among ((==_iff upload.id upload_id).0 (&&-inv _ _ passed).0) in
    not_reservable other_kind later upload (ap (λ r. r.promotion_status) same ∙ first.status)
      (reserve_upload-inv other other_kind later later_at upload again between last reserved).0
