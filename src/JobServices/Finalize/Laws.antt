-- ===== src/JobServices/Finalize/Laws.antt =====
-- What a failed copy or a failed transaction leaves behind.
use mathlib.Core.Path.{subst}
use splitbind.Base.{
  ℕ, String, ◌≡◌, refl, sym, ◌∙◌, ap, Bool, true, false, ◌&&◌, Option, some, List, ok, err, arith,
  ◌==◌, &&-inv, Option-cases, Bool-cases, Result-cases, inl, inr,
}
use splitbind.Jobs.State.{JobKind}
use splitbind.JobServices.Finalize.{
  copy_then_finalize, undo, delete_fenced, CreateDomain, copy_object, finalize,
}
use splitbind.JobServices.Promote.{mark_failed, promote}
use splitbind.JobServices.Promote.Laws.{promote-inv, changed_row}
use splitbind.JobServices.State.{Site, Outside, Call, ServiceError, to_store}
use splitbind.Model.Keys.{ObjectKey}
use splitbind.Model.Rows.{User, UploadRequest, PromotionStatus, copying, attached, failed}
use splitbind.Model.Table.{find, update_row}
use splitbind.Model.Table.Find.{update_row-Among}
use splitbind.Model.Table.Laws.{Among}
use splitbind.Retention.Claims.{find_upload}
use splitbind.Retention.Lanes.{delete_fenced_promotion_target}
use splitbind.Retention.State.{Store}
use splitbind.Uploads.Promotion.{status_eq, key_opt_eq}

-- The tables beside the uploads are those of the first site, no event was added, and no upload is
-- attached that was not.
pub record IsUndone (shared site : Site) : Type 0 where
  pub uploads : List UploadRequest
  pub db : site.db ≡ record shared.db { uploads = uploads }
  pub events : site.events ≡ shared.events
  pub attached_before :
      (u : UploadRequest)
      → Among u site.db.uploads
      → u.promotion_status ≡ attached
      → Among u shared.db.uploads

pub unchanged-IsUndone : (site : Site) → IsUndone site site
unchanged-IsUndone site = record {
  uploads = site.db.uploads;
  db = refl;
  events = refl;
  attached_before = λ u m a. m;
}

-- The deletion behind the tombstone of a target changes no row.
fenced_rows :
    (deletes : ObjectKey → Bool) (id : ℕ) (store store' : Store) (done : Bool)
    → delete_fenced_promotion_target deletes id store ≡ some (store', done)
    → (keys : List ObjectKey) × (store' ≡ record store { deleted = keys })
unfolding delete_fenced_promotion_target
fenced_rows deletes id store store' done e = elim (Option-cases (find_upload id store)) [
  | inl missing ↦ absurd (ground (arith, missing))
  | inr (upload, found) ↦ elim (Option-cases upload.promotion_target_key) [
    | inl none_yet ↦ (store'.deleted, ground (arith, found, none_yet))
    | inr (key, target) ↦ (store'.deleted, ground (arith, found, target))
  ]
]

not_attached : {s : PromotionStatus} → s ≡ failed → s ≡ attached → ⊥
not_attached f a = cc

copying_is_not_failed :
    (s : PromotionStatus) → status_eq s copying ≡ true → status_eq failed s ≡ false
copying_is_not_failed s h = ground arith

failed-IsUndone :
    (target : Option ObjectKey) (code : String) (at : ℕ) (locked : UploadRequest) (site : Site)
    → status_eq failed locked.promotion_status ≡ false
    → IsUndone site
        (elim (promote failed target (some code) at locked site) [ err e ↦ site | ok p ↦ p.1 ])
failed-IsUndone target code at locked site other =
    elim (Result-cases (promote failed target (some code) at locked site)) [
      | inl (x, refused) ↦ rw refused (unchanged-IsUndone site)
      | inr ((row, site'), done) ↦ rw done (
          let (saved, written) =
            promote-inv failed target (some code) at locked row site site' done in
          subst (λ s. IsUndone site s) (sym written)
            (record {
              uploads =
                  update_row (λ (r : UploadRequest). r.id == locked.id) (λ r. row) site.db.uploads;
              db = refl;
              events = refl;
              attached_before = λ u m a.
                  elim (update_row-Among (λ (r : UploadRequest). r.id == locked.id) row
                    site.db.uploads u m) [
                      | inr old ↦ old
                      | inl same ↦ absurd (
                          not_attached
                            (ap (λ r. r.promotion_status)
                              (same
                                ∙ changed_row failed target (some code) at locked row saved other))
                            a)
                    ];
            }))
    ]

mark_failed-IsUndone :
    (id : ℕ) (target : Option ObjectKey) (code : String) (at : ℕ) (site : Site)
    → IsUndone site (mark_failed id target code at site)
unfolding mark_failed
mark_failed-IsUndone id target code at site =
    elim (Option-cases (find (λ (u : UploadRequest). u.id == id) site.db.uploads)) [
      | inl missing ↦ rw (mark_failed, missing) (unchanged-IsUndone site)
      | inr (locked, found) ↦
          rw (mark_failed, found)
            (elim (Bool-cases (
              status_eq locked.promotion_status copying
              && key_opt_eq locked.promotion_target_key target)) [
                | inr other ↦ rw other (unchanged-IsUndone site)
                | inl reserved ↦ rw reserved (
                    failed-IsUndone target code at locked site
                      (copying_is_not_failed locked.promotion_status (&&-inv _ _ reserved).0))
              ])
    ]

delete_fenced-eq :
    (outside : Outside) (upload : UploadRequest) (site : Site)
    → (keys : List ObjectKey) × (delete_fenced outside upload site ≡ record site { deleted = keys })
unfolding delete_fenced
delete_fenced-eq outside upload site =
    elim (Option-cases (delete_fenced_promotion_target outside.deletes upload.id (to_store site))) [
      | inl kept ↦ (site.deleted, rw (delete_fenced, kept) refl)
      | inr ((store, done), deleted) ↦
          (let (keys, same) =
              fenced_rows outside.deletes upload.id (to_store site) store done deleted in
            (keys, rw (delete_fenced, deleted, same) refl))
    ]

undo-IsUndone :
    (outside : Outside) (call : Call) (upload : UploadRequest) (code : String) (site : Site)
    → IsUndone site (undo outside call upload code site)
unfolding undo
undo-IsUndone outside call upload code site =
    let (keys, same) = delete_fenced-eq outside upload site in
    let u =
      mark_failed-IsUndone upload.id upload.promotion_target_key code call.failed_at
        (record site { deleted = keys }) in
    subst
      (λ s. IsUndone site (mark_failed upload.id upload.promotion_target_key code call.failed_at s))
      (sym same)
      (record {
        uploads = u.uploads;
        db = u.db;
        events = u.events;
        attached_before = u.attached_before;
      })

-- When a creation fails after its reservation, whatever other transactions did during the copy, the
-- tables are theirs but for the uploads, none of which is attached that was not, and no event is
-- added: no document, issuance, verification, job or outbox row is left over.
pub copy_then_finalize-IsUndone :
    (outside : Outside) (call : Call) (interfere : Site → Site) (actor : User)
    (upload : UploadRequest) (kind : JobKind) (correlation_id : ℕ) (create_domain : CreateDomain)
    (site site' : Site) (e : ServiceError)
    → copy_then_finalize outside call interfere actor upload kind correlation_id create_domain site
      ≡ (site', err e)
    → IsUndone (interfere site) site'
unfolding copy_then_finalize
copy_then_finalize-IsUndone outside call interfere actor upload kind correlation_id create_domain
      site site' e run =
    elim (Result-cases (copy_object outside upload)) [
      | inl (x, broken) ↦
          subst (λ s. IsUndone (interfere site) s) (ground (arith, broken))
            (undo-IsUndone outside call upload "PROMOTION_COPY_FAILED" (interfere site))
      | inr (done, copied) ↦
          elim (Result-cases (
            finalize outside call actor upload kind correlation_id create_domain
              (interfere site))) [
                | inl (x, broken) ↦
                    subst (λ s. IsUndone (interfere site) s) (ground (arith, copied, broken))
                      (undo-IsUndone outside call upload "PROMOTION_FINALIZE_FAILED"
                        (interfere site))
                | inr (p, finished) ↦ absurd (ground (arith, copied, finished))
              ]
    ]
