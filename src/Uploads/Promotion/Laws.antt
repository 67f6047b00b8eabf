-- ===== src/Uploads/Promotion/Laws.antt =====
-- What every sequence of promotion changes keeps.
use mathlib.Core.Path.{subst}
use splitbind.Base.{
  ℕ, String, ◌≡◌, refl, sym, ◌∙◌, true, false, not, ◌&&◌, Option, none, some, arith, ok, Bool-cases,
  is_some, ◌⊎◌, inl, inr,
}
use splitbind.Model.Keys.{
  ObjectKey, promoted, orphan, issuance_output, uncontrolled, validate_promoted_key,
}
use splitbind.Model.Rows.{UploadRequest, PromotionStatus, attached, failed}
use splitbind.Uploads.Promotion.{
  save_promotion, change_promotion, allowed, check_target, status_eq, key_opt_eq, code_eq, is_blank,
}

-- The row's promotion columns agree, and its target is the one key of this upload.
pub record IsPromotion (row : UploadRequest) : Type 0 where
  pub reserved :
      is_some row.promotion_target_key ≡ true
      → status_eq row.promotion_status PromotionStatus.none ≡ false
  pub unreserved :
      is_some row.promotion_target_key ≡ false → row.promotion_status ≡ PromotionStatus.none
  pub coded : status_eq row.promotion_status failed ≡ true → is_blank row.safe_error_code ≡ false
  pub uncoded : status_eq row.promotion_status failed ≡ false → row.safe_error_code ≡ none
  pub owned :
      (key : ObjectKey)
      → row.promotion_target_key ≡ some key
      → key ≡ promoted row.purpose row.organization_id row.id

-- What an accepted change did, when it was not a repetition.
record IsChange (status : PromotionStatus) (target : Option ObjectKey) (code : Option String)
    (at : ℕ) (row row' : UploadRequest) : Type 0 where
  alive : is_some row.promotion_target_deleted_at ≡ false
  step : allowed row.promotion_status status ≡ true
  kept :
      is_some row.promotion_target_key && not (key_opt_eq target row.promotion_target_key) ≡ false
  checked : check_target row target ≡ ok tt
  changed : row' ≡ record row {
    promotion_status = status;
    promotion_status_changed_at = at;
    promotion_target_key = target;
    safe_error_code = code;
  }

change_promotion-inv :
    (status : PromotionStatus) (target : Option ObjectKey) (code : Option String) (at : ℕ)
    (row row' : UploadRequest)
    → change_promotion status target code at row ≡ ok row'
    → (row' ≡ row) ⊎ IsChange status target code at row row'
unfolding change_promotion
change_promotion-inv status target code at row row' e =
    elim (Bool-cases (
      status_eq status row.promotion_status
      && (key_opt_eq target row.promotion_target_key && code_eq code row.safe_error_code))) [
        | inl same ↦ inl (ground arith)
        | inr other ↦ inr (record {
          alive = ground arith;
          step = ground arith;
          kept = ground arith;
          checked = ground arith;
          changed = ground arith;
        })
      ]

check_target-owned :
    (row : UploadRequest) (key : ObjectKey)
    → check_target row (some key) ≡ ok tt
    → key ≡ promoted row.purpose row.organization_id row.id
unfolding check_target validate_promoted_key
check_target-owned row (promoted p o u) e = ground arith
check_target-owned row (orphan p o u) e = absurd (cc e)
check_target-owned row (issuance_output o i x) e = absurd (cc e)
check_target-owned row (uncontrolled s) e = absurd (cc e)

save_promotion-inv :
    (status : PromotionStatus) (target : Option ObjectKey) (code : Option String) (at : ℕ)
    (row row' : UploadRequest)
    → save_promotion (some status) target code at row ≡ ok row'
    → (change_promotion status target code at row ≡ ok row')
      × (status_eq status PromotionStatus.none ≡ not (is_some target))
      × (status_eq status failed && is_blank code ≡ false)
      × (not (status_eq status failed) && is_some code ≡ false)
unfolding save_promotion
save_promotion-inv status target code at row row' e = ground arith

IsChange-IsPromotion :
    (status : PromotionStatus) (target : Option ObjectKey) (code : Option String) (at : ℕ)
    (row row' : UploadRequest)
    → IsChange status target code at row row'
    → (status_eq status PromotionStatus.none ≡ not (is_some target))
    → (status_eq status failed && is_blank code ≡ false)
    → (not (status_eq status failed) && is_some code ≡ false)
    → IsPromotion row'
IsChange-IsPromotion status target code at row row' c t b n =
    subst IsPromotion (sym c.changed) (record {
      reserved = λ s. ground arith;
      unreserved = λ s. ground arith;
      coded = λ s. ground arith;
      uncoded = λ s. ground arith;
      owned =
          λ key s. check_target-owned row key (subst (λ o. check_target row o ≡ ok tt) s c.checked);
    })

save_promotion-IsPromotion :
    (status : Option PromotionStatus) (target : Option ObjectKey) (code : Option String) (at : ℕ)
    (row row' : UploadRequest)
    → save_promotion status target code at row ≡ ok row'
    → IsPromotion row
    → IsPromotion row'
unfolding save_promotion
save_promotion-IsPromotion none target code at row row' e h = absurd (cc e)
save_promotion-IsPromotion (some status) target code at row row' e h =
    let (c, t, b, n) = save_promotion-inv status target code at row row' e in
    elim (change_promotion-inv status target code at row row' c) [
      | inl same ↦ subst IsPromotion (sym same) h
      | inr changed ↦ IsChange-IsPromotion status target code at row row' changed t b n
    ]

-- a sequence of accepted changes
pub data Changes (row : UploadRequest) : UploadRequest → Type 0 where
  here : Changes row row
  next :
      {mid : UploadRequest} (status : Option PromotionStatus) (target : Option ObjectKey)
      (code : Option String) (at : ℕ) (row' : UploadRequest)
      → Changes row mid
      → save_promotion status target code at mid ≡ ok row'
      → Changes row row'

-- From agreeing columns every sequence of accepted changes leads to agreeing columns: a target is
-- there exactly outside of the status none, an error code exactly in the status failed, and the
-- target is the key of this upload, its organization and its purpose.
pub Changes-IsPromotion :
    {row row' : UploadRequest} → Changes row row' → IsPromotion row → IsPromotion row'
Changes-IsPromotion here h = h
Changes-IsPromotion (next {mid} status target code at row' r e) h =
    save_promotion-IsPromotion status target code at mid row' e (Changes-IsPromotion r h)

attached_step :
    (status : Option PromotionStatus) (target : Option ObjectKey) (code : Option String) (at : ℕ)
    (row row' : UploadRequest)
    → save_promotion status target code at row ≡ ok row'
    → (row.promotion_status ≡ attached) ⊎ (is_some row.promotion_target_deleted_at ≡ true)
    → row' ≡ row
unfolding save_promotion allowed
attached_step none target code at row row' e h = absurd (cc e)
attached_step (some status) target code at row row' e h =
    let (c, t, b, n) = save_promotion-inv status target code at row row' e in
    elim (change_promotion-inv status target code at row row' c) [
      | inl same ↦ same
      | inr changed ↦ absurd (ground (arith, changed.step, changed.alive))
    ]

-- No sequence of accepted changes alters a row whose promotion is attached, or whose promoted copy
-- is recorded as deleted.
pub attached_absorbs :
    {row row' : UploadRequest}
    → Changes row row'
    → (row.promotion_status ≡ attached) ⊎ (is_some row.promotion_target_deleted_at ≡ true)
    → row' ≡ row
attached_absorbs here h = refl
attached_absorbs {row} (next {mid} status target code at row' r e) h =
    let same : mid ≡ row = attached_absorbs r h in
    attached_step status target code at mid row' e (
      subst (λ q. (q.promotion_status ≡ attached) ⊎ (is_some q.promotion_target_deleted_at ≡ true))
        (sym same) h)
    ∙ same
