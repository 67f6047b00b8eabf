-- ===== src/Uploads/Save/Laws.antt =====
-- What no save of an upload request changes.
use mathlib.Core.Path.{subst}
use splitbind.Model.Keys.{ObjectKey}
use text.Mathlib.TextEquality.{eq_iff}
use splitbind.Base.{
  String, ℕ, Result, ◌≡◌, ◌≤◌, refl, Bool, true, false, not, ◌&&◌, Option, none, some, arith, ok,
  err, opt_eq, if◌then◌else◌, List, [], ◌∷◌, All, ap,
}
use splitbind.Model.Keys.Laws.{key_eq_iff}
use splitbind.Model.Rows.{UploadRequest}
use splitbind.Uploads.Save.{
  Field, SaveError, check_evidence, check_immutable, write, save_existing, named, moves_back,
  immutable, differs, any_differs, immutable_fields, promotion_target_reconciled_at,
}
use splitbind.Uploads.Promotion.{key_opt_eq, code_eq}

-- The deletion evidence of a row and of a later one.
pub record IsLater (old row : UploadRequest) : Type 0 where
  pub orphan : (at : ℕ) → old.orphan_deleted_at ≡ some at → row.orphan_deleted_at ≡ some at
  pub target :
      (at : ℕ)
      → old.promotion_target_deleted_at ≡ some at
      → row.promotion_target_deleted_at ≡ some at
  pub reconciled :
      (at : ℕ)
      → old.promotion_target_reconciled_at ≡ some at
      → (later : ℕ) × (row.promotion_target_reconciled_at ≡ some later) × (at ≤ later)

later_reconciled :
    (allowed name : Bool) (at : ℕ) (old new : Option ℕ)
    → old ≡ some at
    → ((name && not (opt_eq new old)) && moves_back old new) ≡ false
    → (later : ℕ) × ((if name then new else old) ≡ some later) × (at ≤ later)
later_reconciled allowed name at none new h e = absurd (cc h)
later_reconciled allowed false at (some o) new h e = (at, h, omega arith)
later_reconciled allowed true at (some o) none h e = absurd (cc e)
later_reconciled allowed true at (some o) (some n) h e = (n, refl, ground arith)

check_evidence-IsLater :
    (allowed : Bool) (names : Option (Field → Bool)) (old new : UploadRequest)
    → check_evidence allowed names old new ≡ ok tt
    → IsLater old (write names old new)
unfolding check_evidence write
check_evidence-IsLater allowed names old new e = record {
  orphan = λ at h. ground arith;
  target = λ at h. ground arith;
  reconciled = λ at h.
      later_reconciled allowed (named names promotion_target_reconciled_at) at
        old.promotion_target_reconciled_at new.promotion_target_reconciled_at h (ground arith);
}

-- An accepted save of a row keeps its organization, its purpose, key, checksum, size and deadline and
-- its promotion columns.
pub record IsSameIntent (old row : UploadRequest) : Type 0 where
  pub organization : row.organization_id ≡ old.organization_id
  pub purpose : row.purpose ≡ old.purpose
  pub object_key : row.object_key ≡ old.object_key
  pub expected_sha256 : row.expected_sha256 ≡ old.expected_sha256
  pub size_bytes : row.size_bytes ≡ old.size_bytes
  pub expires_at : row.expires_at ≡ old.expires_at
  pub promotion_target_key : row.promotion_target_key ≡ old.promotion_target_key
  pub promotion_status : row.promotion_status ≡ old.promotion_status
  pub safe_error_code : row.safe_error_code ≡ old.safe_error_code
  pub changed_at : row.promotion_status_changed_at ≡ old.promotion_status_changed_at

kept_column {ℓ} :
    {A : Type ℓ} (name same : Bool) (new old : A)
    → (same ≡ true → new ≡ old)
    → (name && not same) ≡ false
    → (if name then new else old) ≡ old
kept_column false same new old f e = refl
kept_column true true new old f e = f refl
kept_column true false new old f e = absurd (cc e)

none_differs :
    (names : Option (Field → Bool)) (fields : List Field) (old new : UploadRequest)
    → any_differs names fields old new ≡ false
    → All (λ field. (named names field && differs field old new) ≡ false) fields
none_differs names [] old new e = tt
none_differs names (field ∷ fields) old new e =
    (ground arith, none_differs names fields old new (ground arith))

pub key_opt_eq→≡ : (a b : Option ObjectKey) → key_opt_eq a b ≡ true → a ≡ b
key_opt_eq→≡ none none h = refl
key_opt_eq→≡ (some a) (some b) h = ap some ((key_eq_iff a b).0 h)
key_opt_eq→≡ none (some b) h = absurd (cc h)
key_opt_eq→≡ (some a) none h = absurd (cc h)

code_eq→≡ : (a b : Option String) → code_eq a b ≡ true → a ≡ b
code_eq→≡ none none h = refl
code_eq→≡ (some a) (some b) h = ap some ((eq_iff a b).0 h)
code_eq→≡ none (some b) h = absurd (cc h)
code_eq→≡ (some a) none h = absurd (cc h)

passed :
    (b : Bool)
    → ◌≡◌ {A = Result SaveError (Unit {0})} (if b then err immutable else ok tt) (ok tt)
    → b ≡ false
passed true e = absurd (cc e)
passed false e = refl

check_immutable-IsSameIntent :
    (names : Option (Field → Bool)) (old new : UploadRequest)
    → check_immutable names old new ≡ ok tt
    → IsSameIntent old (write names old new)
unfolding check_immutable write
check_immutable-IsSameIntent names old new e =
    let n = none_differs names immutable_fields old new (passed _ e) in
    record {
      organization = refl;
      purpose = kept_column _ _ new.purpose old.purpose (λ h. ground arith) n.0;
      object_key =
          kept_column _ _ new.object_key old.object_key (key_eq_iff new.object_key old.object_key).0
            n.1.0;
      expected_sha256 =
          kept_column _ _ new.expected_sha256 old.expected_sha256 (λ h. ground arith) n.1.1.0;
      size_bytes = kept_column _ _ new.size_bytes old.size_bytes (λ h. ground arith) n.1.1.1.0;
      expires_at = kept_column _ _ new.expires_at old.expires_at (λ h. ground arith) n.1.1.1.1.0;
      promotion_target_key =
          kept_column _ _ new.promotion_target_key old.promotion_target_key
            (key_opt_eq→≡ new.promotion_target_key old.promotion_target_key) n.1.1.1.1.1.0;
      promotion_status =
          kept_column _ _ new.promotion_status old.promotion_status (λ h. ground arith)
            n.1.1.1.1.1.1.0;
      safe_error_code =
          kept_column _ _ new.safe_error_code old.safe_error_code
            (code_eq→≡ new.safe_error_code old.safe_error_code) n.1.1.1.1.1.1.1.1.0;
      changed_at =
          kept_column _ _ new.promotion_status_changed_at old.promotion_status_changed_at
            (λ h. ground arith) n.1.1.1.1.1.1.1.0;
    }

-- An accepted save of an upload request, by whatever caller and of whatever columns, keeps the
-- intent and the promotion columns; a tombstone that is there stays as it is, and the time of the last
-- reconciliation does not move back.
pub save_existing-IsLater :
    (allowed : Bool) (names : Option (Field → Bool)) (requester : ℕ) (old new row : UploadRequest)
    → save_existing allowed names requester old new ≡ ok row
    → IsLater old row × IsSameIntent old row
unfolding save_existing
save_existing-IsLater allowed names requester old new row e =
    let evidence : check_evidence allowed names old new ≡ ok tt = ground arith in
    let columns : check_immutable names old new ≡ ok tt = ground arith in
    let written : write names old new ≡ row = ground arith in
    subst (λ r. IsLater old r × IsSameIntent old r) written
      (
        check_evidence-IsLater allowed names old new evidence,
        check_immutable-IsSameIntent names old new columns,
      )

kept_time :
    (name : Bool) (new old : Option ℕ)
    → (name && not (opt_eq new old)) ≡ false
    → (if name then new else old) ≡ old
kept_time name new old e = ground arith

-- Without the capability of the retention service no accepted save changes deletion evidence.
pub save_existing-evidence :
    (names : Option (Field → Bool)) (requester : ℕ) (old new row : UploadRequest)
    → save_existing false names requester old new ≡ ok row
    → (row.orphan_deleted_at ≡ old.orphan_deleted_at)
      × (row.promotion_target_deleted_at ≡ old.promotion_target_deleted_at)
      × (row.promotion_target_reconciled_at ≡ old.promotion_target_reconciled_at)
unfolding save_existing check_evidence write
save_existing-evidence names requester old new row e =
    let evidence : check_evidence false names old new ≡ ok tt = ground arith in
    let written : write names old new ≡ row = ground arith in
    subst
      (λ r.
        (r.orphan_deleted_at ≡ old.orphan_deleted_at)
        × (r.promotion_target_deleted_at ≡ old.promotion_target_deleted_at)
        × (r.promotion_target_reconciled_at ≡ old.promotion_target_reconciled_at))
      written
      (
        kept_time _ new.orphan_deleted_at old.orphan_deleted_at (ground arith),
        kept_time _ new.promotion_target_deleted_at old.promotion_target_deleted_at (ground arith),
        kept_time _ new.promotion_target_reconciled_at old.promotion_target_reconciled_at
            (ground arith),
      )
