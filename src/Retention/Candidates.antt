-- ===== src/Retention/Candidates.antt =====
-- `_next_reconciliation_candidate` of retention/services.py: the tombstone that the cursor leads to.
use splitbind.Base.{ℕ, Bool, ◌&&◌, ◌||◌, Option, none, some, List, is_some, ◌==◌, ltb}
use splitbind.Model.Rows.{UploadRequest}
use splitbind.Model.Table.{first_by}
use splitbind.Retention.State.{Store}

abbrev pub or_zero : Option ℕ → ℕ
or_zero none = 0
or_zero (some n) = n

abbrev pub deleted_time : UploadRequest → ℕ
deleted_time upload = or_zero upload.promotion_target_deleted_at

-- a tombstone with its key
abbrev pub is_tombstone : UploadRequest → Bool
is_tombstone upload =
    is_some upload.promotion_target_deleted_at && is_some upload.promotion_target_key

-- the tombstone is after the cursor
abbrev pub is_after : ℕ → ℕ → UploadRequest → Bool
is_after at id upload =
    ltb at (deleted_time upload) || (deleted_time upload == at && ltb id upload.id)

-- `order_by("promotion_target_deleted_at", "pk").first()`
abbrev pub first_tombstone : (UploadRequest → Bool) → List UploadRequest → Option UploadRequest
first_tombstone test uploads = first_by deleted_time (λ (u : UploadRequest). u.id) test uploads

-- The first tombstone after the cursor, or, if there is none, the first one.
unfoldable pub candidate_from : Option ℕ → Option ℕ → List UploadRequest → Option UploadRequest
candidate_from (some at) (some id) uploads =
    elim (first_tombstone (λ u. is_tombstone u && is_after at id u) uploads) [
      | none ↦ first_tombstone is_tombstone uploads
      | some upload ↦ some upload
    ]
candidate_from _ _ uploads = first_tombstone is_tombstone uploads

unfoldable pub next_reconciliation_candidate : Store → Option UploadRequest
unfolding candidate_from
next_reconciliation_candidate store =
    candidate_from store.schedule.reconciliation_cursor_at store.schedule.reconciliation_cursor_id
      store.uploads
