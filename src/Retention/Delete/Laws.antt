-- ===== src/Retention/Delete/Laws.antt =====
-- An object is only deleted when its row says so.
use splitbind.Base.{
  ℕ, ◌≡◌, refl, ◌⊎◌, inl, inr, Bool, true, Option, none, some, ◌∷◌, arith, is_some, Bool-cases,
  Option-cases, not, ◌&&◌, ◌||◌, ◌==◌,
}
use splitbind.Model.Keys.{ObjectKey}
use splitbind.Model.Rows.{UploadRequest, PromotionStatus}
use splitbind.Model.Table.{find}
use splitbind.Retention.Eligible.{Category, key_is_owned, eligible_locked}
use splitbind.Retention.State.{Store, log_delete}
use splitbind.Retention.Delete.{
  delete_one, delete_locked, deletion_recorded, record_deletion_evidence, key_of, tombstone_of,
}

-- The row by which an object was deleted: that of the store with this id, which no other transaction
-- holds.
pub record IsDue (locked : ℕ → Bool) (pk : ℕ) (store : Store) (category : Category) (now : ℕ)
    (expected : Option PromotionStatus) (key : ObjectKey) : Type 0 where
  pub upload : UploadRequest
  pub stored :
      find (λ (u : UploadRequest). u.id == pk && not (locked u.id)) store.uploads ≡ some upload
  pub keyed : key_of category upload ≡ some key
  pub owned : key_is_owned upload category key ≡ true
  pub due : eligible_locked upload category now expected store ≡ true
  pub first : tombstone_of category upload ≡ none

-- The storage deleted nothing, or one object, at a key that was due.
abbrev pub IsSafe :
    (ObjectKey → Bool)
    → (ℕ → Bool)
    → ℕ
    → Category
    → ℕ
    → Option PromotionStatus
    → Store
    → Store
    → Type 0
IsSafe deletes locked pk category now expected store after =
    (after.deleted ≡ store.deleted)
    ⊎ ((key : ObjectKey) × (after.deleted ≡ key ∷ store.deleted)
        × (deletes key ≡ true)
        × IsDue locked pk store category now expected key)

evidence_keeps :
    (organization_of : ℕ → ℕ) (category : Category) (at : ℕ) (upload : UploadRequest)
    (store : Store)
    → (deletion_recorded store
        (record_deletion_evidence organization_of category at upload store)).store.deleted
      ≡ store.deleted
unfolding deletion_recorded record_deletion_evidence
evidence_keeps organization_of category at upload store = ground arith

delete_locked-IsSafe :
    (organization_of : ℕ → ℕ) (deletes : ObjectKey → Bool) (locked : ℕ → Bool) (pk : ℕ)
    (category : Category) (now : ℕ) (expected : Option PromotionStatus) (upload : UploadRequest)
    (key : ObjectKey) (store : Store)
    → find (λ (u : UploadRequest). u.id == pk && not (locked u.id)) store.uploads ≡ some upload
    → key_of category upload ≡ some key
    → eligible_locked upload category now expected store ≡ true
    → tombstone_of category upload ≡ none
    → IsSafe deletes locked pk category now expected store
        (delete_locked organization_of deletes category now upload key store).store
unfolding delete_locked
delete_locked-IsSafe organization_of deletes locked pk category now expected upload key store f k d
      n =
    elim (Bool-cases (key_is_owned upload category key)) [
      | inr o ↦ rw o (inl refl)
      | inl o ↦ elim (Bool-cases (deletes key)) [
        | inr t ↦ rw (o, t) (inl refl)
        | inl t ↦
            rw (o, t)
              (inr (
                key,
                evidence_keeps organization_of category now upload (log_delete key store),
                t,
                record { upload = upload; stored = f; keyed = k; owned = o; due = d; first = n },
              ))
      ]
    ]

-- A run of `_delete_one` deletes at most one object, and only at the key that the row of the store with
-- the id asked for has in its category: no other transaction holds the row, it is eligible by its
-- category's age and jobs, it owns the key by its organization and id, and it has no tombstone yet.
pub delete_one-IsSafe :
    (organization_of : ℕ → ℕ) (deletes : ObjectKey → Bool) (locked : ℕ → Bool) (pk : ℕ)
    (category : Category) (now : ℕ) (expected : Option PromotionStatus) (store : Store)
    → IsSafe deletes locked pk category now expected store
        (delete_one organization_of deletes locked pk category now expected store).store
unfolding delete_one
delete_one-IsSafe organization_of deletes locked pk category now expected store =
    elim (Option-cases
      (find (λ (u : UploadRequest). u.id == pk && not (locked u.id)) store.uploads)) [
        | inl e ↦ rw (delete_one, e) (inl refl)
        | inr (upload, e) ↦
            elim (Bool-cases (
              is_some (tombstone_of category upload)
              || not (eligible_locked upload category now expected store))) [
                | inl stop ↦ rw (delete_one, e, stop) (inl refl)
                | inr go ↦ elim (Option-cases (key_of category upload)) [
                  | inl k ↦ rw (delete_one, e, go, k) (inl refl)
                  | inr (key, k) ↦
                      rw (delete_one, e, go, k)
                        (delete_locked-IsSafe organization_of deletes locked pk category now
                          expected upload key store e k (ground arith) (ground arith))
                ]
              ]
      ]
