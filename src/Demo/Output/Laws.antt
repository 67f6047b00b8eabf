-- ===== src/Demo/Output/Laws.antt =====
-- What holds of every history of saves of a result row of an issuance (demo/models.py), whatever
-- columns the saves name and whatever capabilities they hold.
use mathlib.Core.Path.{subst}
use splitbind.Base.{
  ℕ, ◌≡◌, refl, ◌∙◌, sym, ◌≢◌, ◌⊎◌, inl, inr, ◌≤◌, Bool, true, false, arith, ok, if◌then◌else◌,
  >>-eq-ok, guard-eq-ok, ok-inv, &&-inv, is_some, not, ◌==◌, opt_eq, Option, none, some,
}
use splitbind.Jobs.State.{Job}
use splitbind.Model.Keys.Laws.{key_eq_iff}
use splitbind.Model.Rows.{Issuance}
use splitbind.Worker.Db.{
  DemoIssuanceResult, DemoOutputState, reserved, uploading, committed, cleanup_required, cleaned,
}
use splitbind.Demo.Output.{
  ResultColumn, save_result, write_result, satisfies_constraints, check_identity, check_transition,
  same_identity, recovery_transfer, allowed_transitions, passes_committed, unless_null, in_range,
  text_is, texts_eq, is_accepted_candidate, demo_algorithm_label, demo_limitations,
  demo_max_committed_pages,
}

-- What a save that was accepted has passed.
pub record IsPassed (transfer : Bool) (names : ResultColumn → Bool)
    (old new row : DemoIssuanceResult) : Type 0 where
  pub identity : check_identity transfer old new ≡ ok tt
  pub step : check_transition old.output_state new.output_state ≡ ok tt
  pub constraints : satisfies_constraints row ≡ true
  pub written : write_result names old new ≡ row

pub save_result-IsPassed :
    (allowed transfer : Bool) (names : ResultColumn → Bool) (job : Job) (issuance : Issuance)
    (old new row : DemoIssuanceResult)
    → save_result allowed transfer names job issuance old new ≡ ok row
    → IsPassed transfer names old new row
unfolding save_result
save_result-IsPassed allowed transfer names job issuance old new row e =
    let written = >>-eq-ok _ _ e in
    let constraints = >>-eq-ok _ _ written.0 in
    let cleaned = >>-eq-ok _ _ constraints.0 in
    let organization = >>-eq-ok _ _ cleaned.0 in
    let step = >>-eq-ok _ _ organization.0 in
    let identity = >>-eq-ok _ _ step.0 in
    let same = ok-inv written.1 in
    record {
      identity = identity.1;
      step = step.1;
      constraints =
          subst (λ r. satisfies_constraints r ≡ true) same (guard-eq-ok _ _ constraints.1);
      written = same;
    }

owner_kept :
    (transfer : Bool) (old new : DemoIssuanceResult)
    → check_identity transfer old new ≡ ok tt
    → (new.owner_token ≡ old.owner_token)
      ⊎ (recovery_transfer transfer old.output_state new.output_state ≡ true)
unfolding check_identity
owner_kept transfer old new e = ground arith

step_allowed :
    (old new : DemoOutputState)
    → check_transition old new ≡ ok tt
    → (old ≢ committed) × (allowed_transitions old new ≡ true)
unfolding check_transition
step_allowed old new e = ground arith

-- Row after row, by saves that were accepted, with the recovery capability or without it.
pub data History (transfer : Bool) (r : DemoIssuanceResult) : DemoIssuanceResult → Type 0 where
  here : History transfer r r
  saved :
      {old : DemoIssuanceResult} (row : DemoIssuanceResult) (allowed : Bool)
      (names : ResultColumn → Bool) (job : Job) (issuance : Issuance) (new : DemoIssuanceResult)
      → History transfer r old
      → save_result allowed transfer names job issuance old new ≡ ok row
      → History transfer r row

-- how far a row has come
unfoldable pub progress : DemoOutputState → ℕ
progress reserved = 0
progress uploading = 1
progress cleanup_required = 2
progress cleaned = 3
progress committed = 3

progress_step :
    (old new : DemoOutputState)
    → check_transition old new ≡ ok tt
    → (progress old ≤ progress new) × (new ≡ committed → old ≡ uploading)
unfolding check_transition progress
progress_step old new e = ground arith

written_state :
    (names : ResultColumn → Bool) (old new : DemoIssuanceResult)
    → ((write_result names old new).output_state ≡ old.output_state)
      ⊎ ((write_result names old new).output_state ≡ new.output_state)
unfolding write_result
written_state names old new = ground arith

written_owner :
    (names : ResultColumn → Bool) (old new : DemoIssuanceResult)
    → ((write_result names old new).owner_token ≡ old.owner_token)
      ⊎ ((write_result names old new).owner_token ≡ new.owner_token)
unfolding write_result
written_owner names old new = ground arith

-- the columns that no save changes
pub record IsSameRow (r row : DemoIssuanceResult) : Type 0 where
  pub organization : row.organization_id ≡ r.organization_id
  pub job : row.job_id ≡ r.job_id
  pub issuance : row.issuance_id ≡ r.issuance_id
  pub attempt : row.attempt ≡ r.attempt
  pub key : row.output_object_key ≡ r.output_object_key

kept_column {ℓ} :
    {A : Type ℓ} (name : Bool) (new old first : A)
    → new ≡ old
    → old ≡ first
    → (if name then new else old) ≡ first
kept_column true new old first e f = e ∙ f
kept_column false new old first e f = f

-- the columns that a row and an instance share
record IsSameInstance (new old : DemoIssuanceResult) : Type 0 where
  organization : new.organization_id ≡ old.organization_id
  job : new.job_id ≡ old.job_id
  issuance : new.issuance_id ≡ old.issuance_id
  attempt : new.attempt ≡ old.attempt
  key : new.output_object_key ≡ old.output_object_key

same_identity-IsSameInstance :
    (new old : DemoIssuanceResult) → same_identity new old ≡ true → IsSameInstance new old
unfolding same_identity
same_identity-IsSameInstance new old e = record {
  organization = ground arith;
  job = ground arith;
  issuance = ground arith;
  attempt = ground arith;
  key = (key_eq_iff new.output_object_key old.output_object_key).0 (ground arith);
}

identity_passed :
    (transfer : Bool) (old new : DemoIssuanceResult)
    → check_identity transfer old new ≡ ok tt
    → same_identity new old ≡ true
unfolding check_identity
identity_passed transfer old new e = ground arith

write_result-IsSameRow :
    (names : ResultColumn → Bool) (r old new : DemoIssuanceResult)
    → IsSameInstance new old
    → IsSameRow r old
    → IsSameRow r (write_result names old new)
unfolding write_result
write_result-IsSameRow names r old new i s = record {
  organization =
      kept_column (names ResultColumn.organization_id) new.organization_id old.organization_id
        r.organization_id i.organization s.organization;
  job = kept_column (names ResultColumn.job_id) new.job_id old.job_id r.job_id i.job s.job;
  issuance =
      kept_column (names ResultColumn.issuance_id) new.issuance_id old.issuance_id r.issuance_id
        i.issuance s.issuance;
  attempt =
      kept_column (names ResultColumn.attempt) new.attempt old.attempt r.attempt i.attempt
        s.attempt;
  key =
      kept_column (names ResultColumn.output_object_key) new.output_object_key old.output_object_key
        r.output_object_key i.key s.key;
}

-- Whatever is saved, a result row keeps its organization, job, issuance, attempt and output key, it
-- never goes back to an earlier state, and once committed it does not change at all.
pub History-IsSameRow :
    {transfer : Bool} {r row : DemoIssuanceResult}
    → History transfer r row
    → IsSameRow r row
      × (progress r.output_state ≤ progress row.output_state)
      × (r.output_state ≡ committed → row ≡ r)
History-IsSameRow here = (
  record { organization = refl; job = refl; issuance = refl; attempt = refl; key = refl },
  omega arith,
  λ c. refl,
)
History-IsSameRow {transfer} {r} (saved {old} row allowed names job issuance new h e) =
    let p = save_result-IsPassed allowed transfer names job issuance old new row e in
    let (kept, past, fixed) = History-IsSameRow h in
    let i = same_identity-IsSameInstance new old (identity_passed transfer old new p.identity) in
    let forward = (progress_step old.output_state new.output_state p.step).0 in
    (
      subst (λ x. IsSameRow r x) p.written (write_result-IsSameRow names r old new i kept),
      subst (λ x. progress r.output_state ≤ progress x.output_state) p.written
          (elim (written_state names old new) [
            | inl same ↦ subst (λ s. progress r.output_state ≤ progress s) (sym same) past
            | inr same ↦
                subst (λ s. progress r.output_state ≤ progress s) (sym same)
                  (omega (arith, past, forward))
          ]),
      λ c. absurd (
          (step_allowed old.output_state new.output_state p.step).0
            (subst (λ o. o.output_state ≡ committed) (sym (fixed c)) c)),
    )

transfer_needed : (old new : DemoOutputState) → recovery_transfer false old new ≡ true → ⊥
unfolding recovery_transfer
transfer_needed old new e = cc

-- Without the capability of the recovery no history of saves gives a result row to another owner.
pub owner_without_transfer :
    {r row : DemoIssuanceResult} → History false r row → row.owner_token ≡ r.owner_token
owner_without_transfer here = refl
owner_without_transfer {r} (saved {old} row allowed names job issuance new h e) =
    let p = save_result-IsPassed allowed false names job issuance old new row e in
    let kept : new.owner_token ≡ old.owner_token = elim (owner_kept false old new p.identity) [
      | inl same ↦ same
      | inr moved ↦ absurd (transfer_needed old.output_state new.output_state moved)
    ] in
    subst (λ x. x.owner_token ≡ r.owner_token) p.written
      (elim (written_owner names old new) [
        | inl same ↦ same ∙ owner_without_transfer h
        | inr same ↦ same ∙ kept ∙ owner_without_transfer h
      ])

-- Some row of the history is in the state.
abbrev pub Visited :
    DemoOutputState
    → {transfer : Bool} {r row : DemoIssuanceResult} → History transfer r row
    → Type 0
Visited s {r = r} here = r.output_state ≡ s
Visited s (saved row allowed names job issuance new h e) = (row.output_state ≡ s) ⊎ Visited s h

Visited-last :
    (s : DemoOutputState) {transfer : Bool} {r row : DemoIssuanceResult}
    (h : History transfer r row)
    → row.output_state ≡ s
    → Visited s h
Visited-last s here e = e
Visited-last s (saved row allowed names job issuance new h e) same = inl same

-- What the table asks of a committed row. It refuses no row for a label, a candidate, a canvas or a page
-- count that is NULL.
pub record IsCommittedRow (row : DemoIssuanceResult) : Type 0 where
  pub digests : (is_some row.input_sha256 ≡ true) × (is_some row.output_sha256 ≡ true)
  pub timed : is_some row.processing_ms ≡ true
  pub labelled :
      (row.algorithm_label ≡ none) ⊎ (text_is demo_algorithm_label row.algorithm_label ≡ true)
  pub candidate :
      (row.candidate_identifier ≡ none) ⊎ (is_accepted_candidate row.candidate_identifier ≡ true)
  pub canvas :
      ((row.canvas_height ≡ none) ⊎ (row.canvas_height ≡ some 2304))
      × ((row.canvas_width ≡ none) ⊎ (row.canvas_width ≡ some 1152))
  pub pages : (n : ℕ) → row.page_count ≡ some n → (1 ≤ n) × (n ≤ demo_max_committed_pages)
  pub limited : texts_eq row.limitations demo_limitations ≡ true
  pub clean : (row.cleanup_failures ≡ 0) × (row.safe_error_code ≡ none)

null_or :
    {A : Type 0} (o : Option A) (test : Bool)
    → unless_null o test ≡ true
    → (o ≡ none) ⊎ (test ≡ true)
null_or none test e = inl refl
null_or (some a) test e = inr e

null_or_some :
    (o : Option ℕ) (n : ℕ) → unless_null o (opt_eq o (some n)) ≡ true → (o ≡ none) ⊎ (o ≡ some n)
null_or_some none n e = inl refl
null_or_some (some a) n e = inr (ground (arith, e))

paged :
    (o : Option ℕ) (low high n : ℕ)
    → unless_null o (in_range low high o) ≡ true
    → o ≡ some n
    → (low ≤ n) × (n ≤ high)
paged none low high n e same = absurd (cc same)
paged (some m) low high n e same = ground (arith, e, same)

no_text : {A : Type 0} (o : Option A) → not (is_some o) ≡ true → o ≡ none
no_text none e = refl
no_text (some a) e = absurd (cc e)

passes_committed-IsCommittedRow :
    (row : DemoIssuanceResult) → passes_committed row ≡ true → IsCommittedRow row
unfolding passes_committed
passes_committed-IsCommittedRow row e =
    let (labelled, e1) = &&-inv _ _ e in
    let (candidate, e2) = &&-inv _ _ e1 in
    let (height, e3) = &&-inv _ _ e2 in
    let (width, e4) = &&-inv _ _ e3 in
    let (input, e5) = &&-inv _ _ e4 in
    let (output, e6) = &&-inv _ _ e5 in
    let (pages, e7) = &&-inv _ _ e6 in
    let (timed, e8) = &&-inv _ _ e7 in
    let (limited, e9) = &&-inv _ _ e8 in
    let (failures, code) =
      &&-inv (row.cleanup_failures == 0) (not (is_some row.safe_error_code)) e9 in
    record {
      digests = (input, output);
      timed = timed;
      labelled = null_or row.algorithm_label _ labelled;
      candidate = null_or row.candidate_identifier _ candidate;
      canvas = (null_or_some row.canvas_height _ height, null_or_some row.canvas_width _ width);
      pages = λ n. paged row.page_count 1 demo_max_committed_pages n pages;
      limited = limited;
      clean = (ground (arith, failures), no_text row.safe_error_code code);
    }

committed_passes :
    (row : DemoIssuanceResult)
    → satisfies_constraints row ≡ true
    → row.output_state ≡ committed
    → passes_committed row ≡ true
unfolding satisfies_constraints
committed_passes row e c = ground (arith, e, c)

-- A row that is committed in the end, and was not at first, was in uploading on the way, and it has both
-- digests and a processing time, the fixed limitations, no failed cleanup and no error code; its label,
-- its candidate, its canvas and its page count are the allowed ones or NULL, which the table's check
-- does not refuse.
pub committed_was_uploading :
    {transfer : Bool} {r row : DemoIssuanceResult} (h : History transfer r row)
    → r.output_state ≢ committed
    → row.output_state ≡ committed
    → Visited uploading h × IsCommittedRow row
committed_was_uploading here n c = absurd (n c)
committed_was_uploading {transfer} {r} (saved {old} row allowed names job issuance new h e) n c =
    let p = save_result-IsPassed allowed transfer names job issuance old new row e in
    let s = step_allowed old.output_state new.output_state p.step in
    let state : (write_result names old new).output_state ≡ committed =
      subst (λ x. x.output_state ≡ committed) (sym p.written) c in
    (
      elim (written_state names old new) [
        | inl same ↦ absurd (s.0 (sym same ∙ state))
        | inr same ↦ inr (
            Visited-last uploading h
              ((progress_step old.output_state new.output_state p.step).1 (sym same ∙ state)))
      ],
      passes_committed-IsCommittedRow row (committed_passes row p.constraints c),
    )
