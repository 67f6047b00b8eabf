-- ===== src/Jobs/Reach.antt =====
-- What holds of every history of accepted transitions of a job (jobs/state.py).
use splitbind.Base.{◌≡◌, refl, ◌≢◌, ◌↔◌, ◌⊎◌, inl, inr, Bool, true, false, some, ◌≤◌, arith, ok}
use splitbind.Jobs.State.{
  Job, JobStatus, processing, succeeded, failed, dead_lettered, cancelled, transition_job,
}

-- One job row after another, by transitions that were accepted.
pub data History (j : Job) : Job → Type 0 where
  here : History j j
  then :
      {k : Job} (l : Job) (t : JobStatus)
      → History j k
      → transition_job k (some t) ≡ ok l
      → History j l

abbrev pub is_terminal : JobStatus → Bool
is_terminal succeeded = true
is_terminal failed = true
is_terminal dead_lettered = true
is_terminal cancelled = true
is_terminal _ = false

-- Some row of the history has the status.
abbrev pub Visited : JobStatus → {j k : Job} → History j k → Type 0
Visited s {j} here = j.status ≡ s
Visited s (then l t h e) = (l.status ≡ s) ⊎ Visited s h

transition_of_terminal :
    (j k : Job) (t : JobStatus) → is_terminal j.status ≡ true → transition_job j (some t) ≡ ok k → ⊥
unfolding transition_job
transition_of_terminal j k t h e = ground arith

-- A succeeded, failed, dead-lettered or cancelled job is final: no history of accepted transitions
-- leads from it to another row.
pub terminal_absorbs : {j k : Job} → History j k → is_terminal j.status ≡ true → k ≡ j
terminal_absorbs here t = refl
terminal_absorbs {j} (then {k} l t h e) term =
    absurd (transition_of_terminal k l t (rw (terminal_absorbs h term) term) e)

-- A job in any status but the four final ones, with an attempt from 0 to 2, can be cancelled by one
-- transition, which changes its status and nothing else; and no other job can.
cancel_iff :
    (j : Job)
    → (transition_job j (some cancelled) ≡ ok (record j { status = cancelled }))
      ↔ ((j.attempt ≤ 2) × (is_terminal j.status ≡ false))
unfolding transition_job
cancel_iff j = (λ e. (ground arith, ground arith), λ h. ground arith)

succeeded_step :
    (j k : Job) (t : JobStatus)
    → transition_job j (some t) ≡ ok k
    → k.status ≡ succeeded
    → j.status ≡ processing
unfolding transition_job
succeeded_step j k t e s = ground arith

Visited-last : (s : JobStatus) {j k : Job} (h : History j k) → k.status ≡ s → Visited s h
Visited-last s here e = e
Visited-last s (then l t h e) e' = inl e'

-- A job that starts in a status other than succeeded and ends in succeeded was in processing on
-- the way, whatever transitions were taken.
pub succeeded_was_processing :
    {j k : Job} (h : History j k)
    → j.status ≢ succeeded
    → k.status ≡ succeeded
    → Visited processing h
succeeded_was_processing here n e = absurd (n e)
succeeded_was_processing (then {k} l t h e) n s =
    inr (Visited-last processing h (succeeded_step k l t e s))
