-- ===== src/Jobs/Exits.antt =====
-- engine/workflows/jobs.ts: the ways out that are always open, and the ones that a deadline closes.
use forge_ai.Prelude.{ℕ, ◌≤◌, ◌≡◌, ◌≢◌, refl, true, false, Option, none, arith, ok, ◌||◌, [], ◌∷◌}
use forge_ai.Contracts.Primitives.{max_safe}
use forge_ai.Contracts.Review.{Hashing}
use forge_ai.Jobs.{
  cancelling, cancelled, failed, succeeded, expired, Job, Transition, ApprovalProof, is_terminal,
  is_review, cancel, cleanup, job_schema, transition_schema, conflicts, allowed, deadline_passed,
  apply_transition, transition_job, has_state,
}
use forge_ai.Jobs.Runs.{Run, start, step}
use forge_ai.Jobs.Outcomes.{transition_job-ok_iff, transition_job-Accepted}

-- A request that is at the job's version, at a time not before the last one, with no elapsed time.
pub record IsCurrent (j : Job) (t : Transition) : Type 0 where
  pub well_formed : job_schema j ≡ true
  pub request_ok : transition_schema t ≡ true
  pub current : t.expected_state_version ≡ j.state_version
  pub room : j.state_version ≢ max_safe
  pub forward : j.updated_at.instant ≤ t.now.instant
  pub paused : t.elapsed_active_ms ≡ 0
  pub no_review : t.next_review_digest ≡ none

-- An accepted request keeps the cancellation mark.
transition_job-cancel_requested :
    (h : Hashing) (j : Job) (t : Transition) (p : Option ApprovalProof) (k : Job)
    → transition_job h j t p ≡ ok k
    → j.cancel_requested ≡ true
    → k.cancel_requested ≡ true
unfolding apply_transition
transition_job-cancel_requested h j t p k e m =
    let (a, q) = transition_job-Accepted h j t p k e in rw a.result (ground (arith, m))

Run-cancel_requested :
    {h : Hashing} {j k : Job} {n : ℕ}
    → Run h j n k
    → j.cancel_requested ≡ true
    → k.cancel_requested ≡ true
Run-cancel_requested start m = m
Run-cancel_requested {h} (step {k = k} {l = l} t p r e) m =
    transition_job-cancel_requested h k t p l e (Run-cancel_requested r m)

module _ (h : Hashing) (j : Job) (t : Transition) (p : Option ApprovalProof) where
  accept :
      IsCurrent j t
      → is_terminal j.state ≡ false
      → is_review t.target ≡ false
      → allowed h j t p ≡ ok true
      → transition_job h j t p ≡ ok (apply_transition j t)
  unfolding conflicts
  accept c live target e = (transition_job-ok_iff h j t p (apply_transition j t)).1 (record {
    well_formed = c.well_formed;
    request_ok = c.request_ok;
    no_conflict = ground (arith, c.current, c.room, c.forward);
    not_paused = ground (arith, c.paused);
    permitted = e;
    review_bound = ground (arith, c.no_review);
    in_calendar = rw target refl;
    result = refl;
  })

  -- A current request cancels a well-formed job in any live state but CANCELLING, whatever the job's
  -- deadlines, its budget and its review are; and the job carries the cancellation mark after every run of
  -- accepted requests from there.
  pub transition_job-cancel :
      (n : ℕ) (k : Job)
      → IsCurrent j t
      → is_terminal j.state ≡ false
      → j.state ≢ cancelling
      → t.target ≡ cancelling
      → t.reason ≡ cancel
      → Run h (apply_transition j t) n k
      → (transition_job h j t p ≡ ok (apply_transition j t)) × (k.cancel_requested ≡ true)
  unfolding allowed apply_transition
  transition_job-cancel n k c live open_ to why r =
      (accept c live (rw to) (ground arith), Run-cancel_requested r (ground arith))

  -- From CANCELLING the one accepted target is CANCELLED, on a confirmed cleanup.
  pub transition_job-cancelling :
      (k : Job)
      → j.state ≡ cancelling
      → transition_job h j t p ≡ ok k
      → (k.state ≡ cancelled) × (t.reason ≡ cleanup) × (t.resources_released ≡ true)
  unfolding allowed apply_transition
  transition_job-cancelling k s e =
      let (a, q) = transition_job-Accepted h j t p k e in rw a.result (ground (arith, a.permitted))

  -- No stage is completed and no review is passed once a deadline is over, the budget is spent or a
  -- cancellation is asked for: what is accepted then cancels, fails or expires the job, or ends its
  -- cancellation.
  pub transition_job-late :
      (k : Job)
      → (deadline_passed j t || j.cancel_requested) ≡ true
      → transition_job h j t p ≡ ok k
      → has_state (cancelling ∷ failed ∷ expired ∷ cancelled ∷ []) k.state ≡ true
  unfolding allowed apply_transition
  transition_job-late k late e =
      let (a, q) = transition_job-Accepted h j t p k e in rw a.result (ground (arith, a.permitted))

  allowed-released :
      allowed h j t p ≡ ok true
      → is_terminal t.target ≡ true
      → t.target ≢ succeeded
      → t.resources_released ≡ true
  unfolding allowed
  allowed-released e ended unpromoted = ground arith

  allowed-expired : allowed h j t p ≡ ok true → t.target ≡ expired → deadline_passed j t ≡ true
  unfolding allowed
  allowed-expired e over = ground arith

  -- A job ends other than by its promotion only when its resources are confirmed as released.
  pub transition_job-released :
      (k : Job)
      → is_terminal k.state ≡ true
      → k.state ≢ succeeded
      → transition_job h j t p ≡ ok k
      → t.resources_released ≡ true
  unfolding allowed apply_transition
  transition_job-released k ended unpromoted e =
      let (a, q) = transition_job-Accepted h j t p k e in
      allowed-released a.permitted (rw a.result at ended) (rw a.result at unpromoted)

  -- A job expires only when one of its deadlines is over or its active budget is spent.
  pub transition_job-expired :
      (k : Job) → k.state ≡ expired → transition_job h j t p ≡ ok k → deadline_passed j t ≡ true
  unfolding apply_transition
  transition_job-expired k over e =
      let (a, q) = transition_job-Accepted h j t p k e in
      allowed-expired a.permitted (rw a.result at over)
