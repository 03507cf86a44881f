-- ===== src/Jobs/Success.antt =====
-- engine/workflows/jobs.ts: no job succeeds without its reviews.
use forge_ai.Prelude.{
  ℕ, ◌≡◌, refl, sym, ap, ◌∙◌, ◌⊎◌, inl, inr, Bool, true, false, Option, arith, ok,
}
use forge_ai.Contracts.Review.{Hashing}
use forge_ai.Jobs.{
  JobState, queued, awaiting_plan_approval, generating, validating, awaiting_execution_approval,
  provisioning, verifying, repairing, preparing_preview, awaiting_promotion, succeeded, Job,
  JobKind, generate, restore, Transition, ApprovalProof, is_review, transition_job, allowed,
  edge_allowed, apply_transition,
}
use forge_ai.Jobs.Outcomes.{transition_job-Advances, transition_job-Accepted}
use forge_ai.Jobs.Approvals.{Granted, transition_job-Granted}
use forge_ai.Jobs.Terminal.{◌⟶◌, transition_job-⟶, resume}
use forge_ai.Jobs.Runs.{Run, start, step}

-- One of the requests of the run left the review `s` with a granted approval.
abbrev pub Passed : {h : Hashing} {j : Job} {n : ℕ} {k : Job} → JobState → Run h j n k → Type 0
Passed s start = ⊥
Passed {h} s (step {k = k} t p r e) = Passed s r ⊎ ((k.state ≡ s) × Granted h k t p)

-- The states that a generated job reaches only through the review of its plan.
abbrev needs_plan : JobKind → JobState → Bool
needs_plan restore _ = false
needs_plan generate generating = true
needs_plan generate validating = true
needs_plan generate awaiting_execution_approval = true
needs_plan generate provisioning = true
needs_plan generate verifying = true
needs_plan generate repairing = true
needs_plan generate preparing_preview = true
needs_plan generate awaiting_promotion = true
needs_plan generate succeeded = true
needs_plan generate _ = false

-- The states behind the review of the execution.
abbrev needs_execution : JobState → Bool
needs_execution provisioning = true
needs_execution verifying = true
needs_execution preparing_preview = true
needs_execution awaiting_promotion = true
needs_execution succeeded = true
needs_execution _ = false

abbrev needs_promotion : JobState → Bool
needs_promotion succeeded = true
needs_promotion _ = false

allowed-validating :
    (h : Hashing) (j : Job) (t : Transition) (p : Option ApprovalProof)
    → allowed h j t p ≡ ok true
    → j.state ≡ queued
    → t.target ≡ validating
    → j.kind ≡ restore
unfolding allowed edge_allowed
allowed-validating h j t p e q v = ground arith

-- Only a restoration skips the plan.
transition_job-validating :
    (h : Hashing) (j : Job) (t : Transition) (p : Option ApprovalProof) (k : Job)
    → transition_job h j t p ≡ ok k
    → j.state ≡ queued
    → k.state ≡ validating
    → j.kind ≡ restore
unfolding apply_transition
transition_job-validating h j t p k e q v =
    let (a, good) = transition_job-Accepted h j t p k e in
    allowed-validating h j t p a.permitted q (rw a.result at v)

needs_plan-step :
    (i : JobKind) {a b : JobState}
    → a ⟶ b
    → (a ≡ queued → b ≡ validating → i ≡ restore)
    → needs_plan i b ≡ true
    → (needs_plan i a ≡ true) ⊎ (a ≡ awaiting_plan_approval)
needs_plan-step restore g f n = cc
needs_plan-step generate resume f n = ground (arith, f refl refl)
needs_plan-step generate _ f n = ground arith

needs_execution-step :
    {a b : JobState}
    → a ⟶ b
    → needs_execution b ≡ true
    → (needs_execution a ≡ true) ⊎ (a ≡ awaiting_execution_approval)
needs_execution-step resume n = ground arith
needs_execution-step _ n = ground arith

needs_promotion-step : {a b : JobState} → a ⟶ b → needs_promotion b ≡ true → a ≡ awaiting_promotion
needs_promotion-step resume n = ground arith
needs_promotion-step _ n = ground arith

-- What a request does to a review, from the state that it reaches.
leaves_review :
    (h : Hashing) (j : Job) (t : Transition) (p : Option ApprovalProof) (k : Job) (s : JobState)
    → transition_job h j t p ≡ ok k
    → is_review s ≡ true
    → needs_plan generate k.state ≡ true
    → j.state ≡ s
    → (j.state ≡ s) × Granted h j t p
leaves_review h j t p k s e r n at_s = (
  at_s,
  transition_job-Granted h j t p k (ap is_review at_s ∙ r) (λ c. ground arith) (λ c. ground arith)
      (λ c. ground arith) e,
)

-- The reviews that lie behind the state reached.
record Cleared {h : Hashing} {j : Job} {n : ℕ} {k : Job} (r : Run h j n k) : Type 0 where
  plan : needs_plan j.kind k.state ≡ true → Passed awaiting_plan_approval r
  execution : needs_execution k.state ≡ true → Passed awaiting_execution_approval r
  promotion : needs_promotion k.state ≡ true → Passed awaiting_promotion r

Run-kind : {h : Hashing} {j k : Job} {n : ℕ} → Run h j n k → k.kind ≡ j.kind
Run-kind start = refl
Run-kind {h} (step {k = k} {l = l} t p r e) =
    (transition_job-Advances h k t p l e).0.kind ∙ Run-kind r

behind : (i : JobKind) (s : JobState) → needs_plan i s ≡ true → needs_plan generate s ≡ true
behind i s e = ground arith

behind_execution : (s : JobState) → needs_execution s ≡ true → needs_plan generate s ≡ true
behind_execution s e = ground arith

behind_promotion : (s : JobState) → needs_promotion s ≡ true → needs_plan generate s ≡ true
behind_promotion s e = ground arith

Run-Cleared : {h : Hashing} {j k : Job} {n : ℕ} → j.state ≡ queued → (r : Run h j n k) → Cleared r
Run-Cleared q start = record {
  plan = λ e. ground arith;
  execution = λ e. ground arith;
  promotion = λ e. ground arith;
}
Run-Cleared {h} {j} q (step {k = k} {l = l} t p r e) =
    let before = Run-Cleared q r in
    let edge = transition_job-⟶ h k t p l e in
    let same : k.kind ≡ j.kind = Run-kind r in
    record {
      plan = λ n.
          elim (needs_plan-step j.kind edge
            (λ a b. sym same ∙ transition_job-validating h k t p l e a b) n) [
              | inl earlier ↦ inl (before.plan earlier)
              | inr here ↦ inr (leaves_review h k t p l _ e refl (behind j.kind l.state n) here)
            ];
      execution = λ n. elim (needs_execution-step edge n) [
        | inl earlier ↦ inl (before.execution earlier)
        | inr here ↦ inr (leaves_review h k t p l _ e refl (behind_execution l.state n) here)
      ];
      promotion = λ n. inr (
          leaves_review h k t p l _ e refl (behind_promotion l.state n)
            (needs_promotion-step edge n));
    }

-- Every run from the queue to SUCCEEDED left the review of the execution and the review of the
-- promotion, each with an approving approval that was granted for it.
pub Run-succeeded :
    {h : Hashing} {j k : Job} {n : ℕ} (r : Run h j n k)
    → j.state ≡ queued
    → k.state ≡ succeeded
    → Passed awaiting_execution_approval r × Passed awaiting_promotion r
Run-succeeded r q s = let c = Run-Cleared q r in (c.execution (rw s refl), c.promotion (rw s refl))

-- Every run of a generation from the queue to SUCCEEDED left the review of the plan, with an approving
-- approval that was granted for it.
pub Run-succeeded_plan :
    {h : Hashing} {j k : Job} {n : ℕ} (r : Run h j n k)
    → j.kind ≡ generate
    → j.state ≡ queued
    → k.state ≡ succeeded
    → Passed awaiting_plan_approval r
Run-succeeded_plan r g q s = (Run-Cleared q r).plan (rw (g, s) refl)
