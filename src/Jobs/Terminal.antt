-- ===== src/Jobs/Terminal.antt =====
-- engine/workflows/jobs.ts: the diagram that the reducer follows, and its ends.
use forge_ai.Prelude.{
  ◌≡◌, ◌≢◌, true, false, Option, arith, ok, err, Bool-cases, inl, inr, invalid, state_conflict, ◌⊎◌,
}
use forge_ai.Contracts.Review.{Hashing}
use forge_ai.Jobs.{
  JobState, queued, planning, awaiting_plan_approval, generating, validating,
  awaiting_execution_approval, provisioning, verifying, repairing, preparing_preview,
  awaiting_promotion, cancelling, succeeded, failed, cancelled, expired, Job, Transition,
  ApprovalProof, is_terminal, has_state, edges, allowed, transition_job, apply_transition,
  conflicts, transition_schema, job_schema,
}
use forge_ai.Jobs.Outcomes.{transition_job-Accepted}

-- The states that work happens in or waits in.
pub data IsLive : JobState → Type 0 where
  live : {s : JobState} → is_terminal s ≡ false → s ≢ cancelling → IsLive s

-- The job diagram: the stages, the repair loop, and the three ways out of every live state.
infix 40 ◌⟶◌
pub data ◌⟶◌ : JobState → JobState → Type 0 where
  plan : queued ⟶ planning
  resume : queued ⟶ validating
  planned : planning ⟶ awaiting_plan_approval
  plan_approved : awaiting_plan_approval ⟶ generating
  generated : generating ⟶ validating
  validated : validating ⟶ awaiting_execution_approval
  rejected : validating ⟶ repairing
  execution_approved : awaiting_execution_approval ⟶ provisioning
  provisioned : provisioning ⟶ verifying
  verified : verifying ⟶ preparing_preview
  broken : verifying ⟶ repairing
  repaired : repairing ⟶ validating
  previewed : preparing_preview ⟶ awaiting_promotion
  promoted : awaiting_promotion ⟶ succeeded
  cancel : {s : JobState} → IsLive s → s ⟶ cancelling
  fail : {s : JobState} → IsLive s → s ⟶ failed
  expire : {s : JobState} → IsLive s → s ⟶ expired
  cleaned : cancelling ⟶ cancelled

ruleset steps = (
  plan, resume, planned, plan_approved, generated, validated, rejected, execution_approved,
  provisioned, verified, broken, repaired, previewed, promoted, cleaned,
)

has_state-⟶ : (a b : JobState) → has_state (edges a) b ≡ true → a ⟶ b
has_state-⟶ queued b e = grind (arith, steps)
has_state-⟶ a b e = grind (arith, steps)

-- The branches of the reducer that can permit a request.
pub allowed-cases :
    (h : Hashing) (j : Job) (t : Transition) (p : Option ApprovalProof)
    → allowed h j t p ≡ ok true
    → ((j.state ≡ cancelling) × (t.target ≡ cancelled))
      ⊎ ((j.state ≢ cancelling)
          × ((t.target ≡ cancelling)
              ⊎ ((t.target ≡ failed)
                  ⊎ ((t.target ≡ expired) ⊎ (has_state (edges j.state) t.target ≡ true)))))
unfolding allowed
allowed-cases h j t p e = ground arith

allowed-⟶ :
    (h : Hashing) (j : Job) (t : Transition) (p : Option ApprovalProof)
    → is_terminal j.state ≡ false
    → allowed h j t p ≡ ok true
    → j.state ⟶ t.target
allowed-⟶ h j t p l e = elim (allowed-cases h j t p e) [
  | inl (from, to) ↦ rw (from, to) cleaned
  | inr (alive, inl to) ↦ rw to (cancel (live l alive))
  | inr (alive, inr (inl to)) ↦ rw to (fail (live l alive))
  | inr (alive, inr (inr (inl to))) ↦ rw to (expire (live l alive))
  | inr (alive, inr (inr (inr on))) ↦ has_state-⟶ j.state t.target on
]

-- Every accepted request follows an edge of the job diagram.
pub transition_job-⟶ :
    (h : Hashing) (j : Job) (t : Transition) (p : Option ApprovalProof) (k : Job)
    → transition_job h j t p ≡ ok k
    → j.state ⟶ k.state
unfolding apply_transition conflicts
transition_job-⟶ h j t p k e =
    let (a, q) = transition_job-Accepted h j t p k e in
    let open_state : is_terminal j.state ≡ false = ground (arith, a.no_conflict) in
    rw a.result (allowed-⟶ h j t p open_state a.permitted)

-- A finished job takes no request: whatever is asked of it, the answer is an error.
pub transition_job_terminal :
    (h : Hashing) (j : Job) (t : Transition) (p : Option ApprovalProof)
    → is_terminal j.state ≡ true
    → (transition_job h j t p ≡ err state_conflict) ⊎ (transition_job h j t p ≡ err invalid)
unfolding transition_job conflicts
transition_job_terminal h j t p e = elim (Bool-cases (job_schema j)) [
  | inl good ↦ elim (Bool-cases (transition_schema t)) [
    | inl fine ↦ inl (rw good (rw fine (rw e)))
    | inr bad ↦ inr (rw good (rw bad))
  ]
  | inr bad ↦ inr (rw bad)
]
