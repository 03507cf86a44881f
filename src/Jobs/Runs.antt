-- ===== src/Jobs/Runs.antt =====
-- engine/workflows/jobs.ts: what holds of every sequence of accepted requests.
use forge_ai.Prelude.{
  ℕ, suc, ◌+◌, ◌*◌, ◌-◌, ◌<◌, ◌≤◌, ◌≡◌, ◌≢◌, if◌then◌else◌, ap, false, Option, arith, ok,
}
use forge_ai.Contracts.Review.{Hashing}
use forge_ai.Jobs.{
  JobState, queued, planning, awaiting_plan_approval, generating, validating,
  awaiting_execution_approval, provisioning, verifying, repairing, preparing_preview,
  awaiting_promotion, cancelling, Job, Transition, ApprovalProof, is_terminal, transition_job,
  apply_transition, same_state,
}
use forge_ai.Jobs.WellFormed.{job_schema→WellFormed}
use forge_ai.Jobs.Outcomes.{transition_job-Accepted}
use forge_ai.Jobs.Terminal.{
  ◌⟶◌, transition_job-⟶, plan, resume, planned, plan_approved, generated, validated, rejected,
  execution_approved, provisioned, verified, broken, repaired, previewed, promoted, cancel, fail,
  expire, cleaned, live,
}

-- `n` accepted requests lead from the first job to the second.
pub data Run (h : Hashing) (j : Job) : ℕ → Job → Type 0 where
  start : Run h j 0 j
  step :
      {n : ℕ} {k l : Job} (t : Transition) (p : Option ApprovalProof)
      → Run h j n k
      → transition_job h k t p ≡ ok l
      → Run h j (suc n) l

-- How many requests may still follow, repairs aside.
abbrev distance : JobState → ℕ
distance queued = 11
distance planning = 10
distance awaiting_plan_approval = 9
distance generating = 8
distance repairing = 8
distance validating = 7
distance awaiting_execution_approval = 6
distance provisioning = 5
distance verifying = 4
distance preparing_preview = 3
distance awaiting_promotion = 2
distance cancelling = 1
distance _ = 0

abbrev pub remaining : Job → ℕ
remaining j = distance j.state + 5 * (2 - j.repair_count)

-- The repairs that an edge adds.
abbrev repair_step : JobState → ℕ
repair_step repairing = 1
repair_step _ = 0

live_distance : (s : JobState) → is_terminal s ≡ false → s ≢ cancelling → 1 < distance s
live_distance s o c = ground arith

distance_falls :
    (a b : JobState) (r : ℕ)
    → a ⟶ b
    → r + repair_step b ≤ 2
    → distance b + 5 * (2 - (r + repair_step b)) < distance a + 5 * (2 - r)
distance_falls _ _ r plan h = omega arith
distance_falls _ _ r resume h = omega arith
distance_falls _ _ r planned h = omega arith
distance_falls _ _ r plan_approved h = omega arith
distance_falls _ _ r generated h = omega arith
distance_falls _ _ r validated h = omega arith
distance_falls _ _ r rejected h = omega arith
distance_falls _ _ r execution_approved h = omega arith
distance_falls _ _ r provisioned h = omega arith
distance_falls _ _ r verified h = omega arith
distance_falls _ _ r broken h = omega arith
distance_falls _ _ r repaired h = omega arith
distance_falls _ _ r previewed h = omega arith
distance_falls _ _ r promoted h = omega arith
distance_falls _ _ r (cancel {s = s} (live o c)) h = omega (arith, live_distance s o c)
distance_falls _ _ r (fail {s = s} (live o c)) h = omega (arith, live_distance s o c)
distance_falls _ _ r (expire {s = s} (live o c)) h = omega (arith, live_distance s o c)
distance_falls _ _ r cleaned h = omega arith

repairs_eq : (b : JobState) → (if same_state b repairing then 1 else 0) ≡ repair_step b
repairs_eq b = ground arith

-- Each accepted request brings the job nearer to its end.
pub transition_job-remaining :
    (h : Hashing) (j : Job) (t : Transition) (p : Option ApprovalProof) (k : Job)
    → transition_job h j t p ≡ ok k
    → remaining k < remaining j
unfolding apply_transition
transition_job-remaining h j t p k e =
    let (a, q) = transition_job-Accepted h j t p k e in
    let w = job_schema→WellFormed k q in
    let counted : k.repair_count ≡ j.repair_count + repair_step k.state =
      rw a.result (ap (λ n. j.repair_count + n) (repairs_eq t.target)) in
    let fell =
      distance_falls j.state k.state j.repair_count (transition_job-⟶ h j t p k e)
        (omega (arith, counted, w.repairs)) in
    rw counted fell

distance-le : (s : JobState) → distance s ≤ 11
distance-le s = ground arith

pub Run-remaining : {h : Hashing} {j k : Job} {n : ℕ} → Run h j n k → n + remaining k ≤ remaining j
Run-remaining start = omega arith
Run-remaining {h} (step {k = k} {l = l} t p r e) =
    omega (arith, Run-remaining r, transition_job-remaining h k t p l e)

-- A job takes at most 21 accepted requests, whatever the requests are; so it cannot be driven forever.
pub Run_bounded : {h : Hashing} {j k : Job} {n : ℕ} → Run h j n k → n ≤ 21
Run_bounded {j} r = omega (arith, Run-remaining r, distance-le j.state)
