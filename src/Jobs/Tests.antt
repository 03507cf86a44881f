-- ===== src/Jobs/Tests.antt =====
-- engine/workflows/jobs.ts: a generation that runs from the queue to its promotion.
use forge_ai.Prelude.{
  ℕ, ◌≡◌, ◌≢◌, ◌≤◌, ◌⊎◌, ◌↔◌, refl, true, false, Option, none, some, [], ◌∷◌, ok, err, arith,
  state_conflict, invalid,
}
use forge_ai.Contracts.Primitives.{iso, required_checks, resources_schema}
use forge_ai.Contracts.Review.{
  ReviewKind, plan, execution, promotion, Subject, validate_approval, approval_schema,
  context_schema, subject_schema, refused, stale, out_of_scope, unbound, out_of_time,
  execution_schema, command_policy_schema, command_schema, argument_ok,
}
use forge_ai.Jobs.{
  JobState, queued, planning, awaiting_plan_approval, generating, validating,
  awaiting_execution_approval, provisioning, verifying, preparing_preview, awaiting_promotion,
  succeeded, cancelling, cancelled, failed, expired, Job, generate, Transition, Reason,
  stage_complete, approval, cancel, cleanup, timeout, ApprovalProof, job_schema, transition_schema,
  conflicts, allowed, approved, edge_allowed, context_matches, deadline_passed, apply_transition,
  transition_job, has_state,
}
use forge_ai.Jobs.Outcomes.{Accepted, Advances, transition_job-ok_iff, transition_job-Advances}
use forge_ai.Jobs.Terminal.{◌⟶◌, transition_job-⟶, transition_job_terminal}
use forge_ai.Jobs.Approvals.{Granted, transition_job-Granted}
use forge_ai.Jobs.Runs.{Run, start, step, Run_bounded}
use forge_ai.Jobs.Exits.{
  IsCurrent, transition_job-cancel, transition_job-cancelling, transition_job-late,
}
use forge_ai.Jobs.Success.{Passed, Run-succeeded, Run-succeeded_plan}
use forge_ai.Fixtures.{
  scope, hashing, approval_of, context_of, plan_subject, execution_subject, promotion_subject,
}

abbrev admitted : Job
admitted = record {
  scope = scope;
  kind = generate;
  state = queued;
  state_version = 1;
  base_revision = 1;
  base_snapshot_id = none;
  template_digest = 11;
  policy_digest = 7;
  created_at = iso 0;
  updated_at = iso 0;
  review_expires_at = none;
  review_digest = none;
  finished_at = none;
  repair_count = 0;
  active_remaining_ms = 1200000;
  cancel_requested = false;
}

abbrev request : JobState → ℕ → ℕ → Reason → Option ℕ → Transition
request target version now reason digest = record {
  target = target;
  expected_state_version = version;
  now = iso now;
  elapsed_active_ms = 0;
  resources_released = true;
  next_review_digest = digest;
  reason = reason;
}

abbrev proof_of : ReviewKind → Subject → ℕ → ℕ → ℕ → ℕ → Option ApprovalProof
proof_of kind subject digest version now deadline = some (record {
  approval = approval_of kind digest version now deadline;
  subject = subject;
  context = context_of kind digest version now deadline;
})

-- The job after each of its requests.
abbrev at : JobState → ℕ → ℕ → Option ℕ → Option ℕ → Option ℕ → Job
at state version now deadline digest finished = record admitted {
  state = state;
  state_version = version;
  updated_at = iso now;
  review_expires_at = elim deadline [ none ↦ none | some d ↦ some (iso d) ];
  review_digest = digest;
  finished_at = elim finished [ none ↦ none | some d ↦ some (iso d) ];
}

abbrev waiting_plan : Job
waiting_plan = at awaiting_plan_approval 3 20 (some 86400020) (some 41) none

abbrev waiting_execution : Job
waiting_execution = at awaiting_execution_approval 6 50 (some 86400050) (some 1050) none

abbrev waiting_promotion : Job
waiting_promotion = at awaiting_promotion 10 90 (some 86400090) (some 110) none

abbrev done : Job
done = at succeeded 11 100 none none (some 100)

abbrev plan_proof : Option ApprovalProof
plan_proof = proof_of plan (plan_subject 86400020) 41 3 30 86400020

abbrev execution_proof : Option ApprovalProof
execution_proof = proof_of execution (execution_subject 86400050) 1050 6 60 86400050

abbrev promotion_proof : Option ApprovalProof
promotion_proof = proof_of promotion (promotion_subject 86400090) 110 10 100 86400090

abbrev leave_promotion : Transition
leave_promotion = request succeeded 10 100 approval none

started :
    transition_job hashing admitted (request planning 1 10 stage_complete none) none
    ≡ ok (at planning 2 10 none none none)
unfolding transition_job job_schema transition_schema conflicts allowed edge_allowed deadline_passed
    apply_transition
started = refl

promoted : transition_job hashing waiting_promotion leave_promotion promotion_proof ≡ ok done
unfolding transition_job job_schema transition_schema conflicts allowed approved edge_allowed
    context_matches deadline_passed apply_transition validate_approval approval_schema
    context_schema subject_schema refused stale out_of_scope unbound out_of_time
promoted = refl

through : Run hashing admitted 10 done
unfolding transition_job job_schema transition_schema conflicts allowed approved edge_allowed
    context_matches deadline_passed apply_transition validate_approval approval_schema
    context_schema subject_schema refused stale out_of_scope unbound out_of_time execution_schema
    command_policy_schema command_schema argument_ok required_checks resources_schema
through =
    step leave_promotion promotion_proof
      (step {l = waiting_promotion} (request awaiting_promotion 9 90 stage_complete (some 110)) none
        (step {l = at preparing_preview 9 80 none none none}
          (request preparing_preview 8 80 stage_complete none) none
          (step {l = at verifying 8 70 none none none} (request verifying 7 70 stage_complete none)
            none
            (step {l = at provisioning 7 60 none none none}
              (request provisioning 6 60 approval none) execution_proof
              (step {l = waiting_execution}
                (request awaiting_execution_approval 5 50 stage_complete (some 1050)) none
                (step {l = at validating 5 40 none none none}
                  (request validating 4 40 stage_complete none) none
                  (step {l = at generating 4 30 none none none}
                    (request generating 3 30 approval none) plan_proof
                    (step {l = waiting_plan}
                      (request awaiting_plan_approval 2 20 stage_complete (some 41)) none
                      (step {l = at planning 2 10 none none none}
                        (request planning 1 10 stage_complete none) none start refl)
                      refl)
                    refl)
                  refl)
                refl)
              refl)
            refl)
          refl)
        refl)
      refl

Run-succeeded_example :
    Passed awaiting_execution_approval through × Passed awaiting_promotion through
Run-succeeded_example = Run-succeeded through refl refl

Run-succeeded_plan_example : Passed awaiting_plan_approval through
Run-succeeded_plan_example = Run-succeeded_plan through refl refl refl

Run_bounded_example : 10 ≤ 21
Run_bounded_example = Run_bounded through

not_cancelling : succeeded ≢ cancelling
not_cancelling e = ground (arith, e)

not_failed : succeeded ≢ failed
not_failed e = ground (arith, e)

not_expired : succeeded ≢ expired
not_expired e = ground (arith, e)

transition_job-Granted_example : Granted hashing waiting_promotion leave_promotion promotion_proof
transition_job-Granted_example =
    transition_job-Granted hashing waiting_promotion leave_promotion promotion_proof done refl
      not_cancelling not_failed not_expired promoted

transition_job-ok_iff_example :
    (transition_job hashing waiting_promotion leave_promotion promotion_proof ≡ ok done)
    ↔ Accepted hashing waiting_promotion leave_promotion promotion_proof done
transition_job-ok_iff_example =
    transition_job-ok_iff hashing waiting_promotion leave_promotion promotion_proof done

transition_job-Advances_example :
    Advances waiting_promotion leave_promotion done × (job_schema done ≡ true) × (90 ≤ 100)
transition_job-Advances_example =
    transition_job-Advances hashing waiting_promotion leave_promotion promotion_proof done promoted

transition_job-⟶_example : awaiting_promotion ⟶ succeeded
transition_job-⟶_example =
    transition_job-⟶ hashing waiting_promotion leave_promotion promotion_proof done promoted

transition_job_terminal_example :
    (transition_job hashing done leave_promotion promotion_proof ≡ err state_conflict)
    ⊎ (transition_job hashing done leave_promotion promotion_proof ≡ err invalid)
transition_job_terminal_example =
    transition_job_terminal hashing done leave_promotion promotion_proof refl

-- A plan that is withdrawn while it waits for its review.
abbrev withdraw : Transition
withdraw = request cancelling 3 30 cancel none

current : IsCurrent waiting_plan withdraw
unfolding job_schema transition_schema
current = record {
  well_formed = refl;
  request_ok = refl;
  current = refl;
  room = λ e. ground (arith, e);
  forward = omega arith;
  paused = refl;
  no_review = refl;
}

withdrawn_state : awaiting_plan_approval ≢ cancelling
withdrawn_state e = ground (arith, e)

abbrev withdrawn : Job
withdrawn = record waiting_plan {
  state = cancelling;
  state_version = 4;
  updated_at = iso 30;
  review_expires_at = none;
  review_digest = none;
  cancel_requested = true;
}

abbrev clean : Transition
clean = request cancelled 4 40 cleanup none

abbrev gone : Job
gone = record withdrawn {
  state = cancelled;
  state_version = 5;
  updated_at = iso 40;
  finished_at = some (iso 40);
}

cleaned : transition_job hashing withdrawn clean none ≡ ok gone
unfolding transition_job job_schema transition_schema conflicts allowed deadline_passed
    apply_transition
cleaned = refl

transition_job-cancel_example :
    (transition_job hashing waiting_plan withdraw none
      ≡ ok (apply_transition waiting_plan withdraw))
    × (gone.cancel_requested ≡ true)
unfolding transition_job job_schema transition_schema conflicts allowed apply_transition
    deadline_passed
transition_job-cancel_example =
    transition_job-cancel hashing waiting_plan withdraw none 1 gone current refl withdrawn_state
      refl refl (step clean none start refl)

transition_job-cancelling_example : (cancelled ≡ cancelled) × (cleanup ≡ cleanup) × (true ≡ true)
transition_job-cancelling_example =
    transition_job-cancelling hashing withdrawn clean none gone refl cleaned

transition_job-late_example :
    has_state (cancelling ∷ failed ∷ expired ∷ cancelled ∷ []) cancelled ≡ true
unfolding deadline_passed
transition_job-late_example = transition_job-late hashing withdrawn clean none gone refl cleaned

not_succeeded : cancelled ≢ succeeded
not_succeeded e = ground (arith, e)

-- The review of the plan is over.
abbrev time_out : Transition
time_out = request expired 3 86400020 timeout none

abbrev over : Job
over = record waiting_plan {
  state = expired;
  state_version = 4;
  updated_at = iso 86400020;
  review_expires_at = none;
  review_digest = none;
  finished_at = some (iso 86400020);
}

timed_out : transition_job hashing waiting_plan time_out none ≡ ok over
unfolding transition_job job_schema transition_schema conflicts allowed deadline_passed
    apply_transition
timed_out = refl
