-- ===== src/Control/Tests.antt =====
-- engine/control: a job that starts, is cleaned, is cancelled, and is settled.
use forge_ai.Prelude.{
  ◌≢◌, arith, ◌≡◌, ◌⊎◌, refl, none, some, [], ◌∷◌, ok, err, lease_lost, not_found,
  resolution_conflict, constraint_violation, any, true, false,
}
use forge_ai.Contracts.Review
use forge_ai.Contracts.Review.{
  owner, approve, validate_approval, approval_schema, context_schema, subject_schema, refused,
  stale, out_of_scope, unbound, out_of_time,
}
use forge_ai.Jobs.{
  JobState, stage_complete, job_schema, transition_schema, conflicts, allowed, approved,
  context_matches, edge_allowed, deadline_passed, apply_transition, transition_job,
}
use forge_ai.Control.Tables.{World, JobRow, CleanupReason, to_failed, to_cancelled}
use forge_ai.Control.Tx.{return}
use forge_ai.Control.State.{
  change_state, change_at, parse_review, request_of, next_job, expiry_differs, reserve_review,
  update_job, write_row, insert_review, change_events, append_event, enqueue, new_step,
  logical_fields, audit,
}
use forge_ai.Control.Reservations.{release_reservation, unspent, liability_of}
use forge_ai.Control.Reservations.Released.{Released, release_reservation-Released}
use forge_ai.Control.State.Change.{Reduces, change_state-Reduces}
use forge_ai.Control.Cleanup.{
  request_cleanup, destroy_fixture_resources, is_frozen, put_cleanup, stop_previews, revoke_tickets,
  cancel_steps,
}
use forge_ai.Control.Cleanup.Effects.{
  Gone, Requested, destroy_fixture_resources-Gone, request_cleanup-Requested,
}
use forge_ai.Control.Worker.{leased, guarded}
use forge_ai.Control.Worker.Fencing.{Held, leased-Held, leased-request_cleanup}
use forge_ai.Control.Reconciler.{resolve_uncertain, resolve_found, settle_attempt}
use forge_ai.Control.Reconciler.Resolution.{
  Resolved, resolve_uncertain-Resolved, resolve_uncertain-again,
}
use forge_ai.Control.Service.{cancel_locked, close_job}
use forge_ai.Control.Service.Cancellation.{Cancelled, cancel_locked-Cancelled, leased-cancel_locked}
use forge_ai.Control.Reconciler.Rounds.{Work, terminal, finish_cleanup}
use forge_ai.Control.Reconciler.Rounds.Late.{finish_cleanup-late}
use forge_ai.Control.Service
use forge_ai.Control.Service.Approval.{
  ApproveInput, approve_job, decide, promote_source, record_approval, follow_decision,
}
use forge_ai.Control.Service.Approval.Decided.{Decided, approve_job-Decided}
use forge_ai.Control.Samples.{env, job, running_step, quota, reservation, tables, world_of, row_of}
use forge_ai.Fixtures.{plan_subject}

destroy_fixture_resources-Gone_example :
    (v : World) × (destroy_fixture_resources env 3 tables ≡ ok (tt, v)) × Gone 3 v
destroy_fixture_resources-Gone_example = destroy_fixture_resources-Gone env 3 tables

request_cleanup-Requested_example :
    ((any (is_frozen 3) tables.jobs ≡ true)
      × (request_cleanup env job CleanupReason.failure to_failed tables ≡ err constraint_violation))
    ⊎ ((any (is_frozen 3) tables.jobs ≡ false)
        × (v : World) × (request_cleanup env job CleanupReason.failure to_failed tables
            ≡ ok (record job { cleanup_target = some to_failed }, v))
        × Requested job to_failed v)
request_cleanup-Requested_example =
    request_cleanup-Requested env job CleanupReason.failure to_failed tables

release_reservation-Released_example :
    (v : World) × (release_reservation job tables ≡ ok (tt, v))
    × Released job reservation quota tables v
unfolding unspent liability_of
release_reservation-Released_example =
    release_reservation-Released job reservation quota tables refl refl refl

-- The job after its first stage is entered.
abbrev planning_job : JobRow
planning_job = record job {
  state = JobState.planning;
  state_version = 2;
  updated_at = 1000;
  active_started_at = some 1000;
  active_deadline_at = some 1201000;
  next_event_seq = 2;
}

change_state-Reduces_example : Reduces env job JobState.planning stage_complete planning_job
unfolding change_state change_at parse_review request_of next_job expiry_differs reserve_review
    update_job write_row insert_review change_events append_event enqueue new_step logical_fields
    transition_job job_schema transition_schema conflicts allowed edge_allowed deadline_passed
    apply_transition
change_state-Reduces_example =
    change_state-Reduces env job job planning_job JobState.planning stage_complete none none none
      tables _ refl refl refl

leased-Held_example :
    Held env 9 running_step (λ j. return j) job tables (record tables { reads = 2 })
unfolding leased guarded
leased-Held_example =
    leased-Held env 9 running_step (λ j. return j) job tables (record tables { reads = 2 }) refl

abbrev cleaning_job : JobRow
cleaning_job = record job { cleanup_target = some to_failed }

abbrev cleaning : World
cleaning = world_of (request_cleanup env job CleanupReason.failure to_failed tables)

leased-request_cleanup_example :
    (leased env 9 running_step (λ j. return j) cleaning ≡ err lease_lost)
    ⊎ (leased env 9 running_step (λ j. return j) cleaning ≡ err not_found)
unfolding request_cleanup put_cleanup stop_previews revoke_tickets cancel_steps
leased-request_cleanup_example =
    leased-request_cleanup env 9 running_step (λ j. return j) job cleaning_job CleanupReason.failure
      to_failed tables cleaning refl refl

abbrev cancelled_job : JobRow
cancelled_job = record job {
  state = JobState.cancelling;
  state_version = 2;
  updated_at = 1000;
  next_event_seq = 2;
  cancel_requested_at = some 1000;
  cleanup_target = some to_cancelled;
}

abbrev cancelling_tables : World
cancelling_tables = world_of (cancel_locked env job tables)

cancel_locked-Cancelled_example : Cancelled env job cancelled_job cancelling_tables
unfolding cancel_locked close_job put_cleanup stop_previews revoke_tickets cancel_steps change_state
    change_at parse_review request_of next_job expiry_differs reserve_review update_job write_row
    insert_review change_events append_event enqueue new_step logical_fields transition_job
    job_schema transition_schema conflicts allowed edge_allowed deadline_passed apply_transition
cancel_locked-Cancelled_example =
    cancel_locked-Cancelled env job job cancelled_job tables cancelling_tables refl refl refl refl

leased-cancel_locked_example :
    (leased env 9 running_step (λ j. return j) cancelling_tables ≡ err lease_lost)
    ⊎ (leased env 9 running_step (λ j. return j) cancelling_tables ≡ err not_found)
unfolding cancel_locked close_job put_cleanup stop_previews revoke_tickets cancel_steps change_state
    change_at parse_review request_of next_job expiry_differs reserve_review update_job write_row
    insert_review change_events append_event enqueue new_step logical_fields transition_job
    job_schema transition_schema conflicts allowed edge_allowed deadline_passed apply_transition
leased-cancel_locked_example =
    leased-cancel_locked env 9 running_step (λ j. return j) job job cancelled_job tables
      cancelling_tables refl refl refl refl refl

-- The tables with the job failed, and its attempt still uncertain.
abbrev failed_tables : World
failed_tables = record tables {
  jobs = record job { state = JobState.failed; finished_at = some 200 } ∷ [];
}

abbrev settled_tables : World
settled_tables = world_of (resolve_uncertain env 8 3 60 25 failed_tables)

resolve_uncertain-Resolved_example : Resolved 3 60 25 failed_tables settled_tables
unfolding resolve_uncertain resolve_found settle_attempt release_reservation unspent liability_of
    audit
resolve_uncertain-Resolved_example =
    resolve_uncertain-Resolved env 8 3 60 25 failed_tables settled_tables refl

resolve_uncertain-again_example :
    resolve_uncertain env 8 3 60 30 settled_tables ≡ err resolution_conflict
unfolding resolve_uncertain resolve_found settle_attempt release_reservation unspent liability_of
    audit
resolve_uncertain-again_example =
    resolve_uncertain-again env 8 3 60 25 30 failed_tables settled_tables refl refl

-- The job waits for the review of its plan.
abbrev plan_job : JobRow
plan_job = record job {
  state = JobState.awaiting_plan_approval;
  state_version = 3;
  updated_at = 500;
  review_expires_at = some 86400500;
  review_digest = some 41;
  review_json = some (plan_subject 86400500);
}

abbrev plan_tables : World
plan_tables = record tables { jobs = plan_job ∷ [] }

abbrev go_ahead : ApproveInput
go_ahead = record { kind = Review.plan; subject_digest = 41; state_version = 3; decision = approve }

approve_job-Decided_example :
    Decided env 3 5 owner go_ahead plan_tables
      (world_of (approve_job env 3 5 owner go_ahead none plan_tables))
unfolding approve_job decide promote_source record_approval follow_decision Service.project
    cancel_locked close_job audit change_state change_at parse_review request_of next_job
    expiry_differs reserve_review update_job write_row insert_review change_events append_event
    enqueue new_step logical_fields transition_job job_schema transition_schema conflicts allowed
    approved edge_allowed context_matches deadline_passed apply_transition validate_approval
    approval_schema context_schema subject_schema refused stale out_of_scope unbound out_of_time
approve_job-Decided_example =
    approve_job-Decided env 3 5 owner go_ahead none plan_tables
      (world_of (approve_job env 3 5 owner go_ahead none plan_tables))
      (row_of (approve_job env 3 5 owner go_ahead none plan_tables)) refl

abbrev earlier : Work
earlier = record { kind = terminal; generation = 400 }

newer : env.uuid 0 ≢ earlier.generation
newer e = ground (arith, e)

finish_cleanup-late_example :
    (finish_cleanup env 2 3 earlier cleaning ≡ ok (tt, cleaning))
    ⊎ (finish_cleanup env 2 3 earlier cleaning ≡ err not_found)
unfolding request_cleanup put_cleanup stop_previews revoke_tickets cancel_steps
finish_cleanup-late_example =
    finish_cleanup-late env 2 job cleaning_job CleanupReason.failure to_failed earlier tables
      cleaning newer refl
