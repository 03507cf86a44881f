-- ===== src/Control/State.antt =====
-- engine/control/state.ts: the durable form of a job, its events and its steps.
--
-- `changeState` mutates the row that it is given; here it returns the row.
pub mod Columns
pub mod Frames
pub mod Change
pub mod Target
pub mod Approvals
use Prim.Native.Nat.{max}
use forge_ai.Prelude.{
  ℕ, ◌+◌, ◌-◌, Bool, true, false, ◌&&◌, ◌||◌, not, Option, none, some, List, [], ◌∷◌, ◌++◌, leb,
  ◌==◌, ◌!=◌, if◌then◌else◌, is_some, Result, ok, err, parse, find, update, count, invalid,
  conflict, capacity_unavailable, expiry_mismatch,
}
use mathlib.Core.Option
use forge_ai.Contracts.Primitives.{Timestamp, same_timestamp, iso, Scope, positive}
use forge_ai.Contracts.Review.{
  ReviewKind, plan, execution, promotion, Subject, base_of, subject_schema, ApprovalContext,
}
use forge_ai.Jobs.{
  JobState, same_state, Job, job_schema, is_terminal, is_review, Reason, Transition, ApprovalProof,
  transition_job, queued, cancelling, awaiting_plan_approval, awaiting_execution_approval, failed,
  expired,
}
use forge_ai.Control.Tables.{
  World, JobRow, StepRow, QuotaRow, EventData, job_state, job_terminal, ErrorCode,
  fixture_stage_failed, deadline_exceeded, StepStatus, Action,
}
use forge_ai.Control.Tx.{
  Environment, Tx, ◌>>=◌, ◌>>◌, return, reject_if, when, one, one_or, lift, read, write, clock,
  random_uuid,
}

abbrev pub iso_option : Option ℕ → Option Timestamp
iso_option none = none
iso_option (some ms) = some (iso ms)

abbrev pub scope_of : JobRow → Scope
scope_of j = record { workspace_id = j.workspace_id; project_id = j.project_id; job_id = j.id }

-- The object that `logicalJob` parses.
unfoldable pub logical_fields : JobRow → Job
logical_fields j = record {
  scope = scope_of j;
  kind = j.kind;
  state = j.state;
  state_version = j.state_version;
  base_revision = j.base_revision;
  base_snapshot_id = j.base_snapshot_id;
  template_digest = j.template_digest;
  policy_digest = j.policy_digest;
  created_at = iso j.created_at;
  updated_at = iso j.updated_at;
  review_expires_at = iso_option j.review_expires_at;
  review_digest = j.review_digest;
  finished_at = iso_option j.finished_at;
  repair_count = j.repair_count;
  active_remaining_ms = j.active_remaining_ms;
  cancel_requested = is_some j.cancel_requested_at;
}

unfoldable pub logical_job : JobRow → Result Job
logical_job j = parse job_schema (logical_fields j)

abbrev pub job_is : ℕ → JobRow → Bool
job_is id j = j.id == id

-- The row of a job, at a version.
abbrev pub stored_at : JobRow → ℕ → JobRow → Bool
stored_at j version r = r.id == j.id && r.state_version == version

abbrev pub is_queued : JobState → Bool
is_queued queued = true
is_queued _ = false

abbrev pub is_cancelling : JobState → Bool
is_cancelling cancelling = true
is_cancelling _ = false

-- The states in which the active budget runs.
abbrev pub is_active : JobState → Bool
is_active s = not (is_terminal s) && not (is_review s) && not (is_queued s) && not (is_cancelling s)

abbrev elapsed_since : Option ℕ → ℕ → ℕ
elapsed_since none now = 0
elapsed_since (some started) now = now - started

abbrev pub instant_of : Option Timestamp → Option ℕ
instant_of none = none
instant_of (some t) = some t.instant

abbrev at_now : Option ApprovalProof → ℕ → Option ApprovalProof
at_now none now = none
at_now (some p) now =
    let c : ApprovalContext = p.context in some (record p { context = record c { now = iso now } })

-- The schema that a review for a target is parsed by.
abbrev review_kind : JobState → ReviewKind
review_kind awaiting_plan_approval = plan
review_kind awaiting_execution_approval = execution
review_kind _ = promotion

abbrev terminal_code : JobState → Option ErrorCode
terminal_code failed = some fixture_stage_failed
terminal_code expired = some deadline_exceeded
terminal_code _ = none

-- `COALESCE(max(attempt),0)`
abbrev pub last_attempt : ℕ → JobState → List StepRow → ℕ
last_attempt job stage [] = 0
last_attempt job stage (s ∷ ss) =
    let rest = last_attempt job stage ss in
    if s.job_id == job && same_state s.stage stage then max s.attempt rest else rest

-- The row of an event, at the end of the log.
abbrev pub put_event : JobRow → EventData → ℕ → ℕ → World → World
put_event j payload at begun w = record w {
  events =
      w.events
      ++ record {
        job_id = j.id;
        seq = j.next_event_seq;
        at = at;
        created_at = begun;
        state_version = j.state_version;
        payload = payload;
      }
        ∷ [];
}

abbrev pub event_ok : JobRow → Bool
event_ok j = positive j.next_event_seq && positive j.state_version

abbrev pub next_event : JobRow → JobRow
next_event j = record j { next_event_seq = j.next_event_seq + 1 }

module _ (env : Environment) where
  unfoldable pub append_event : JobRow → EventData → Tx JobRow
  append_event j payload = do
    at ← clock env
    reject_if (not (event_ok j)) invalid
    write (put_event j payload at env.begun)
    return (next_event j)

  unfoldable pub flush_event_sequence : JobRow → Tx (Unit {0})
  flush_event_sequence j = write (λ w. record w {
    jobs =
        update (job_is j.id) (λ (r : JobRow). record r { next_event_seq = j.next_event_seq })
          w.jobs;
  })

  -- The actor's kind, the outcome and the metadata are left out.
  unfoldable pub audit : ℕ → ℕ → ℕ → Action → Tx (Unit {0})
  audit workspace resource actor action = do
    id ← random_uuid env
    request ← random_uuid env
    write (λ w. record w {
      audits =
          w.audits
          ++ record {
            id = id;
            request_id = request;
            workspace_id = workspace;
            actor_id = actor;
            action = action;
            resource_id = resource;
          }
            ∷ [];
    })

  -- No step follows a job that is over, in review, being cancelled or marked for cleanup.
  abbrev pub needs_step : JobRow → Bool
  needs_step j = not (
      is_terminal j.state || is_review j.state || is_cancelling j.state || is_some j.cleanup_target)

  unfoldable pub new_step : JobRow → ℕ → ℕ → ℕ → StepRow
  new_step j attempt id available = record {
    id = id;
    workspace_id = j.workspace_id;
    project_id = j.project_id;
    job_id = j.id;
    stage = j.state;
    attempt = attempt;
    status = StepStatus.queued;
    available_at = available;
    lease_owner = none;
    lease_epoch = 0;
    lease_expires_at = none;
    input_digest =
        env.input_hash j.id j.state j.state_version j.candidate_snapshot_id j.plan_artifact_id;
    finished_at = none;
    external_operation_id = none;
    output_artifact_id = none;
  }

  unfoldable pub enqueue : JobRow → Tx (Unit {0})
  unfolding new_step
  enqueue j = when (needs_step j) (do
    attempt ← read (λ w. last_attempt j.id j.state w.steps + 1)
    id ← random_uuid env
    available ← clock env
    write (λ w. record w { steps = w.steps ++ new_step j attempt id available ∷ [] }))

  -- `schema.parse(review)`, where a review is given
  unfoldable pub parse_review : JobState → Option Subject → Result (Option Subject)
  parse_review target none = ok none
  parse_review target (some s) =
      if subject_schema env.hashing (review_kind target) s then ok (some s) else err invalid

  -- The request that `changeState` hands to the reducer.
  unfoldable pub request_of : JobRow → JobState → Reason → Option Subject → ℕ → Transition
  request_of j target reason subject now = record {
    target = target;
    expected_state_version = j.state_version;
    now = iso now;
    elapsed_active_ms =
        if is_review j.state || is_queued j.state then 0 else elapsed_since j.active_started_at now;
    resources_released = true;
    next_review_digest = Option.map env.hashing.subject_hash subject;
    reason = reason;
  }

  unfoldable pub next_job : JobRow → Transition → Option ApprovalProof → Result Job
  next_job j t proof =
      if job_schema (logical_fields j)
      then transition_job env.hashing (logical_fields j) t (at_now proof t.now.instant)
      else err invalid

  -- `subject.expiresAt !== changed.reviewExpiresAt`
  unfoldable pub expiry_differs : Option Subject → Job → Bool
  expiry_differs none k = false
  expiry_differs (some s) k = elim (k.review_expires_at) [
    | none ↦ true
    | some t ↦ not (same_timestamp (base_of s).expires_at t)
  ]

  abbrev pub quota_of : JobRow → World → Option QuotaRow
  quota_of j w = find (λ (q : QuotaRow). q.workspace_id == j.workspace_id) w.quotas

  -- The other jobs of the workspace that wait for a review.
  abbrev pub pending_reviews : JobRow → World → ℕ
  pending_reviews j w =
      count (λ (r : JobRow). r.workspace_id == j.workspace_id && r.id != j.id && is_review r.state)
        w.jobs

  -- The workspace has a quota, and room for one more pending review.
  unfoldable pub reserve_review : JobRow → Option Subject → Tx (Unit {0})
  reserve_review j none = return tt
  reserve_review j (some s) = do
    one (quota_of j)
    limit ← read (λ w. w.settings.max_pending_reviews)
    pending ← read (pending_reviews j)
    reject_if (leb limit pending) capacity_unavailable

  -- The columns that `changeState` writes; `subject` and `changed` as in the source.
  unfoldable pub write_row : Option Subject → Job → ℕ → ℕ → JobRow → JobRow
  write_row subject changed now next_seq r = record r {
    state = changed.state;
    state_version = changed.state_version;
    updated_at = now;
    active_remaining_ms = changed.active_remaining_ms;
    active_started_at = if is_active changed.state then some now else none;
    active_deadline_at =
        if is_active changed.state then some (now + changed.active_remaining_ms) else none;
    review_expires_at = instant_of changed.review_expires_at;
    review_digest = changed.review_digest;
    review_json = subject;
    repair_count = changed.repair_count;
    finished_at = instant_of changed.finished_at;
    next_event_seq = next_seq;
    cancel_requested_at =
        if is_cancelling changed.state
        then some (Option.get_or r.cancel_requested_at now)
        else r.cancel_requested_at;
  }

  -- `UPDATE jobs … WHERE id=$1 AND state_version=$14 RETURNING *`
  unfoldable pub update_job : Option Subject → Job → ℕ → JobRow → Tx JobRow
  unfolding write_row
  update_job subject changed now j = do
    r ← one_or conflict (λ w. find (stored_at j (changed.state_version - 1)) w.jobs)
    write (λ w. record w {
      jobs =
          update (stored_at j (changed.state_version - 1))
            (write_row subject changed now j.next_event_seq) w.jobs;
    })
    return (write_row subject changed now j.next_event_seq r)

  unfoldable pub insert_review : JobRow → Option Subject → Tx (Unit {0})
  insert_review j none = return tt
  insert_review j (some s) = write (λ w. record w {
    reviews =
        w.reviews
        ++ record {
          job_id = j.id;
          state_version = j.state_version;
          kind = review_kind j.state;
          subject_digest = j.review_digest;
          body = s;
          expires_at = (base_of s).expires_at;
        }
          ∷ [];
  })

  -- The events of a change: the step, and the end where there is one.
  unfoldable pub change_events : JobRow → JobState → Tx JobRow
  unfolding append_event
  change_events j previous = do
    j' ← append_event j (job_state previous j.state)
    if is_terminal j.state
        then append_event j' (job_terminal j.state (terminal_code j.state))
        else return j'

  -- What follows the reading of the time.
  unfoldable pub change_at :
      JobRow → JobState → Reason → Option Subject → Option ApprovalProof → ℕ → Tx JobRow
  unfolding parse_review request_of next_job expiry_differs reserve_review update_job insert_review
      change_events enqueue
  change_at j target reason review proof now = do
    subject ← lift (parse_review target review)
    changed ← lift (next_job j (request_of j target reason subject now) proof)
    reject_if (expiry_differs subject changed) expiry_mismatch
    reserve_review j subject
    logged ←
        change_events (record j { state = changed.state; state_version = changed.state_version })
          j.state
    stored ← update_job subject changed now logged
    insert_review stored subject
    enqueue stored
    return stored

  -- The row after a change; `at` is the caller's time, if it has read one.
  unfoldable pub change_state :
      JobRow → JobState → Reason → Option Subject → Option ApprovalProof → Option ℕ → Tx JobRow
  unfolding change_at
  change_state j target reason review proof (some at) = change_at j target reason review proof at
  change_state j target reason review proof none = do
    now ← clock env
    change_at j target reason review proof now
