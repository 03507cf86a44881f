-- ===== src/Control/Reconciler/Rounds.antt =====
-- engine/control/reconciler.ts, runOnce: the two transactions on each candidate of a round.
--
-- The candidates are the rows of the database's `maintenance_jobs()`. `begin_cleanup` is the first
-- transaction, which chooses what to clean and opens a cleanup; between the two the adapter is asked to
-- confirm; `finish_cleanup` is the second one.
pub mod Late
use forge_ai.Prelude.{
  ℕ, ◌+◌, Bool, true, false, ◌&&◌, ◌||◌, not, Option, none, some, leb, ◌==◌, if◌then◌else◌, is_some,
  any, find, update,
}
use forge_ai.Jobs.{JobState, is_terminal, awaiting_promotion, Reason, cleanup, timeout, failure}
use forge_ai.Control.Tables.{
  World, JobRow, StepRow, StepStatus, ProjectRow, CleanupTarget, target_state, to_cancelled,
  to_expired, to_failed, CleanupReason, is_lease_recovery, CleanupRow, AttemptRow, AttemptState,
  is_dispatched, OperationRow, is_completed, EnvironmentRow, PreviewRow, is_ready, is_running,
  job_state,
}
use forge_ai.Control.Tx.{
  Environment, Tx, ◌>>=◌, ◌>>◌, return, when, one, read, write, clock, random_uuid,
}
use forge_ai.Control.State.{
  job_is, is_cancelling, is_queued, append_event, flush_event_sequence, change_state,
}
use forge_ai.Control.Reservations.{release_reservation}
use forge_ai.Control.Cleanup.{
  pending, cleanup_is, put_cleanup, stop_previews, revoke_tickets, request_cleanup,
  destroy_fixture_resources,
}
use forge_ai.Control.Worker.{passed, policy_revoked, worker_allowed}

-- What a round does with a job: its end, another attempt at its step, or the end of its preview.
pub data Kind : Type 0 where
  terminal requeue preview : Kind

abbrev pub is_preview : Kind → Bool
is_preview preview = true
is_preview _ = false

abbrev pub is_requeue : Kind → Bool
is_requeue requeue = true
is_requeue _ = false

-- What the first transaction hands to the second one.
pub record Work : Type 0 where
  pub kind : Kind
  pub generation : ℕ

-- `expired`
abbrev pub out_of_date : JobRow → ℕ → Bool
out_of_date j now =
    leb (j.created_at + 604800000) now
    || is_queued j.state && leb (j.created_at + 600000) now
    || passed j.review_expires_at now
    || passed j.active_deadline_at now

abbrev pub ended_by : JobRow → Bool → CleanupTarget
ended_by j late =
    if is_cancelling j.state then to_cancelled else if late then to_expired else to_failed

-- A running step whose lease is over.
abbrev pub lost_step : ℕ → ℕ → StepRow → Bool
lost_step job now s = s.job_id == job && is_running s.status && passed s.lease_expires_at now

-- A dispatched attempt whose operation has no recorded completion.
abbrev pub stuck : ℕ → World → AttemptRow → Bool
stuck job w a =
    a.job_id == job
    && is_dispatched a.state
    && not (any (λ (o : OperationRow). o.id == a.operation_id && is_completed o.state) w.operations)

abbrev pub make_uncertain : AttemptRow → AttemptRow
make_uncertain a = record a { state = AttemptState.uncertain }

abbrev pub next_epoch : StepRow → StepRow
next_epoch s = record s { lease_epoch = s.lease_epoch + 1 }

abbrev pub queue_again : ℕ → StepRow → StepRow
queue_again now s = record s {
  status = StepStatus.queued;
  lease_owner = none;
  lease_expires_at = none;
  available_at = now;
}

-- An environment of the job that is due for removal.
abbrev pub is_due : ℕ → Bool → ℕ → World → EnvironmentRow → Bool
is_due job barred now w e =
    e.job_id == job
    && not e.is_destroyed
    && (leb e.expires_at now
        || barred
        || any
            (λ (p : PreviewRow).
              p.environment_id == e.id && is_ready p.state && leb p.idle_expires_at now)
            w.previews)

abbrev is_awaiting_promotion : JobState → Bool
is_awaiting_promotion awaiting_promotion = true
is_awaiting_promotion _ = false

abbrev pub reason_for : CleanupTarget → Reason
reason_for to_cancelled = cleanup
reason_for to_expired = timeout
reason_for to_failed = failure

-- `j.state === 'CANCELLING' ? 'CANCELLED' : j.cleanup_target`
abbrev pub final_target : JobRow → CleanupTarget → CleanupTarget
final_target j t = if is_cancelling j.state then to_cancelled else t

abbrev pub unmark : JobRow → JobRow
unmark r = record r { cleanup_target = none }

-- `pending?.generation === action.generation`
abbrev pub same_generation : Option CleanupRow → ℕ → Bool
same_generation none generation = false
same_generation (some x) generation = x.generation == generation

module _ (env : Environment) where
  -- A live job whose lease was lost: its attempts are certain, or it fails.
  unfoldable pub recover_lease : JobRow → Tx (JobRow × Kind)
  recover_lease j = do
    now ← clock env
    lost ← read (λ w. any (lost_step j.id now) w.steps)
    uncertain ← read (λ w. any (stuck j.id w) w.attempts)
    if not lost
        then return (j, preview)
        else if uncertain
        then (do
          write (λ w. record w { attempts = update (stuck j.id w) make_uncertain w.attempts })
          k ← request_cleanup env j CleanupReason.failure to_failed
          return (k, terminal))
        else (do
          later ← clock env
          write (λ w. record w { steps = update (lost_step j.id later) next_epoch w.steps })
          return (j, requeue))

  -- The block under `if (!isTerminal(j.state))`.
  unfoldable pub end_or_recover : JobRow → Bool → Bool → Tx (JobRow × Kind)
  unfolding recover_lease
  end_or_recover j barred late = do
    k ←
        if not (is_some j.cleanup_target) && (is_some j.cancel_requested_at || barred || late)
        then request_cleanup env j (if late then CleanupReason.timeout else CleanupReason.failure)
            (ended_by j late)
        else return j
    if is_some k.cleanup_target then return (k, terminal) else recover_lease k

  -- The block under `if (kind === 'preview')`; nothing when another round has done the work.
  unfoldable pub end_preview : JobRow → Bool → Tx (Option (JobRow × Kind))
  end_preview j barred = do
    now ← clock env
    due ← read (λ w. any (is_due j.id barred now w) w.environments)
    if not due
        then return none
        else if not (is_terminal j.state) && not (is_awaiting_promotion j.state)
        then (do
          k ← request_cleanup env j CleanupReason.failure to_failed
          return (some (k, terminal)))
        else return (some (j, preview))

  -- The statements that open the cleanup.
  unfoldable pub open_cleanup : ℕ → Kind → Tx (Option Work)
  open_cleanup job kind = do
    write (stop_previews is_ready job)
    now ← clock env
    write (revoke_tickets job now)
    generation ← random_uuid env
    write (λ w. record w {
      cleanups =
          put_cleanup job
            (if is_requeue kind then CleanupReason.lease_recovery else CleanupReason.failure)
            generation w.cleanups;
    })
    return (some (record { kind = kind; generation = generation }))

  -- What follows when no cleanup is open.
  unfoldable pub choose_work : ProjectRow → JobRow → Tx (Option Work)
  unfolding end_or_recover end_preview open_cleanup
  choose_work p j = do
    now ← clock env
    barred ←
        read (λ w. w.settings.security_shutdown || policy_revoked w j || not (worker_allowed w j))
    found ←
        if is_terminal j.state
        then return (j, preview)
        else end_or_recover j (is_some p.deleting_at || barred) (out_of_date j now)
    chosen ← if is_preview found.1 then end_preview found.0 barred else return (some found)
    elim chosen [ none ↦ return none | some (k, kind) ↦ open_cleanup k.id kind ]

  unfoldable pub begin_cleanup : (project job : ℕ) → Tx (Option Work)
  unfolding choose_work
  begin_cleanup project job = do
    p ← one (λ w. find (λ (x : ProjectRow). x.id == project) w.projects)
    j ← one (λ w. find (job_is job) w.jobs)
    opened ← read (λ w. find (pending j.id) w.cleanups)
    elim opened [
      | some x ↦ return (
          some (record {
            kind = if is_lease_recovery x.reason then requeue else terminal;
            generation = x.generation;
          }))
      | none ↦ choose_work p j
    ]

  -- A confirmed job that was marked goes to its end, and gives its reservation back.
  unfoldable pub end_job : JobRow → CleanupTarget → Tx (Unit {0})
  end_job j t = do
    write (λ w. record w { jobs = update (job_is j.id) unmark w.jobs })
    k ←
        change_state env (unmark j) (target_state (final_target j t))
          (reason_for (final_target j t)) none none none
    release_reservation k

  -- A step whose worker was lost is queued again.
  unfoldable pub requeue_steps : JobRow → Tx (Unit {0})
  requeue_steps j = do
    now ← clock env
    write (λ w. record w { steps = update (lost_step j.id now) (queue_again now) w.steps })
    k ← append_event env j (job_state j.state j.state)
    flush_event_sequence env k

  -- What follows a confirmation that is in time.
  unfoldable pub apply_confirmation : JobRow → Kind → Tx (Unit {0})
  unfolding end_job requeue_steps
  apply_confirmation j kind = do
    destroy_fixture_resources env j.id
    now ← clock env
    write (λ w. record w {
      cleanups =
          update (cleanup_is j.id) (λ (x : CleanupRow). record x { confirmed_at = some now })
            w.cleanups;
    })
    if is_terminal j.state then return tt else elim (j.cleanup_target) [
      | some t ↦ end_job j t
      | none ↦ when (is_requeue kind) (requeue_steps j)
    ]

  unfoldable pub finish_cleanup : (project job : ℕ) → Work → Tx (Unit {0})
  unfolding apply_confirmation
  finish_cleanup project job work = do
    one (λ w. find (λ (x : ProjectRow). x.id == project) w.projects)
    j ← one (λ w. find (job_is job) w.jobs)
    opened ← read (λ w. find (pending j.id) w.cleanups)
    when (same_generation opened work.generation) (apply_confirmation j work.kind)
