-- ===== src/Control/Cleanup.antt =====
-- engine/control/worker.ts: asking for a cleanup, and destroying the resources of a job.
pub mod Effects
use forge_ai.Prelude.{
  ℕ, ◌+◌, Bool, true, ◌&&◌, not, none, some, List, [], ◌∷◌, ◌++◌, any, update, ◌==◌, if◌then◌else◌,
  is_some, constraint_violation,
}
use forge_ai.Jobs.{is_terminal}
use forge_ai.Control.Tables.{
  World, JobRow, StepRow, StepStatus, is_open, CleanupTarget, CleanupReason, CleanupRow, ErrorCode,
  deadline_exceeded, fixture_stage_failed, timeout, EnvironmentRow, PreviewRow, PreviewState,
  is_ready, is_over, TicketRow, DatabaseRow, OperationRow, OperationState,
}
use forge_ai.Control.Tables
use forge_ai.Control.Tx.{
  Environment, Tx, ◌>>=◌, ◌>>◌, return, reject_if, read, write, clock, random_uuid,
}
use forge_ai.Control.State.{job_is}

-- `environment_id IN (SELECT id FROM environments WHERE job_id=$1)`
abbrev pub owns : ℕ → List EnvironmentRow → ℕ → Bool
owns job es e = any (λ (x : EnvironmentRow). x.job_id == job && x.id == e) es

-- `preview_id IN (SELECT id FROM previews WHERE environment_id IN (…))`
abbrev pub shows : ℕ → World → ℕ → Bool
shows job w p =
    any (λ (x : PreviewRow). owns job w.environments x.environment_id && x.id == p) w.previews

abbrev pub open_step : ℕ → StepRow → Bool
open_step job s = s.job_id == job && is_open s.status

-- A step that is taken from its worker; the next epoch fences a late one out.
abbrev pub cancel_step : ℕ → StepRow → StepRow
cancel_step now s = record s {
  status = StepStatus.cancelled;
  finished_at = some now;
  lease_epoch = s.lease_epoch + 1;
  lease_owner = none;
  lease_expires_at = none;
}

abbrev pub cleanup_is : ℕ → CleanupRow → Bool
cleanup_is job x = x.job_id == job

-- `job_id=$1 AND confirmed_at IS NULL`
abbrev pub pending : ℕ → CleanupRow → Bool
pending job x = cleanup_is job x && not (is_some x.confirmed_at)

abbrev pub reopen : CleanupReason → ℕ → CleanupRow → CleanupRow
reopen reason generation x = record x {
  generation = generation;
  reason = reason;
  confirmed_at = none;
}

abbrev pub new_cleanup : ℕ → CleanupReason → ℕ → CleanupRow
new_cleanup job reason generation = record {
  job_id = job;
  generation = generation;
  reason = reason;
  confirmed_at = none;
}

-- `INSERT INTO cleanup_requests … ON CONFLICT(job_id) DO UPDATE`: one request to a job, open again,
-- under a new generation.
unfoldable pub put_cleanup : ℕ → CleanupReason → ℕ → List CleanupRow → List CleanupRow
put_cleanup job reason generation rows =
    if any (cleanup_is job) rows
    then update (cleanup_is job) (reopen reason generation) rows
    else rows ++ new_cleanup job reason generation ∷ []

abbrev pub chosen_preview : (PreviewState → Bool) → ℕ → List EnvironmentRow → PreviewRow → Bool
chosen_preview which job es p = owns job es p.environment_id && which p.state

abbrev pub stopping_preview : PreviewRow → PreviewRow
stopping_preview p = record p { state = PreviewState.stopping }

unfoldable pub stop_previews : (PreviewState → Bool) → ℕ → World → World
stop_previews which job w = record w {
  previews = update (chosen_preview which job w.environments) stopping_preview w.previews;
}

abbrev pub ticket_of : ℕ → World → TicketRow → Bool
ticket_of job w t = shows job w t.preview_id

abbrev pub revoke_ticket : ℕ → TicketRow → TicketRow
revoke_ticket now t = record t { revoked_at = some now }

unfoldable pub revoke_tickets : ℕ → ℕ → World → World
revoke_tickets job now w = record w {
  tickets = update (ticket_of job w) (revoke_ticket now) w.tickets;
}

unfoldable pub cancel_steps : ℕ → ℕ → World → World
cancel_steps job now w = record w { steps = update (open_step job) (cancel_step now) w.steps }

abbrev code_of : CleanupReason → ErrorCode
code_of timeout = deadline_exceeded
code_of _ = fixture_stage_failed

abbrev pub live_preview : ℕ → List EnvironmentRow → PreviewRow → Bool
live_preview job es p = owns job es p.environment_id && not (is_over p.state)

abbrev pub stop_preview : PreviewRow → PreviewRow
stop_preview p = record p { state = PreviewState.stopped }

abbrev pub live_environment : ℕ → EnvironmentRow → Bool
live_environment job e = e.job_id == job && not e.is_destroyed

abbrev pub destroy_environment : ℕ → EnvironmentRow → EnvironmentRow
destroy_environment now e = record e { is_destroyed = true; destroyed_at = some now }

abbrev pub app_database : ℕ → List EnvironmentRow → DatabaseRow → Bool
app_database job es d = owns job es d.environment_id

abbrev pub delete_database : DatabaseRow → DatabaseRow
delete_database d = record d { is_deleted = true }

abbrev pub live_operation : ℕ → OperationRow → Bool
live_operation job o = o.job_id == job && o.is_runner && not (Tables.is_destroyed o.state)

abbrev pub destroy_operation : OperationRow → OperationRow
destroy_operation o = record o { state = OperationState.destroyed }

-- The row of a job that is over: the trigger check_job_transition refuses every `UPDATE` of it.
abbrev pub is_frozen : ℕ → JobRow → Bool
is_frozen job r = job_is job r && is_terminal r.state

abbrev pub mark_job : CleanupTarget → CleanupReason → JobRow → JobRow
mark_job target reason r = record r {
  cleanup_target = some target;
  error_code = some (code_of reason);
}

module _ (env : Environment) where
  -- `requestCleanup`; the row is returned with its target.
  unfoldable pub request_cleanup : JobRow → CleanupReason → CleanupTarget → Tx JobRow
  unfolding put_cleanup stop_previews revoke_tickets cancel_steps
  request_cleanup j reason target = do
    frozen ← read (λ w. any (is_frozen j.id) w.jobs)
    reject_if frozen constraint_violation
    write (λ w. record w { jobs = update (job_is j.id) (mark_job target reason) w.jobs })
    now ← clock env
    write (cancel_steps j.id now)
    generation ← random_uuid env
    write (λ w. record w { cleanups = put_cleanup j.id reason generation w.cleanups })
    write (stop_previews is_ready j.id)
    revoked ← clock env
    write (revoke_tickets j.id revoked)
    return (record j { cleanup_target = some target })

  -- `destroyFixtureResources`
  unfoldable pub destroy_fixture_resources : ℕ → Tx (Unit {0})
  unfolding revoke_tickets
  destroy_fixture_resources job = do
    revoked ← clock env
    write (revoke_tickets job revoked)
    write (λ w. record w {
      previews = update (live_preview job w.environments) stop_preview w.previews;
    })
    destroyed ← clock env
    write (λ w. record w {
      environments = update (live_environment job) (destroy_environment destroyed) w.environments;
    })
    write (λ w. record w {
      databases = update (app_database job w.environments) delete_database w.databases;
    })
    write
        (λ w. record w { operations = update (live_operation job) destroy_operation w.operations })
