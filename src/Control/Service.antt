-- ===== src/Control/Service.antt =====
-- engine/control/service.ts: cancelling a job, under its lock.
--
-- `cancel_locked` returns the row that `cancelLocked` mutates. Sessions, idempotency keys and the
-- response are not modelled here.
pub mod Admission
pub mod Approval
pub mod Cancellation
pub mod Events
pub mod Idempotency
pub mod Pages
pub mod Projects
mod Tests
use forge_ai.Prelude.{ℕ, ◌||◌, none, some, ◌==◌, if◌then◌else◌, update, find, is_some}
use forge_ai.Jobs.{is_terminal, cancelling, cancel}
use forge_ai.Control.Tables.{
  JobRow, ProjectRow, to_cancelled, CleanupReason, is_coming, cancel_requested,
}
use forge_ai.Control.Tx.{
  Environment, Tx, ◌>>=◌, ◌>>◌, return, reject_if, one, write, clock, random_uuid,
}
use forge_ai.Control.State.{job_is, is_cancelling, change_state, audit}
use forge_ai.Prelude.{not_found}
use forge_ai.Control.Cleanup.{cancel_steps, stop_previews, revoke_tickets, put_cleanup}

abbrev pub mark_cancelled : JobRow → JobRow
mark_cancelled r = record r { cleanup_target = some to_cancelled }

module _ (env : Environment) where
  -- The statements of `cancelLocked` after the change of state.
  unfoldable pub close_job : JobRow → Tx JobRow
  unfolding cancel_steps stop_previews revoke_tickets put_cleanup
  close_job j = do
    write (λ w. record w { jobs = update (job_is j.id) mark_cancelled w.jobs })
    now ← clock env
    write (cancel_steps j.id now)
    write (stop_previews is_coming j.id)
    revoked ← clock env
    write (revoke_tickets j.id revoked)
    generation ← random_uuid env
    write (λ w. record w { cleanups = put_cleanup j.id CleanupReason.cancel generation w.cleanups })
    return (mark_cancelled j)

  unfoldable pub cancel_locked : JobRow → Tx JobRow
  unfolding close_job
  cancel_locked j =
      if is_terminal j.state || is_cancelling j.state
      then return j
      else change_state env j cancelling cancel none none none >>= close_job

  -- `project`: a project that is being deleted is not found.
  unfoldable pub project : ℕ → Tx ProjectRow
  project id = do
    p ← one (λ w. find (λ (p : ProjectRow). p.id == id) w.projects)
    reject_if (is_some p.deleting_at) not_found
    return p

  -- The action of `cancel`.
  unfoldable pub cancel_job : ℕ → ℕ → Tx JobRow
  unfolding cancel_locked project
  cancel_job id actor = do
    prior ← one (λ w. find (job_is id) w.jobs)
    project prior.project_id
    j ← one (λ w. find (job_is id) w.jobs)
    k ← cancel_locked j
    audit env k.workspace_id k.id actor cancel_requested
    return k
