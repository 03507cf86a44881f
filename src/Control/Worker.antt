-- ===== src/Control/Worker.antt =====
-- engine/control/worker.ts: the lease under which a worker touches a job.
--
-- `leased` is the guard that every step of the worker runs under; `fn` is the statement that it
-- guards. The single row of control_settings is always there, so its lookup cannot fail. The row-level security that `scoped` selects belongs to the database and is not modelled.
pub mod Authority
pub mod Complete
pub mod Fencing
pub mod Inputs
pub mod Prepare
pub mod Stages
mod Tests
use forge_ai.Prelude.{
  ℕ, ◌+◌, Bool, false, ◌&&◌, ◌||◌, not, Option, none, some, leb, ltb, ◌==◌, is_some, includes, any,
  find, update, lease_lost, dispatch_fenced,
}
use forge_ai.Contracts.Review.{may_approve}
use forge_ai.Jobs.{same_state}
use forge_ai.Control.Tables.{World, JobRow, StepRow, ProjectRow, Member, is_running}
use forge_ai.Control.Tx.{Environment, Tx, ◌>>=◌, ◌>>◌, reject_if, one, read, write, clock}
use forge_ai.Control.State.{job_is}
use forge_ai.Control.Cleanup.{pending}

-- `worker_actor(workspace, actor)`: the creator of the job is still an enabled owner or editor.
abbrev pub worker_allowed : World → JobRow → Bool
worker_allowed w j =
    any
      (λ (m : Member).
        m.workspace_id == j.workspace_id
        && m.user_id == j.created_by
        && m.enabled
        && may_approve (some m.role))
      w.members

abbrev pub policy_revoked : World → JobRow → Bool
policy_revoked w j =
    includes w.revoked_policies j.policy_digest || includes w.revoked_policies j.template_digest

abbrev after : Option ℕ → ℕ → Bool
after none now = false
after (some t) now = ltb now t

abbrev owned_by : Option ℕ → ℕ → Bool
owned_by none worker = false
owned_by (some o) worker = o == worker

-- The row that still holds the lease of `s` for this worker.
abbrev pub holds : ℕ → StepRow → ℕ → StepRow → Bool
holds worker s now x =
    x.id == s.id
    && owned_by x.lease_owner worker
    && x.lease_epoch == s.lease_epoch
    && is_running x.status
    && after x.lease_expires_at now

-- The step and the job no longer belong together, or the job is over or being ended.
abbrev pub lost : StepRow → Option StepRow → JobRow → Bool
lost s current j =
    not (is_some current)
    || not (same_state j.state s.stage)
    || is_some j.finished_at
    || is_some j.cleanup_target
    || is_some j.cancel_requested_at

abbrev pub passed : Option ℕ → ℕ → Bool
passed none now = false
passed (some t) now = leb t now

-- `created_at <= now - 7 days`, as `created_at + 7 days <= now`
abbrev pub fenced : World → JobRow → ℕ → Bool
fenced w j now =
    not w.settings.worker_enabled
    || w.settings.security_shutdown
    || not (worker_allowed w j)
    || policy_revoked w j
    || passed j.active_deadline_at now
    || leb (j.created_at + 604800000) now

module _ (env : Environment) where
  -- The tests of `leased` once the job is found, and the statement that they guard.
  unfoldable pub guarded : ℕ → StepRow → {A : Type 0} → (JobRow → Tx A) → JobRow → Tx A
  guarded worker s fn j = do
    looked ← clock env
    current ← read (λ w. find (holds worker s looked) w.steps)
    cleaning ← read (λ w. any (pending j.id) w.cleanups)
    reject_if cleaning lease_lost
    reject_if (lost s current j) lease_lost
    now ← clock env
    barred ← read (λ w. fenced w j now)
    reject_if barred dispatch_fenced
    fn j

  unfoldable pub leased : ℕ → StepRow → {A : Type 0} → (JobRow → Tx A) → Tx A
  unfolding guarded
  leased worker s fn = do
    one (λ w. find (λ (p : ProjectRow). p.id == s.project_id) w.projects)
    j ← one (λ w. find (job_is s.job_id) w.jobs)
    guarded worker s fn j

  -- `heartbeat`: a minute more.
  unfoldable pub heartbeat : ℕ → StepRow → Tx (Unit {0})
  unfolding leased
  heartbeat worker s = leased worker s (λ _. do
    now ← clock env
    write (λ w. record w {
      steps =
          update (λ (x : StepRow). x.id == s.id)
            (λ (x : StepRow). record x { lease_expires_at = some (now + 60000) }) w.steps;
    }))
