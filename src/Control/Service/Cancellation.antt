-- ===== src/Control/Service/Cancellation.antt =====
-- engine/control/service.ts, cancelLocked: what a cancellation does, and that it fences the workers.
use mathlib.Core.Path.{subst}
use forge_ai.Prelude.{
  ℕ, ◌≡◌, ◌||◌, refl, sym, ◌∙◌, ◌⊎◌, Bool, true, false, none, some, ok, err, any, find, All,
  All-update, lease_lost, not_found, inl, inr, if◌then◌else◌,
}
use forge_ai.Jobs.{is_terminal, cancelling, cancel}
use forge_ai.Control.Tables.{World, JobRow, StepRow, CleanupReason, to_cancelled}
use forge_ai.Control.Tx.{Environment, Tx, >>=-split, ok_pair, return, ◌>>=◌}
use forge_ai.Control.State.{job_is, is_cancelling, change_state, stored_at, logical_fields}
use forge_ai.Control.State.Change.{Reduces, change_state-Reduces}
use forge_ai.Control.Cleanup.{
  pending, open_step, cancel_step, cancel_steps, stop_previews, revoke_tickets,
}
use forge_ai.Control.Cleanup.Effects.{put_cleanup-open, closed_step, IsMarked}
use forge_ai.Control.Worker.{leased}
use forge_ai.Control.Worker.Fencing.{leased-pending}
use forge_ai.Control.Service.{cancel_locked, close_job, mark_cancelled}

-- A job that is cancelled: a request of the reducer to CANCELLING, with the target CANCELLED, no open
-- step and an open cleanup, in the tables as in the row.
pub record Cancelled (env : Environment) (j k : JobRow) (v : World) : Type 0 where
  pub marked : k.cleanup_target ≡ some to_cancelled
  pub rows : All (IsMarked k.id to_cancelled) v.jobs
  pub moved : JobRow
  pub returned : k ≡ mark_cancelled moved
  pub reduces : Reduces env j cancelling cancel moved
  pub steps : All (λ (s : StepRow). open_step k.id s ≡ false) v.steps
  pub cleanup : any (pending k.id) v.cleanups ≡ true

-- Closing a job always succeeds, marks its stored row, and leaves it no open step and an open cleanup.
close_job-closed :
    (env : Environment) (m : JobRow) (u : World)
    → (v : World) × (close_job env m u ≡ ok (mark_cancelled m, v))
      × All (IsMarked m.id to_cancelled) v.jobs
      × All (λ (s : StepRow). open_step m.id s ≡ false) v.steps
      × (any (pending m.id) v.cleanups ≡ true)
unfolding close_job cancel_steps stop_previews revoke_tickets
close_job-closed env m u =
    let now = env.clock u.reads in
    (
      _,
      refl,
      All-update (IsMarked m.id to_cancelled) (job_is m.id) mark_cancelled u.jobs (λ x e. inr refl)
          (λ x e. inl e),
      All-update (λ (s : StepRow). open_step m.id s ≡ false) (open_step m.id) (cancel_step now)
          u.steps (λ x e. closed_step m.id now x) (λ x e. e),
      put_cleanup-open m.id CleanupReason.cancel (env.uuid u.made) u.cleanups,
    )

-- Cancelling a live job, whose stored row the caller holds, does the reducer's request to CANCELLING,
-- marks the stored job and the returned row for CANCELLED, closes every queued or running step of it and opens its cleanup.
pub cancel_locked-Cancelled :
    (env : Environment) (j r k : JobRow) (w v : World)
    → (is_terminal j.state || is_cancelling j.state) ≡ false
    → find (stored_at j j.state_version) w.jobs ≡ some r
    → logical_fields r ≡ logical_fields j
    → cancel_locked env j w ≡ ok (k, v)
    → Cancelled env j k v
unfolding cancel_locked
cancel_locked-Cancelled env j r k w v live f same e =
    let (moved, u, changed, e1) =
      >>=-split (change_state env j cancelling cancel none none none) (close_job env) w v k (
        subst
          (λ (b : Bool).
            (if b
                then return j
                else change_state env j cancelling cancel none none none >>= close_job env)
              w
            ≡ ok (k, v))
          live e) in
    let d =
      change_state-Reduces env j r moved cancelling cancel none none none w u f same changed in
    let (x, closed, rows, steps, cleanup) = close_job-closed env moved u in
    let (job, world) = ok_pair {a = mark_cancelled moved} {w = x} (sym closed ∙ e1) in
    subst (λ (y : World). Cancelled env j k y) (sym world)
      (subst (λ (l : JobRow). Cancelled env j l x) (sym job)
        (record {
          marked = refl;
          rows = rows;
          moved = moved;
          returned = refl;
          reduces = d;
          steps = steps;
          cleanup = cleanup;
        }))

-- After a live job, whose stored row the caller held, was cancelled, no worker gets through to it,
-- whatever step and epoch it still holds: the answer is a lost lease, or that the project or the job
-- is not found.
pub leased-cancel_locked :
    (env : Environment) (worker : ℕ) (s : StepRow) {A : Type 0} (fn : JobRow → Tx A)
    (j r k : JobRow) (w v : World)
    → (is_terminal j.state || is_cancelling j.state) ≡ false
    → find (stored_at j j.state_version) w.jobs ≡ some r
    → logical_fields r ≡ logical_fields j
    → cancel_locked env j w ≡ ok (k, v)
    → s.job_id ≡ k.id
    → (leased env worker s fn v ≡ err lease_lost) ⊎ (leased env worker s fn v ≡ err not_found)
leased-cancel_locked env worker s fn j r k w v live f same e on =
    leased-pending env worker s fn v
      (rw on (cancel_locked-Cancelled env j r k w v live f same e).cleanup)
