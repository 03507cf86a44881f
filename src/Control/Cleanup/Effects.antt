-- ===== src/Control/Cleanup/Effects.antt =====
-- engine/control/worker.ts: what a cleanup leaves behind.
use forge_ai.Prelude.{
  ℕ, ◌+◌, ◌≡◌, refl, ap, ◌∙◌, Bool, true, false, ◌&&◌, not, some, List, arith, ok, any, update, ◌⊎◌,
  All, All-update, any-update, err, Result, Fault, constraint_violation, sym, ◌==◌, is_some, [],
  ◌∷◌, ◌++◌, Bool-cases, inl, inr, ==_refl,
}
use mathlib.Core.Path.{subst, fun_ext}
use forge_ai.Control.Tables.{
  World, JobRow, StepRow, CleanupTarget, CleanupReason, CleanupRow, EnvironmentRow, PreviewRow,
  is_over, TicketRow, DatabaseRow, OperationRow, is_ready,
}
use forge_ai.Control.Tx.{Environment, Tx, ◌>>◌, reject_if, ok_pair}
use forge_ai.Control.State.{job_is}
use forge_ai.Control.Cleanup.{
  owns, open_step, cancel_step, cleanup_is, pending, put_cleanup, request_cleanup,
  destroy_fixture_resources, live_environment, destroy_environment, live_preview, stop_preview,
  ticket_of, revoke_ticket, app_database, delete_database, live_operation, destroy_operation,
  mark_job, is_frozen, chosen_preview, stopping_preview, reopen, new_cleanup,
}

-- A ticket for a preview of the job that is not revoked, and a database of the job that is not deleted.
abbrev pub open_ticket : ℕ → World → TicketRow → Bool
open_ticket job w t = ticket_of job w t && not (is_some t.revoked_at)

abbrev pub live_database : ℕ → List EnvironmentRow → DatabaseRow → Bool
live_database job es d = app_database job es d && not d.is_deleted

abbrev NoEnvironment : ℕ → EnvironmentRow → Type 0
NoEnvironment job e = live_environment job e ≡ false

abbrev NoPreview : ℕ → List EnvironmentRow → PreviewRow → Type 0
NoPreview job es p = live_preview job es p ≡ false

abbrev NoTicket : ℕ → World → TicketRow → Type 0
NoTicket job w t = open_ticket job w t ≡ false

abbrev NoDatabase : ℕ → List EnvironmentRow → DatabaseRow → Type 0
NoDatabase job es d = live_database job es d ≡ false

abbrev NoOperation : ℕ → OperationRow → Type 0
NoOperation job o = live_operation job o ≡ false

-- No resource of the job is left in use.
pub record Gone (job : ℕ) (w : World) : Type 0 where
  pub environments : All (NoEnvironment job) w.environments
  pub previews : All (NoPreview job w.environments) w.previews
  pub tickets : All (NoTicket job w) w.tickets
  pub databases : All (NoDatabase job w.environments) w.databases
  pub operations : All (NoOperation job) w.operations

owns-update :
    (job : ℕ) (p : EnvironmentRow → Bool) (f : EnvironmentRow → EnvironmentRow)
    (es : List EnvironmentRow) (e : ℕ)
    → ((x : EnvironmentRow) → ((f x).job_id ≡ x.job_id) × ((f x).id ≡ x.id))
    → owns job (update p f es) e ≡ owns job es e
owns-update job p f es e same =
    any-update (λ (x : EnvironmentRow). x.job_id == job && x.id == e) p f es
      (λ x. rw ((same x).0, (same x).1))

module _ (job : ℕ) (p : EnvironmentRow → Bool) (f : EnvironmentRow → EnvironmentRow)
    (q : PreviewRow → Bool) (g : PreviewRow → PreviewRow)
    (same : (x : EnvironmentRow) → ((f x).job_id ≡ x.job_id) × ((f x).id ≡ x.id))
    (kept : (x : PreviewRow) → ((g x).environment_id ≡ x.environment_id) × ((g x).id ≡ x.id)) where
  -- Updates of the states of environments and previews leave what a job shows alone.
  shows-update :
      (es : List EnvironmentRow) (ps : List PreviewRow) (i : ℕ)
      → any
          (λ (x : PreviewRow). owns job (update p f es) x.environment_id && x.id == i)
          (update q g ps)
        ≡ any (λ (x : PreviewRow). owns job es x.environment_id && x.id == i) ps
  shows-update es ps i =
      any-update (λ (x : PreviewRow). owns job (update p f es) x.environment_id && x.id == i) q g ps
        (λ x. rw ((kept x).0, (kept x).1))
      ∙ ap (λ (t : PreviewRow → Bool). any t ps)
          (fun_ext (λ x. ap (λ b. b && x.id == i) (owns-update job p f es x.environment_id same)))

and_not-true : (b : Bool) → (b && not true) ≡ false
and_not-true b = ground arith

and_not_left : (b c : Bool) → b ≡ false → (b && c) ≡ false
and_not_left b c e = ground arith

-- Destroying the resources of a job always succeeds, and leaves no environment, preview, ticket,
-- database or runner operation of the job in use.
pub destroy_fixture_resources-Gone :
    (env : Environment) (job : ℕ) (w : World)
    → (w' : World) × (destroy_fixture_resources env job w ≡ ok (tt, w')) × Gone job w'
unfolding destroy_fixture_resources
destroy_fixture_resources-Gone env job w =
    let t1 = env.clock w.reads in
    let t2 = env.clock (w.reads + 1) in
    let es = update (live_environment job) (destroy_environment t2) w.environments in
    let ps = update (live_preview job w.environments) stop_preview w.previews in
    (
      _,
      refl,
      record {
        environments =
            All-update (NoEnvironment job) (live_environment job) (destroy_environment t2)
              w.environments (λ x e. and_not-true (x.job_id == job)) (λ x e. e);
        previews =
            All-update (NoPreview job es) (live_preview job w.environments) stop_preview w.previews
              (λ x e. and_not-true (owns job es x.environment_id))
              (λ x e.
                ap (λ b. b && not (is_over x.state))
                  (owns-update job (live_environment job) (destroy_environment t2) w.environments
                    x.environment_id (λ y. (refl, refl)))
                ∙ e);
        tickets =
            All-update (NoTicket job (record w { environments = es; previews = ps }))
              (ticket_of job w) (revoke_ticket t1) w.tickets
              (λ x e.
                and_not-true (ticket_of job (record w { environments = es; previews = ps }) x))
              (λ x e. and_not_left _ (not (is_some x.revoked_at)) (
                shows-update job (live_environment job) (destroy_environment t2)
                  (live_preview job w.environments) stop_preview (λ y. (refl, refl))
                  (λ y. (refl, refl)) w.environments w.previews x.preview_id
                ∙ e));
        databases =
            All-update (NoDatabase job es) (app_database job es) delete_database w.databases
              (λ x e. and_not-true (app_database job es x))
              (λ x e. and_not_left (app_database job es x) (not x.is_deleted) e);
        operations =
            All-update (NoOperation job) (live_operation job) destroy_operation w.operations
              (λ x e. and_not-true (x.job_id == job && x.is_runner)) (λ x e. e);
      },
    )

abbrev pub IsMarked : ℕ → CleanupTarget → JobRow → Type 0
IsMarked job t r = (job_is job r ≡ false) ⊎ (r.cleanup_target ≡ some t)

abbrev NotReady : ℕ → List EnvironmentRow → PreviewRow → Type 0
NotReady job es p = chosen_preview is_ready job es p ≡ false

-- What a request for a cleanup leaves: the job is marked, none of its steps is queued or running, its
-- cleanup is open, and no preview of it is ready.
pub record Requested (j : JobRow) (t : CleanupTarget) (w : World) : Type 0 where
  pub marked : All (IsMarked j.id t) w.jobs
  pub steps : All (λ (s : StepRow). open_step j.id s ≡ false) w.steps
  pub cleanup : any (pending j.id) w.cleanups ≡ true
  pub previews : All (NotReady j.id w.environments) w.previews

reopened :
    (job : ℕ) (r : CleanupReason) (g : ℕ) (rows : List CleanupRow)
    → any (cleanup_is job) rows ≡ true
    → any (pending job) (update (cleanup_is job) (reopen r g) rows) ≡ true
reopened job r g [] e = cc
reopened job r g (x ∷ rows) e = ground (arith, reopened job r g rows)

appended :
    (job : ℕ) (r : CleanupReason) (g : ℕ) (rows : List CleanupRow)
    → any (pending job) (rows ++ new_cleanup job r g ∷ []) ≡ true
appended job r g [] = ground (arith, ==_refl job)
appended job r g (x ∷ rows) = ground (arith, appended job r g rows)

pub put_cleanup-open :
    (job : ℕ) (r : CleanupReason) (g : ℕ) (rows : List CleanupRow)
    → any (pending job) (put_cleanup job r g rows) ≡ true
unfolding put_cleanup
put_cleanup-open job r g rows = elim (Bool-cases (any (cleanup_is job) rows)) [
  | inl e ↦ rw e (reopened job r g rows e)
  | inr e ↦ rw e (appended job r g rows)
]

and_false : (b : Bool) → (b && false) ≡ false
and_false b = ground arith

pub closed_step : (job n : ℕ) (s : StepRow) → open_step job (cancel_step n s) ≡ false
closed_step job n s = ground arith

passed_test :
    {A : Type 0} (b : Bool) (x : Fault) (m : Tx A) (w : World)
    → b ≡ false
    → (reject_if b x >> m) w ≡ m w
passed_test b x m w e = rw e refl

-- A request for a cleanup of a job whose stored row is over is refused by the database. Every other
-- one succeeds: it marks the job with its target, closes every queued or running step of the
-- job, opens the job's cleanup again and stops its ready previews.
pub request_cleanup-Requested :
    (env : Environment) (j : JobRow) (r : CleanupReason) (t : CleanupTarget) (w : World)
    → ((any (is_frozen j.id) w.jobs ≡ true)
        × (request_cleanup env j r t w ≡ err constraint_violation))
      ⊎ ((any (is_frozen j.id) w.jobs ≡ false)
          × (w' : World) × (request_cleanup env j r t w
              ≡ ok (record j { cleanup_target = some t }, w'))
          × Requested j t w')
unfolding request_cleanup
request_cleanup-Requested env j r t w =
    let now = env.clock w.reads in
    elim (Bool-cases (any (is_frozen j.id) w.jobs)) [
      | inl frozen ↦ inl (frozen, rw frozen refl)
      | inr live ↦ inr (
        live,
        _,
        passed_test (any (is_frozen j.id) w.jobs) constraint_violation _ w live ∙ refl,
        record {
          marked =
              All-update (IsMarked j.id t) (job_is j.id) (mark_job t r) w.jobs (λ x e. inr refl)
                (λ x e. inl e);
          steps =
              All-update (λ (s : StepRow). open_step j.id s ≡ false) (open_step j.id)
                (cancel_step now) w.steps (λ x e. closed_step j.id now x) (λ x e. e);
          cleanup = put_cleanup-open j.id r (env.uuid w.made) w.cleanups;
          previews =
              All-update (NotReady j.id w.environments)
                (chosen_preview is_ready j.id w.environments) stopping_preview w.previews
                (λ x e. and_false (owns j.id w.environments x.environment_id)) (λ x e. e);
        },
      )
    ]

-- What a request for a cleanup that succeeds leaves.
pub request_cleanup-ok :
    (env : Environment) (j k : JobRow) (r : CleanupReason) (t : CleanupTarget) (w v : World)
    → request_cleanup env j r t w ≡ ok (k, v)
    → Requested j t v
request_cleanup-ok env j k r t w v e = elim (request_cleanup-Requested env j r t w) [
  | inl (frozen, q) ↦ absurd (clash q e)
  | inr (live, x, q, d) ↦
      subst (Requested j t)
        (sym (ok_pair {a = record j { cleanup_target = some t }} {w = x} (sym q ∙ e)).1) d
]
  where
    clash :
        {m : Result (JobRow × World)} {f : Fault} {y : JobRow × World} → m ≡ err f → m ≡ ok y → ⊥
    clash p q = cc
