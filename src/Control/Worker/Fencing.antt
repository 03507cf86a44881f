-- ===== src/Control/Worker/Fencing.antt =====
-- engine/control/worker.ts: what a held lease means, and that a cleanup takes it away.
use forge_ai.Prelude.{
  ℕ, ◌≡◌, ◌+◌, refl, ◌∙◌, ◌⊎◌, true, false, Option, none, some, arith, ok, err, any, find,
  find-true, not_found, lease_lost, dispatch_fenced, is_some, inl, inr, Option-cases, ==_iff, ◌==◌,
}
use forge_ai.Control.Tables.{
  World, JobRow, StepRow, ProjectRow, CleanupReason, CleanupTarget, is_running,
}
use forge_ai.Control.Tx.{
  Environment, Tx, one, >>=-ok, one_or-some, one_or-none, >>=-err, reject_if-split, one_or-split,
}
use forge_ai.Control.State.{job_is}
use forge_ai.Control.Cleanup.{pending, request_cleanup}
use forge_ai.Control.Cleanup.Effects.{request_cleanup-ok}
use forge_ai.Control.Worker.{leased, guarded, holds, lost, fenced}

abbrev project_of : StepRow → World → Option ProjectRow
project_of s w = find (λ (p : ProjectRow). p.id == s.project_id) w.projects

abbrev job_of : StepRow → World → Option JobRow
job_of s w = find (job_is s.job_id) w.jobs

-- While a cleanup of the job is open, no worker gets through: the guarded statement does not run.
pub leased-pending :
    (env : Environment) (worker : ℕ) (s : StepRow) {A : Type 0} (fn : JobRow → Tx A) (w : World)
    → any (pending s.job_id) w.cleanups ≡ true
    → (leased env worker s fn w ≡ err lease_lost) ⊎ (leased env worker s fn w ≡ err not_found)
unfolding leased guarded
leased-pending env worker s fn w e = elim (Option-cases (project_of s w)) [
  | inl p ↦
      inr (>>=-err (one (project_of s)) _ w not_found (one_or-none not_found (project_of s) w p))
  | inr (p, at_p) ↦ elim (Option-cases (job_of s w)) [
    | inl q ↦ inr (
        >>=-ok (one (project_of s)) _ w w p (one_or-some not_found (project_of s) w p at_p)
        ∙ >>=-err (one (job_of s)) _ w not_found (one_or-none not_found (job_of s) w q))
    | inr (j, at_j) ↦
        let same : j.id ≡ s.job_id =
          (==_iff j.id s.job_id).0 (find-true (job_is s.job_id) w.jobs j at_j) in
        let open_still : any (pending j.id) w.cleanups ≡ true = rw same e in
        inl (
          >>=-ok (one (project_of s)) _ w w p (one_or-some not_found (project_of s) w p at_p)
          ∙ >>=-ok (one (job_of s)) _ w w j (one_or-some not_found (job_of s) w j at_j)
          ∙ rw open_still refl)
  ]
]

-- After a cleanup was asked for, no worker gets through to the job, whatever step and epoch it still
-- holds: the answer is a lost lease, or that the project or the job is not found.
pub leased-request_cleanup :
    (env : Environment) (worker : ℕ) (s : StepRow) {A : Type 0} (fn : JobRow → Tx A) (j k : JobRow)
    (r : CleanupReason) (t : CleanupTarget) (w v : World)
    → s.job_id ≡ j.id
    → request_cleanup env j r t w ≡ ok (k, v)
    → (leased env worker s fn v ≡ err lease_lost) ⊎ (leased env worker s fn v ≡ err not_found)
leased-request_cleanup env worker s fn j k r t w v same e =
    leased-pending env worker s fn v (rw same (request_cleanup-ok env j k r t w v e).cleanup)

-- What a worker that gets through has found.
pub record Held (env : Environment) (worker : ℕ) (s : StepRow) {A : Type 0} (fn : JobRow → Tx A)
    (a : A) (w v : World) : Type 0 where
  pub job : JobRow
  pub current : StepRow
  pub stored : find (job_is s.job_id) w.jobs ≡ some job
  pub step : find (holds worker s (env.clock w.reads)) w.steps ≡ some current
  pub owner : current.lease_owner ≡ some worker
  pub epoch : current.lease_epoch ≡ s.lease_epoch
  pub claimed : is_running current.status ≡ true
  pub stage : job.state ≡ s.stage
  pub running : job.finished_at ≡ none
  pub kept : job.cleanup_target ≡ none
  pub wanted : job.cancel_requested_at ≡ none
  pub clean : any (pending job.id) w.cleanups ≡ false
  pub allowed : fenced w job (env.clock (w.reads + 1)) ≡ false
  pub effect : fn job (record w { reads = w.reads + 1 + 1 }) ≡ ok (a, v)

held_by :
    (worker : ℕ) (s : StepRow) (now : ℕ) (x : StepRow)
    → holds worker s now x ≡ true
    → (x.lease_owner ≡ some worker) × (x.lease_epoch ≡ s.lease_epoch) × (is_running x.status ≡ true)
held_by worker s now x e = ground arith

not_lost :
    (s : StepRow) (c : Option StepRow) (j : JobRow)
    → lost s c j ≡ false
    → (is_some c ≡ true)
      × (j.state ≡ s.stage)
      × (j.finished_at ≡ none)
      × (j.cleanup_target ≡ none)
      × (j.cancel_requested_at ≡ none)
not_lost s c j e = ground arith

is_some-some : {A : Type 0} (o : Option A) → is_some o ≡ true → (a : A) × (o ≡ some a)
is_some-some none e = absurd (ground (arith, e))
is_some-some (some a) e = (a, refl)

guarded-Held :
    (env : Environment) (worker : ℕ) (s : StepRow) {A : Type 0} (fn : JobRow → Tx A) (j : JobRow)
    (a : A) (w v : World)
    → find (job_is s.job_id) w.jobs ≡ some j
    → guarded env worker s fn j w ≡ ok (a, v)
    → Held env worker s fn a w v
unfolding guarded
guarded-Held env worker s fn j a w v at_j e =
    let now = env.clock w.reads in
    let w0 = record w { reads = w.reads + 1 } in
    let c = find (holds worker s now) w.steps in
    let (clean, e1) = reject_if-split (any (pending j.id) w.cleanups) lease_lost _ w0 v a e in
    let (kept, e2) = reject_if-split (lost s c j) lease_lost _ w0 v a e1 in
    let later = env.clock (w.reads + 1) in
    let (allowed, e3) =
      reject_if-split (fenced w j later) dispatch_fenced _ (record w { reads = w.reads + 1 + 1 }) v
        a e2 in
    let (some_step, stage, running, uncleaned, wanted) = not_lost s c j kept in
    let (current, found) = is_some-some c some_step in
    let (owner, epoch, claimed) =
      held_by worker s now current (find-true (holds worker s now) w.steps current found) in
    record {
      job = j;
      current = current;
      stored = at_j;
      step = found;
      owner = owner;
      epoch = epoch;
      claimed = claimed;
      stage = stage;
      running = running;
      kept = uncleaned;
      wanted = wanted;
      clean = clean;
      allowed = allowed;
      effect = e3;
    }

-- A guarded statement that ran, ran under a lease: its worker still owns the running step at the
-- epoch that it claimed, before the lease ends; the job is stored, in the stage of the step, neither
-- over nor being ended nor being cleaned; and neither a switch, a revocation, the creator's
-- membership nor a deadline bars it.
pub leased-Held :
    (env : Environment) (worker : ℕ) (s : StepRow) {A : Type 0} (fn : JobRow → Tx A) (a : A)
    (w v : World)
    → leased env worker s fn w ≡ ok (a, v)
    → Held env worker s fn a w v
unfolding leased
leased-Held env worker s fn a w v e =
    let (p, f1, e1) = one_or-split not_found (project_of s) _ w v a e in
    let (j, f2, e2) = one_or-split not_found (job_of s) _ w v a e1 in
    guarded-Held env worker s fn j a w v f2 e2
