-- ===== src/Control/Service/Admission.antt =====
-- engine/control/service.ts, admit and restore: a job is let in, with its reservation.
--
-- The session and the CSRF test are left out. The prompt version and the rest of the request that no
-- modelled operation reads are not columns of the model. `insert_job` has the
-- constraints of engine/migrations on the new row: the primary key, one unfinished job to a project,
-- and a base snapshot for a restoration.
pub mod Admitted
use forge_ai.Prelude.{
  ℕ, ◌+◌, Bool, ◌&&◌, ◌||◌, not, Option, none, some, List, [], ◌∷◌, ◌++◌, leb, ltb, ◌==◌, ◌!=◌,
  if◌then◌else◌, is_some, same_option, any, keep, find, update, count, includes, invalid, codes,
  min, admission_disabled, capacity_unavailable, revision_mismatch, template_revalidation,
  quota_exceeded, policy_revoked, constraint_violation,
}
use forge_ai.Contracts.Primitives.{uint, positive}
use forge_ai.Jobs.{JobState, generate, restore}
use forge_ai.Control.Tables.{
  World, JobRow, ProjectRow, Settings, QuotaRow, ReservationRow, ReservationStatus, SnapshotRow,
  job_state, job_admitted, Response, job_body, Route, post_jobs, post_restorations,
}
use forge_ai.Control.Tx.{
  Environment, Tx, ◌>>=◌, ◌>>◌, return, reject_if, one, read, write, clock, random_uuid,
}
use forge_ai.Control.State.{job_is, is_queued, append_event, flush_event_sequence, enqueue, audit}
use forge_ai.Control.Service.{project}
use forge_ai.Control.Service.Idempotency.{idempotent}

-- `jobInputSchema`, as far as `admit` reads it.
pub record JobInput : Type 0 where
  pub base_snapshot_id : Option ℕ
  pub base_revision : ℕ
  pub max_cost_micros : ℕ
  pub instruction : List ℕ

unfoldable pub job_input_schema : JobInput → Bool
job_input_schema b = positive b.base_revision && uint b.max_cost_micros

-- `restoreInputSchema`
pub record RestoreInput : Type 0 where
  pub expected_project_revision : ℕ
  pub max_cost_micros : ℕ

unfoldable pub restore_input_schema : RestoreInput → Bool
restore_input_schema b = positive b.expected_project_revision && uint b.max_cost_micros

abbrev pub unfinished : JobRow → Bool
unfinished j = not (is_some j.finished_at)

-- `lock_admission()`
unfoldable pub lock_admission : Tx Settings
lock_admission = do
  s ← read (λ w. w.settings)
  reject_if (not s.admission_enabled || s.security_shutdown) admission_disabled
  waiting ← read (λ w. count (λ (j : JobRow). is_queued j.state && unfinished j) w.jobs)
  reject_if (leb s.max_queued waiting) capacity_unavailable
  return s

-- The request was made for another head of the project.
abbrev pub off_head : ProjectRow → JobInput → Bool
off_head p b =
    p.revision != b.base_revision || not (same_option p.head_snapshot_id b.base_snapshot_id)

abbrev pub is_verified_of : ℕ → ℕ → SnapshotRow → Bool
is_verified_of snapshot id x = x.id == snapshot && x.project_id == id && x.is_verified

-- `if (restoreSnapshotId) await one(…)`
unfoldable pub check_source : Option ℕ → ℕ → Tx (Unit {0})
check_source none id = return tt
check_source (some snapshot) id = do
  one (λ w. find (is_verified_of snapshot id) w.snapshots)
  return tt

-- The quotas whose day is running.
abbrev pub is_current : ℕ → ℕ → QuotaRow → Bool
is_current workspace now q =
    q.workspace_id == workspace && leb q.period_start now && ltb now (q.period_start + 86400000)

abbrev later : QuotaRow → Option QuotaRow → Option QuotaRow
later q none = some q
later q (some r) = if ltb q.period_start r.period_start then some r else some q

-- `ORDER BY period_start DESC LIMIT 1`
abbrev pub latest : List QuotaRow → Option QuotaRow
latest [] = none
latest (q ∷ qs) = later q (latest qs)

abbrev pub current_quota : ℕ → ℕ → World → Option QuotaRow
current_quota workspace now w = latest (keep (is_current workspace now) w.quotas)

abbrev pub active_jobs : ℕ → World → ℕ
active_jobs workspace w = count (λ (j : JobRow). j.workspace_id == workspace && unfinished j) w.jobs

-- No slot or no budget is left.
abbrev pub is_full : QuotaRow → ℕ → ℕ → Bool
is_full q active cost =
    leb q.max_active_jobs active || ltb q.limit_micros (q.reserved_micros + q.spent_micros + cost)

-- `workspace_id=$1 AND period_start=$2`
abbrev pub quota_is : ℕ → ℕ → QuotaRow → Bool
quota_is workspace period q = q.workspace_id == workspace && q.period_start == period

abbrev pub set_aside : ℕ → QuotaRow → QuotaRow
set_aside cost q = record q { reserved_micros = q.reserved_micros + cost }

abbrev pub reservation_for : JobRow → ℕ → ReservationRow
reservation_for j period = record {
  job_id = j.id;
  workspace_id = j.workspace_id;
  reserved_micros = j.cost_limit_micros;
  settled_micros = 0;
  released_micros = 0;
  period_start = period;
  status = ReservationStatus.held;
}

-- A row that the constraints of the table refuse.
abbrev pub breaks : JobRow → World → Bool
breaks j w =
    any (job_is j.id) w.jobs
    || any
        (λ (r : JobRow).
          r.workspace_id == j.workspace_id && r.project_id == j.project_id && unfinished r)
        w.jobs
    || is_some j.restore_snapshot_id && not (is_some j.base_snapshot_id)

unfoldable pub insert_job : JobRow → Tx (Unit {0})
insert_job j = do
  broken ← read (breaks j)
  reject_if broken constraint_violation
  write (λ w. record w { jobs = w.jobs ++ j ∷ [] })

-- The two statements of the reservation, and its identifier.
unfoldable pub open_reservation : Environment → JobRow → ℕ → Tx (Unit {0})
open_reservation env j period = do
  write (λ w. record w {
    quotas = update (quota_is j.workspace_id period) (set_aside j.cost_limit_micros) w.quotas;
  })
  random_uuid env
  write (λ w. record w { reservations = w.reservations ++ reservation_for j period ∷ [] })

module _ (env : Environment) where
  -- The row of the job, with the defaults of the table.
  unfoldable pub new_job : ℕ → ℕ → ℕ → JobInput → Option ℕ → ℕ → ℕ → JobRow
  new_job workspace id actor body source job now = record {
    id = job;
    workspace_id = workspace;
    project_id = id;
    created_by = actor;
    kind = if is_some source then restore else generate;
    state = JobState.queued;
    state_version = 1;
    base_revision = body.base_revision;
    base_snapshot_id = body.base_snapshot_id;
    template_digest = env.fixture_template;
    policy_digest = env.fixture_policy body.max_cost_micros;
    created_at = now;
    updated_at = now;
    review_expires_at = none;
    review_digest = none;
    review_json = none;
    finished_at = none;
    repair_count = 0;
    active_remaining_ms = 1200000;
    active_started_at = none;
    active_deadline_at = none;
    cancel_requested_at = none;
    cleanup_target = none;
    next_event_seq = 1;
    earliest_event_seq = 1;
    candidate_snapshot_id = none;
    plan_artifact_id = none;
    restore_snapshot_id = source;
    cost_limit_micros = body.max_cost_micros;
    provider_calls = 0;
    max_attempt_micros = min 1 body.max_cost_micros;
    instruction = body.instruction;
    error_code = none;
  }

  -- What follows the row of the job.
  unfoldable pub book : JobRow → ℕ → ℕ → Tx JobRow
  unfolding open_reservation append_event flush_event_sequence enqueue audit
  book j actor period = do
    open_reservation env j period
    enqueue env j
    k ← append_event env j (job_state JobState.queued JobState.queued)
    flush_event_sequence env k
    audit env k.workspace_id k.id actor job_admitted
    return k

  -- The statements of `admit` once the guards are passed.
  unfoldable pub enter : JobRow → ℕ → ℕ → Tx JobRow
  unfolding insert_job book
  enter j actor period = insert_job j >> book j actor period

  -- The quota and the slots, and what follows.
  unfoldable pub reserve : ℕ → ℕ → ℕ → JobInput → Option ℕ → Tx JobRow
  unfolding enter new_job
  reserve workspace id actor body source = do
    quota ← one (current_quota workspace env.begun)
    active ← read (active_jobs workspace)
    reject_if (is_full quota active body.max_cost_micros) quota_exceeded
    job ← random_uuid env
    now ← clock env
    enter (new_job workspace id actor body source job now) actor quota.period_start

  -- The action of `admit`.
  unfoldable pub admit_job : ℕ → ℕ → ℕ → JobInput → Option ℕ → Tx JobRow
  unfolding lock_admission project check_source reserve
  admit_job workspace id actor body source = do
    settings ← lock_admission
    p ← project env id
    reject_if (off_head p body) revision_mismatch
    reject_if (p.template_digest != env.fixture_template) template_revalidation
    reject_if (ltb settings.max_job_micros body.max_cost_micros) quota_exceeded
    check_source source id
    revoked ← read (λ w. w.revoked_policies)
    reject_if
        (includes revoked env.fixture_template
          || includes revoked (env.fixture_policy body.max_cost_micros))
        policy_revoked
    reserve workspace id actor body source

  abbrev admission_route : Option ℕ → ℕ → Route
  admission_route none id = post_jobs id
  admission_route (some s) id = post_restorations id

  -- `admit`; `enabled` is the service's `admissionEnabled`, `digest` that of the request.
  unfoldable pub admit : Bool → ℕ → ℕ → ℕ → List ℕ → ℕ → JobInput → Option ℕ → Tx Response
  unfolding admit_job idempotent job_input_schema
  admit enabled workspace id actor key digest body source = do
    reject_if (not (job_input_schema body)) invalid
    reject_if (not enabled) admission_disabled
    idempotent env workspace actor (admission_route source id) key digest (do
      k ← admit_job workspace id actor body source
      return (record { status = 202; body = job_body k }))

  -- The transaction in which `restore` finds the project of a verified snapshot.
  unfoldable pub restore_source : ℕ → Tx ProjectRow
  unfolding project
  restore_source snapshot = do
    s ← one (λ w. find (λ (x : SnapshotRow). x.id == snapshot && x.is_verified) w.snapshots)
    project env s.project_id

  -- The request that `restore` hands to `admit`.
  unfoldable pub restore_request : ProjectRow → RestoreInput → JobInput
  restore_request p body = record {
    base_snapshot_id = p.head_snapshot_id;
    base_revision = body.expected_project_revision;
    max_cost_micros = body.max_cost_micros;
    instruction = codes "Restore this previously verified synthetic source snapshot.";
  }

  -- `restore`, with both transactions one after the other.
  unfoldable pub restore_project : Bool → ℕ → ℕ → ℕ → List ℕ → ℕ → RestoreInput → Tx Response
  unfolding restore_source restore_request admit restore_input_schema
  restore_project enabled workspace snapshot actor key digest body = do
    reject_if (not (restore_input_schema body)) invalid
    p ← restore_source snapshot
    admit enabled workspace p.id actor key digest (restore_request p body) (some snapshot)
