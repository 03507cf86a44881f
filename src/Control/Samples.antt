-- ===== src/Control/Samples.antt =====
-- Sample tables for the tests of engine/control: a project with one job, its step and its reservation.
use forge_ai.Prelude.{◌+◌, true, false, none, some, [], ◌∷◌, Result, ok, err, codes}
use forge_ai.Contracts.Review.{owner}
use forge_ai.Jobs.{JobState, generate}
use forge_ai.Control.Tables.{
  World, JobRow, StepRow, StepStatus, ProjectRow, QuotaRow, ReservationRow, ReservationStatus,
  AttemptRow, AttemptState, OperationState, PreviewState,
}
use forge_ai.Control.Tx.{Environment}
use forge_ai.Fixtures.{hashing, commands}

abbrev pub env : Environment
env = record {
  hashing = hashing;
  clock = λ n. 1000 + n;
  begun = 900;
  uuid = λ n. 500 + n;
  source = record {
    plan_hash = λ p. 90;
    manifest_hash = λ m. 91;
    text_hash = λ t. 92;
    plan_bytes = λ p. 800;
    manifest_bytes = λ m. 900;
    batch_bytes = λ b. 500;
  };
  operation_id = λ j s n. 600 + n;
  verification_hash = λ v. 93;
  bundle_hash = λ ms. 94;
  fixture_commands = λ m. commands;
  fixture_image = 52;
  input_hash = λ j s v c p. 77;
  fixture_policy = λ m. 7;
  fixture_template = 11;
}

abbrev pub job : JobRow
job = record {
  id = 3;
  workspace_id = 1;
  project_id = 2;
  created_by = 5;
  kind = generate;
  state = JobState.queued;
  state_version = 1;
  base_revision = 1;
  base_snapshot_id = none;
  template_digest = 11;
  policy_digest = 7;
  created_at = 100;
  updated_at = 100;
  review_expires_at = none;
  review_digest = none;
  review_json = none;
  finished_at = none;
  repair_count = 0;
  active_remaining_ms = 1200000;
  active_started_at = none;
  active_deadline_at = none;
  cancel_requested_at = none;
  cleanup_target = none;
  next_event_seq = 1;
  earliest_event_seq = 1;
  candidate_snapshot_id = none;
  plan_artifact_id = none;
  restore_snapshot_id = none;
  cost_limit_micros = 100;
  provider_calls = 0;
  max_attempt_micros = 1;
  instruction = codes "Make a page that lists tasks";
  error_code = none;
}

abbrev pub running_step : StepRow
running_step = record {
  id = 30;
  workspace_id = 1;
  project_id = 2;
  job_id = 3;
  stage = JobState.queued;
  attempt = 1;
  status = StepStatus.running;
  available_at = 100;
  lease_owner = some 9;
  lease_epoch = 1;
  lease_expires_at = some 60000;
  input_digest = 77;
  finished_at = none;
  external_operation_id = none;
  output_artifact_id = none;
}

abbrev pub project : ProjectRow
project = record {
  id = 2;
  workspace_id = 1;
  name = 0;
  brief = 0;
  preset_id = 0;
  preset_version = 0;
  template_digest = 11;
  revision = 1;
  head_snapshot_id = none;
  deleting_at = none;
}

abbrev pub quota : QuotaRow
quota = record {
  workspace_id = 1;
  period_start = 0;
  limit_micros = 1000;
  reserved_micros = 100;
  spent_micros = 0;
  max_active_jobs = 1;
}

abbrev pub reservation : ReservationRow
reservation = record {
  job_id = 3;
  workspace_id = 1;
  reserved_micros = 100;
  settled_micros = 0;
  released_micros = 0;
  period_start = 0;
  status = ReservationStatus.held;
}

abbrev pub attempt : AttemptRow
attempt = record {
  operation_id = 60;
  job_id = 3;
  step_id = 30;
  maximum_micros = 40;
  amount_micros = none;
  state = AttemptState.uncertain;
}

abbrev pub tables : World
tables = record {
  jobs = job ∷ [];
  steps = running_step ∷ [];
  projects = project ∷ [];
  settings = record {
    admission_enabled = true;
    worker_enabled = true;
    security_shutdown = false;
    max_job_micros = 100;
    max_queued = 10;
    max_pending_reviews = 10;
  };
  revoked_policies = [];
  members = record { workspace_id = 1; user_id = 5; role = owner; enabled = true } ∷ [];
  quotas = quota ∷ [];
  reservations = reservation ∷ [];
  attempts = attempt ∷ [];
  operations =
      record {
        id = 60;
        job_id = 3;
        step_id = 30;
        is_runner = true;
        input_digest = 77;
        lease_epoch = 1;
        state = OperationState.requested;
        result = none;
      }
      ∷ [];
  cleanups = [];
  environments =
      record {
        id = 70;
        project_id = 2;
        job_id = 3;
        is_preview = true;
        is_destroyed = false;
        expires_at = 5000;
        destroyed_at = none;
      }
      ∷ [];
  databases = record { environment_id = 70; is_deleted = false } ∷ [];
  previews =
      record {
        id = 71;
        project_id = 2;
        environment_id = 70;
        state = PreviewState.ready;
        idle_expires_at = 5000;
      }
      ∷ [];
  tickets = record { preview_id = 71; revoked_at = none } ∷ [];
  events = [];
  reviews = [];
  approvals = [];
  snapshots = [];
  ledger = [];
  audits = [];
  records = [];
  artifacts = [];
  reads = 0;
  made = 0;
}

-- The tables after a transaction body.
abbrev pub world_of : {A : Type 0} → Result (A × World) → World
world_of (ok (a, w)) = w
world_of (err x) = tables

abbrev pub row_of : Result (JobRow × World) → JobRow
row_of (ok (a, w)) = a
row_of (err x) = job
