-- ===== src/Control/Tables/Jobs.antt =====
-- The rows of engine/migrations: jobs, steps, projects, settings and members.
use forge_ai.Prelude.{ℕ, Bool, true, false, Option, List}
use forge_ai.Contracts.Review.{Subject, Role}
use forge_ai.Jobs.{JobState, JobKind}

pub data CleanupTarget : Type 0 where
  to_failed to_expired to_cancelled : CleanupTarget

abbrev pub target_state : CleanupTarget → JobState
target_state to_failed = JobState.failed
target_state to_expired = JobState.expired
target_state to_cancelled = JobState.cancelled

pub data ErrorCode : Type 0 where
  fixture_stage_failed deadline_exceeded : ErrorCode

pub record JobRow : Type 0 where
  pub id : ℕ
  pub workspace_id : ℕ
  pub project_id : ℕ
  pub created_by : ℕ
  pub kind : JobKind
  pub state : JobState
  pub state_version : ℕ
  pub base_revision : ℕ
  pub base_snapshot_id : Option ℕ
  pub template_digest : ℕ
  pub policy_digest : ℕ
  pub created_at : ℕ
  pub updated_at : ℕ
  pub review_expires_at : Option ℕ
  pub review_digest : Option ℕ
  pub review_json : Option Subject
  pub finished_at : Option ℕ
  pub repair_count : ℕ
  pub active_remaining_ms : ℕ
  pub active_started_at : Option ℕ
  pub active_deadline_at : Option ℕ
  pub cancel_requested_at : Option ℕ
  pub cleanup_target : Option CleanupTarget
  pub next_event_seq : ℕ
  pub earliest_event_seq : ℕ
  pub candidate_snapshot_id : Option ℕ
  pub plan_artifact_id : Option ℕ
  pub restore_snapshot_id : Option ℕ
  pub cost_limit_micros : ℕ
  pub provider_calls : ℕ
  -- `model_policy_json.maxAttemptMicros`
  pub max_attempt_micros : ℕ
  -- `request_json.instruction`
  pub instruction : List ℕ
  pub error_code : Option ErrorCode

pub data StepStatus : Type 0 where
  queued running succeeded failed cancelled : StepStatus

abbrev pub is_open : StepStatus → Bool
is_open queued = true
is_open running = true
is_open _ = false

abbrev pub is_running : StepStatus → Bool
is_running running = true
is_running _ = false

pub record StepRow : Type 0 where
  pub id : ℕ
  pub workspace_id : ℕ
  pub project_id : ℕ
  pub job_id : ℕ
  pub stage : JobState
  pub attempt : ℕ
  pub status : StepStatus
  pub available_at : ℕ
  pub lease_owner : Option ℕ
  pub lease_epoch : ℕ
  pub lease_expires_at : Option ℕ
  pub input_digest : ℕ
  pub finished_at : Option ℕ
  pub external_operation_id : Option ℕ
  pub output_artifact_id : Option ℕ

pub record ProjectRow : Type 0 where
  pub id : ℕ
  pub workspace_id : ℕ
  pub name : ℕ
  pub brief : ℕ
  pub preset_id : ℕ
  pub preset_version : ℕ
  pub template_digest : ℕ
  pub revision : ℕ
  pub head_snapshot_id : Option ℕ
  pub deleting_at : Option ℕ

pub record Settings : Type 0 where
  pub admission_enabled : Bool
  pub worker_enabled : Bool
  pub security_shutdown : Bool
  pub max_job_micros : ℕ
  pub max_queued : ℕ
  pub max_pending_reviews : ℕ

-- A membership joined with its user and its workspace; `enabled` when neither is disabled or deleting.
pub record Member : Type 0 where
  pub workspace_id : ℕ
  pub user_id : ℕ
  pub role : Role
  pub enabled : Bool
