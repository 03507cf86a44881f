-- ===== src/Control/Tables/Usage.antt =====
-- The rows of engine/migrations: quotas, reservations, attempts, artifacts and operations.
use forge_ai.Prelude.{ℕ, Bool, true, false, Option, List}
use forge_ai.Contracts.Review.{Verification}
use forge_ai.Contracts.Source.{Plan, Manifest}

pub record QuotaRow : Type 0 where
  pub workspace_id : ℕ
  pub period_start : ℕ
  pub limit_micros : ℕ
  pub reserved_micros : ℕ
  pub spent_micros : ℕ
  pub max_active_jobs : ℕ

-- `held` is the status 'open'.
pub data ReservationStatus : Type 0 where
  held settled uncertain : ReservationStatus

pub record ReservationRow : Type 0 where
  pub job_id : ℕ
  pub workspace_id : ℕ
  pub reserved_micros : ℕ
  pub settled_micros : ℕ
  pub released_micros : ℕ
  pub period_start : ℕ
  pub status : ReservationStatus

pub data AttemptState : Type 0 where
  dispatched completed uncertain resolved : AttemptState

-- `state IN ('dispatched','uncertain')`
abbrev pub is_liability : AttemptState → Bool
is_liability dispatched = true
is_liability uncertain = true
is_liability _ = false

abbrev pub is_dispatched : AttemptState → Bool
is_dispatched dispatched = true
is_dispatched _ = false

abbrev pub is_resolved : AttemptState → Bool
is_resolved resolved = true
is_resolved _ = false

pub record AttemptRow : Type 0 where
  pub operation_id : ℕ
  pub job_id : ℕ
  pub step_id : ℕ
  pub maximum_micros : ℕ
  pub amount_micros : Option ℕ
  pub state : AttemptState

-- The contents of a blob, by its identifier.
pub record Blob : Type 0 where
  pub blob_id : ℕ
  pub content : List ℕ

-- `stageResultSchema`, engine/control/stage-adapter.ts
pub data StageResult : Type 0 where
  plan_result : Plan → StageResult
  candidate_result : Manifest → List Blob → StageResult
  provisioned : StageResult
  verification_result : Verification → StageResult
  preview_result : StageResult
  repairable_error : StageResult

-- What a fixture artifact holds.
pub data Payload : Type 0 where
  plan_payload : Plan → Payload
  manifest_payload : Manifest → Payload
  verification_payload : Verification → Payload
  blob_payload : List ℕ → Payload

pub record ArtifactRow : Type 0 where
  pub id : ℕ
  pub job_id : ℕ
  pub sha256 : ℕ
  pub payload : Payload

pub data OperationState : Type 0 where
  requested completed uncertain destroyed : OperationState

abbrev pub is_completed : OperationState → Bool
is_completed completed = true
is_completed _ = false

abbrev pub is_destroyed : OperationState → Bool
is_destroyed destroyed = true
is_destroyed _ = false

pub record OperationRow : Type 0 where
  pub id : ℕ
  pub job_id : ℕ
  pub step_id : ℕ
  pub is_runner : Bool
  pub input_digest : ℕ
  pub lease_epoch : ℕ
  pub state : OperationState
  pub result : Option StageResult
