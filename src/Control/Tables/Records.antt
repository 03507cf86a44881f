-- ===== src/Control/Tables/Records.antt =====
-- The rows of engine/migrations: events, responses, reviews, approvals, snapshots, the ledger and audits.
use forge_ai.Prelude.{ℕ, Bool, Option, List}
use forge_ai.Contracts.Primitives.{Timestamp, CheckId}
use forge_ai.Contracts.Review.{Subject, ReviewKind, Decision}
use forge_ai.Jobs.{JobState}
use forge_ai.Control.Tables.Jobs.{ErrorCode, JobRow, ProjectRow}

pub data EventData : Type 0 where
  job_state : (from to : JobState) → EventData
  job_terminal : (state : JobState) → Option ErrorCode → EventData
  approval_recorded : (approval_id : ℕ) → ReviewKind → Decision → (subject_digest : ℕ) → EventData
  step_started : (step_id : ℕ) (stage : JobState) (attempt lease_epoch : ℕ) → EventData
  step_finished : (step_id : ℕ) → (evidence : Option ℕ) → EventData
  plan_ready : Option ℕ → (plan_digest : ℕ) → (review_digest : Option ℕ) → EventData
  changes_ready : Option ℕ → (manifest_digest : ℕ) → (review_digest : Option ℕ) → EventData
  check_passed : CheckId → (evidence candidate_digest : ℕ) → EventData
  usage_updated : (operation : ℕ) → EventData
  preview_ready : (preview generation expires_at : ℕ) → EventData

pub record EventRow : Type 0 where
  pub job_id : ℕ
  pub seq : ℕ
  pub at : ℕ
  pub created_at : ℕ
  pub state_version : ℕ
  pub payload : EventData

-- The body of a response: the view of a project or of a job, or the deletion of a project.
pub data Body : Type 0 where
  project_body : ProjectRow → Body
  job_body : JobRow → Body
  deleting_body : ℕ → Body

pub record Response : Type 0 where
  pub status : ℕ
  pub body : Body

-- The route of a request, with the identifier in it.
pub data Route : Type 0 where
  post_projects patch_project delete_project post_jobs post_restorations post_approvals post_promote
        post_cancel :
      ℕ → Route

pub record RecordRow : Type 0 where
  pub workspace_id : ℕ
  pub actor_id : ℕ
  pub route : Route
  pub key : List ℕ
  pub request_digest : ℕ
  pub response : Response
  pub expires_at : ℕ

pub record ReviewRow : Type 0 where
  pub job_id : ℕ
  pub state_version : ℕ
  pub kind : ReviewKind
  pub subject_digest : Option ℕ
  pub body : Subject
  pub expires_at : Timestamp

pub record ApprovalRow : Type 0 where
  pub id : ℕ
  pub job_id : ℕ
  pub actor_id : ℕ
  pub kind : ReviewKind
  pub subject_digest : ℕ
  pub state_version : ℕ
  pub decision : Decision
  pub created_at : Timestamp

pub record SnapshotRow : Type 0 where
  pub id : ℕ
  pub project_id : ℕ
  pub job_id : ℕ
  pub manifest_digest : ℕ
  pub is_verified : Bool
  pub manifest_artifact_id : ℕ
  pub verification_artifact_id : Option ℕ
  -- The digest and the time of the available verification artifact.
  pub verification : Option (ℕ × ℕ)

-- `fixture:…` and `fixture-resolution:…`
pub data DedupeKey : Type 0 where
  by_fixture by_resolution : (operation : ℕ) → DedupeKey

pub record LedgerRow : Type 0 where
  pub id : ℕ
  pub dedupe_key : DedupeKey
  pub job_id : ℕ
  pub amount_micros : ℕ

pub data Action : Type 0 where
  project_created project_updated project_deleting job_admitted cancel_requested : Action
  source_promoted approval_recorded liability_resolved : Action

pub record AuditRow : Type 0 where
  pub id : ℕ
  pub request_id : ℕ
  pub workspace_id : ℕ
  pub actor_id : ℕ
  pub action : Action
  pub resource_id : ℕ
