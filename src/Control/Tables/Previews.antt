-- ===== src/Control/Tables/Previews.antt =====
-- The rows of engine/migrations: cleanups, environments, databases, previews and tickets.
use forge_ai.Prelude.{ℕ, Bool, true, false, Option}

pub data CleanupReason : Type 0 where
  cancel timeout failure security_rejection lease_recovery : CleanupReason

abbrev pub is_lease_recovery : CleanupReason → Bool
is_lease_recovery lease_recovery = true
is_lease_recovery _ = false

pub record CleanupRow : Type 0 where
  pub job_id : ℕ
  pub generation : ℕ
  pub reason : CleanupReason
  pub confirmed_at : Option ℕ

pub record EnvironmentRow : Type 0 where
  pub id : ℕ
  pub project_id : ℕ
  pub job_id : ℕ
  pub is_preview : Bool
  pub is_destroyed : Bool
  pub expires_at : ℕ
  pub destroyed_at : Option ℕ

pub record DatabaseRow : Type 0 where
  pub environment_id : ℕ
  pub is_deleted : Bool

pub data PreviewState : Type 0 where
  requested starting ready stopping stopped failed expiring expired : PreviewState

abbrev pub is_ready : PreviewState → Bool
is_ready ready = true
is_ready _ = false

-- `state IN ('REQUESTED','STARTING','READY')`
abbrev pub is_coming : PreviewState → Bool
is_coming requested = true
is_coming starting = true
is_coming ready = true
is_coming _ = false

-- `state IN ('STOPPED','EXPIRED')`
abbrev pub is_over : PreviewState → Bool
is_over stopped = true
is_over expired = true
is_over _ = false

pub record PreviewRow : Type 0 where
  pub id : ℕ
  pub project_id : ℕ
  pub environment_id : ℕ
  pub state : PreviewState
  pub idle_expires_at : ℕ

pub record TicketRow : Type 0 where
  pub preview_id : ℕ
  pub revoked_at : Option ℕ
