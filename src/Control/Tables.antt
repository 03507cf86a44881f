-- ===== src/Control/Tables.antt =====
-- The tables that engine/control reads and writes, with the columns that it uses.
--
-- Instants are milliseconds. The domains and constraints of engine/migrations are not repeated: a
-- statement that violates one raises, which rolls its transaction back.
mod Jobs
mod Usage
mod Previews
mod Records
pub use Jobs.*
pub use Usage.*
pub use Previews.*
pub use Records.*
use forge_ai.Prelude.{ℕ, List}

pub record World : Type 0 where
  pub jobs : List JobRow
  pub steps : List StepRow
  pub projects : List ProjectRow
  pub settings : Settings
  pub revoked_policies : List ℕ
  pub members : List Member
  pub quotas : List QuotaRow
  pub reservations : List ReservationRow
  pub attempts : List AttemptRow
  pub operations : List OperationRow
  pub cleanups : List CleanupRow
  pub environments : List EnvironmentRow
  pub databases : List DatabaseRow
  pub previews : List PreviewRow
  pub tickets : List TicketRow
  pub events : List EventRow
  pub reviews : List ReviewRow
  pub approvals : List ApprovalRow
  pub snapshots : List SnapshotRow
  pub ledger : List LedgerRow
  pub audits : List AuditRow
  pub records : List RecordRow
  pub artifacts : List ArtifactRow
  -- How often the clock was read, and how many random identifiers were made.
  pub reads : ℕ
  pub made : ℕ
