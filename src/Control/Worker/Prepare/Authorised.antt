-- ===== src/Control/Worker/Prepare/Authorised.antt =====
-- engine/control/worker.ts, prepare: a runner's operation stands under a valid approval.
use forge_ai.Prelude.{ℕ, ◌≡◌, ◌⊎◌, Bool, ◌&&◌, Option, some, ◌==◌, same_option, find}
use mathlib.Core.Option
use forge_ai.Contracts.Primitives.{iso}
use forge_ai.Contracts.Review.{
  owner, editor, Approval, ApprovalContext, ExecutionReview, Descriptor,
}
use forge_ai.Contracts.Review.Descriptors.{Leased}
use forge_ai.Control.Tables.{World, JobRow, ProjectRow, Member, SnapshotRow}
use forge_ai.Control.Tx.{Environment}
use forge_ai.Control.State.{scope_of}
use forge_ai.Control.Worker.Authority.{Approved, last_approved}
use forge_ai.Control.Worker.Authority.Latest.{IsJobs}

-- The enabled member of the workspace with this user.
abbrev pub member_is : ℕ → ℕ → Member → Bool
member_is workspace actor m = m.workspace_id == workspace && m.user_id == actor && m.enabled

-- What an approval is proved by: the rows that it is read from, and how its context, its review and
-- its candidate follow from them.
pub record Proved (j : JobRow) (now : ℕ) (w : World) (review : ExecutionReview) (a : Approval)
    (c : ApprovalContext) : Type 0 where
  pub approved : Approved
  pub approved_found : last_approved j.id w.approvals w.reviews ≡ some approved
  pub of_job : IsJobs j.id approved
  pub row :
      (a.id ≡ approved.approval.id)
      × (a.actor_id ≡ approved.approval.actor_id)
      × (a.decision ≡ approved.approval.decision)
      × (a.subject_digest ≡ approved.approval.subject_digest)
  pub member : Member
  pub member_found : find (member_is j.workspace_id a.actor_id) w.members ≡ some member
  pub may : (member.role ≡ owner) ⊎ (member.role ≡ editor)
  pub project : ProjectRow
  pub project_found : find (λ (q : ProjectRow). q.id == j.project_id) w.projects ≡ some project
  pub revision : c.base_revision ≡ project.revision
  pub head : c.base_snapshot_id ≡ project.head_snapshot_id
  pub snapshot : SnapshotRow
  pub snapshot_found :
      find (λ (s : SnapshotRow). same_option (some s.id) j.candidate_snapshot_id) w.snapshots
      ≡ some snapshot
  pub candidate : review.candidate_digest ≡ snapshot.manifest_digest
  pub scope : c.scope ≡ scope_of j
  pub template : c.template_digest ≡ j.template_digest
  pub policy : c.policy_digest ≡ j.policy_digest
  pub time : c.now ≡ iso now

-- The approval, its review and its context, and the descriptor that was checked by them.
pub record Authorised (env : Environment) (j : JobRow) (epoch : ℕ) (now : ℕ) (w : World)
    : Type 0 where
  pub review : ExecutionReview
  pub approval : Approval
  pub context : ApprovalContext
  pub descriptor : Descriptor
  pub proved : Proved j now w review approval context
  pub leased : Leased env.hashing descriptor review approval context epoch
