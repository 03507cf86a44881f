-- ===== src/Control/Worker/Authority.antt =====
-- engine/control/worker.ts, executionContext, and the descriptor that prepare checks: the approval
-- under which a runner operates.
pub mod Latest
use forge_ai.Prelude.{
  ℕ, ◌+◌, Bool, true, false, ◌&&◌, not, Option, none, some, List, [], ◌∷◌, ltb, ◌==◌, ◌!=◌,
  if◌then◌else◌, is_some, same_option, find, candidate_changed,
}
use mathlib.Core.Option
use forge_ai.Contracts.Primitives.{iso}
use forge_ai.Contracts.Review.{
  ExecutionReview, execution_review, Subject, Approval, ApprovalContext, Descriptor, Role,
  EnvironmentKind, Decision, is_approve, kind_index, may_approve, validate_approval,
  validate_descriptor, parse_execution,
}
use forge_ai.Contracts.Review
use forge_ai.Jobs.{JobState}
use forge_ai.Control.Tables.{World, JobRow, ProjectRow, Member, ReviewRow, ApprovalRow, SnapshotRow}
use forge_ai.Control.Tx.{
  Environment, Tx, ◌>>=◌, ◌>>◌, return, reject_if, one, lift, read, clock, random_uuid,
}
use forge_ai.Control.State.{scope_of}
use forge_ai.Control.Worker.Inputs.{StageInput}

abbrev pub of_execution : Review.ReviewKind → Bool
of_execution k = kind_index k == 1

-- A review of the job with an approval of the same version and digest.
pub record Approved : Type 0 where
  pub review : ReviewRow
  pub approval : ApprovalRow

abbrev pub approves : ReviewRow → ApprovalRow → Bool
approves r a =
    a.job_id == r.job_id
    && a.state_version == r.state_version
    && same_option r.subject_digest (some a.subject_digest)
    && of_execution a.kind
    && is_approve a.decision

abbrev pub newer : Approved → Option Approved → Option Approved
newer x none = some x
newer x (some y) = if ltb x.review.state_version y.review.state_version then some y else some x

-- `ORDER BY r.state_version DESC LIMIT 1` over the join.
abbrev pub last_approved : ℕ → List ApprovalRow → List ReviewRow → Option Approved
last_approved job approvals [] = none
last_approved job approvals (r ∷ rs) =
    let rest = last_approved job approvals rs in
    if r.job_id == job && of_execution r.kind
    then (elim (find (approves r) approvals) [
      | none ↦ rest
      | some a ↦ newer (record { review = r; approval = a }) rest
    ])
    else rest

-- `worker_actor`: the role of an enabled member.
abbrev pub role_of : ℕ → ℕ → World → Option Role
role_of workspace actor w =
    Option.map (λ (m : Member). m.role)
      (find (λ (m : Member). m.workspace_id == workspace && m.user_id == actor && m.enabled)
        w.members)

abbrev pub proof_approval : JobRow → Approved → Approval
proof_approval j x = record {
  id = x.approval.id;
  scope = scope_of j;
  actor_id = x.approval.actor_id;
  kind = Review.execution;
  subject_digest = x.approval.subject_digest;
  state_version = x.review.state_version;
  decision = x.approval.decision;
  created_at = x.approval.created_at;
  expires_at = x.review.expires_at;
}

abbrev pub proof_context : JobRow → Approved → ProjectRow → Option Role → ℕ → ApprovalContext
proof_context j x p role now = record {
  scope = scope_of j;
  actor_id = x.approval.actor_id;
  current_role = if may_approve role then role else none;
  user_disabled = not (may_approve role);
  state_version = x.review.state_version;
  subject_digest = x.approval.subject_digest;
  base_revision = p.revision;
  base_snapshot_id = p.head_snapshot_id;
  kind = Review.execution;
  now = iso now;
  review_expires_at = x.review.expires_at;
  cancel_requested = is_some j.cancel_requested_at;
  policy_revoked = false;
  template_digest = j.template_digest;
  policy_digest = j.policy_digest;
}

-- The approval that is proved, its context, and its review.
pub record Proof : Type 0 where
  pub approval : Approval
  pub context : ApprovalContext
  pub review : ExecutionReview

abbrev is_preparing : JobState → Bool
is_preparing JobState.preparing_preview = true
is_preparing _ = false

module _ (env : Environment) where
  -- `executionContext`
  unfoldable pub execution_context : JobRow → Tx Proof
  unfolding validate_approval
  execution_context j = do
    x ← one (λ w. last_approved j.id w.approvals w.reviews)
    p ← one (λ w. find (λ (q : ProjectRow). q.id == j.project_id) w.projects)
    role ← read (role_of j.workspace_id x.approval.actor_id)
    now ← clock env
    review ← lift (parse_execution env.hashing x.review.body)
    a ← lift (
        validate_approval env.hashing (proof_approval j x) (execution_review review)
          (proof_context j x p role now))
    snap ← one (λ w.
        find (λ (s : SnapshotRow). same_option (some s.id) j.candidate_snapshot_id) w.snapshots)
    reject_if (review.candidate_digest != snap.manifest_digest) candidate_changed
    return (record {
      approval = proof_approval j x;
      context = proof_context j x p role now;
      review = review;
    })

  unfoldable pub descriptor_for : JobRow → StageInput → Proof → ℕ → ℕ → Descriptor
  descriptor_for j input proof environment database = record {
    scope = scope_of j;
    operation_id = input.operation_id;
    environment_id = environment;
    app_database_id = database;
    kind = if is_preparing j.state then EnvironmentKind.preview else EnvironmentKind.test;
    lease_epoch = input.lease_epoch;
    issued_at = proof.context.now;
    expires_at = iso (proof.context.now.instant + 60000);
    approval_id = proof.approval.id;
    execution_review_digest = env.hashing.subject_hash (execution_review proof.review);
    source_manifest_digest = proof.review.candidate_digest;
    template_digest = j.template_digest;
    image_digest = env.fixture_image;
    command_policy_digest = j.policy_digest;
    resources = proof.review.command_policy.resources;
  }

  -- The operation of a runner, under a descriptor that its approval proves.
  unfoldable pub authorise_runner : JobRow → StageInput → Tx Descriptor
  unfolding execution_context descriptor_for validate_descriptor
  authorise_runner j input = do
    proof ← execution_context j
    environment ← random_uuid env
    database ← random_uuid env
    lift (
        validate_descriptor env.hashing (descriptor_for j input proof environment database)
          (execution_review proof.review) proof.approval proof.context input.lease_epoch)
