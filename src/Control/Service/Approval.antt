-- ===== src/Control/Service/Approval.antt =====
-- engine/control/service.ts, approve: a person's decision on the review that a job waits for.
--
-- The session, the idempotency record and the response are left out; `actor_id` and `role` are the
-- principal's, whose user the session has found enabled. The workspace is the job's.
pub mod Recorded
pub mod Decided
use forge_ai.Prelude.{
  ℕ, ◌+◌, Bool, true, false, ◌&&◌, ◌||◌, not, Option, none, some, [], ◌∷◌, ◌++◌, leb, ◌==◌, ◌!=◌,
  if◌then◌else◌, is_some, same_option, any, find, update, Result, ok, err, parse, conflict,
  cleanup_pending, revision_mismatch, stale_approval, revalidation_required,
}
use forge_ai.Contracts.Primitives.{iso}
use forge_ai.Contracts.Review.{
  ReviewKind, kind_index, Decision, is_approve, Role, Subject, plan_review, execution_review,
  promotion_review, Approval, ApprovalContext, approval_schema, validate_approval, subject_schema,
}
use forge_ai.Contracts.Review
use forge_ai.Jobs.{
  JobState, awaiting_plan_approval, awaiting_execution_approval, awaiting_promotion, approval,
  generating, provisioning, succeeded,
}
use forge_ai.Control.Tables.{JobRow, ProjectRow, SnapshotRow, approval_recorded, Action}
use forge_ai.Control.Tx.{
  Environment, Tx, ◌>>=◌, ◌>>◌, return, reject_if, when, one, one_or, lift, read, write, clock,
  random_uuid,
}
use forge_ai.Control.State.{job_is, scope_of, append_event, change_state, audit}
use forge_ai.Control.Reservations.{release_reservation}
use forge_ai.Control.Cleanup.{pending}
use forge_ai.Control.Worker.{policy_revoked}
use forge_ai.Control.Service.{cancel_locked, project}

-- `approveInputSchema`
pub record ApproveInput : Type 0 where
  pub kind : ReviewKind
  pub subject_digest : ℕ
  pub state_version : ℕ
  pub decision : Decision

-- `promoteInputSchema`, as far as `approve` reads it.
pub record PromoteInput : Type 0 where
  pub snapshot_id : ℕ
  pub verification_digest : ℕ
  pub expected_project_revision : ℕ

-- `expectedKind`
abbrev pub awaited_kind : JobState → Option ReviewKind
awaited_kind awaiting_plan_approval = some Review.plan
awaited_kind awaiting_execution_approval = some Review.execution
awaited_kind awaiting_promotion = some Review.promotion
awaited_kind _ = none

abbrev is_kind : Option ReviewKind → ReviewKind → Bool
is_kind none k = false
is_kind (some a) k = kind_index a == kind_index k

-- The decision is not about the open review.
abbrev pub not_awaited : JobRow → ApproveInput → Bool
not_awaited j body =
    not (is_kind (awaited_kind j.state) body.kind)
    || not (is_some j.review_expires_at)
    || not (is_some j.review_digest)

-- The project has moved on since the job was admitted.
abbrev pub moved_on : ProjectRow → JobRow → Bool
moved_on p j =
    p.revision != j.base_revision || not (same_option p.head_snapshot_id j.base_snapshot_id)

abbrev or_zero : Option ℕ → ℕ
or_zero none = 0
or_zero (some n) = n

abbrev pub approval_for : JobRow → ℕ → ApproveInput → ℕ → ℕ → Approval
approval_for j actor body id now = record {
  id = id;
  scope = scope_of j;
  actor_id = actor;
  kind = body.kind;
  subject_digest = body.subject_digest;
  state_version = body.state_version;
  decision = body.decision;
  created_at = iso now;
  expires_at = iso (or_zero j.review_expires_at);
}

abbrev pub context_for : JobRow → ProjectRow → ℕ → Role → ApproveInput → Bool → ℕ → ApprovalContext
context_for j p actor role body revoked now = record {
  scope = scope_of j;
  actor_id = actor;
  current_role = some role;
  user_disabled = false;
  state_version = j.state_version;
  subject_digest = or_zero j.review_digest;
  base_revision = p.revision;
  base_snapshot_id = p.head_snapshot_id;
  kind = body.kind;
  now = iso now;
  review_expires_at = iso (or_zero j.review_expires_at);
  cancel_requested = is_some j.cancel_requested_at;
  policy_revoked = revoked;
  template_digest = j.template_digest;
  policy_digest = j.policy_digest;
}

-- The `try` around `validateApproval`: whatever it throws is a stale approval.
abbrev pub or_stale : Result Approval → Result Approval
or_stale (ok a) = ok a
or_stale (err e) = err stale_approval

-- The candidate and the verification that a promotion names.
abbrev candidate_digest_of : Subject → ℕ
candidate_digest_of (promotion_review b c v) = c
candidate_digest_of _ = 0

abbrev verification_digest_of : Subject → ℕ
verification_digest_of (promotion_review b c v) = v
verification_digest_of _ = 0

-- The request does not name the candidate, the verification and the revision under review.
abbrev pub rebound : JobRow → ProjectRow → Subject → Option PromoteInput → Bool
rebound j p s none = false
rebound j p s (some b) =
    not (same_option (some b.snapshot_id) j.candidate_snapshot_id)
    || b.verification_digest != verification_digest_of s
    || b.expected_project_revision != p.revision

-- The verified snapshot of the job with its available verification.
abbrev pub verified_snapshot : JobRow → SnapshotRow → Bool
verified_snapshot j x =
    same_option (some x.id) j.candidate_snapshot_id
    && x.job_id == j.id
    && x.is_verified
    && is_some x.verification

-- The snapshot is not what was reviewed, or its verification is more than a day old.
abbrev pub outdated : SnapshotRow → Subject → ℕ → Bool
outdated x s now = x.manifest_digest != candidate_digest_of s || (elim (x.verification) [
  | none ↦ true
  | some (digest, made) ↦ digest != verification_digest_of s || leb (made + 86400000) now
])

abbrev pub set_head : ℕ → ProjectRow → ProjectRow
set_head snapshot p = record p { head_snapshot_id = some snapshot; revision = p.revision + 1 }

-- The state that an approved review leads to.
abbrev pub after_approval : ReviewKind → JobState
after_approval Review.plan = generating
after_approval Review.execution = provisioning
after_approval Review.promotion = succeeded

abbrev is_promotion : ReviewKind → Bool
is_promotion k = kind_index k == 2

abbrev action_of : ReviewKind → Action
action_of k = if is_promotion k then Action.source_promoted else Action.approval_recorded

abbrev is_succeeded : JobState → Bool
is_succeeded succeeded = true
is_succeeded _ = false

module _ (env : Environment) where
  -- The block under `body.kind === 'promotion' && body.decision === 'approve'`.
  unfoldable pub promote_source :
      JobRow → ProjectRow → Subject → Option PromoteInput → ℕ → Tx (Unit {0})
  promote_source j p s binding now = do
    subject ← lift (parse (subject_schema env.hashing Review.promotion) s)
    reject_if (rebound j p subject binding) stale_approval
    snapshot ← one (λ w. find (verified_snapshot j) w.snapshots)
    reject_if (outdated snapshot subject now) revalidation_required
    write (λ w. record w {
      projects =
          update (λ (x : ProjectRow). x.id == j.project_id) (set_head snapshot.id) w.projects;
    })

  -- The row of the decision, and its event.
  unfoldable pub record_approval : JobRow → Approval → Tx JobRow
  record_approval j a = do
    write (λ w. record w {
      approvals =
          w.approvals
          ++ record {
            id = a.id;
            job_id = j.id;
            actor_id = a.actor_id;
            kind = a.kind;
            subject_digest = a.subject_digest;
            state_version = a.state_version;
            decision = a.decision;
            created_at = a.created_at;
          }
            ∷ [];
    })
    append_event env j (approval_recorded a.id a.kind a.decision a.subject_digest)

  -- What follows the decision: the cancellation, or the next state.
  unfoldable pub follow_decision : JobRow → Approval → Subject → ApprovalContext → Tx JobRow
  follow_decision j a s c =
      if is_approve a.decision
      then (do
        k ←
            change_state env j (after_approval a.kind) approval none
              (some (record { approval = a; subject = s; context = c })) none
        when (is_succeeded k.state) (release_reservation k)
        return k)
      else cancel_locked env j

  -- What follows the guards, under the project and the job.
  unfoldable pub decide :
      ProjectRow → JobRow → ℕ → Role → ApproveInput → Option PromoteInput → Tx JobRow
  unfolding promote_source record_approval follow_decision
  decide p j actor role body binding = do
    revoked ← read (λ w. policy_revoked w j)
    now ← clock env
    id ← random_uuid env
    a ← lift (parse approval_schema (approval_for j actor body id now))
    s ← one_or stale_approval (λ w. j.review_json)
    lift
        (or_stale (validate_approval env.hashing a s (context_for j p actor role body revoked now)))
    when (is_promotion body.kind && is_approve body.decision) (promote_source j p s binding now)
    logged ← record_approval j a
    k ← follow_decision logged a s (context_for j p actor role body revoked now)
    audit env k.workspace_id k.id actor (action_of a.kind)
    return k

  -- The action of `approve`.
  unfoldable pub approve_job : ℕ → ℕ → Role → ApproveInput → Option PromoteInput → Tx JobRow
  unfolding decide
  approve_job id actor role body binding = do
    found ← one (λ w. find (job_is id) w.jobs)
    p ← project env found.project_id
    j ← one (λ w. find (job_is id) w.jobs)
    cleaning ← read (λ w. any (pending j.id) w.cleanups)
    reject_if (is_some j.cleanup_target || cleaning) cleanup_pending
    reject_if (not_awaited j body) conflict
    reject_if (moved_on p j) revision_mismatch
    decide p j actor role body binding
