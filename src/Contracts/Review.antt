-- ===== src/Contracts/Review.antt =====
-- engine/contracts/review.ts: review subjects, approvals, runner descriptors and verifications.
--
-- `canonicalHash` and the byte length of a JSON text are parameters (`Hashing`): they rest on SHA-256
-- and on the serialiser. Fields whose schema is a literal (the schema version, the network, the
-- mounts, the data reset) have one value and are left out.
pub mod Bindings
pub mod Descriptors
mod Tests
use forge_ai.Prelude.{
  ℕ, ◌-◌, Bool, true, false, ◌&&◌, ◌||◌, not, Option, none, some, List, ◌∷◌, map, leb, ltb, ◌==◌,
  ◌!=◌, same_option, is_digit, is_lower, length, all, any, distinct, codes, starts_with, Result, ok,
  err, ◌>>=◌, ◌>>◌, throw_if, parse, invalid, unauthorized, stale_approval, scope_mismatch,
  binding_mismatch, expired_approval, descriptor_mismatch, descriptor_scope, bad_verification,
}
use forge_ai.Contracts.Primitives.{
  Timestamp, datetime, same_timestamp, Scope, same_scope, Resources, resources_schema, CheckId,
  check_index, required_checks, positive, positive_max,
}
use forge_ai.Contracts.Paths.{is_generated_path}

pub data ReviewKind : Type 0 where
  plan execution promotion : ReviewKind

abbrev pub kind_index : ReviewKind → ℕ
kind_index plan = 0
kind_index execution = 1
kind_index promotion = 2

pub data Decision : Type 0 where
  approve reject : Decision

abbrev pub is_approve : Decision → Bool
is_approve approve = true
is_approve reject = false

pub data Role : Type 0 where
  owner editor viewer : Role

pub data Executable : Type 0 where
  dependency_materializer migration_runner eslint tsc vitest next : Executable
  external_harness scanner : Executable

pub record Command : Type 0 where
  pub check_id : CheckId
  pub executable : Executable
  pub argv : List (List ℕ)
  pub timeout_ms : ℕ

-- `max(240)` and no NUL, carriage return or line feed
unfoldable pub argument_ok : List ℕ → Bool
argument_ok s = leb (length s) 240 && not (any (λ c. c == 0 || c == 13 || c == 10) s)

unfoldable pub command_schema : Command → Bool
unfolding argument_ok
command_schema c =
    all argument_ok c.argv && leb (length c.argv) 20 && positive_max 240000 c.timeout_ms

pub record CommandPolicy : Type 0 where
  pub commands : List Command
  pub required : List CheckId
  pub resources : Resources

unfoldable pub command_policy_schema : CommandPolicy → Bool
unfolding command_schema required_checks resources_schema
command_policy_schema p =
    all command_schema p.commands
    && leb 1 (length p.commands)
    && leb (length p.commands) 20
    && required_checks p.required
    && resources_schema p.resources
    && all (λ id. any (λ (c : Command). check_index c.check_id == check_index id) p.commands)
        p.required

pub record Migration : Type 0 where
  pub id : List ℕ
  pub path : List ℕ
  pub sha256 : ℕ
  pub order : ℕ

-- `/^[0-9]{4}_[a-z0-9_]+$/`
migration_id : List ℕ → Bool
migration_id (a ∷ b ∷ c ∷ d ∷ u ∷ s) =
    is_digit a
    && is_digit b
    && is_digit c
    && is_digit d
    && u == b'_'
    && ltb 0 (length s)
    && all (λ x. is_lower x || is_digit x || x == b'_') s
migration_id _ = false

unfoldable pub migration_schema : Migration → Bool
unfolding migration_id is_generated_path
migration_schema m =
    migration_id m.id
    && is_generated_path m.path
    && starts_with (codes "migrations/") m.path
    && positive_max 200 m.order

-- What every review subject binds.
pub record ReviewBase : Type 0 where
  pub scope : Scope
  pub base_revision : ℕ
  pub base_snapshot_id : Option ℕ
  pub template_digest : ℕ
  pub policy_digest : ℕ
  pub expires_at : Timestamp

pub record ExecutionReview : Type 0 where
  pub base : ReviewBase
  pub candidate_digest : ℕ
  pub diff_digest : ℕ
  pub image_digest : ℕ
  pub command_policy : CommandPolicy
  pub migrations : List Migration
  pub migration_bundle_digest : ℕ

pub data Subject : Type 0 where
  plan_review : ReviewBase → (plan_digest : ℕ) → Subject
  execution_review : ExecutionReview → Subject
  promotion_review : ReviewBase → (candidate_digest verification_digest : ℕ) → Subject

abbrev pub base_of : Subject → ReviewBase
base_of (plan_review b _) = b
base_of (execution_review r) = r.base
base_of (promotion_review b _ _) = b

pub record Approval : Type 0 where
  pub id : ℕ
  pub scope : Scope
  pub actor_id : ℕ
  pub kind : ReviewKind
  pub subject_digest : ℕ
  pub state_version : ℕ
  pub decision : Decision
  pub created_at : Timestamp
  pub expires_at : Timestamp

pub record ApprovalContext : Type 0 where
  pub scope : Scope
  pub actor_id : ℕ
  pub current_role : Option Role
  pub user_disabled : Bool
  pub state_version : ℕ
  pub subject_digest : ℕ
  pub base_revision : ℕ
  pub base_snapshot_id : Option ℕ
  pub kind : ReviewKind
  pub now : Timestamp
  pub review_expires_at : Timestamp
  pub cancel_requested : Bool
  pub policy_revoked : Bool
  pub template_digest : ℕ
  pub policy_digest : ℕ

pub data EnvironmentKind : Type 0 where
  test preview : EnvironmentKind

pub record Descriptor : Type 0 where
  pub scope : Scope
  pub operation_id : ℕ
  pub environment_id : ℕ
  pub app_database_id : ℕ
  pub kind : EnvironmentKind
  pub lease_epoch : ℕ
  pub issued_at : Timestamp
  pub expires_at : Timestamp
  pub approval_id : ℕ
  pub execution_review_digest : ℕ
  pub source_manifest_digest : ℕ
  pub template_digest : ℕ
  pub image_digest : ℕ
  pub command_policy_digest : ℕ
  pub resources : Resources

-- `canonicalHash` of the values that are hashed, and the size of the ones that are bounded.
pub record Hashing : Type 0 where
  pub subject_hash : Subject → ℕ
  pub policy_hash : CommandPolicy → ℕ
  pub resources_hash : Resources → ℕ
  pub review_bytes : ExecutionReview → ℕ
  pub descriptor_bytes : Descriptor → ℕ

unfoldable pub approval_schema : Approval → Bool
approval_schema a =
    positive a.state_version
    && ltb a.created_at.instant a.expires_at.instant
    && datetime a.created_at
    && datetime a.expires_at

unfoldable pub context_schema : ApprovalContext → Bool
context_schema c =
    positive c.state_version
    && positive c.base_revision
    && datetime c.now
    && datetime c.review_expires_at

abbrev pub may_approve : Option Role → Bool
may_approve none = false
may_approve (some viewer) = false
may_approve (some _) = true

-- The actor may not approve, or the job or its policy is withdrawn.
unfoldable pub refused : ApprovalContext → Bool
refused c =
    c.user_disabled || not (may_approve c.current_role) || c.cancel_requested || c.policy_revoked

unfoldable pub stale : Hashing → Approval → Subject → ApprovalContext → Bool
stale h a s c =
    kind_index a.kind != kind_index c.kind
    || a.actor_id != c.actor_id
    || a.state_version != c.state_version
    || a.subject_digest != c.subject_digest
    || a.subject_digest != h.subject_hash s

unfoldable pub out_of_scope : Approval → ReviewBase → ApprovalContext → Bool
out_of_scope a b c = not (same_scope a.scope c.scope && same_scope b.scope c.scope)

unfoldable pub unbound : ReviewBase → ApprovalContext → Bool
unbound b c =
    b.base_revision != c.base_revision
    || not (same_option b.base_snapshot_id c.base_snapshot_id)
    || b.template_digest != c.template_digest
    || b.policy_digest != c.policy_digest

unfoldable pub out_of_time : Approval → ReviewBase → ApprovalContext → Bool
out_of_time a b c =
    ltb c.now.instant a.created_at.instant
    || leb a.expires_at.instant c.now.instant
    || leb c.review_expires_at.instant c.now.instant
    || not (same_timestamp b.expires_at c.review_expires_at)
    || ltb c.review_expires_at.instant a.expires_at.instant
    || ltb 86400000 (a.expires_at.instant - a.created_at.instant)

abbrev is_execution : ReviewKind → Bool
is_execution execution = true
is_execution _ = false

-- The descriptor does not bind the approved review, or its lease is not the current one.
unfoldable pub mismatched :
    Hashing → Descriptor → ExecutionReview → Approval → ApprovalContext → ℕ → Bool
mismatched h d review a c current_epoch =
    not (is_execution c.kind)
    || not (is_approve a.decision)
    || d.approval_id != a.id
    || d.lease_epoch != current_epoch
    || ltb c.now.instant d.issued_at.instant
    || leb d.expires_at.instant c.now.instant
    || d.execution_review_digest != h.subject_hash (execution_review review)
    || d.source_manifest_digest != review.candidate_digest
    || d.template_digest != review.base.template_digest
    || d.image_digest != review.image_digest
    || d.command_policy_digest != review.base.policy_digest
    || h.resources_hash d.resources != h.resources_hash review.command_policy.resources

module _ (h : Hashing) where
  unfoldable pub execution_schema : ExecutionReview → Bool
  unfolding command_policy_schema migration_schema
  execution_schema r =
      positive r.base.base_revision
      && datetime r.base.expires_at
      && command_policy_schema r.command_policy
      && all migration_schema r.migrations
      && leb (length r.migrations) 200
      && r.base.policy_digest == h.policy_hash r.command_policy
      && leb (h.review_bytes r) 65536

  -- The schema of a kind of review; a subject of another kind is refused by its strict shape.
  unfoldable pub subject_schema : ReviewKind → Subject → Bool
  unfolding execution_schema
  subject_schema plan (plan_review b _) = positive b.base_revision && datetime b.expires_at
  subject_schema plan _ = false
  subject_schema execution (execution_review r) = execution_schema r
  subject_schema execution _ = false
  subject_schema promotion (promotion_review b _ _) =
      positive b.base_revision && datetime b.expires_at
  subject_schema promotion _ = false

  unfoldable pub validate_approval : Approval → Subject → ApprovalContext → Result Approval
  validate_approval input subject_input context_input = do
    a ← parse approval_schema input
    c ← parse context_schema context_input
    subject ← parse (subject_schema c.kind) subject_input
    throw_if (refused c) unauthorized
    throw_if (stale h a subject c) stale_approval
    throw_if (out_of_scope a (base_of subject) c) scope_mismatch
    throw_if (unbound (base_of subject) c) binding_mismatch
    throw_if (out_of_time a (base_of subject) c) expired_approval
    ok a

  unfoldable pub descriptor_schema : Descriptor → Bool
  unfolding resources_schema
  descriptor_schema d =
      positive d.lease_epoch
      && datetime d.issued_at
      && datetime d.expires_at
      && resources_schema d.resources
      && ltb d.issued_at.instant d.expires_at.instant
      && leb (d.expires_at.instant - d.issued_at.instant) 60000
      && leb (h.descriptor_bytes d) 8192

  -- `executionReviewSchema.parse(reviewInput)`
  unfoldable pub parse_execution : Subject → Result ExecutionReview
  unfolding execution_schema
  parse_execution (execution_review r) = parse execution_schema r
  parse_execution _ = err invalid

  unfoldable pub validate_descriptor :
      Descriptor → Subject → Approval → ApprovalContext → ℕ → Result Descriptor
  validate_descriptor input review_input approval_input context_input current_epoch = do
    d ← parse descriptor_schema input
    review ← parse_execution review_input
    c ← parse context_schema context_input
    a ← validate_approval approval_input (execution_review review) c
    throw_if (not (positive current_epoch)) invalid
    throw_if (mismatched h d review a c current_epoch) descriptor_mismatch
    throw_if (not (same_scope d.scope c.scope)) descriptor_scope
    ok d

pub data Origin : Type 0 where
  runner fixture : Origin

abbrev pub is_runner : Origin → Bool
is_runner runner = true
is_runner fixture = false

pub record CheckResult : Type 0 where
  pub check_id : CheckId
  pub started_at : Timestamp
  pub finished_at : Timestamp
  pub exit_code : ℕ
  pub timed_out : Bool
  pub oom : Bool
  pub evidence_digest : ℕ

pub record Verification : Type 0 where
  pub scope : Scope
  pub origin : Origin
  pub candidate_digest : ℕ
  pub template_digest : ℕ
  pub image_digest : ℕ
  pub policy_digest : ℕ
  pub build_output_digest : ℕ
  pub lease_epoch : ℕ
  pub checks : List CheckResult

unfoldable pub verification_schema : Verification → Bool
verification_schema v =
    positive v.lease_epoch
    && length v.checks == 14
    && all
        (λ (c : CheckResult).
          leb c.exit_code 255 && datetime c.started_at && datetime c.finished_at)
        v.checks
    && distinct (map (λ (c : CheckResult). check_index c.check_id) v.checks)
    && all (λ (c : CheckResult). leb c.started_at.instant c.finished_at.instant) v.checks

abbrev pub check_failed : CheckResult → Bool
check_failed c = c.exit_code != 0 || c.timed_out || c.oom

-- Not the runner's, not of this descriptor, or with a failing check.
unfoldable pub unproven : Verification → Descriptor → Bool
unproven v d =
    not (is_runner v.origin)
    || v.candidate_digest != d.source_manifest_digest
    || v.template_digest != d.template_digest
    || v.image_digest != d.image_digest
    || v.policy_digest != d.command_policy_digest
    || v.lease_epoch != d.lease_epoch
    || not (same_scope v.scope d.scope)
    || any check_failed v.checks

unfoldable pub validate_passing_verification :
    Hashing → Verification → Descriptor → Result Verification
validate_passing_verification h input descriptor_input = do
  v ← parse verification_schema input
  d ← parse (descriptor_schema h) descriptor_input
  throw_if (unproven v d) bad_verification
  ok v
