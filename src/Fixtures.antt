-- ===== src/Fixtures.antt =====
-- Sample values for the tests: one project, its job, its reviews and their approvals.
use forge_ai.Prelude.{ℕ, ◌+◌, false, none, some, List, [], ◌∷◌, map}
use forge_ai.Contracts.Primitives.{
  Timestamp, iso, Scope, Resources, CheckId, source_policy, dependencies, secrets, migration_fresh,
  migration_prior, lint, typecheck, build, http, browser_crud, db_restart, keyboard, responsive,
}
use forge_ai.Contracts.Primitives
use forge_ai.Contracts.Review.{
  Hashing, Subject, plan_review, execution_review, promotion_review, ReviewBase, ExecutionReview,
  Command, eslint, CommandPolicy, Approval, ApprovalContext, ReviewKind, approve, owner, Descriptor,
  EnvironmentKind, CheckResult, Verification, runner,
}

abbrev pub scope : Scope
scope = record { workspace_id = 1; project_id = 2; job_id = 3 }

abbrev subject_code : Subject → ℕ
subject_code (plan_review b d) = d + 1
subject_code (execution_review r) = r.candidate_digest + 1000
subject_code (promotion_review b c v) = c + v

abbrev pub hashing : Hashing
hashing = record {
  subject_hash = subject_code;
  policy_hash = λ p. 7;
  resources_hash = λ r. 70;
  review_bytes = λ r. 900;
  descriptor_bytes = λ d. 700;
}

abbrev pub checks : List CheckId
checks =
    source_policy ∷ dependencies ∷ secrets ∷ migration_fresh ∷ migration_prior ∷ lint ∷ typecheck
    ∷ Primitives.unit ∷ build ∷ http ∷ browser_crud ∷ db_restart ∷ keyboard ∷ responsive ∷ []

abbrev command : CheckId → Command
command id = record { check_id = id; executable = eslint; argv = []; timeout_ms = 1000 }

abbrev pub resources : Resources
resources = record {
  cpu = 1;
  memory_mib = 512;
  processes = 10;
  disk_mib = 10;
  log_bytes = 10;
  active_ms = 10;
  verification_ms = 10;
  max_cost_micros = 10;
}

abbrev pub commands : CommandPolicy
commands = record { commands = map command checks; required = checks; resources = resources }

abbrev pub base : ℕ → ReviewBase
base deadline = record {
  scope = scope;
  base_revision = 1;
  base_snapshot_id = none;
  template_digest = 11;
  policy_digest = 7;
  expires_at = iso deadline;
}

abbrev pub plan_subject : ℕ → Subject
plan_subject deadline = plan_review (base deadline) 40

abbrev pub execution_body : ℕ → ExecutionReview
execution_body deadline = record {
  base = base deadline;
  candidate_digest = 50;
  diff_digest = 51;
  image_digest = 52;
  command_policy = commands;
  migrations = [];
  migration_bundle_digest = 53;
}

abbrev pub execution_subject : ℕ → Subject
execution_subject deadline = execution_review (execution_body deadline)

abbrev pub promotion_subject : ℕ → Subject
promotion_subject deadline = promotion_review (base deadline) 50 60

-- An approval by the owner, given at a time for the subject of a digest, and its context.
abbrev pub approval_of : ReviewKind → ℕ → ℕ → ℕ → ℕ → Approval
approval_of kind digest version now deadline = record {
  id = 900;
  scope = scope;
  actor_id = 5;
  kind = kind;
  subject_digest = digest;
  state_version = version;
  decision = approve;
  created_at = iso now;
  expires_at = iso deadline;
}

abbrev pub context_of : ReviewKind → ℕ → ℕ → ℕ → ℕ → ApprovalContext
context_of kind digest version now deadline = record {
  scope = scope;
  actor_id = 5;
  current_role = some owner;
  user_disabled = false;
  state_version = version;
  subject_digest = digest;
  base_revision = 1;
  base_snapshot_id = none;
  kind = kind;
  now = iso now;
  review_expires_at = iso deadline;
  cancel_requested = false;
  policy_revoked = false;
  template_digest = 11;
  policy_digest = 7;
}

abbrev pub descriptor : Descriptor
descriptor = record {
  scope = scope;
  operation_id = 20;
  environment_id = 21;
  app_database_id = 22;
  kind = EnvironmentKind.test;
  lease_epoch = 4;
  issued_at = iso 1000;
  expires_at = iso 50000;
  approval_id = 900;
  execution_review_digest = 1050;
  source_manifest_digest = 50;
  template_digest = 11;
  image_digest = 52;
  command_policy_digest = 7;
  resources = resources;
}

abbrev result : CheckId → CheckResult
result id = record {
  check_id = id;
  started_at = iso 1000;
  finished_at = iso 2000;
  exit_code = 0;
  timed_out = false;
  oom = false;
  evidence_digest = 80;
}

abbrev pub verification : Verification
verification = record {
  scope = scope;
  origin = runner;
  candidate_digest = 50;
  template_digest = 11;
  image_digest = 52;
  policy_digest = 7;
  build_output_digest = 81;
  lease_epoch = 4;
  checks = map result checks;
}
