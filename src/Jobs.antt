-- ===== src/Jobs.antt =====
-- engine/workflows/jobs.ts: the job reducer.
--
-- `transition_job` is the whole of `transitionJob`: the guards in their order, each thrown error a
-- `Fault`, and the last `jobSchema.parse` on the result. Times are milliseconds (`Timestamp`).
pub mod WellFormed
pub mod Outcomes
pub mod Terminal
pub mod Approvals
pub mod Runs
pub mod Exits
pub mod Success
mod Tests
use Prim.Native.Nat.{min}
use forge_ai.Prelude.{
  ℕ, ◌+◌, ◌-◌, Bool, true, false, ◌&&◌, ◌||◌, not, Option, none, some, List, [], ◌∷◌, leb, ltb,
  ◌==◌, ◌!=◌, if◌then◌else◌, same_bool, same_option, is_some, Result, ok, err, ◌>>=◌, ◌>>◌,
  throw_if, parse, state_conflict, paused_time, missing_approval, context_mismatch,
  forbidden_transition,
}
use forge_ai.Contracts.Primitives.{
  Timestamp, datetime, datetime_option, same_timestamp, iso, Scope, same_scope, positive, uint,
  max_safe,
}
use forge_ai.Contracts.Review.{
  ReviewKind, plan, execution, promotion, kind_index, Approval, ApprovalContext, Subject, Hashing,
  is_approve, context_schema, validate_approval,
}

pub data JobState : Type 0 where
  queued planning awaiting_plan_approval generating validating : JobState
  awaiting_execution_approval provisioning verifying repairing preparing_preview : JobState
  awaiting_promotion cancelling succeeded failed cancelled expired : JobState

-- The position in `states`.
abbrev pub state_index : JobState → ℕ
state_index queued = 0
state_index planning = 1
state_index awaiting_plan_approval = 2
state_index generating = 3
state_index validating = 4
state_index awaiting_execution_approval = 5
state_index provisioning = 6
state_index verifying = 7
state_index repairing = 8
state_index preparing_preview = 9
state_index awaiting_promotion = 10
state_index cancelling = 11
state_index succeeded = 12
state_index failed = 13
state_index cancelled = 14
state_index expired = 15

abbrev pub same_state : JobState → JobState → Bool
same_state a b = state_index a == state_index b

abbrev pub is_terminal : JobState → Bool
is_terminal succeeded = true
is_terminal failed = true
is_terminal cancelled = true
is_terminal expired = true
is_terminal _ = false

-- `reviewStates.includes(s)`
abbrev pub is_review : JobState → Bool
is_review awaiting_plan_approval = true
is_review awaiting_execution_approval = true
is_review awaiting_promotion = true
is_review _ = false

abbrev pub edges : JobState → List JobState
edges queued = planning ∷ validating ∷ []
edges planning = awaiting_plan_approval ∷ []
edges awaiting_plan_approval = generating ∷ []
edges generating = validating ∷ []
edges validating = awaiting_execution_approval ∷ repairing ∷ []
edges awaiting_execution_approval = provisioning ∷ []
edges provisioning = verifying ∷ []
edges verifying = preparing_preview ∷ repairing ∷ []
edges repairing = validating ∷ []
edges preparing_preview = awaiting_promotion ∷ []
edges awaiting_promotion = succeeded ∷ []
edges cancelling = cancelled ∷ []
edges succeeded = []
edges failed = []
edges cancelled = []
edges expired = []

abbrev pub has_state : List JobState → JobState → Bool
has_state [] s = false
has_state (t ∷ ts) s = same_state t s || has_state ts s

pub data JobKind : Type 0 where
  generate restore : JobKind

abbrev pub is_restore : JobKind → Bool
is_restore restore = true
is_restore generate = false

pub record Job : Type 0 where
  pub scope : Scope
  pub kind : JobKind
  pub state : JobState
  pub state_version : ℕ
  pub base_revision : ℕ
  pub base_snapshot_id : Option ℕ
  pub template_digest : ℕ
  pub policy_digest : ℕ
  pub created_at : Timestamp
  pub updated_at : Timestamp
  pub review_expires_at : Option Timestamp
  pub review_digest : Option ℕ
  pub finished_at : Option Timestamp
  pub repair_count : ℕ
  pub active_remaining_ms : ℕ
  pub cancel_requested : Bool

-- `finishedAt === null || Date.parse(finishedAt) >= Date.parse(createdAt)`
abbrev not_before : Option Timestamp → Timestamp → Bool
not_before none t = true
not_before (some f) t = leb t.instant f.instant

-- The fields of `jobSchema` that are a `timestamp`.
abbrev pub is_dated : Job → Bool
is_dated j =
    datetime j.created_at
    && datetime j.updated_at
    && datetime_option j.review_expires_at
    && datetime_option j.finished_at

-- `jobSchema`: the bounds of the fields, and its refinement.
unfoldable pub job_schema : Job → Bool
job_schema j =
    positive j.state_version
    && positive j.base_revision
    && leb j.repair_count 2
    && leb j.active_remaining_ms 1200000
    && same_bool (is_terminal j.state) (is_some j.finished_at)
    && same_bool (is_review j.state) (is_some j.review_expires_at)
    && same_bool (is_review j.state) (is_some j.review_digest)
    && leb j.created_at.instant j.updated_at.instant
    && not_before j.finished_at j.created_at
    && (not (same_state j.state cancelling) || j.cancel_requested)
    && (not (is_restore j.kind) || is_some j.base_snapshot_id && j.repair_count == 0)
    && is_dated j

pub data Reason : Type 0 where
  stage_complete approval repairable_error security_rejection failure cancel timeout cleanup :
      Reason

abbrev pub reason_index : Reason → ℕ
reason_index stage_complete = 0
reason_index approval = 1
reason_index repairable_error = 2
reason_index security_rejection = 3
reason_index failure = 4
reason_index cancel = 5
reason_index timeout = 6
reason_index cleanup = 7

abbrev pub same_reason : Reason → Reason → Bool
same_reason a b = reason_index a == reason_index b

pub record Transition : Type 0 where
  pub target : JobState
  pub expected_state_version : ℕ
  pub now : Timestamp
  pub elapsed_active_ms : ℕ
  pub resources_released : Bool
  pub next_review_digest : Option ℕ
  pub reason : Reason

unfoldable pub transition_schema : Transition → Bool
transition_schema t =
    positive t.expected_state_version && uint t.elapsed_active_ms && datetime t.now

pub record ApprovalProof : Type 0 where
  pub approval : Approval
  pub subject : Subject
  pub context : ApprovalContext

-- `job.reviewExpiresAt !== null && Date.parse(now) >= Date.parse(job.reviewExpiresAt)`
abbrev reached : Option Timestamp → ℕ → Bool
reached none now = false
reached (some t) now = leb t.instant now

-- `remaining === 0` and the deadlines.
unfoldable pub deadline_passed : Job → Transition → Bool
deadline_passed j t =
    leb 604800000 (t.now.instant - j.created_at.instant)
    || reached j.review_expires_at t.now.instant
    || same_state j.state queued && leb 600000 (t.now.instant - j.created_at.instant)
    || j.active_remaining_ms - t.elapsed_active_ms == 0

-- `c.reviewExpiresAt !== job.reviewExpiresAt`
abbrev same_expiry : Timestamp → Option Timestamp → Bool
same_expiry t none = false
same_expiry t (some u) = same_timestamp t u

abbrev same_digest : ℕ → Option ℕ → Bool
same_digest d none = false
same_digest d (some e) = d == e

abbrev pub expected_kind : JobState → ReviewKind
expected_kind awaiting_plan_approval = plan
expected_kind awaiting_execution_approval = execution
expected_kind _ = promotion

-- Whether the approval context describes this job at this moment.
unfoldable pub context_matches : Job → Transition → ApprovalContext → Bool
context_matches j t c =
    kind_index c.kind == kind_index (expected_kind j.state)
    && same_timestamp c.now t.now
    && c.state_version == j.state_version
    && same_expiry c.review_expires_at j.review_expires_at
    && same_digest c.subject_digest j.review_digest
    && c.base_revision == j.base_revision
    && same_option c.base_snapshot_id j.base_snapshot_id
    && same_bool c.cancel_requested j.cancel_requested
    && c.template_digest == j.template_digest
    && c.policy_digest == j.policy_digest
    && same_scope c.scope j.scope

-- The block under `if (reviewStates.includes(job.state))`.
unfoldable pub approved : Hashing → Job → Transition → Option ApprovalProof → Result Bool
approved h j t none = err missing_approval
approved h j t (some p) = do
  c ← parse context_schema p.context
  throw_if (not (context_matches j t c)) context_mismatch
  let granted = (validate_approval h p.approval p.subject c >>= λ a. ok (is_approve a.decision))
  (if same_reason t.reason approval then granted else ok false)

-- The target of a job that leaves the queue.
abbrev first_stage : JobKind → JobState
first_stage generate = planning
first_stage restore = validating

-- `allowed` on an edge of the diagram, before a review is looked at.
unfoldable pub edge_allowed : Job → Transition → Bool
edge_allowed j t =
    if same_state t.target repairing
    then same_reason t.reason repairable_error
      && not (is_restore j.kind)
      && ltb j.repair_count 2
      && t.resources_released
    else same_reason t.reason stage_complete
      && (not (same_state j.state queued) || same_state t.target (first_stage j.kind))

-- The chain that computes `allowed`.
unfoldable pub allowed : Hashing → Job → Transition → Option ApprovalProof → Result Bool
allowed h j t proof =
    if same_state j.state cancelling
    then ok (same_state t.target cancelled && same_reason t.reason cleanup && t.resources_released)
    else if same_state t.target cancelling
    then ok (same_reason t.reason cancel)
    else if same_state t.target failed
    then ok (
        (same_reason t.reason failure || same_reason t.reason security_rejection)
        && t.resources_released)
    else if same_state t.target expired
    then ok (same_reason t.reason timeout && deadline_passed j t && t.resources_released)
    else if not (deadline_passed j t)
        && not j.cancel_requested
        && has_state (edges j.state) t.target
    then (if is_review j.state then approved h j t proof else ok (edge_allowed j t))
    else ok false

-- The result of an allowed transition, before it is parsed again.
unfoldable pub apply_transition : Job → Transition → Job
apply_transition j t = record j {
  state = t.target;
  state_version = j.state_version + 1;
  updated_at = t.now;
  active_remaining_ms = j.active_remaining_ms - t.elapsed_active_ms;
  review_expires_at =
      if is_review t.target
      then some (iso (min (t.now.instant + 86400000) (j.created_at.instant + 604800000)))
      else none;
  review_digest = t.next_review_digest;
  finished_at = if is_terminal t.target then some t.now else none;
  repair_count = j.repair_count + (if same_state t.target repairing then 1 else 0);
  cancel_requested = j.cancel_requested || same_state t.target cancelling;
}

-- The first guard: a terminal job, a stale version, an exhausted version or a clock that went back.
unfoldable pub conflicts : Job → Transition → Bool
conflicts j t =
    is_terminal j.state
    || t.expected_state_version != j.state_version
    || j.state_version == max_safe
    || ltb t.now.instant j.updated_at.instant

unfoldable pub transition_job : Hashing → Job → Transition → Option ApprovalProof → Result Job
transition_job h job_input input proof = do
  j ← parse job_schema job_input
  t ← parse transition_schema input
  throw_if (conflicts j t) state_conflict
  throw_if ((is_review j.state || same_state j.state queued) && t.elapsed_active_ms != 0)
      paused_time
  permitted ← allowed h j t proof
  throw_if (not permitted || not (same_bool (is_review t.target) (is_some t.next_review_digest)))
      forbidden_transition
  parse job_schema (apply_transition j t)
