-- ===== src/Control/Worker/Stages.antt =====
-- engine/control/worker.ts, complete: the branches, one to a stage and a result.
--
-- Each branch of `complete` returns what the statements after it read: the job, the output artifact, the
-- target, the reason and the review. `reserve_fixture_preview` is a function of the database, a
-- parameter.
pub mod Targets
use forge_ai.Prelude.{
  ℕ, ◌+◌, Bool, true, false, ◌&&◌, ◌||◌, not, Option, none, some, List, [], ◌∷◌, ◌++◌, leb, ◌==◌,
  ◌!=◌, if◌then◌else◌, is_some, same_option, any, keep, find, update, min, codes, Result, ok, err,
  invalid, binding_failed, repair_exhausted, missing_candidate,
}
use forge_ai.Contracts.Primitives.{iso, same_scope}
use forge_ai.Contracts.Review.{
  Subject, plan_review, execution_review, promotion_review, ReviewBase, Verification,
  verification_schema, is_runner, CheckResult, check_failed,
}
use forge_ai.Contracts.Source.{Plan, Manifest, File, SourceOrigin}
use forge_ai.Jobs.{JobState, JobKind, generate, restore, Reason, stage_complete}
use forge_ai.Control.Tables.{
  World, JobRow, StepRow, SnapshotRow, EnvironmentRow, PreviewRow, PreviewState, is_ready, Blob,
  Payload, plan_payload, verification_payload, blob_payload, check_passed, preview_ready,
}
use forge_ai.Control.Tx.{
  Environment, Tx, ◌>>=◌, ◌>>◌, return, reject_if, one, one_or, lift, read, write, clock,
  random_uuid,
}
use forge_ai.Control.State.{job_is, scope_of, append_event}
use forge_ai.Control.Cleanup.{destroy_fixture_resources}
use forge_ai.Control.Worker.Inputs.{
  StageInput, input_of, payload, parse_manifest, new_artifact, candidate,
}

-- What a branch leaves for the statements after it.
pub record Outcome : Type 0 where
  pub job : JobRow
  pub output : Option ℕ
  pub target : JobState
  pub reason : Reason
  pub review : Option Subject

-- `Math.min(at + 1 day, created_at + 7 days)`
abbrev pub review_end : JobRow → ℕ → ℕ
review_end j at = min (at + 86400000) (j.created_at + 604800000)

-- `common`
abbrev pub common : JobRow → ℕ → ReviewBase
common j at = record {
  scope = scope_of j;
  base_revision = j.base_revision;
  base_snapshot_id = j.base_snapshot_id;
  template_digest = j.template_digest;
  policy_digest = j.policy_digest;
  expires_at = iso (review_end j at);
}

abbrev pub is_generate : JobKind → Bool
is_generate generate = true
is_generate restore = false

abbrev pub first_target : JobRow → JobState
first_target j = if is_generate j.kind then JobState.planning else JobState.validating

-- The verification of a fixture run, of this candidate, policy and lease, with no failing check.
abbrev pub unverified : Environment → Verification → Option Manifest → JobRow → StepRow → Bool
unverified env v none j s = true
unverified env v (some m) j s =
    is_runner v.origin
    || v.candidate_digest != env.source.manifest_hash m
    || v.template_digest != j.template_digest
    || v.policy_digest != j.policy_digest
    || v.image_digest != env.fixture_image
    || v.lease_epoch != s.lease_epoch
    || not (same_scope v.scope (scope_of j))
    || any check_failed v.checks

abbrev set_plan : ℕ → JobRow → JobRow
set_plan plan r = record r { plan_artifact_id = some plan }

abbrev pub set_verified : ℕ → (digest made : ℕ) → SnapshotRow → SnapshotRow
set_verified artifact digest made x = record x {
  is_verified = true;
  verification_artifact_id = some artifact;
  verification = some (digest, made);
}

abbrev pub of_candidate : JobRow → SnapshotRow → Bool
of_candidate j x = elim (j.candidate_snapshot_id) [ none ↦ false | some id ↦ x.id == id ]

-- The jobs of the project whose preview is still there.
abbrev pub previewed : JobRow → World → JobRow → Bool
previewed j w old =
    old.project_id == j.project_id
    && not (old.id == j.id)
    && any (λ (e : EnvironmentRow). e.job_id == old.id && e.is_preview && not e.is_destroyed)
        w.environments

abbrev pub new_environment : JobRow → ℕ → Bool → ℕ → EnvironmentRow
new_environment j id preview expires = record {
  id = id;
  project_id = j.project_id;
  job_id = j.id;
  is_preview = preview;
  is_destroyed = false;
  expires_at = expires;
  destroyed_at = none;
}

-- The manifest of a restoration, bound to the job, with its blobs under new identifiers.
abbrev restored : Environment → JobRow → Manifest → List File → Manifest
restored env j m files = record m {
  files = files;
  base_snapshot_id = j.base_snapshot_id;
  command_policy_digest = j.policy_digest;
  provenance = record m.provenance { origin = SourceOrigin.fixture; job_id = j.id };
}

module _ (env : Environment) where
  unfoldable pub plan_branch : JobRow → ℕ → Plan → Tx Outcome
  plan_branch j at p = do
    reject_if
        (p.template_digest != j.template_digest
          || p.brief_hash != env.source.text_hash j.instruction)
        binding_failed
    output ← new_artifact env j (plan_payload p)
    write (λ w. record w { jobs = update (job_is j.id) (set_plan output) w.jobs })
    return (record {
      job = set_plan output j;
      output = some output;
      target = JobState.awaiting_plan_approval;
      reason = stage_complete;
      review = some (plan_review (common j at) (env.source.plan_hash p));
    })

  unfoldable pub candidate_branch : JobRow → Manifest → List Blob → Tx Outcome
  candidate_branch j m blobs = do
    made ← candidate env j m blobs
    return (record {
      job = made.1;
      output = some made.0;
      target = JobState.validating;
      reason = stage_complete;
      review = none;
    })

  abbrev text_of : Payload → Result (List ℕ)
  text_of (blob_payload t) = ok t
  text_of _ = err invalid

  -- The loop over the files of a restored manifest.
  unfoldable pub copy_blobs : List File → Tx (List File × List Blob)
  copy_blobs [] = return ([], [])
  copy_blobs (f ∷ fs) = do
    p ← payload f.blob_id
    id ← random_uuid env
    t ← lift (text_of p)
    rest ← copy_blobs fs
    return (record f { blob_id = id } ∷ rest.0, record { blob_id = id; content = t } ∷ rest.1)

  -- The candidate that a restoration takes from its source.
  unfoldable pub restore_candidate : JobRow → Tx (Option ℕ × JobRow)
  restore_candidate j = do
    prior ← one (λ w.
        find
          (λ (x : SnapshotRow).
            same_option (some x.id) j.restore_snapshot_id
            && x.project_id == j.project_id
            && x.is_verified)
          w.snapshots)
    p ← payload prior.manifest_artifact_id
    m ← lift (parse_manifest env p)
    copied ← copy_blobs m.files
    made ← candidate env j (restored env j m copied.0) copied.1
    return (some made.0, made.1)

  -- The review of a candidate that is validated.
  unfoldable pub validated : JobRow → Option ℕ → ℕ → StageInput → Tx Outcome
  validated j output at input = do
    m ← one_or missing_candidate (λ w. input.manifest)
    return (record {
      job = j;
      output = output;
      target = JobState.awaiting_execution_approval;
      reason = stage_complete;
      review = some (
          execution_review (record {
            base = common j at;
            candidate_digest = env.source.manifest_hash m;
            diff_digest = env.source.text_hash (codes "fixture diff only");
            image_digest = env.fixture_image;
            command_policy = env.fixture_commands j.cost_limit_micros;
            migrations = m.migrations;
            migration_bundle_digest = env.bundle_hash m.migrations;
          }));
    })

  unfoldable pub validating_branch : JobRow → StepRow → ℕ → Tx Outcome
  validating_branch j s at = do
    made ←
        if not (is_generate j.kind) && not (is_some j.candidate_snapshot_id)
        then restore_candidate j
        else return (none, j)
    input ← input_of env made.1 s
    validated made.1 made.0 at input

  unfoldable pub provisioning_branch : JobRow → Tx Outcome
  provisioning_branch j = do
    id ← random_uuid env
    now ← clock env
    write (λ w. record w {
      environments = w.environments ++ new_environment j id false (now + 600000) ∷ [];
    })
    return (record {
      job = j;
      output = none;
      target = JobState.verifying;
      reason = stage_complete;
      review = none;
    })

  unfoldable pub repair_branch : JobRow → Tx Outcome
  repair_branch j = do
    reject_if (not (is_generate j.kind) || leb 2 j.repair_count) repair_exhausted
    destroy_fixture_resources env j.id
    return (record {
      job = j;
      output = none;
      target = JobState.repairing;
      reason = Reason.repairable_error;
      review = none;
    })

  -- `for (const check of v.checks) await appendEvent(…)`
  unfoldable pub report_checks : JobRow → ℕ → ℕ → List CheckResult → Tx JobRow
  report_checks j output digest [] = return j
  report_checks j output digest (c ∷ cs) = do
    k ← append_event env j (check_passed c.check_id output digest)
    report_checks k output digest cs

  unfoldable pub verification_branch : JobRow → StepRow → Verification → Tx Outcome
  verification_branch j s v = do
    reject_if (not (verification_schema v)) invalid
    input ← input_of env j s
    reject_if (unverified env v input.manifest j s) binding_failed
    output ← new_artifact env j (verification_payload v)
    write (λ w. record w {
      snapshots =
          update (of_candidate j) (set_verified output (env.verification_hash v) env.begun)
            w.snapshots;
    })
    k ← report_checks j output v.candidate_digest v.checks
    destroy_fixture_resources env k.id
    return (record {
      job = k;
      output = some output;
      target = JobState.preparing_preview;
      reason = stage_complete;
      review = none;
    })

  -- `for (const old of prior) await destroyFixtureResources(c, old)`
  unfoldable pub destroy_each : List JobRow → Tx (Unit {0})
  destroy_each [] = return tt
  destroy_each (old ∷ rest) = destroy_fixture_resources env old.id >> destroy_each rest

  abbrev stop_shown : PreviewRow → PreviewRow
  stop_shown x = record x { state = PreviewState.stopped }

  -- The statements on the environment and the preview.
  unfoldable pub show_preview : JobRow → ℕ → ℕ → World → World
  show_preview j environment preview w = record w {
    previews =
        update (λ (x : PreviewRow). x.project_id == j.project_id && is_ready x.state) stop_shown
          w.previews
        ++ record {
          id = preview;
          project_id = j.project_id;
          environment_id = environment;
          state = PreviewState.ready;
          idle_expires_at = env.begun + 900000;
        }
          ∷ [];
  }

  -- The review of a promotion: the candidate and its verification.
  unfoldable pub promotable : JobRow → ℕ → StageInput → Tx Outcome
  promotable j at input = do
    m ← one_or missing_candidate (λ w. input.manifest)
    v ← one_or missing_candidate (λ w. input.verification)
    return (record {
      job = j;
      output = none;
      target = JobState.awaiting_promotion;
      reason = stage_complete;
      review =
          some
            (promotion_review (common j at) (env.source.manifest_hash m) (env.verification_hash v));
    })

  unfoldable pub preview_branch : (ℕ → Tx (Unit {0})) → JobRow → StepRow → ℕ → Tx Outcome
  preview_branch reserve_preview j s at = do
    environment ← random_uuid env
    preview ← random_uuid env
    generation ← random_uuid env
    input ← input_of env j s
    prior ← read (λ w. keep (previewed j w) w.jobs)
    destroy_each prior
    reserve_preview j.workspace_id
    now ← clock env
    write (λ w. record w {
      environments = w.environments ++ new_environment j environment true (now + 7200000) ∷ [];
    })
    write (show_preview j environment preview)
    k ← append_event env j (preview_ready preview generation (at + 7200000))
    promotable k at input
