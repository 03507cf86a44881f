-- ===== src/Control/Worker/Tests.antt =====
-- engine/control/worker.ts: a call of a provider, an operation of a runner, and a completed stage.
use forge_ai.Prelude.{ℕ, refl, true, false, none, some, [], ◌∷◌, ok, err, codes, Result}
use forge_ai.Contracts.Primitives.{iso}
use forge_ai.Contracts.Source.{Manifest, fixture, text_plain}
use forge_ai.Contracts.Review
use forge_ai.Contracts.Review.{approve}
use forge_ai.Jobs.{JobState}
use forge_ai.Jobs
use forge_ai.Control.Tables.{World, JobRow, StepRow, manifest_payload}
use forge_ai.Control.Tx.{Tx, return}
use forge_ai.Control.Samples.{env, job, running_step, tables}
use forge_ai.Control.Worker.{leased, guarded}
use forge_ai.Control.Worker.Inputs.{StageInput, input_of, plan_of, candidate_of, payload}
use forge_ai.Control.Worker.Prepare.{
  Prepared, prepare, prepare_step, resume, dispatch, dispatch_provider, request_operation,
}
use forge_ai.Control.Worker.Prepare.Budget.{Dispatched, prepare-Dispatched}
use forge_ai.Control.Worker.Prepare.Authorised.{Authorised}
use forge_ai.Fixtures.{execution_subject}

abbrev result_world : {A : Type 0} → Result (A × World) → World
result_world (ok (a, w)) = w
result_world (err x) = tables

-- The job in its planning stage.
abbrev planning_step : StepRow
planning_step = record running_step { stage = JobState.planning }

abbrev planning : World
planning = record tables {
  jobs = record job { state = JobState.planning } ∷ [];
  steps = planning_step ∷ [];
}

abbrev prepared_of : Result (Prepared × World) → Prepared → Prepared
prepared_of (ok (p, w)) q = p
prepared_of (err x) q = q

abbrev input : StageInput
input = record {
  scope = record { workspace_id = 1; project_id = 2; job_id = 3 };
  step_id = 30;
  lease_epoch = 1;
  operation_id = 601;
  input_digest = 77;
  stage = JobState.planning;
  instruction = codes "Make a page that lists tasks";
  max_cost_micros = 100;
  base_snapshot_id = none;
  plan = none;
  manifest = none;
  verification = none;
}

abbrev called : Prepared
called = record { input = input; cached = none; for_provider = true }

prepare-Dispatched_example :
    Dispatched env 9 planning_step planning (result_world (prepare env 9 planning_step planning))
unfolding prepare leased guarded prepare_step input_of plan_of candidate_of resume dispatch
    dispatch_provider request_operation
prepare-Dispatched_example =
    prepare-Dispatched env 9 planning_step planning
      (result_world (prepare env 9 planning_step planning)) called refl refl refl

-- The job is provisioned under an approved execution review of its candidate.
abbrev manifest : Manifest
manifest = record {
  template_digest = 11;
  image_digest = 52;
  base_snapshot_id = none;
  plan_digest = 90;
  preset_digest = 3;
  files =
      record {
        path = codes "app/page.tsx";
        blob_id = 6;
        sha256 = 7;
        bytes = 30;
        media_type = text_plain;
      }
      ∷ [];
  migrations = [];
  command_policy_digest = 7;
  provenance = record {
    origin = fixture;
    job_id = 3;
    provider = none;
    model = none;
    prompt_version = 1;
  };
}

abbrev provisioning_job : JobRow
provisioning_job = record job {
  state = JobState.provisioning;
  state_version = 6;
  candidate_snapshot_id = some 80;
}

abbrev provisioning_step : StepRow
provisioning_step = record running_step { stage = JobState.provisioning }

abbrev provisioning : World
provisioning = record tables {
  jobs = provisioning_job ∷ [];
  steps = provisioning_step ∷ [];
  artifacts = record { id = 81; job_id = 3; sha256 = 91; payload = manifest_payload manifest } ∷ [];
  snapshots =
      record {
        id = 80;
        project_id = 2;
        job_id = 3;
        manifest_digest = 50;
        is_verified = false;
        manifest_artifact_id = 81;
        verification_artifact_id = none;
        verification = none;
      }
      ∷ [];
  reviews =
      record {
        job_id = 3;
        state_version = 5;
        kind = Review.execution;
        subject_digest = some 1050;
        body = execution_subject 50000;
        expires_at = iso 50000;
      }
      ∷ [];
  approvals =
      record {
        id = 900;
        job_id = 3;
        actor_id = 5;
        kind = Review.execution;
        subject_digest = 1050;
        state_version = 5;
        decision = approve;
        created_at = iso 950;
      }
      ∷ [];
}

abbrev authorised : Prepared
authorised = record {
  input = record input { stage = JobState.provisioning; manifest = some manifest };
  cached = none;
  for_provider = false;
}

abbrev reserve_nothing : ℕ → Tx (Unit {0})
reserve_nothing workspace = return tt
