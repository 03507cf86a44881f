-- ===== src/Control/Worker/Complete/Advanced.antt =====
-- engine/control/worker.ts, complete: the state that a finished stage leads to.
use forge_ai.Prelude.{Option, none, some}
use forge_ai.Jobs.{JobState, JobKind, generate, restore}
use forge_ai.Control.Tables.{
  StageResult, plan_result, candidate_result, provisioned, verification_result, preview_result,
  repairable_error,
}
use forge_ai.Control.Tx.{Tx}

-- A restoration has its source already.
abbrev entry : JobKind → JobState
entry generate = JobState.planning
entry restore = JobState.validating

-- The pipeline of a job: where a stage goes with a result, or nowhere.
abbrev pub goes_to : JobKind → JobState → Option StageResult → Option JobState
goes_to k JobState.queued r = some (entry k)
goes_to k JobState.planning (some (plan_result p)) = some JobState.awaiting_plan_approval
goes_to k JobState.generating (some (candidate_result m b)) = some JobState.validating
goes_to k JobState.repairing (some (candidate_result m b)) = some JobState.validating
goes_to k JobState.validating r = some JobState.awaiting_execution_approval
goes_to k JobState.provisioning (some provisioned) = some JobState.verifying
goes_to k JobState.verifying (some repairable_error) = some JobState.repairing
goes_to k JobState.verifying (some (verification_result v)) = some JobState.preparing_preview
goes_to k JobState.preparing_preview (some preview_result) = some JobState.awaiting_promotion
goes_to k s r = none
