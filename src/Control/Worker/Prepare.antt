-- ===== src/Control/Worker/Prepare.antt =====
-- engine/control/worker.ts, prepare: an operation is requested once, within the budget of its job
-- or under a valid approval.
--
-- `current`, the row that `leased` has found for the step, is read by its identifier. The model
-- policy of the job is its bound on an attempt.
pub mod Budget
pub mod Authorised
use forge_ai.Prelude.{
  ℕ, ◌+◌, Bool, true, false, ◌&&◌, ◌||◌, not, Option, none, some, List, [], ◌∷◌, ◌++◌, leb, ltb,
  ◌==◌, ◌!=◌, if◌then◌else◌, is_some, keep, find, update, any, total, invalid, quota_exceeded,
  operation_changed, uncertain_operation, lost_step,
}
use mathlib.Core.Option
use forge_ai.Jobs.{JobState}
use forge_ai.Control.Tables.{
  World, JobRow, StepRow, AttemptRow, AttemptState, is_liability, OperationRow, OperationState,
  is_completed, StageResult,
}
use forge_ai.Control.Tx.{Environment, Tx, ◌>>=◌, ◌>>◌, return, reject_if, one_or, read, write}
use forge_ai.Control.State.{job_is}
use forge_ai.Control.Worker.{leased}
use forge_ai.Control.Worker.Inputs.{StageInput, input_of}
use forge_ai.Control.Worker.Authority.{authorise_runner}

-- `['PLANNING', 'GENERATING', 'REPAIRING'].includes(j.state)`
abbrev pub is_provider : JobState → Bool
is_provider JobState.planning = true
is_provider JobState.generating = true
is_provider JobState.repairing = true
is_provider _ = false

-- What an attempt may still cost, or has cost.
abbrev pub charge_of : AttemptRow → ℕ
charge_of a = if is_liability a.state then a.maximum_micros else Option.get_or a.amount_micros 0

-- The balance of `prepare`: `COALESCE(sum(…),0)` over the attempts of a job.
abbrev pub committed : ℕ → List AttemptRow → ℕ
committed job attempts = total charge_of (keep (λ (a : AttemptRow). a.job_id == job) attempts)

-- No call is left, or the budget does not hold one more attempt.
abbrev pub is_spent : JobRow → ℕ → Bool
is_spent j n = leb 12 j.provider_calls || ltb j.cost_limit_micros (n + j.max_attempt_micros)

abbrev pub operation_is : ℕ → OperationRow → Bool
operation_is id o = o.id == id

-- `previous && previous.input_digest !== input.inputDigest`
abbrev pub input_changed : Option OperationRow → ℕ → Bool
input_changed none digest = false
input_changed (some o) digest = o.input_digest != digest

-- A finished operation whose result is taken again.
abbrev pub is_cached : Option OperationRow → Bool → ℕ → Bool
is_cached none provider epoch = false
is_cached (some o) provider epoch = is_completed o.state && (provider || o.lease_epoch == epoch)

abbrev pub result_of : Option OperationRow → Option StageResult
result_of none = none
result_of (some o) = o.result

pub record Prepared : Type 0 where
  pub input : StageInput
  pub cached : Option StageResult
  pub for_provider : Bool

abbrev pub new_attempt : JobRow → ℕ → ℕ → AttemptRow
new_attempt j step operation = record {
  operation_id = operation;
  job_id = j.id;
  step_id = step;
  maximum_micros = j.max_attempt_micros;
  amount_micros = none;
  state = AttemptState.dispatched;
}

abbrev pub count_call : JobRow → JobRow
count_call r = record r { provider_calls = r.provider_calls + 1 }

-- `INSERT INTO fixture_operations … ON CONFLICT(id) DO UPDATE`
abbrev pub put_operation : OperationRow → List OperationRow → List OperationRow
put_operation o os =
    if any (operation_is o.id) os
    then update (operation_is o.id)
        (λ (x : OperationRow). record x {
          state = OperationState.requested;
          result = none;
          lease_epoch = o.lease_epoch;
        })
        os
    else os ++ o ∷ []

-- The row of the operation, and the step that it is of.
unfoldable pub request_operation : JobRow → StageInput → Bool → World → World
request_operation j input provider w = record w {
  operations =
      put_operation
        (record {
          id = input.operation_id;
          job_id = j.id;
          step_id = input.step_id;
          is_runner = not provider;
          input_digest = input.input_digest;
          lease_epoch = input.lease_epoch;
          state = OperationState.requested;
          result = none;
        })
        w.operations;
  steps =
      update (λ (s : StepRow). s.id == input.step_id)
        (λ (s : StepRow). record s { external_operation_id = some input.operation_id }) w.steps;
}

-- The attempt of a provider, within the calls and the budget of the job.
unfoldable pub dispatch_provider : JobRow → StageInput → Tx (Unit {0})
dispatch_provider j input = do
  balance ← read (λ w. committed j.id w.attempts)
  reject_if (is_spent j balance) quota_exceeded
  write (λ w. record w {
    attempts = w.attempts ++ new_attempt j input.step_id input.operation_id ∷ [];
    jobs = update (job_is j.id) count_call w.jobs;
  })

module _ (env : Environment) where
  -- The dispatch of an operation that has no result to take again.
  unfoldable pub dispatch : JobRow → StageInput → Option OperationRow → Tx Prepared
  unfolding dispatch_provider authorise_runner request_operation
  dispatch j input previous =
      if is_provider j.state
      then (do
        reject_if (is_some previous) uncertain_operation
        dispatch_provider j input
        write (request_operation j input true)
        return (record { input = input; cached = none; for_provider = true }))
      else (do
        authorise_runner env j input
        write (request_operation j input false)
        return (record { input = input; cached = none; for_provider = false }))

  -- The result of a finished operation, or its dispatch.
  unfoldable pub resume : JobRow → StageInput → Option OperationRow → Bool → Tx Prepared
  unfolding dispatch
  resume j input previous true = do
    r ← one_or invalid (λ w. result_of previous)
    return (record { input = input; cached = some r; for_provider = is_provider j.state })
  resume j input previous false = dispatch j input previous

  -- What `prepare` does under the lease.
  unfoldable pub prepare_step : StepRow → JobRow → Tx Prepared
  unfolding input_of resume
  prepare_step s j = do
    current ← one_or lost_step (λ w. find (λ (x : StepRow). x.id == s.id) w.steps)
    input ← input_of env j current
    previous ← read (λ w. find (operation_is input.operation_id) w.operations)
    reject_if (input_changed previous input.input_digest) operation_changed
    resume j input previous (is_cached previous (is_provider j.state) input.lease_epoch)

  -- `prepare`
  unfoldable pub prepare : ℕ → StepRow → Tx Prepared
  unfolding leased prepare_step
  prepare worker s = leased env worker s (prepare_step s)
