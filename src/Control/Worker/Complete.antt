-- ===== src/Control/Worker/Complete.antt =====
-- engine/control/worker.ts, complete: the branch of a finished stage, and what follows it.
pub mod Advanced
use forge_ai.Prelude.{
  ℕ, Bool, true, false, Option, none, some, List, [], ◌∷◌, ◌++◌, ◌==◌, if◌then◌else◌, any, find,
  update, stage_mismatch,
}
use forge_ai.Contracts.Review.{Subject, plan_review, execution_review}
use forge_ai.Jobs.{JobState, stage_complete}
use forge_ai.Control.Tables.{
  JobRow, StepRow, StepStatus, AttemptRow, AttemptState, LedgerRow, DedupeKey, by_fixture,
  StageResult, plan_result, candidate_result, provisioned, verification_result, preview_result,
  repairable_error, step_finished, plan_ready, changes_ready, usage_updated,
}
use forge_ai.Control.Tx.{
  Environment, Tx, ◌>>=◌, ◌>>◌, return, throw, read, write, clock, random_uuid,
}
use forge_ai.Control.State.{append_event, flush_event_sequence, change_state}
use forge_ai.Control.Worker.{leased}
use forge_ai.Control.Worker.Stages.{
  Outcome, first_target, plan_branch, candidate_branch, validating_branch, provisioning_branch,
  repair_branch, verification_branch, preview_branch,
}

abbrev pub finish_step : ℕ → Option ℕ → StepRow → StepRow
finish_step now output x = record x {
  status = StepStatus.succeeded;
  finished_at = some now;
  lease_owner = none;
  lease_expires_at = none;
  output_artifact_id = output;
}

abbrev is_settled : AttemptState → Bool
is_settled AttemptState.completed = true
is_settled _ = false

abbrev has_entry : ℕ → List LedgerRow → Bool
has_entry operation rows = any (λ (l : LedgerRow). entry_of operation l.dedupe_key) rows
  where
    entry_of : ℕ → DedupeKey → Bool
    entry_of a (by_fixture b) = b == a
    entry_of a _ = false

abbrev complete_attempt : AttemptRow → AttemptRow
complete_attempt a = record a { state = AttemptState.completed; amount_micros = some 0 }

abbrev plan_digest_of : Option Subject → ℕ
plan_digest_of (some (plan_review b d)) = d
plan_digest_of _ = 0

abbrev candidate_digest_of : Option Subject → ℕ
candidate_digest_of (some (execution_review r)) = r.candidate_digest
candidate_digest_of _ = 0

module _ (env : Environment) where
  -- The branch of a state and a result.
  unfoldable pub branch :
      (ℕ → Tx (Unit {0})) → JobRow → StepRow → Option StageResult → ℕ → JobState → Tx Outcome
  branch reserve_preview j s r at JobState.queued = return (record {
    job = j;
    output = none;
    target = first_target j;
    reason = stage_complete;
    review = none;
  })
  branch reserve_preview j s (some (plan_result p)) at JobState.planning = plan_branch env j at p
  branch reserve_preview j s (some (candidate_result m blobs)) at JobState.generating =
      candidate_branch env j m blobs
  branch reserve_preview j s (some (candidate_result m blobs)) at JobState.repairing =
      candidate_branch env j m blobs
  branch reserve_preview j s r at JobState.validating = validating_branch env j s at
  branch reserve_preview j s (some provisioned) at JobState.provisioning = provisioning_branch env j
  branch reserve_preview j s (some repairable_error) at JobState.verifying = repair_branch env j
  branch reserve_preview j s (some (verification_result v)) at JobState.verifying =
      verification_branch env j s v
  branch reserve_preview j s (some preview_result) at JobState.preparing_preview =
      preview_branch env reserve_preview j s at
  branch reserve_preview j s r at state = throw stage_mismatch

  -- The attempt of the operation, settled at no cost.
  unfoldable pub settle_free : JobRow → StepRow → Option AttemptRow → Tx JobRow
  settle_free j s none = return j
  settle_free j s (some a) = if is_settled a.state then return j else (do
    id ← random_uuid env
    write (λ w. record w {
      ledger =
          if has_entry a.operation_id w.ledger
          then w.ledger
          else w.ledger
            ++ record {
              id = id;
              dedupe_key = by_fixture a.operation_id;
              job_id = j.id;
              amount_micros = 0;
            }
              ∷ [];
      attempts =
          update (λ (x : AttemptRow). x.operation_id == a.operation_id) complete_attempt w.attempts;
    })
    append_event env j (usage_updated a.operation_id))

  -- The event of a review that is opened.
  unfoldable pub announce : JobRow → JobState → Option Subject → Tx JobRow
  announce j JobState.awaiting_plan_approval review =
      append_event env j (plan_ready j.plan_artifact_id (plan_digest_of review) j.review_digest)
  announce j JobState.awaiting_execution_approval review =
      append_event env j
        (changes_ready j.candidate_snapshot_id (candidate_digest_of review) j.review_digest)
  announce j target review = return j

  -- The statements of `complete` after its branches.
  unfoldable pub advance : StepRow → ℕ → Outcome → Tx JobRow
  advance s at o = do
    attempt ← read (λ w.
        find (λ (a : AttemptRow). a.operation_id == env.operation_id o.job.id s.id s.attempt)
          w.attempts)
    settled ← settle_free o.job s attempt
    now ← clock env
    write (λ w. record w {
      steps = update (λ (x : StepRow). x.id == s.id) (finish_step now o.output) w.steps;
    })
    logged ← append_event env settled (step_finished s.id o.output)
    changed ← change_state env logged o.target o.reason o.review none (some at)
    k ← announce changed o.target o.review
    flush_event_sequence env k
    return k

  -- What `complete` does under the lease.
  unfoldable pub complete_step :
      (ℕ → Tx (Unit {0})) → StepRow → Option StageResult → JobRow → Tx JobRow
  complete_step reserve_preview s r j = do
    at ← clock env
    o ← branch reserve_preview j s r at j.state
    advance s at o

  -- `complete`
  unfoldable pub complete : (ℕ → Tx (Unit {0})) → ℕ → StepRow → Option StageResult → Tx JobRow
  complete reserve_preview worker s r = leased env worker s (complete_step reserve_preview s r)
