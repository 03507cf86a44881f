-- ===== src/Control/Worker/Prepare/Budget.antt =====
-- engine/control/worker.ts, prepare: the attempts of a job stay within its budget.
use mathlib.Core.Path.{subst}
use forge_ai.Prelude.{
  ℕ, ◌+◌, ◌≤◌, ◌<◌, ◌≡◌, refl, sym, ap, ◌∙◌, arith, inl, inr, Bool, true, false, Option, none, some,
  List, [], ◌∷◌, ◌++◌, ◌==◌, is_some, keep, find, total, ok, Bool-cases, ==_refl, quota_exceeded,
  uncertain_operation, operation_changed, lost_step, invalid,
}
use forge_ai.Control.Tables.{World, JobRow, StepRow, AttemptRow, OperationRow, StageResult}
use forge_ai.Control.Tx.{Environment, return, one_or-split, reject_if-split, >>=-split, ok_pair}
use forge_ai.Control.State.{job_is}
use forge_ai.Control.Worker.Fencing.{leased-Held}
use forge_ai.Control.Worker.Inputs.{StageInput, input_of}
use forge_ai.Control.Worker.Inputs.Read.{input_of-step}
use forge_ai.Control.Worker.Prepare.{
  Prepared, is_provider, committed, charge_of, is_spent, new_attempt, dispatch_provider,
  request_operation, dispatch, resume, prepare_step, prepare, input_changed, operation_is,
  is_cached, result_of,
}

total-append :
    (f : AttemptRow → ℕ) (xs ys : List AttemptRow) → total f (xs ++ ys) ≡ total f xs + total f ys
total-append f [] ys = omega arith
total-append f (x ∷ xs) ys = omega (arith, total-append f xs ys)

keep-append :
    (p : AttemptRow → Bool) (xs ys : List AttemptRow) → keep p (xs ++ ys) ≡ keep p xs ++ keep p ys
keep-append p [] ys = refl
keep-append p (x ∷ xs) ys = elim (Bool-cases (p x)) [
  | inl e ↦ rw e (ap (λ zs. x ∷ zs) (keep-append p xs ys))
  | inr e ↦ rw e (keep-append p xs ys)
]

-- A new attempt commits its maximum.
committed-append :
    (j : JobRow) (step operation : ℕ) (xs : List AttemptRow)
    → committed j.id (xs ++ new_attempt j step operation ∷ [])
      ≡ committed j.id xs + j.max_attempt_micros
committed-append j step operation xs =
    let mine = λ (a : AttemptRow). a.job_id == j.id in
    ap (total charge_of) (keep-append mine xs (new_attempt j step operation ∷ []))
    ∙ total-append charge_of (keep mine xs) (keep mine (new_attempt j step operation ∷ []))
    ∙ ap (λ n. committed j.id xs + n) (one_more (==_refl j.id))
  where
    one_more :
        (j.id == j.id) ≡ true
        → total charge_of
            (keep (λ (a : AttemptRow). a.job_id == j.id) (new_attempt j step operation ∷ []))
          ≡ j.max_attempt_micros
    one_more e = rw e (omega arith)

left :
    (j : JobRow) (n : ℕ)
    → is_spent j n ≡ false
    → (j.provider_calls < 12) × (n + j.max_attempt_micros ≤ j.cost_limit_micros)
left j n e = ground (arith, e)

-- What a dispatch to a provider leaves: one more attempt, in the budget of the job.
pub record Budgeted (j : JobRow) (input : StageInput) (w v : World) : Type 0 where
  pub calls : j.provider_calls < 12
  pub attempts : v.attempts ≡ w.attempts ++ new_attempt j input.step_id input.operation_id ∷ []
  pub budget : committed j.id v.attempts ≤ j.cost_limit_micros
  pub grown : committed j.id v.attempts ≡ committed j.id w.attempts + j.max_attempt_micros

dispatch_provider-Budgeted :
    (j : JobRow) (input : StageInput) (w v : World)
    → dispatch_provider j input w ≡ ok (tt, v)
    → Budgeted j input w v
unfolding dispatch_provider
dispatch_provider-Budgeted j input w v e =
    let (room, e1) =
      reject_if-split (is_spent j (committed j.id w.attempts)) quota_exceeded _ w v tt e in
    let (calls, budget) = left j (committed j.id w.attempts) room in
    let more = committed-append j input.step_id input.operation_id w.attempts in
    subst (λ (x : World). Budgeted j input w x) (sym (ok_pair e1).1)
      (record {
        calls = calls;
        attempts = refl;
        budget = omega (arith, more, budget);
        grown = more;
      })

-- The dispatch of a provider's operation is one that was never requested before.
dispatch-Budgeted :
    (env : Environment) (j : JobRow) (input : StageInput) (previous : Option OperationRow)
    (w v : World) (p : Prepared)
    → is_provider j.state ≡ true
    → dispatch env j input previous w ≡ ok (p, v)
    → (is_some previous ≡ false) × Budgeted j input w v × (p.cached ≡ none)
unfolding dispatch request_operation
dispatch-Budgeted env j input previous w v p k e =
    let (first, e1) = reject_if-split (is_some previous) uncertain_operation _ w v p (rw k at e) in
    let (done, u, sent, e2) = >>=-split (dispatch_provider j input) _ w v p e1 in
    let d = dispatch_provider-Budgeted j input w u sent in
    let (same, world) =
      ok_pair {a = record { input = input; cached = none; for_provider = true }}
        {w = request_operation j input true u} e2 in
    (
      first,
      subst (λ (x : World). Budgeted j input w x) (sym world)
          (record { calls = d.calls; attempts = d.attempts; budget = d.budget; grown = d.grown }),
      ap (λ (q : Prepared). q.cached) same,
    )

-- What is not taken again is dispatched.
resume-dispatch :
    (env : Environment) (j : JobRow) (input : StageInput) (previous : Option OperationRow)
    (b : Bool) (u v : World) (p : Prepared)
    → resume env j input previous b u ≡ ok (p, v)
    → p.cached ≡ none
    → dispatch env j input previous u ≡ ok (p, v)
unfolding resume
resume-dispatch env j input previous true u v p e fresh =
    let (r, given, e1) =
      one_or-split invalid (λ w. result_of previous)
        (λ q.
          return (record { input = input; cached = some q; for_provider = is_provider j.state }))
        u v p e in
    let (same, world) =
      ok_pair {a = record { input = input; cached = some r; for_provider = is_provider j.state }}
        {w = u} e1 in
    absurd (no_result r (ap (λ (q : Prepared). q.cached) same) fresh)
  where
    no_result : (r : StageResult) → p.cached ≡ some r → p.cached ≡ none → ⊥
    no_result r a b = cc
resume-dispatch env j input previous false u v p e fresh = e

-- A preparation without a result to take again is a dispatch of the input of the stored step.
pub prepare_step-dispatch :
    (env : Environment) (s : StepRow) (j : JobRow) (w v : World) (p : Prepared)
    → prepare_step env s j w ≡ ok (p, v)
    → p.cached ≡ none
    → (current : StepRow) × (input : StageInput) × (previous : Option OperationRow) × (find
          (λ (y : StepRow). y.id == s.id)
          w.steps
        ≡ some current)
      × (input.step_id ≡ current.id)
      × (input.lease_epoch ≡ current.lease_epoch)
      × (input.operation_id ≡ env.operation_id j.id current.id current.attempt)
      × (dispatch env j input previous w ≡ ok (p, v))
unfolding prepare_step
prepare_step-dispatch env s j w v p e fresh =
    let (current, found, e1) =
      one_or-split lost_step (λ x. find (λ (y : StepRow). y.id == s.id) x.steps) _ w v p e in
    let (input, u, made, e2) = >>=-split (input_of env j current) _ w v p e1 in
    let previous = find (operation_is input.operation_id) u.operations in
    let (same, e3) =
      reject_if-split (input_changed previous input.input_digest) operation_changed _ u v p e2 in
    let (same_tables, step, epoch, operation) = input_of-step env j current w u input made in
    (
      current,
      input,
      previous,
      found,
      step,
      epoch,
      operation,
      subst (λ (x : World). dispatch env j input previous x ≡ ok (p, v)) same_tables
          (resume-dispatch env j input previous
            (is_cached previous (is_provider j.state) input.lease_epoch) u v p e3 fresh),
    )

-- What a prepared call of a provider has found and leaves.
pub record Dispatched (env : Environment) (worker : ℕ) (s : StepRow) (w v : World) : Type 0 where
  pub job : JobRow
  pub stored : find (job_is s.job_id) w.jobs ≡ some job
  pub step : StepRow
  pub step_found : find (λ (y : StepRow). y.id == s.id) w.steps ≡ some step
  pub calls : job.provider_calls < 12
  pub attempts :
      v.attempts
      ≡ w.attempts ++ new_attempt job step.id (env.operation_id job.id step.id step.attempt) ∷ []
  pub grown : committed job.id v.attempts ≡ committed job.id w.attempts + job.max_attempt_micros
  pub budget : committed job.id v.attempts ≤ job.cost_limit_micros

-- A worker that is told to call a provider, with no earlier result to take, calls it for a stored job
-- of fewer than twelve calls. The call adds one attempt, of the stored step, to the table; the
-- attempts of the job commit the bound of an attempt more than before, and with this attempt
-- what they have cost and may still cost is within the job's limit.
pub prepare-Dispatched :
    (env : Environment) (worker : ℕ) (s : StepRow) (w v : World) (p : Prepared)
    → is_provider s.stage ≡ true
    → prepare env worker s w ≡ ok (p, v)
    → p.cached ≡ none
    → Dispatched env worker s w v
unfolding prepare
prepare-Dispatched env worker s w v p k e fresh =
    let d = leased-Held env worker s (prepare_step env s) p w v e in
    let (step, input, previous, found, same_step, epoch, operation, sent) =
      prepare_step-dispatch env s d.job (record w { reads = w.reads + 1 + 1 }) v p d.effect fresh in
    let (first, b, none_cached) =
      dispatch-Budgeted env d.job input previous (record w { reads = w.reads + 1 + 1 }) v p
        (ap is_provider d.stage ∙ k) sent in
    record {
      job = d.job;
      stored = d.stored;
      step = step;
      step_found = found;
      calls = b.calls;
      attempts =
          b.attempts
          ∙ ap (λ n. w.attempts ++ new_attempt d.job n input.operation_id ∷ []) same_step
          ∙ ap (λ n. w.attempts ++ new_attempt d.job step.id n ∷ []) operation;
      grown = b.grown;
      budget = b.budget;
    }
