-- ===== src/Control/Worker/Stages/Targets.antt =====
-- engine/control/worker.ts, complete: the target that each branch leaves.
use forge_ai.Prelude.{
  ℕ, ◌+◌, ◌≡◌, ap, true, ◌&&◌, ◌||◌, not, Option, none, List, [], ◌∷◌, ◌++◌, update, ok, keep,
  is_some, if◌then◌else◌, leb, ◌!=◌, invalid, binding_failed, repair_exhausted, missing_candidate,
}
use forge_ai.Contracts.Review.{Verification, verification_schema}
use forge_ai.Contracts.Source.{Plan, Manifest}
use forge_ai.Jobs.{JobState}
use forge_ai.Control.Tables.{
  World, JobRow, StepRow, Blob, plan_payload, verification_payload, preview_ready,
}
use forge_ai.Control.Tx.{Environment, Tx, return, one_or-split, reject_if-split, >>=-split, ok_pair}
use forge_ai.Control.Cleanup.{destroy_fixture_resources}
use forge_ai.Control.State.{append_event}
use forge_ai.Control.Worker.Inputs.{StageInput, input_of, new_artifact, candidate}
use forge_ai.Control.Worker.Stages.{
  Outcome, plan_branch, candidate_branch, validating_branch, restore_candidate, validated,
  provisioning_branch, repair_branch, verification_branch, report_checks, preview_branch,
  destroy_each, promotable, is_generate, unverified, of_candidate, set_verified, previewed,
  new_environment, show_preview,
}

module _ (env : Environment) (j : JobRow) (w u : World) (o : Outcome) where
  pub plan_branch-target :
      (at : ℕ) (p : Plan)
      → plan_branch env j at p w ≡ ok (o, u)
      → o.target ≡ JobState.awaiting_plan_approval
  unfolding plan_branch
  plan_branch-target at p e =
      let (bound, e1) =
        reject_if-split
          (p.template_digest != j.template_digest
            || p.brief_hash != env.source.text_hash j.instruction)
          binding_failed _ w u o e in
      let (output, x, made, e2) = >>=-split (new_artifact env j (plan_payload p)) _ w u o e1 in
      ap (λ (y : Outcome). y.target) (ok_pair e2).0

  pub candidate_branch-target :
      (m : Manifest) (blobs : List Blob)
      → candidate_branch env j m blobs w ≡ ok (o, u)
      → o.target ≡ JobState.validating
  unfolding candidate_branch
  candidate_branch-target m blobs e =
      let (made, x, done, e1) = >>=-split (candidate env j m blobs) _ w u o e in
      ap (λ (y : Outcome). y.target) (ok_pair e1).0

  pub provisioning_branch-target :
      provisioning_branch env j w ≡ ok (o, u) → o.target ≡ JobState.verifying
  unfolding provisioning_branch
  provisioning_branch-target e = ap (λ (y : Outcome). y.target) (ok_pair e).0

  pub repair_branch-target : repair_branch env j w ≡ ok (o, u) → o.target ≡ JobState.repairing
  unfolding repair_branch
  repair_branch-target e =
      let (left, e1) =
        reject_if-split (not (is_generate j.kind) || leb 2 j.repair_count) repair_exhausted _ w u o
          e in
      let (done, x, gone, e2) = >>=-split (destroy_fixture_resources env j.id) _ w u o e1 in
      ap (λ (y : Outcome). y.target) (ok_pair e2).0

  validated-target :
      (output : Option ℕ) (at : ℕ) (input : StageInput)
      → validated env j output at input w ≡ ok (o, u)
      → o.target ≡ JobState.awaiting_execution_approval
  unfolding validated
  validated-target output at input e =
      let (m, found, e1) = one_or-split missing_candidate (λ x. input.manifest) _ w u o e in
      ap (λ (y : Outcome). y.target) (ok_pair e1).0

  promotable-target :
      (at : ℕ) (input : StageInput)
      → promotable env j at input w ≡ ok (o, u)
      → o.target ≡ JobState.awaiting_promotion
  unfolding promotable
  promotable-target at input e =
      let (m, found, e1) = one_or-split missing_candidate (λ x. input.manifest) _ w u o e in
      let (v, proved, e2) = one_or-split missing_candidate (λ x. input.verification) _ w u o e1 in
      ap (λ (y : Outcome). y.target) (ok_pair e2).0

  pub verification_branch-target :
      (s : StepRow) (v : Verification)
      → verification_branch env j s v w ≡ ok (o, u)
      → o.target ≡ JobState.preparing_preview
  unfolding verification_branch
  verification_branch-target s v e =
      let (sound, e1) = reject_if-split (not (verification_schema v)) invalid _ w u o e in
      let (input, x1, e0, e2) = >>=-split (input_of env j s) _ w u o e1 in
      let (bound, e3) =
        reject_if-split (unverified env v input.manifest j s) binding_failed _ x1 u o e2 in
      let (output, x2, made, e4) =
        >>=-split (new_artifact env j (verification_payload v)) _ x1 u o e3 in
      let (k, x3, logged, e5) =
        >>=-split (report_checks env j output v.candidate_digest v.checks) _
          (record x2 {
            snapshots =
                update (of_candidate j) (set_verified output (env.verification_hash v) env.begun)
                  x2.snapshots;
          })
          u o e4 in
      let (done, x4, gone, e6) = >>=-split (destroy_fixture_resources env k.id) _ x3 u o e5 in
      ap (λ (y : Outcome). y.target) (ok_pair e6).0

pub validating_branch-target :
    (env : Environment) (j : JobRow) (s : StepRow) (at : ℕ) (w u : World) (o : Outcome)
    → validating_branch env j s at w ≡ ok (o, u)
    → o.target ≡ JobState.awaiting_execution_approval
unfolding validating_branch
validating_branch-target env j s at w u o e =
    let (made, x1, e0, e1) =
      >>=-split
        (if not (is_generate j.kind) && not (is_some j.candidate_snapshot_id)
          then restore_candidate env j
          else return (none, j))
        _ w u o e in
    let (input, x2, read_, e2) = >>=-split (input_of env made.1 s) _ x1 u o e1 in
    validated-target env made.1 x2 u o made.0 at input e2

pub preview_branch-target :
    (env : Environment) (reserve_preview : ℕ → Tx (Unit {0})) (j : JobRow) (s : StepRow) (at : ℕ)
    (w u : World) (o : Outcome)
    → preview_branch env reserve_preview j s at w ≡ ok (o, u)
    → o.target ≡ JobState.awaiting_promotion
unfolding preview_branch
preview_branch-target env reserve_preview j s at w u o e =
    let w1 = record w { made = w.made + 1 + 1 + 1 } in
    let environment = env.uuid w.made in
    let preview = env.uuid (w.made + 1) in
    let generation = env.uuid (w.made + 1 + 1) in
    let (input, x1, e0, e1) = >>=-split (input_of env j s) _ w1 u o e in
    let (done, x2, gone, e2) =
      >>=-split (destroy_each env (keep (previewed j x1) x1.jobs)) _ x1 u o e1 in
    let (held, x3, reserved, e3) = >>=-split (reserve_preview j.workspace_id) _ x2 u o e2 in
    let x4 = record x3 {
      reads = x3.reads + 1;
      environments =
          x3.environments ++ new_environment j environment true (env.clock x3.reads + 7200000) ∷ [];
    } in
    let (k, x5, logged, e4) =
      >>=-split (append_event env j (preview_ready preview generation (at + 7200000))) _
        (show_preview env j environment preview x4) u o e3 in
    promotable-target env k x5 u o at input e4
