-- ===== src/Control/Service/Approval/Recorded.antt =====
-- engine/control/service.ts, approve: the row of the decision, which nothing after it touches.
use forge_ai.Prelude.{
  ℕ, ◌≡◌, ap, ◌∙◌, Bool, true, false, ◌||◌, Option, none, some, [], ◌∷◌, ◌++◌, ok, find, parse,
  if◌then◌else◌, stale_approval, not_found, revalidation_required,
}
use forge_ai.Contracts.Review.{Approval, ApprovalContext, Subject, is_approve, subject_schema}
use forge_ai.Contracts.Review
use forge_ai.Jobs.{is_terminal, cancelling, cancel, approval}
use forge_ai.Control.Tables.{World, JobRow, ProjectRow, ApprovalRow, Action, approval_recorded}
use forge_ai.Control.Tx.{
  Environment, Tx, return, when, ◌>>=◌, ◌>>◌, one_or-split, reject_if-split, >>=-split, lift-split,
  ok_pair,
}
use forge_ai.Control.State.{is_cancelling, change_state, audit}
use forge_ai.Control.State.Approvals.{
  KeepsApprovals, return-KeepsApprovals, when-KeepsApprovals, append_event-KeepsApprovals,
  change_state-KeepsApprovals, release_reservation-KeepsApprovals,
}
use forge_ai.Control.Reservations.{release_reservation}
use forge_ai.Control.Service.{cancel_locked, close_job}
use forge_ai.Control.Service.Approval.{
  PromoteInput, promote_source, record_approval, follow_decision, rebound, verified_snapshot,
  outdated, after_approval, is_succeeded,
}

-- The row that keeps an approval of a job.
abbrev pub row_of_approval : JobRow → Approval → ApprovalRow
row_of_approval j a = record {
  id = a.id;
  job_id = j.id;
  actor_id = a.actor_id;
  kind = a.kind;
  subject_digest = a.subject_digest;
  state_version = a.state_version;
  decision = a.decision;
  created_at = a.created_at;
}

module _ (env : Environment) where
  pub audit-KeepsApprovals :
      (workspace resource actor : ℕ) (action : Action)
      → KeepsApprovals (audit env workspace resource actor action)
  unfolding audit
  audit-KeepsApprovals workspace resource actor action w v a e =
      ap (λ (x : World). x.approvals) (ok_pair e).1

  cancel_locked-KeepsApprovals : (j : JobRow) → KeepsApprovals (cancel_locked env j)
  unfolding cancel_locked close_job
  cancel_locked-KeepsApprovals j = by (is_terminal j.state || is_cancelling j.state)
    where
      by :
          (b : Bool)
          → KeepsApprovals (
              if b
              then return j
              else change_state env j cancelling cancel none none none >>= close_job env)
      by true w v k e = return-KeepsApprovals j w v k e
      by false w v k e =
          let (m, u, changed, e1) =
            >>=-split (change_state env j cancelling cancel none none none) (close_job env) w v k
              e in
          ap (λ (x : World). x.approvals) (ok_pair e1).1
          ∙ change_state-KeepsApprovals env j cancelling cancel none none none w u m changed

  pub promote_source-KeepsApprovals :
      (j : JobRow) (p : ProjectRow) (s : Subject) (binding : Option PromoteInput) (now : ℕ)
      → KeepsApprovals (promote_source env j p s binding now)
  unfolding promote_source
  promote_source-KeepsApprovals j p s binding now w v a e =
      let (t, ft, e1) =
        lift-split (parse (subject_schema env.hashing Review.promotion) s) _ w v a e in
      let (bound, e2) = reject_if-split (rebound j p t binding) stale_approval _ w v a e1 in
      let (x, fx, e3) =
        one_or-split not_found (λ y. find (verified_snapshot j) y.snapshots) _ w v a e2 in
      let (fresh, e4) = reject_if-split (outdated x t now) revalidation_required _ w v a e3 in
      ap (λ (y : World). y.approvals) (ok_pair e4).1

  pub follow_decision-KeepsApprovals :
      (j : JobRow) (a : Approval) (s : Subject) (c : ApprovalContext)
      → KeepsApprovals (follow_decision env j a s c)
  unfolding follow_decision
  follow_decision-KeepsApprovals j a s c = by (is_approve a.decision)
    where
      go_on : Tx JobRow
      go_on =
          change_state env j (after_approval a.kind) approval none
            (some (record { approval = a; subject = s; context = c })) none
          >>= λ k. when (is_succeeded k.state) (release_reservation k) >> return k

      by : (b : Bool) → KeepsApprovals (if b then go_on else cancel_locked env j)
      by true w v k e =
          let (l, u, changed, e1) =
            >>=-split
              (change_state env j (after_approval a.kind) approval none
                (some (record { approval = a; subject = s; context = c })) none)
              _ w v k e in
          let (d, x, released, e2) =
            >>=-split (when (is_succeeded l.state) (release_reservation l)) _ u v k e1 in
          return-KeepsApprovals l x v k e2
          ∙ when-KeepsApprovals (is_succeeded l.state) (release_reservation l)
              (release_reservation-KeepsApprovals l) u x d released
          ∙ change_state-KeepsApprovals env j (after_approval a.kind) approval none
              (some (record { approval = a; subject = s; context = c })) none w u l changed
      by false w v k e = cancel_locked-KeepsApprovals j w v k e

  pub record_approval-recorded :
      (j k : JobRow) (a : Approval) (w v : World)
      → record_approval env j a w ≡ ok (k, v)
      → v.approvals ≡ w.approvals ++ row_of_approval j a ∷ []
  unfolding record_approval
  record_approval-recorded j k a w v e =
      append_event-KeepsApprovals env j (approval_recorded a.id a.kind a.decision a.subject_digest)
        (record w { approvals = w.approvals ++ row_of_approval j a ∷ [] }) v k e
