-- ===== src/Control/Service/Approval/Decided.antt =====
-- engine/control/service.ts, approve: what a decision that is recorded was checked for.
use mathlib.Core.Path.{subst}
use forge_ai.Prelude.{
  ℕ, ◌≡◌, sym, ap, ◌∙◌, ◌||◌, false, Option, none, some, arith, any, find, is_some, same_option_iff,
  Result, ok, err, parse, parse-ok, not_found, cleanup_pending, revision_mismatch, stale_approval,
  conflict, or_false, ◌==◌, ◌+◌, ◌&&◌, [], ◌∷◌, ◌++◌,
}
use forge_ai.Contracts.Review.{
  Role, Approval, Subject, validate_approval, approval_schema, is_approve,
}
use forge_ai.Contracts.Review.Bindings.{Binds, validate_approval-Binds}
use forge_ai.Control.Tables.{World, JobRow, ProjectRow}
use forge_ai.Control.Tx.{
  Environment, one_or-split, reject_if-split, >>=-split, ok_pair, lift-split, when,
}
use forge_ai.Control.State.{job_is, audit}
use forge_ai.Control.Cleanup.{pending}
use forge_ai.Control.Worker.{policy_revoked}
use forge_ai.Control.Service.{project}
use forge_ai.Control.State.Approvals.{return-KeepsApprovals, when-KeepsApprovals}
use forge_ai.Control.Service.Approval.Recorded.{
  row_of_approval, audit-KeepsApprovals, promote_source-KeepsApprovals,
  follow_decision-KeepsApprovals, record_approval-recorded,
}
use forge_ai.Control.Service.Approval.{
  promote_source, record_approval, follow_decision, is_promotion, action_of, ApproveInput,
  PromoteInput, approve_job, decide, approval_for, context_for, moved_on, not_awaited, or_stale,
}

-- What was checked before a decision was recorded.
pub record Decided (env : Environment) (id actor : ℕ) (role : Role) (body : ApproveInput)
    (w v : World) : Type 0 where
  pub job : JobRow
  pub project : ProjectRow
  pub subject : Subject
  pub approval_id : ℕ
  pub now : ℕ
  pub project_found : find (λ (y : ProjectRow). y.id == job.project_id) w.projects ≡ some project
  pub job_found : find (job_is id) w.jobs ≡ some job
  pub open_review : not_awaited job body ≡ false
  pub reviewed : job.review_json ≡ some subject
  pub clean : any (pending job.id) w.cleanups ≡ false
  pub unmarked : is_some job.cleanup_target ≡ false
  pub revision : project.revision ≡ job.base_revision
  pub head : project.head_snapshot_id ≡ job.base_snapshot_id
  pub kept : project.deleting_at ≡ none
  pub stored :
      v.approvals
      ≡ w.approvals ++ row_of_approval job (approval_for job actor body approval_id now) ∷ []
  pub binds :
      Binds env.hashing
        (approval_for job actor body approval_id now)
        subject
        (context_for job project actor role body (policy_revoked w job) now)

same_base :
    (p : ProjectRow) (j : JobRow)
    → moved_on p j ≡ false
    → (p.revision ≡ j.base_revision) × (p.head_snapshot_id ≡ j.base_snapshot_id)
same_base p j e = ground (arith, same_option_iff p.head_snapshot_id j.base_snapshot_id)

or_stale-ok : (r : Result Approval) (a : Approval) → or_stale r ≡ ok a → r ≡ ok a
or_stale-ok (ok b) a e = e
or_stale-ok (err x) a e = absurd (ground (arith, e))

same_some : {A : Type 0} {a b : A} → ◌≡◌ {A = Option A} (some a) (some b) → a ≡ b
same_some e = cc

no_date : (o : Option ℕ) → is_some o ≡ false → o ≡ none
no_date o e = ground arith

-- A project that is found leaves the tables alone, is stored and is not being deleted.
pub project-found :
    (env : Environment) (i : ℕ) (w v : World) (p : ProjectRow)
    → project env i w ≡ ok (p, v)
    → (v ≡ w) × (p.deleting_at ≡ none) × (find (λ (y : ProjectRow). y.id == i) w.projects ≡ some p)
unfolding project
project-found env i w v p e =
    let (q, f, e1) =
      one_or-split not_found (λ x. find (λ (y : ProjectRow). y.id == i) x.projects) _ w v p e in
    let (kept, e2) = reject_if-split (is_some q.deleting_at) not_found _ w v p e1 in
    let (same, world) = ok_pair {a = q} {w = w} e2 in
    (
      world,
      ap (λ (x : ProjectRow). x.deleting_at) same ∙ no_date q.deleting_at kept,
      f ∙ ap some (sym same),
    )

-- The approval that `decide` has validated and stored.
decide-Binds :
    (env : Environment) (p : ProjectRow) (j k : JobRow) (actor : ℕ) (role : Role)
    (body : ApproveInput) (binding : Option PromoteInput) (w v : World)
    → decide env p j actor role body binding w ≡ ok (k, v)
    → (s : Subject) × (j.review_json ≡ some s)
      × (v.approvals
          ≡ w.approvals
            ++ row_of_approval j (approval_for j actor body (env.uuid w.made) (env.clock w.reads))
              ∷ [])
      × Binds env.hashing
          (approval_for j actor body (env.uuid w.made) (env.clock w.reads))
          s
          (context_for j p actor role body (policy_revoked w j) (env.clock w.reads))
unfolding decide
decide-Binds env p j k actor role body binding w v e =
    let now = env.clock w.reads in
    let x = record w { reads = w.reads + 1; made = w.made + 1 } in
    let given = approval_for j actor body (env.uuid w.made) now in
    let c = context_for j p actor role body (policy_revoked w j) now in
    let (a, fa, e1) = lift-split (parse approval_schema given) _ x v k e in
    let (s, fs, e2) = one_or-split stale_approval (λ y. j.review_json) _ x v k e1 in
    let (b, fb, e3) = lift-split (or_stale (validate_approval env.hashing a s c)) _ x v k e2 in
    let (same, binds) =
      validate_approval-Binds env.hashing a s c
        (or_stale-ok (validate_approval env.hashing a s c) b fb) in
    let (d0, x1, promoted, e4) =
      >>=-split
        (when (is_promotion body.kind && is_approve body.decision)
          (promote_source env j p s binding now))
        _ x v k e3 in
    let (logged, x2, recorded, e5) = >>=-split (record_approval env j a) _ x1 v k e4 in
    let (l, x3, followed, e6) = >>=-split (follow_decision env logged a s c) _ x2 v k e5 in
    let (d1, x4, audited, e7) =
      >>=-split (audit env l.workspace_id l.id actor (action_of a.kind)) _ x3 v k e6 in
    let kept : x1.approvals ≡ w.approvals =
      when-KeepsApprovals (is_promotion body.kind && is_approve body.decision)
        (promote_source env j p s binding now) (promote_source-KeepsApprovals env j p s binding now)
        x x1 d0 promoted in
    let stored : v.approvals ≡ w.approvals ++ row_of_approval j a ∷ [] =
      return-KeepsApprovals l x4 v k e7
      ∙ audit-KeepsApprovals env l.workspace_id l.id actor (action_of a.kind) x3 x4 d1 audited
      ∙ follow_decision-KeepsApprovals env logged a s c x2 x3 l followed
      ∙ record_approval-recorded env j logged a x1 x2 recorded
      ∙ ap (λ xs. xs ++ row_of_approval j a ∷ []) kept in
    (
      s,
      fs,
      subst (λ y. v.approvals ≡ w.approvals ++ row_of_approval j y ∷ [])
          (parse-ok approval_schema given fa).1 stored,
      subst (λ y. Binds env.hashing y s c) (parse-ok approval_schema given fa).1 binds,
    )

-- A decision that `approve` records is one on the open review of a stored job that is neither marked
-- for nor in a cleanup, whose stored project is not being deleted and still has the revision and the
-- head that the job was admitted at. It adds one row to the approvals, and the approval of that row
-- binds: it is the actor's own, on the digest
-- of the stored review, under the job's version, base and policy, which is not revoked.
pub approve_job-Decided :
    (env : Environment) (id actor : ℕ) (role : Role) (body : ApproveInput)
    (binding : Option PromoteInput) (w v : World) (k : JobRow)
    → approve_job env id actor role body binding w ≡ ok (k, v)
    → Decided env id actor role body w v
unfolding approve_job
approve_job-Decided env id actor role body binding w v k e =
    let (found, f0, e1) = one_or-split not_found (λ x. find (job_is id) x.jobs) _ w v k e in
    let (p, u, fp, e2) = >>=-split (project env found.project_id) _ w v k e1 in
    let (same, kept, listed) = project-found env found.project_id w u p fp in
    let (j, fj, e3) = one_or-split not_found (λ x. find (job_is id) x.jobs) _ u v k e2 in
    let (clean, e4) =
      reject_if-split (is_some j.cleanup_target || any (pending j.id) u.cleanups) cleanup_pending _
        u v k e3 in
    let (awaited, e5) = reject_if-split (not_awaited j body) conflict _ u v k e4 in
    let (base, e6) = reject_if-split (moved_on p j) revision_mismatch _ u v k e5 in
    let (s, fs, stored, binds) = decide-Binds env p j k actor role body binding u v e6 in
    let (unmarked, settled) = or_false _ _ clean in
    let (revision, head) = same_base p j base in
    record {
      job = j;
      project = p;
      subject = s;
      approval_id = env.uuid u.made;
      now = env.clock u.reads;
      project_found =
          subst
            (λ (r : JobRow). find (λ (y : ProjectRow). y.id == r.project_id) w.projects ≡ some p)
            (same_some (sym f0 ∙ ap (λ (x : World). find (job_is id) x.jobs) (sym same) ∙ fj))
            listed;
      stored =
          stored
          ∙ ap
              (λ (x : World).
                x.approvals
                ++ row_of_approval j
                    (approval_for j actor body (env.uuid u.made) (env.clock u.reads))
                  ∷ [])
              same;
      job_found = ap (λ (x : World). find (job_is id) x.jobs) (sym same) ∙ fj;
      open_review = awaited;
      reviewed = fs;
      clean = ap (λ (x : World). any (pending j.id) x.cleanups) (sym same) ∙ settled;
      unmarked = unmarked;
      revision = revision;
      head = head;
      kept = kept;
      binds =
          subst
            (λ (x : World).
              Binds env.hashing (approval_for j actor body (env.uuid u.made) (env.clock u.reads)) s
                (context_for j p actor role body (policy_revoked x j) (env.clock u.reads)))
            same binds;
    }
