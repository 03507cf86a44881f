-- ===== src/Control/Service/Projects.antt =====
-- engine/control/service.ts: creating, changing and deleting a project, and the requests that answer
-- with a job.
--
-- The texts of a project are opaque numbers; their lengths are carried by the type. The session and
-- the CSRF test are left out.
pub mod Deleted
use forge_ai.Prelude.{
  ℕ, ◌+◌, Bool, true, false, ◌&&◌, not, Option, none, some, List, [], ◌∷◌, ◌++◌, ◌==◌, ◌!=◌,
  if◌then◌else◌, any, keep, find, update, revision_mismatch, state_conflict,
}
use mathlib.Core.Option
use forge_ai.Contracts.Review
use forge_ai.Contracts.Review.{ReviewKind, Role, approve}
use forge_ai.Jobs.{is_terminal}
use forge_ai.Control.Tables.{
  JobRow, ProjectRow, PreviewRow, PreviewState, is_ready, EnvironmentRow, ReviewRow,
  project_created, project_updated, project_deleting, Response, project_body, job_body,
  deleting_body, post_projects, patch_project, delete_project, post_approvals, post_promote,
  post_cancel, Route,
}
use forge_ai.Control.Tx.{
  Environment, Tx, ◌>>=◌, ◌>>◌, return, reject_if, one, read, write, clock, random_uuid,
}
use forge_ai.Control.State.{audit}
use forge_ai.Control.Service.{project, cancel_locked, cancel_job}
use forge_ai.Control.Service.Admission.{unfinished}
use forge_ai.Control.Service.Approval.{ApproveInput, PromoteInput, approve_job}
use forge_ai.Control.Service.Idempotency.{idempotent}

-- `projectInputSchema`
pub record ProjectInput : Type 0 where
  pub name : ℕ
  pub brief : ℕ
  pub preset_id : ℕ
  pub preset_version : ℕ

-- `projectPatchSchema`
pub record ProjectPatch : Type 0 where
  pub name : Option ℕ
  pub brief : Option ℕ
  pub preset_id : Option ℕ
  pub preset_version : Option ℕ

abbrev pub project_is : ℕ → ProjectRow → Bool
project_is id p = p.id == id

-- The columns that a patch sets: those it names, and the next revision.
unfoldable pub patched : ProjectPatch → ProjectRow → ProjectRow → ProjectRow
patched body prior p = record p {
  name = Option.get_or body.name prior.name;
  brief = Option.get_or body.brief prior.brief;
  preset_id = Option.get_or body.preset_id prior.preset_id;
  preset_version = Option.get_or body.preset_version prior.preset_version;
  revision = p.revision + 1;
}

abbrev pub mark_deleting : ℕ → ProjectRow → ProjectRow
mark_deleting now p = record p { deleting_at = some now; revision = p.revision + 1 }

abbrev pub stop_ready : ℕ → PreviewRow → PreviewRow
stop_ready id x =
    if x.project_id == id && is_ready x.state then record x { state = PreviewState.stopping } else x

abbrev pub expire : ℕ → ℕ → EnvironmentRow → EnvironmentRow
expire id now x =
    if x.project_id == id && not x.is_destroyed then record x { expires_at = now } else x

abbrev pub is_promotion_review : ℕ → ℕ → ReviewRow → Bool
is_promotion_review id version r =
    r.job_id == id
    && r.state_version == version
    && (elim (r.kind) [ Review.promotion ↦ true | _ ↦ false ])

module _ (env : Environment) where
  -- The row that `createProject` inserts, with the defaults of the table.
  unfoldable pub new_project : ℕ → ProjectInput → ℕ → ProjectRow
  new_project workspace body id = record {
    id = id;
    workspace_id = workspace;
    name = body.name;
    brief = body.brief;
    preset_id = body.preset_id;
    preset_version = body.preset_version;
    template_digest = env.fixture_template;
    revision = 1;
    head_snapshot_id = none;
    deleting_at = none;
  }

  unfoldable pub create_project : ℕ → ℕ → List ℕ → ℕ → ProjectInput → Tx Response
  unfolding idempotent new_project audit
  create_project workspace actor key digest body =
      idempotent env workspace actor (post_projects workspace) key digest (do
        id ← random_uuid env
        write (λ w. record w { projects = w.projects ++ new_project workspace body id ∷ [] })
        audit env workspace id actor project_created
        return (record { status = 201; body = project_body (new_project workspace body id) }))

  -- The action of `patchProject`.
  unfoldable pub patch : ℕ → ℕ → ℕ → ProjectPatch → Tx ProjectRow
  unfolding project patched audit
  patch id actor revision body = do
    prior ← project env id
    reject_if (prior.revision != revision) revision_mismatch
    busy ← read (λ w. any (λ (j : JobRow). j.project_id == id && unfinished j) w.jobs)
    reject_if busy state_conflict
    clock env
    write (λ w. record w { projects = update (project_is id) (patched body prior) w.projects })
    audit env (patched body prior prior).workspace_id (patched body prior prior).id actor
        project_updated
    return (patched body prior prior)

  unfoldable pub patch_request : ℕ → ℕ → ℕ → List ℕ → ℕ → ℕ → ProjectPatch → Tx Response
  unfolding patch idempotent
  patch_request workspace id actor key digest revision body =
      idempotent env workspace actor (patch_project id) key digest (do
        p ← patch id actor revision body
        return (record { status = 200; body = project_body p }))

  -- `for (const j of jobs) await this.cancelLocked(c, j)`
  unfoldable pub cancel_each : List JobRow → Tx (Unit {0})
  unfolding cancel_locked
  cancel_each [] = return tt
  cancel_each (j ∷ js) = cancel_locked env j >> cancel_each js

  -- The statements of `deleteProject` after the jobs are cancelled.
  unfoldable pub close_project : ProjectRow → ℕ → Tx (Unit {0})
  unfolding audit
  close_project p actor = do
    deleted ← clock env
    write (λ w. record w { projects = update (project_is p.id) (mark_deleting deleted) w.projects })
    write (λ w. record w {
      previews = update (λ (x : PreviewRow). x.project_id == p.id) (stop_ready p.id) w.previews;
    })
    expired ← clock env
    write (λ w. record w {
      environments =
          update (λ (x : EnvironmentRow). x.project_id == p.id) (expire p.id expired)
            w.environments;
    })
    audit env p.workspace_id p.id actor project_deleting

  -- The action of `deleteProject`.
  unfoldable pub delete : ℕ → ℕ → ℕ → Tx (Unit {0})
  unfolding project cancel_each close_project
  delete id actor revision = do
    p ← project env id
    reject_if (p.revision != revision) revision_mismatch
    jobs ← read (λ w. keep (λ (j : JobRow). j.project_id == id && unfinished j) w.jobs)
    cancel_each jobs
    close_project p actor

  unfoldable pub delete_request : ℕ → ℕ → ℕ → List ℕ → ℕ → ℕ → Tx Response
  unfolding delete idempotent
  delete_request workspace id actor key digest revision =
      idempotent env workspace actor (delete_project id) key digest
        (do delete id actor revision; return (record { status = 202; body = deleting_body id }))

  -- `cancel`
  unfoldable pub cancel_request : ℕ → ℕ → ℕ → List ℕ → ℕ → Tx Response
  unfolding cancel_job idempotent
  cancel_request workspace id actor key digest =
      idempotent env workspace actor (post_cancel id) key digest (do
        j ← cancel_job env id actor
        return (record { status = if is_terminal j.state then 200 else 202; body = job_body j }))

  -- `promotion ? 'POST /jobs/…/promote' : 'POST /jobs/…/approvals'`
  abbrev approval_route : Option PromoteInput → ℕ → Route
  approval_route none id = post_approvals id
  approval_route (some b) id = post_promote id

  -- `approve`; the project beside the job of an approved promotion is left out of the body.
  unfoldable pub approve_request :
      ℕ → ℕ → ℕ → Role → List ℕ → ℕ → ApproveInput → Option PromoteInput → Tx Response
  unfolding approve_job idempotent
  approve_request workspace id actor role key digest body binding =
      idempotent env workspace actor (approval_route binding id) key digest (do
        j ← approve_job env id actor role body binding
        return (record { status = 200; body = job_body j }))

  -- `promote`: the review that it names, and the approval of it. `version` is the binding's
  -- `stateVersion`.
  unfoldable pub promote : ℕ → ℕ → ℕ → Role → List ℕ → ℕ → ℕ → PromoteInput → Tx Response
  unfolding approve_request
  promote workspace id actor role key digest version binding = do
    review ← one (λ w. find (is_promotion_review id version) w.reviews)
    approve_request workspace id actor role key digest
        (record {
          kind = Review.promotion;
          subject_digest = Option.get_or review.subject_digest 0;
          state_version = version;
          decision = approve;
        })
        (some binding)
