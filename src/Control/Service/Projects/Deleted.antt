-- ===== src/Control/Service/Projects/Deleted.antt =====
-- engine/control/service.ts, deleteProject: a project that is being deleted is closed to requests.
use mathlib.Core.Path.{subst}
use forge_ai.Prelude.{
  ℕ, ◌≡◌, refl, sym, ap, ◌∙◌, ◌⊎◌, arith, inl, inr, Bool, true, false, ◌&&◌, not, Option, none,
  some, List, [], ◌∷◌, ok, err, All, All-update, find, find-true, keep, is_some, ◌==◌, ◌!=◌, ==_iff,
  Bool-cases, Option-cases, not_found, revision_mismatch,
}
use forge_ai.Control.Tables.{World, JobRow, ProjectRow, PreviewRow, is_ready}
use forge_ai.Control.Tx.{
  Environment, Tx, one, ◌>>=◌, ◌>>◌, return, reject_if, one_or, one_or-split, one_or-none,
  one_or-some, reject_if-split, >>=-split, >>=-err, >>=-ok, ok_pair,
}
use forge_ai.Contracts.Review.{Role}
use forge_ai.Control.State.{job_is, audit}
use forge_ai.Control.Service.{project, cancel_job}
use forge_ai.Control.Service.Approval.{ApproveInput, PromoteInput, approve_job}
use forge_ai.Control.Service.Admission.{unfinished}
use forge_ai.Control.Service.Projects.{
  ProjectPatch, project_is, patch, delete, cancel_each, close_project, mark_deleting, stop_ready,
}

abbrev open_project : ℕ → ProjectRow → Bool
open_project id p = project_is id p && not (is_some p.deleting_at)

abbrev shown : ℕ → PreviewRow → Bool
shown id x = x.project_id == id && is_ready x.state

-- A stored job of another project.
abbrev pub is_elsewhere : ℕ → Option JobRow → Bool
is_elsewhere id none = false
is_elsewhere id (some j) = j.project_id != id

-- A project that is closed to requests: it is not found, and none of its previews is shown.
pub record Closed (env : Environment) (id : ℕ) (v : World) : Type 0 where
  pub gone : project env id v ≡ err not_found
  pub no_patch :
      (actor revision : ℕ) (body : ProjectPatch)
      → patch env id actor revision body v ≡ err not_found
  pub no_delete : (actor revision : ℕ) → delete env id actor revision v ≡ err not_found
  pub no_cancel :
      (job actor : ℕ)
      → (is_elsewhere id (find (job_is job) v.jobs) ≡ true)
        ⊎ (cancel_job env job actor v ≡ err not_found)
  pub no_approval :
      (job actor : ℕ) (role : Role) (body : ApproveInput) (binding : Option PromoteInput)
      → (is_elsewhere id (find (job_is job) v.jobs) ≡ true)
        ⊎ (approve_job env job actor role body binding v ≡ err not_found)
  pub previews : All (λ x. shown id x ≡ false) v.previews

All-find :
    {A : Type 0} (P : A → Type 0) (p : A → Bool) (xs : List A) (x : A)
    → All P xs
    → find p xs ≡ some x
    → P x
All-find P p [] x h e = absurd (ground (arith, e))
All-find P p (y ∷ ys) x (h, hs) e = elim (Bool-cases (p y)) [
  | inl a ↦ here (rw a at e)
  | inr a ↦ All-find P p ys x hs (rw a at e)
]
  where
    some_eq : some y ≡ some x → y ≡ x
    some_eq q = cc

    here : some y ≡ some x → P x
    here q = subst P (some_eq q) h

closed_project : (id now : ℕ) (p : ProjectRow) → open_project id (mark_deleting now p) ≡ false
closed_project id now p = ground arith

stopped_preview : (id : ℕ) (x : PreviewRow) → shown id (stop_ready id x) ≡ false
stopped_preview id x = elim (Bool-cases (x.project_id == id && is_ready x.state)) [
  | inl h ↦ rw h (ground arith)
  | inr h ↦ rw h h
]

other_project : (id : ℕ) (p : ProjectRow) → project_is id p ≡ false → open_project id p ≡ false
other_project id p e = ground (arith, e)

other_preview : (id : ℕ) (x : PreviewRow) → (x.project_id == id) ≡ false → shown id x ≡ false
other_preview id x e = ground (arith, e)

close_project-closed :
    (env : Environment) (p : ProjectRow) (actor : ℕ) (w : World)
    → (v : World) × (close_project env p actor w ≡ ok (tt, v))
      × All (λ x. open_project p.id x ≡ false) v.projects
      × All (λ x. shown p.id x ≡ false) v.previews
unfolding close_project audit
close_project-closed env p actor w = (
  _,
  refl,
  All-update (λ x. open_project p.id x ≡ false) (project_is p.id)
      (mark_deleting (env.clock w.reads)) w.projects
      (λ x e. closed_project p.id (env.clock w.reads) x) (λ x e. other_project p.id x e),
  All-update (λ x. shown p.id x ≡ false) (λ (x : PreviewRow). x.project_id == p.id)
      (stop_ready p.id) w.previews (λ x e. stopped_preview p.id x) (λ x e. other_preview p.id x e),
)

deleting_test :
    (id : ℕ) (p : ProjectRow)
    → open_project id p ≡ false
    → project_is id p ≡ true
    → is_some p.deleting_at ≡ true
deleting_test id p a b = ground (arith, a, b)

project-closed :
    (env : Environment) (id : ℕ) (v : World)
    → All (λ x. open_project id x ≡ false) v.projects
    → project env id v ≡ err not_found
unfolding project
project-closed env id v h = elim (Option-cases (find (project_is id) v.projects)) [
  | inl f ↦
      >>=-err (one_or not_found (λ w. find (project_is id) w.projects)) _ v not_found
        (one_or-none not_found (λ w. find (project_is id) w.projects) v f)
  | inr (p, f) ↦
      >>=-ok (one_or not_found (λ w. find (project_is id) w.projects))
        (λ q. reject_if (is_some q.deleting_at) not_found >> return q) v v p
        (one_or-some not_found (λ w. find (project_is id) w.projects) v p f)
      ∙ rw
          (deleting_test id p
            (All-find (λ x. open_project id x ≡ false) (project_is id) v.projects p h f)
            (find-true (project_is id) v.projects p f))
          refl
]

-- A project that is found is the one that was asked for.
project-id :
    (env : Environment) (i : ℕ) (w v : World) (p : ProjectRow)
    → project env i w ≡ ok (p, v)
    → p.id ≡ i
unfolding project
project-id env i w v p e =
    let (q, f, e1) = one_or-split not_found (λ x. find (project_is i) x.projects) _ w v p e in
    let (kept, e2) = reject_if-split (is_some q.deleting_at) not_found _ w v p e1 in
    let (same, world) = ok_pair {a = q} {w = w} e2 in
    ap (λ (x : ProjectRow). x.id) same ∙ (==_iff q.id i).0 (find-true (project_is i) w.projects q f)

same_project : (a b : ℕ) → (a != b) ≡ false → a ≡ b
same_project a b e = ground (arith, e)

-- What begins with the lookup of a job and of its project finds no project that is closed.
job-closed :
    (env : Environment) (id : ℕ) (v : World)
    → project env id v ≡ err not_found
    → (job : ℕ) {A : Type 0} (f : JobRow → ProjectRow → Tx A)
    → (is_elsewhere id (find (job_is job) v.jobs) ≡ true)
      ⊎ ((one (λ w. find (job_is job) w.jobs) >>= (λ j. project env j.project_id >>= f j)) v
          ≡ err not_found)
job-closed env id v gone job f = elim (Option-cases (find (job_is job) v.jobs)) [
  | inl q ↦ inr (
      >>=-err (one (λ w. find (job_is job) w.jobs)) _ v not_found
        (one_or-none not_found (λ w. find (job_is job) w.jobs) v q))
  | inr (j, q) ↦ elim (Bool-cases (j.project_id != id)) [
    | inl b ↦ inl (rw q b)
    | inr b ↦ inr (
        >>=-ok (one (λ w. find (job_is job) w.jobs)) _ v v j
          (one_or-some not_found (λ w. find (job_is job) w.jobs) v j q)
        ∙ >>=-err (project env j.project_id) (f j) v not_found
            (rw (same_project j.project_id id b) gone))
  ]
]

-- After a project is deleted, looking it up finds nothing: the actions that patch it, delete it, or
-- cancel or approve a job of it answer that it is not found, and none of its previews is left ready.
pub delete-Closed :
    (env : Environment) (id actor revision : ℕ) (w v : World)
    → delete env id actor revision w ≡ ok (tt, v)
    → Closed env id v
unfolding delete patch cancel_job approve_job
delete-Closed env id actor revision w v e =
    let (p, u, found, e1) = >>=-split (project env id) _ w v tt e in
    let (current, e2) = reject_if-split (p.revision != revision) revision_mismatch _ u v tt e1 in
    let jobs = keep (λ (j : JobRow). j.project_id == id && unfinished j) u.jobs in
    let (done, x, cancelled, e3) = >>=-split (cancel_each env jobs) _ u v tt e2 in
    let (y, closed, projects, previews) = close_project-closed env p actor x in
    let (nothing, world) = ok_pair {a = tt} {w = y} (sym closed ∙ e3) in
    let same = project-id env id w u p found in
    let gone = project-closed env id v (
      subst (λ i. All (λ q. open_project i q ≡ false) v.projects) same
        (subst (λ (z : World). All (λ q. open_project p.id q ≡ false) z.projects) (sym world)
          projects)) in
    record {
      gone = gone;
      no_patch = λ a r b. >>=-err (project env id) _ v not_found gone;
      no_delete = λ a r. >>=-err (project env id) _ v not_found gone;
      no_cancel = λ job b. job-closed env id v gone job _;
      no_approval = λ job b role body binding. job-closed env id v gone job _;
      previews =
          subst (λ i. All (λ q. shown i q ≡ false) v.previews) same
            (subst (λ (z : World). All (λ q. shown p.id q ≡ false) z.previews) (sym world)
              previews);
    }
