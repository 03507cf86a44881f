-- ===== src/Control/Reconciler/Rounds/Late.antt =====
-- engine/control/reconciler.ts, runOnce: a confirmation that comes late.
use mathlib.Core.Path.{subst}
use forge_ai.Prelude.{
  ℕ, ◌≡◌, ◌≢◌, refl, sym, ap, ◌∙◌, ◌⊎◌, inl, inr, true, false, Option, List, [], ◌∷◌, ◌++◌, arith,
  find, any, All, All-update, ok, err, not_found, ◌==◌, ==_iff, Bool-cases, Option-cases, or_false,
  find-true, constraint_violation,
}
use forge_ai.Control.Tables.{World, JobRow, ProjectRow, CleanupRow, CleanupReason, CleanupTarget}
use forge_ai.Control.Tx.{
  Environment, one, one_or-some, one_or-none, >>=-ok, >>=-err, reject_if-split, ok_pair,
}
use forge_ai.Control.State.{job_is}
use forge_ai.Control.Cleanup.{
  pending, cleanup_is, put_cleanup, is_frozen, reopen, new_cleanup, request_cleanup, stop_previews,
  revoke_tickets, cancel_steps,
}
use forge_ai.Control.Reconciler.Rounds.{Work, finish_cleanup, same_generation}

abbrev IsOf : ℕ → ℕ → CleanupRow → Type 0
IsOf job g x = (pending job x ≡ false) ⊎ (x.generation ≡ g)

other_row : (job : ℕ) (x : CleanupRow) → cleanup_is job x ≡ false → pending job x ≡ false
other_row job x e = ground (arith, e)

appended :
    (job : ℕ) (r : CleanupReason) (g : ℕ) (rows : List CleanupRow)
    → any (cleanup_is job) rows ≡ false
    → All (IsOf job g) (rows ++ new_cleanup job r g ∷ [])
appended job r g [] e = (inr refl, tt)
appended job r g (x ∷ rows) e =
    let (here, rest) = or_false (cleanup_is job x) (any (cleanup_is job) rows) e in
    (inl (other_row job x here), appended job r g rows rest)

-- The open cleanup of the job has the generation that was put.
put_cleanup-generation :
    (job : ℕ) (r : CleanupReason) (g : ℕ) (rows : List CleanupRow)
    → All (IsOf job g) (put_cleanup job r g rows)
unfolding put_cleanup
put_cleanup-generation job r g rows = elim (Bool-cases (any (cleanup_is job) rows)) [
  | inl e ↦ rw e (
      All-update (IsOf job g) (cleanup_is job) (reopen r g) rows (λ x h. inr refl)
        (λ x h. inl (other_row job x h)))
  | inr e ↦ rw e (appended job r g rows e)
]

stale_generation :
    (job g h : ℕ) (rows : List CleanupRow)
    → g ≢ h
    → All (IsOf job g) rows
    → same_generation (find (pending job) rows) h ≡ false
stale_generation job g h [] d a = refl
stale_generation job g h (x ∷ rows) d (here, rest) = elim (Bool-cases (pending job x)) [
  | inl e ↦ rw e (first e here)
  | inr e ↦ rw e (stale_generation job g h rows d rest)
]
  where
    first : pending job x ≡ true → IsOf job g x → (x.generation == h) ≡ false
    first e (inl f) = cc
    first e (inr f) = ground (arith, d, f)

request_cleanup-put :
    (env : Environment) (j k : JobRow) (r : CleanupReason) (t : CleanupTarget) (w v : World)
    → request_cleanup env j r t w ≡ ok (k, v)
    → v.cleanups ≡ put_cleanup j.id r (env.uuid w.made) w.cleanups
unfolding request_cleanup stop_previews revoke_tickets cancel_steps
request_cleanup-put env j k r t w v e =
    let (live, e1) = reject_if-split (any (is_frozen j.id) w.jobs) constraint_violation _ w v k e in
    ap (λ (x : World). x.cleanups) (ok_pair e1).1

abbrev project_at : ℕ → World → Option ProjectRow
project_at i w = find (λ (x : ProjectRow). x.id == i) w.projects

abbrev job_at : ℕ → World → Option JobRow
job_at i w = find (job_is i) w.jobs

-- With another generation open, a confirmation changes nothing.
finish_cleanup-stale :
    (env : Environment) (i job g : ℕ) (work : Work) (w : World)
    → g ≢ work.generation
    → All (IsOf job g) w.cleanups
    → (finish_cleanup env i job work w ≡ ok (tt, w))
      ⊎ (finish_cleanup env i job work w ≡ err not_found)
unfolding finish_cleanup
finish_cleanup-stale env i job g work w d a = elim (Option-cases (project_at i w)) [
  | inl p ↦
      inr (>>=-err (one (project_at i)) _ w not_found (one_or-none not_found (project_at i) w p))
  | inr (p, at_p) ↦ elim (Option-cases (job_at job w)) [
    | inl q ↦ inr (
        >>=-ok (one (project_at i)) _ w w p (one_or-some not_found (project_at i) w p at_p)
        ∙ >>=-err (one (job_at job)) _ w not_found (one_or-none not_found (job_at job) w q))
    | inr (j, at_j) ↦
        let same : j.id ≡ job = (==_iff j.id job).0 (find-true (job_is job) w.jobs j at_j) in
        let stale : same_generation (find (pending j.id) w.cleanups) work.generation ≡ false =
          rw same (stale_generation job g work.generation w.cleanups d a) in
        inl (
          >>=-ok (one (project_at i)) _ w w p (one_or-some not_found (project_at i) w p at_p)
          ∙ >>=-ok (one (job_at job)) _ w w j (one_or-some not_found (job_at job) w j at_j)
          ∙ rw stale refl)
  ]
]

-- Once a cleanup of a job was asked for anew, the confirmation of an earlier one, of another
-- generation, changes nothing: it succeeds without a write, or the project or the job is not found.
pub finish_cleanup-late :
    (env : Environment) (project : ℕ) (j k : JobRow) (r : CleanupReason) (t : CleanupTarget)
    (work : Work) (w v : World)
    → env.uuid w.made ≢ work.generation
    → request_cleanup env j r t w ≡ ok (k, v)
    → (finish_cleanup env project j.id work v ≡ ok (tt, v))
      ⊎ (finish_cleanup env project j.id work v ≡ err not_found)
finish_cleanup-late env project j k r t work w v d e =
    finish_cleanup-stale env project j.id (env.uuid w.made) work v d (
      subst (All (IsOf j.id (env.uuid w.made))) (sym (request_cleanup-put env j k r t w v e))
        (put_cleanup-generation j.id r (env.uuid w.made) w.cleanups))
