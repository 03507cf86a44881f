-- ===== src/Control/Worker/Authority/Latest.antt =====
-- engine/control/worker.ts, executionContext: the review and the approval that are chosen are the job's.
use mathlib.Core.Path.{subst}
use forge_ai.Prelude.{
  ℕ, ◌≡◌, ◌⊎◌, inl, inr, arith, true, ◌&&◌, Option, none, some, List, [], ◌∷◌, find, find-true, ltb,
  ◌==◌, Bool-cases, Option-cases,
}
use forge_ai.Control.Tables.{ReviewRow, ApprovalRow}
use forge_ai.Control.Worker.Authority.{Approved, of_execution, approves, newer, last_approved}

-- A review of the job, with an approval of the same job.
abbrev pub IsJobs : ℕ → Approved → Type 0
IsJobs job x = (x.review.job_id ≡ job) × (x.approval.job_id ≡ job)

same_some : {A : Type 0} {a b : A} → ◌≡◌ {A = Option A} (some a) (some b) → a ≡ b
same_some e = cc

newer-cases : (x y : Approved) (o : Option Approved) → newer x o ≡ some y → (x ≡ y) ⊎ (o ≡ some y)
newer-cases x y none e = inl (same_some e)
newer-cases x y (some z) e = elim (Bool-cases (ltb x.review.state_version z.review.state_version)) [
  | inl h ↦ inr (rw h at e)
  | inr h ↦ inl (same_some (rw h at e))
]

IsJobs-pair :
    (job : ℕ) (r : ReviewRow) (a : ApprovalRow)
    → (r.job_id == job && of_execution r.kind) ≡ true
    → approves r a ≡ true
    → IsJobs job (record { review = r; approval = a })
IsJobs-pair job r a p q = ground (arith, p, q)

pub last_approved-IsJobs :
    (job : ℕ) (xs : List ApprovalRow) (rs : List ReviewRow) (x : Approved)
    → last_approved job xs rs ≡ some x
    → IsJobs job x
last_approved-IsJobs job xs [] x e = absurd (ground (arith, e))
last_approved-IsJobs job xs (r ∷ rs) x e =
    elim (Bool-cases (r.job_id == job && of_execution r.kind)) [
      | inr h ↦ last_approved-IsJobs job xs rs x (rw h at e)
      | inl h ↦ elim (Option-cases (find (approves r) xs)) [
        | inl f ↦ last_approved-IsJobs job xs rs x (rw f at (rw h at e))
        | inr (a, f) ↦
            elim (newer-cases (record { review = r; approval = a }) x (last_approved job xs rs)
              (rw f at (rw h at e))) [
                | inl same ↦
                    subst (IsJobs job) same (IsJobs-pair job r a h (find-true (approves r) xs a f))
                | inr q ↦ last_approved-IsJobs job xs rs x q
              ]
      ]
    ]
