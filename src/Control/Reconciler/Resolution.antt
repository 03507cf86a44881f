-- ===== src/Control/Reconciler/Resolution.antt =====
-- engine/control/reconciler.ts, resolveUncertain: a settlement is bounded, and is made once.
use mathlib.Core.Option
use forge_ai.Prelude.{
  ℕ, ◌≡◌, ◌≤◌, refl, ap, ◌∙◌, ◌⊎◌, Bool, true, false, not, some, arith, ok, err, find, update,
  find-update, not_found, inl, inr, Bool-cases, ◌==◌, ◌!=◌, ==_iff, find-true, not-false,
  invalid_amount, not_terminal, unbounded_resolution, unsafe_integer, resolution_conflict,
  if◌then◌else◌,
}
use forge_ai.Contracts.Primitives.{uint}
use forge_ai.Jobs.{is_terminal}
use forge_ai.Control.Tables.{World, JobRow, AttemptRow, is_resolved}
use forge_ai.Control.Tx.{
  Environment, one, reject_if, >>=-ok, one_or-some, one_or-split, reject_if-split, reject_if-ok,
  ok_pair, ◌>>=◌, ◌>>◌,
}
use forge_ai.Control.State.{job_is, audit}
use forge_ai.Control.Reservations.{
  release_reservation, release_rows, reservation_of, is_short, unspent, liability_of, pending_of,
}
use forge_ai.Control.Reconciler.{
  resolve_uncertain, settle_attempt, resolve_found, attempt_is, resolve_attempt, unbounded,
  overdrawn,
}

-- A release touches neither jobs nor attempts.
release_reservation-frame :
    (j : JobRow) (w v : World)
    → release_reservation j w ≡ ok (tt, v)
    → (v.jobs ≡ w.jobs) × (v.attempts ≡ w.attempts)
unfolding release_reservation
release_reservation-frame j w v e =
    let (r, f, e1) =
      one_or-split not_found (λ x. find (reservation_of j.id) x.reservations) _ w v tt e in
    let amount = unspent r (liability_of j.id w.attempts) in
    let (fits, e2) = reject_if-split (is_short j r amount w) unsafe_integer _ w v tt e1 in
    let (a, b) = ok_pair {w = release_rows j r amount (pending_of j.id w.attempts) w} e2 in
    (ap (λ (x : World). x.jobs) b, ap (λ (x : World). x.attempts) b)

-- What the settlement of an open attempt has checked and done.
record Settled (j : JobRow) (a : AttemptRow) (operation amount : ℕ) (w v : World) : Type 0 where
  bounded : unbounded a amount ≡ false
  jobs : v.jobs ≡ w.jobs
  attempts : v.attempts ≡ update (attempt_is operation j.id) (resolve_attempt amount) w.attempts

settle_attempt-Settled :
    (env : Environment) (self : ℕ) (j : JobRow) (a : AttemptRow) (operation amount : ℕ)
    (w v : World)
    → settle_attempt env self j a operation amount w ≡ ok (tt, v)
    → Settled j a operation amount w v
unfolding settle_attempt audit
settle_attempt-Settled env self j a operation amount w v e =
    let (bounded, e1) = reject_if-split (unbounded a amount) unbounded_resolution _ w v tt e in
    let (r, f, e2) =
      one_or-split not_found (λ x. find (reservation_of j.id) x.reservations) _ w v tt e1 in
    let (fits, e3) = reject_if-split (is_short j r amount w) unsafe_integer _ w v tt e2 in
    let (covered, e4) = reject_if-split (overdrawn r amount) unsafe_integer _ w v tt e3 in
    let (jobs, attempts) = release_reservation-frame j _ v e4 in
    record { bounded = bounded; jobs = jobs; attempts = attempts }

within : (a : AttemptRow) (amount : ℕ) → unbounded a amount ≡ false → amount ≤ a.maximum_micros
within a amount e = ground arith

same_amount : (a b : ℕ) → (a != b) ≡ false → a ≡ b
same_amount a b e = ground arith

-- What a resolution that succeeds leaves: a finished job, whose attempt is settled at the amount, and
-- the amount was within the attempt's maximum or had been recorded before.
pub record Resolved (job operation amount : ℕ) (w v : World) : Type 0 where
  pub row : JobRow
  pub attempt : AttemptRow
  pub finished : is_terminal row.state ≡ true
  pub row_found : find (job_is job) v.jobs ≡ some row
  pub attempt_found : find (attempt_is operation job) v.attempts ≡ some attempt
  pub settled : is_resolved attempt.state ≡ true
  pub amounts : Option.get_or attempt.amount_micros 0 ≡ amount
  pub bounded :
      (v ≡ w)
      ⊎ ((before : AttemptRow) × (find (attempt_is operation job) w.attempts ≡ some before)
          × (amount ≤ before.maximum_micros))

module _ (env : Environment) (self job operation amount : ℕ) (w v : World) where
  resolve_found-Resolved :
      (j : JobRow) (a : AttemptRow)
      → j.id ≡ job
      → find (job_is job) w.jobs ≡ some j
      → find (attempt_is operation job) w.attempts ≡ some a
      → is_terminal j.state ≡ true
      → resolve_found env self j a operation amount w ≡ ok (tt, v)
      → Resolved job operation amount w v
  unfolding resolve_found
  resolve_found-Resolved j a id fj fa over e = elim (Bool-cases (is_resolved a.state)) [
    | inl done ↦ again done (rw done at e)
    | inr open_ ↦ fresh (settle_attempt-Settled env self j a operation amount w v (rw open_ at e))
  ]
    where
      again :
          is_resolved a.state ≡ true
          → reject_if (Option.get_or a.amount_micros 0 != amount) resolution_conflict w ≡ ok (tt, v)
          → Resolved job operation amount w v
      again done q =
          let (same, r) =
            reject_if-ok (Option.get_or a.amount_micros 0 != amount) resolution_conflict w v tt q in
          record {
            row = j;
            attempt = a;
            finished = over;
            row_found = ap (λ (x : World). find (job_is job) x.jobs) r ∙ fj;
            attempt_found = ap (λ (x : World). find (attempt_is operation job) x.attempts) r ∙ fa;
            settled = done;
            amounts = same_amount _ amount same;
            bounded = inl r;
          }

      fresh : Settled j a operation amount w v → Resolved job operation amount w v
      fresh s = record {
        row = j;
        attempt = resolve_attempt amount a;
        finished = over;
        row_found = ap (find (job_is job)) s.jobs ∙ fj;
        attempt_found =
            ap (find (attempt_is operation job)) (
              s.attempts
              ∙ ap (λ i. update (attempt_is operation i) (resolve_attempt amount) w.attempts) id)
            ∙ find-update (attempt_is operation job) (resolve_attempt amount) w.attempts a
                (λ y. refl) fa;
        settled = refl;
        amounts = refl;
        bounded = inr (a, fa, within a amount s.bounded);
      }

-- A resolution that succeeds was made of a finished job, and leaves its attempt settled at exactly the
-- amount; and either it changed nothing, or the amount is within the maximum that the attempt had.
pub resolve_uncertain-Resolved :
    (env : Environment) (self job operation amount : ℕ) (w v : World)
    → resolve_uncertain env self job operation amount w ≡ ok (tt, v)
    → Resolved job operation amount w v
unfolding resolve_uncertain
resolve_uncertain-Resolved env self job operation amount w v e =
    let (safe, e1) = reject_if-split (not (uint amount)) invalid_amount _ w v tt e in
    let (j, fj, e2) = one_or-split not_found (λ x. find (job_is job) x.jobs) _ w v tt e1 in
    from_job j fj e2
  where
    from_attempt :
        (j : JobRow) (a : AttemptRow)
        → find (job_is job) w.jobs ≡ some j
        → find (attempt_is operation job) w.attempts ≡ some a
        → (reject_if (not (is_terminal j.state)) not_terminal
              >> resolve_found env self j a operation amount)
            w
          ≡ ok (tt, v)
        → Resolved job operation amount w v
    from_attempt j a fj fa q =
        let (over, q1) = reject_if-split (not (is_terminal j.state)) not_terminal _ w v tt q in
        resolve_found-Resolved env self job operation amount w v j a
          ((==_iff j.id job).0 (find-true (job_is job) w.jobs j fj)) fj fa (not-false _ over) q1

    from_job :
        (j : JobRow)
        → find (job_is job) w.jobs ≡ some j
        → (one (λ x. find (attempt_is operation job) x.attempts) >>= (λ a.
              reject_if (not (is_terminal j.state)) not_terminal
              >> resolve_found env self j a operation amount))
            w
          ≡ ok (tt, v)
        → Resolved job operation amount w v
    from_job j fj q =
        let (a, fa, q1) =
          one_or-split not_found (λ x. find (attempt_is operation job) x.attempts) _ w v tt q in
        from_attempt j a fj fa q1

differs : (a b : ℕ) → (a != b) ≡ not (a == b)
differs a b = ground arith

conflict_or_not :
    (recorded amount other : ℕ) (v : World)
    → recorded ≡ amount
    → reject_if (recorded != other) resolution_conflict v
      ≡ (if amount == other then ok (tt, v) else err resolution_conflict)
conflict_or_not recorded amount other v e =
    rw (e, differs amount other) (by_cases (amount == other))
  where
    by_cases :
        (b : Bool)
        → reject_if (not b) resolution_conflict v
          ≡ (if b then ok (tt, v) else err resolution_conflict)
    by_cases true = refl
    by_cases false = refl

settled_again :
    (env : Environment) (self job operation amount other : ℕ) (v : World) (j : JobRow)
    (a : AttemptRow)
    → uint other ≡ true
    → find (job_is job) v.jobs ≡ some j
    → find (attempt_is operation job) v.attempts ≡ some a
    → is_terminal j.state ≡ true
    → is_resolved a.state ≡ true
    → Option.get_or a.amount_micros 0 ≡ amount
    → resolve_uncertain env self job operation other v
      ≡ (if amount == other then ok (tt, v) else err resolution_conflict)
unfolding resolve_uncertain resolve_found
settled_again env self job operation amount other v j a safe fj fa over done e =
    let jobs = λ (x : World). find (job_is job) x.jobs in
    let attempts = λ (x : World). find (attempt_is operation job) x.attempts in
    >>=-ok (reject_if (not (uint other)) invalid_amount) _ v v tt (rw safe refl)
    ∙ >>=-ok (one jobs) _ v v j (one_or-some not_found jobs v j fj)
    ∙ >>=-ok (one attempts) _ v v a (one_or-some not_found attempts v a fa)
    ∙ >>=-ok (reject_if (not (is_terminal j.state)) not_terminal) _ v v tt (rw over refl)
    ∙ rw done (conflict_or_not (Option.get_or a.amount_micros 0) amount other v e)

-- A resolution is made once: after it succeeded, asking for it again at the same amount changes
-- nothing, and asking for another amount is a conflict.
pub resolve_uncertain-again :
    (env : Environment) (self job operation amount other : ℕ) (w v : World)
    → uint other ≡ true
    → resolve_uncertain env self job operation amount w ≡ ok (tt, v)
    → resolve_uncertain env self job operation other v
      ≡ (if amount == other then ok (tt, v) else err resolution_conflict)
resolve_uncertain-again env self job operation amount other w v safe e =
    let r = resolve_uncertain-Resolved env self job operation amount w v e in
    settled_again env self job operation amount other v r.row r.attempt safe r.row_found
      r.attempt_found r.finished r.settled r.amounts
