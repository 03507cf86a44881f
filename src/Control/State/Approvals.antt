-- ===== src/Control/State/Approvals.antt =====
-- engine/control/state.ts: a change of state leaves the recorded approvals alone.
use forge_ai.Prelude.{
  ℕ, arith, ◌+◌, ◌≡◌, ap, ◌∙◌, Bool, true, false, not, Option, none, some, ok, find, leb,
  if◌then◌else◌, conflict, invalid, capacity_unavailable, expiry_mismatch, unsafe_integer,
  not_found, ◌-◌,
}
use forge_ai.Contracts.Review.{Subject}
use forge_ai.Jobs.{JobState, Job, Reason, ApprovalProof, is_terminal}
use forge_ai.Control.Tables.{World, JobRow, EventData, job_state, job_terminal}
use forge_ai.Control.Tx.{
  Environment, Tx, return, throw, when, one_or-split, reject_if-split, >>=-split, lift-split,
  ok_pair,
}
use forge_ai.Control.State.{
  event_ok, append_event, terminal_code, change_events, quota_of, pending_reviews, reserve_review,
  stored_at, update_job, insert_review, needs_step, enqueue, parse_review, request_of, next_job,
  expiry_differs, change_at, change_state,
}
use forge_ai.Control.Reservations.{
  reservation_of, liability_of, unspent, is_short, release_reservation,
}

-- A computation that leaves the table of approvals alone.
abbrev pub KeepsApprovals : {A : Type 0} → Tx A → Type 0
KeepsApprovals {A} m = (w v : World) (a : A) → m w ≡ ok (a, v) → v.approvals ≡ w.approvals

pub return-KeepsApprovals : {A : Type 0} (a : A) → KeepsApprovals (return a)
return-KeepsApprovals a w v b e = ap (λ (x : World). x.approvals) (ok_pair {a = a} {w = w} e).1

pub when-KeepsApprovals :
    (b : Bool) (m : Tx (Unit {0})) → KeepsApprovals m → KeepsApprovals (when b m)
when-KeepsApprovals true m p = p
when-KeepsApprovals false m p = return-KeepsApprovals tt

module _ (env : Environment) where
  pub append_event-KeepsApprovals :
      (j : JobRow) (d : EventData) → KeepsApprovals (append_event env j d)
  unfolding append_event
  append_event-KeepsApprovals j d w v k e =
      let (sound, e1) =
        reject_if-split (not (event_ok j)) invalid _ (record w { reads = w.reads + 1 }) v k e in
      ap (λ (x : World). x.approvals) (ok_pair e1).1

  change_events-KeepsApprovals :
      (j : JobRow) (previous : JobState) → KeepsApprovals (change_events env j previous)
  unfolding change_events
  change_events-KeepsApprovals j previous w v k e =
      let (l, u, logged, e1) =
        >>=-split (append_event env j (job_state previous j.state)) _ w v k e in
      last l u (is_terminal j.state) e1 ∙ append_event-KeepsApprovals j _ w u l logged
    where
      last :
          (l : JobRow) (u : World) (b : Bool)
          → (if b
                then append_event env l (job_terminal j.state (terminal_code j.state))
                else return l)
              u
            ≡ ok (k, v)
          → v.approvals ≡ u.approvals
      last l u true q = append_event-KeepsApprovals l _ u v k q
      last l u false q = return-KeepsApprovals l u v k q

  reserve_review-KeepsApprovals :
      (j : JobRow) (s : Option Subject) → KeepsApprovals (reserve_review env j s)
  unfolding reserve_review
  reserve_review-KeepsApprovals j none w v a e = return-KeepsApprovals tt w v a e
  reserve_review-KeepsApprovals j (some s) w v a e =
      let (q, found, e1) = one_or-split not_found (quota_of env j) _ w v a e in
      bounded (leb w.settings.max_pending_reviews (pending_reviews env j w)) w v a e1
    where
      bounded : (b : Bool) → KeepsApprovals (if b then throw capacity_unavailable else return tt)
      bounded true x y z q = absurd (ground (arith, q))
      bounded false x y z q = return-KeepsApprovals tt x y z q

  update_job-KeepsApprovals :
      (s : Option Subject) (k : Job) (now : ℕ) (j : JobRow)
      → KeepsApprovals (update_job env s k now j)
  unfolding update_job
  update_job-KeepsApprovals s k now j w v a e =
      let (r, found, e1) =
        one_or-split conflict (λ x. find (stored_at j (k.state_version - 1)) x.jobs) _ w v a e in
      ap (λ (x : World). x.approvals) (ok_pair e1).1

  insert_review-KeepsApprovals :
      (j : JobRow) (s : Option Subject) → KeepsApprovals (insert_review env j s)
  unfolding insert_review
  insert_review-KeepsApprovals j none w v a e = return-KeepsApprovals tt w v a e
  insert_review-KeepsApprovals j (some s) w v a e = ap (λ (x : World). x.approvals) (ok_pair e).1

  enqueue-KeepsApprovals : (j : JobRow) → KeepsApprovals (enqueue env j)
  unfolding enqueue
  enqueue-KeepsApprovals j =
      when-KeepsApprovals (needs_step env j) _
        (λ w v a e. ap (λ (x : World). x.approvals) (ok_pair e).1)

  change_at-KeepsApprovals :
      (j : JobRow) (target : JobState) (reason : Reason) (review : Option Subject)
      (proof : Option ApprovalProof) (now : ℕ)
      → KeepsApprovals (change_at env j target reason review proof now)
  unfolding change_at
  change_at-KeepsApprovals j target reason review proof now w v k e =
      let (s, fs, e1) = lift-split (parse_review env target review) _ w v k e in
      let (c, fc, e2) =
        lift-split (next_job env j (request_of env j target reason s now) proof) _ w v k e1 in
      let (same, e3) = reject_if-split (expiry_differs env s c) expiry_mismatch _ w v k e2 in
      let (a, w1, f1, e4) = >>=-split (reserve_review env j s) _ w v k e3 in
      let (l, w2, f2, e5) =
        >>=-split
          (change_events env (record j { state = c.state; state_version = c.state_version })
            j.state)
          _ w1 v k e4 in
      let (r, w3, f3, e6) = >>=-split (update_job env s c now l) _ w2 v k e5 in
      let (b, w4, f4, e7) = >>=-split (insert_review env r s) _ w3 v k e6 in
      let (d, w5, f5, e8) = >>=-split (enqueue env r) _ w4 v k e7 in
      return-KeepsApprovals r w5 v k e8
      ∙ enqueue-KeepsApprovals r w4 w5 d f5
      ∙ insert_review-KeepsApprovals r s w3 w4 b f4
      ∙ update_job-KeepsApprovals s c now l w2 w3 r f3
      ∙ change_events-KeepsApprovals (record j { state = c.state; state_version = c.state_version })
          j.state w1 w2 l f2
      ∙ reserve_review-KeepsApprovals j s w w1 a f1

  pub change_state-KeepsApprovals :
      (j : JobRow) (target : JobState) (reason : Reason) (review : Option Subject)
      (proof : Option ApprovalProof) (at : Option ℕ)
      → KeepsApprovals (change_state env j target reason review proof at)
  unfolding change_state
  change_state-KeepsApprovals j target reason review proof (some at) w v k e =
      change_at-KeepsApprovals j target reason review proof at w v k e
  change_state-KeepsApprovals j target reason review proof none w v k e =
      change_at-KeepsApprovals j target reason review proof (env.clock w.reads)
        (record w { reads = w.reads + 1 }) v k e

pub release_reservation-KeepsApprovals : (j : JobRow) → KeepsApprovals (release_reservation j)
unfolding release_reservation
release_reservation-KeepsApprovals j w v a e =
    let (r, found, e1) =
      one_or-split not_found (λ x. find (reservation_of j.id) x.reservations) _ w v a e in
    let (enough, e2) =
      reject_if-split (is_short j r (unspent r (liability_of j.id w.attempts)) w) unsafe_integer _ w
        v a e1 in
    ap (λ (x : World). x.approvals) (ok_pair e2).1
