-- ===== src/Control/State/Change.antt =====
-- engine/control/state.ts, changeState: a change of the row is an accepted request of the reducer.
use forge_ai.Prelude.{
  ℕ, ◌+◌, ◌-◌, ◌≡◌, refl, ap, sym, ◌∙◌, List, Option, none, some, arith, find, ok, err, Bool-cases,
  inl, inr, Result, expiry_mismatch, conflict, conflict, conflict,
}
use forge_ai.Contracts.Primitives.{iso}
use forge_ai.Contracts.Review.{Subject}
use forge_ai.Jobs.{
  JobState, Job, Reason, Transition, ApprovalProof, transition_job, apply_transition, job_schema,
}
use forge_ai.Jobs.Outcomes.{transition_job-Accepted}
use forge_ai.Control.Tables.{World, JobRow}
use forge_ai.Control.State.Frames.{change_events-Ensures, reserve_review-Ensures}
use forge_ai.Control.State.Columns.{write_row-logical}
use forge_ai.Control.Tx.{
  Environment, >>=-split, lift, reject_if, reject_if-Ensures, ok_pair, >>=-ok, one_or, one_or-some,
}
use forge_ai.Control.State.{
  change_state, change_at, logical_fields, request_of, next_job, at_now, write_row, update_job,
  insert_review, enqueue, expiry_differs, stored_at, reserve_review, change_events, parse_review,
}

lift-inv :
    {A : Type 0} (r : Result A) (w v : World) (a : A) → lift r w ≡ ok (a, v) → (r ≡ ok a) × (v ≡ w)
lift-inv (ok b) w v a e = ground (arith, e)
lift-inv (err x) w v a e = absurd (ground (arith, e))

update_job-row :
    (env : Environment) (s : Option Subject) (changed : Job) (now : ℕ) (j k r : JobRow)
    (w v : World)
    → find (stored_at j (changed.state_version - 1)) w.jobs ≡ some r
    → update_job env s changed now j w ≡ ok (k, v)
    → k ≡ write_row env s changed now j.next_event_seq r
unfolding update_job
update_job-row env s changed now j k r w v f e =
    let here = λ (x : World). find (stored_at j (changed.state_version - 1)) x.jobs in
    (ok_pair (sym (>>=-ok (one_or conflict here) _ w w r (one_or-some conflict here w r f)) ∙ e)).0

next_job-ok :
    (env : Environment) (j : JobRow) (t : Transition) (p : Option ApprovalProof) (k : Job)
    → next_job env j t p ≡ ok k
    → transition_job env.hashing (logical_fields j) t (at_now p t.now.instant) ≡ ok k
unfolding next_job
next_job-ok env j t p k e = elim (Bool-cases (job_schema (logical_fields j))) [
  | inl h ↦ rw h at e
  | inr h ↦ absurd (ground (arith, rw h at e))
]

-- What a change has done when it succeeds: the reducer accepted the request, and its result is stored
-- over the row that was found.
pub record Stored (env : Environment) (j : JobRow) (target : JobState) (reason : Reason)
    (proof : Option ApprovalProof) (now : ℕ) (w : World) (k : JobRow) : Type 0 where
  pub subject : Option Subject
  pub changed : Job
  pub logged : JobRow
  pub row : JobRow
  pub returned : k ≡ row
  pub same_id : logged.id ≡ j.id
  pub accepted :
      transition_job env.hashing
        (logical_fields j)
        (request_of env j target reason subject now)
        (at_now proof now)
      ≡ ok changed
  pub found :
      (u : World) × (v : World) × (u.jobs ≡ w.jobs)
      × (update_job env subject changed now logged u ≡ ok (row, v))

pub change_at-Stored :
    (env : Environment) (j : JobRow) (target : JobState) (reason : Reason) (review : Option Subject)
    (proof : Option ApprovalProof) (now : ℕ) (w v : World) (k : JobRow)
    → change_at env j target reason review proof now w ≡ ok (k, v)
    → Stored env j target reason proof now w k
unfolding change_at request_of
change_at-Stored env j target reason review proof now w v k e =
    let (s, w1, p1, e1) = >>=-split (lift (parse_review env target review)) _ w v k e in
    let (c, w2, p2, e2) =
      >>=-split (lift (next_job env j (request_of env j target reason s now) proof)) _ w1 v k e1 in
    let (a3, w3, p3, e3) =
      >>=-split (reject_if (expiry_differs env s c) expiry_mismatch) _ w2 v k e2 in
    let (a4, w4, p4, e4) = >>=-split (reserve_review env j s) _ w3 v k e3 in
    let moved = record j { state = c.state; state_version = c.state_version } in
    let (l, w5, p5, e5) = >>=-split (change_events env moved j.state) _ w4 v k e4 in
    let (stored, w6, p6, e6) = >>=-split (update_job env s c now l) _ w5 v k e5 in
    let (a7, w7, p7, e7) = >>=-split (insert_review env stored s) _ w6 v k e6 in
    let (a8, w8, p8, e8) = >>=-split (enqueue env stored) _ w7 v k e7 in
    let (q1, same1) = lift-inv (parse_review env target review) w w1 s p1 in
    let (q2, same2) = lift-inv _ w1 w2 c p2 in
    let (jobs3, _) = reject_if-Ensures (expiry_differs env s c) expiry_mismatch w2 w3 a3 p3 in
    let (jobs4, _) = reserve_review-Ensures env j s w3 w4 a4 p4 in
    let (jobs5, id) = change_events-Ensures env moved j.state w4 w5 l p5 in
    record {
      subject = s;
      changed = c;
      logged = l;
      row = stored;
      returned = (ok_pair e8).0;
      same_id = id;
      accepted = next_job-ok env j (request_of env j target reason s now) proof c q2;
      found = (w5, w6, jobs5 ∙ jobs4 ∙ jobs3 ∙ ap (λ (x : World). x.jobs) (same2 ∙ same1), p6);
    }

-- What a change comes to: an accepted request of the reducer, and the row that is its durable form.
pub record Reduces (env : Environment) (j : JobRow) (target : JobState) (reason : Reason)
    (k : JobRow) : Type 0 where
  pub request : Transition
  pub proof : Option ApprovalProof
  pub aims : request.target ≡ target
  pub because : request.reason ≡ reason
  pub version : request.expected_state_version ≡ j.state_version
  pub accepted : transition_job env.hashing (logical_fields j) request proof ≡ ok (logical_fields k)

found_row :
    (l j r : JobRow) (n : ℕ) (us ws : List JobRow)
    → l.id ≡ j.id
    → n ≡ j.state_version
    → us ≡ ws
    → find (stored_at j j.state_version) ws ≡ some r
    → find (stored_at l n) us ≡ some r
found_row l j r n us ws a b c f = rw (a, b, c) f

written :
    (env : Environment) (s : Option Subject) (j r : JobRow) (t : Transition) (c : Job) (now n : ℕ)
    → t.now ≡ iso now
    → logical_fields r ≡ logical_fields j
    → c ≡ apply_transition (logical_fields j) t
    → logical_fields (write_row env s c now n r) ≡ c
written env s j r t c now n at same e =
    let back : c ≡ apply_transition (logical_fields r) t =
      e ∙ ap (λ (x : Job). apply_transition x t) (sym same) in
    ap (λ (x : Job). logical_fields (write_row env s x now n r)) back
    ∙ write_row-logical env s r t now n at
    ∙ sym back

next_version : (n m : ℕ) → n ≡ m + 1 → n - 1 ≡ m
next_version n m e = omega (arith, e)

row_after :
    (env : Environment) (j r k : JobRow) (target : JobState) (reason : Reason)
    (proof : Option ApprovalProof) (now : ℕ) (w : World)
    (d : Stored env j target reason proof now w k)
    → find (stored_at j j.state_version) w.jobs ≡ some r
    → logical_fields r ≡ logical_fields j
    → logical_fields k ≡ d.changed
unfolding request_of logical_fields apply_transition
row_after env j r k target reason proof now w d f same =
    let t = request_of env j target reason d.subject now in
    let a =
      (transition_job-Accepted env.hashing (logical_fields j) t (at_now proof now) d.changed
        d.accepted).0 in
    let (u, v, jobs, up) = d.found in
    let from =
      found_row d.logged j r (d.changed.state_version - 1) u.jobs w.jobs d.same_id
        (next_version d.changed.state_version j.state_version
          (ap (λ (x : Job). x.state_version) a.result))
        jobs f in
    ap logical_fields
      (d.returned ∙ update_job-row env d.subject d.changed now d.logged d.row r u v from up)
    ∙ written env d.subject j r t d.changed now d.logged.next_event_seq refl same a.result

-- A change of state that succeeds is an accepted request of the reducer, at the row's version and to
-- the target and for the reason of the call, where the stored row of the job is, in its logical
-- columns, the row that the caller holds; and the logical job of the row returned is exactly
-- the reducer's result.
pub change_state-Reduces :
    (env : Environment) (j r k : JobRow) (target : JobState) (reason : Reason)
    (review : Option Subject) (proof : Option ApprovalProof) (at : Option ℕ) (w v : World)
    → find (stored_at j j.state_version) w.jobs ≡ some r
    → logical_fields r ≡ logical_fields j
    → change_state env j target reason review proof at w ≡ ok (k, v)
    → Reduces env j target reason k
unfolding change_state request_of
change_state-Reduces env j r k target reason review proof at w v f same e = go at e
  where
    reduces :
        (now : ℕ) (x : World)
        → x.jobs ≡ w.jobs
        → change_at env j target reason review proof now x ≡ ok (k, v)
        → Reduces env j target reason k
    reduces now x jobs q =
        let d = change_at-Stored env j target reason review proof now x v k q in
        let row = row_after env j r k target reason proof now x d (rw jobs f) same in
        record {
          request = request_of env j target reason d.subject now;
          proof = at_now proof now;
          aims = refl;
          because = refl;
          version = refl;
          accepted = d.accepted ∙ ap ok (sym row);
        }

    go :
        (o : Option ℕ)
        → change_state env j target reason review proof o w ≡ ok (k, v)
        → Reduces env j target reason k
    go (some now) q = reduces now w refl q
    go none q = reduces (env.clock w.reads) (record w { reads = w.reads + 1 }) refl q
