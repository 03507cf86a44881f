-- ===== src/Control/State/Frames.antt =====
-- engine/control/state.ts: the steps of changeState that leave the table of jobs alone.
use forge_ai.Prelude.{
  ◌+◌, ◌≡◌, ap, ◌∙◌, Bool, true, false, Option, none, some, ok, if◌then◌else◌, invalid, not,
  capacity_unavailable, leb,
}
use forge_ai.Contracts.Review.{Subject}
use forge_ai.Jobs.{JobState, is_terminal}
use forge_ai.Control.Tables.{World, JobRow, job_state, job_terminal, EventData}
use forge_ai.Control.Tx.{
  Environment, return, one, reject_if, Ensures, Any, >>=-Ensures, return-Ensures, one-Ensures,
  reject_if-Ensures, ok_pair,
}
use forge_ai.Control.State.{
  put_event, event_ok, next_event, quota_of, pending_reviews, reserve_review, change_events,
  append_event, terminal_code,
}

append_event-Ensures :
    (env : Environment) (j : JobRow) (d : EventData)
    → Ensures (λ (k : JobRow). k.id ≡ j.id) (append_event env j d)
unfolding append_event
append_event-Ensures env j d w v k e =
    >>=-Ensures (λ (k : JobRow). k.id ≡ j.id) Any (reject_if (not (event_ok j)) invalid)
      (λ _ (x : World). ok (next_event j, put_event j d (env.clock w.reads) env.begun x))
      (reject_if-Ensures (not (event_ok j)) invalid)
      (λ _ _ x u l q.
        let (a, b) =
          ok_pair {a = next_event j} {w = put_event j d (env.clock w.reads) env.begun x} q in
        (ap (λ (y : World). y.jobs) b, ap (λ (y : JobRow). y.id) a))
      (record w { reads = w.reads + 1 }) v k e

pub change_events-Ensures :
    (env : Environment) (j : JobRow) (previous : JobState)
    → Ensures (λ (k : JobRow). k.id ≡ j.id) (change_events env j previous)
unfolding change_events
change_events-Ensures env j previous =
    >>=-Ensures (λ (k : JobRow). k.id ≡ j.id) (λ (k : JobRow). k.id ≡ j.id)
      (append_event env j (job_state previous j.state))
      (λ (k : JobRow).
        if is_terminal j.state
        then append_event env k (job_terminal j.state (terminal_code j.state))
        else return k)
      (append_event-Ensures env j (job_state previous j.state))
      (λ k same. finish k (is_terminal j.state) same)
  where
    finish :
        (k : JobRow) (b : Bool)
        → k.id ≡ j.id
        → Ensures
            (λ (l : JobRow). l.id ≡ j.id)
            (if b
              then append_event env k (job_terminal j.state (terminal_code j.state))
              else return k)
    finish k true same = λ w v l e.
        let (x, y) =
          append_event-Ensures env k (job_terminal j.state (terminal_code j.state)) w v l e in
        (x, y ∙ same)
    finish k false same = return-Ensures (λ (l : JobRow). l.id ≡ j.id) k same

pub reserve_review-Ensures :
    (env : Environment) (j : JobRow) (s : Option Subject) → Ensures Any (reserve_review env j s)
unfolding reserve_review
reserve_review-Ensures env j none = return-Ensures Any tt tt
reserve_review-Ensures env j (some s) =
    >>=-Ensures Any Any (one (quota_of env j))
      (λ _ (w : World).
        reject_if (leb w.settings.max_pending_reviews (pending_reviews env j w))
          capacity_unavailable w)
      (one-Ensures (quota_of env j))
      (λ _ _ w v u e.
        reject_if-Ensures (leb w.settings.max_pending_reviews (pending_reviews env j w))
          capacity_unavailable w v u e)
