-- ===== src/Control/State/Target.antt =====
-- engine/control/state.ts, changeState: the row that comes back has the state that was asked for.
use forge_ai.Prelude.{ℕ, ◌-◌, ◌≡◌, ap, ◌∙◌, Option, some, ok, find, conflict}
use forge_ai.Contracts.Review.{Subject}
use forge_ai.Jobs.{Job, JobState, Reason, ApprovalProof}
use forge_ai.Jobs.Outcomes.{transition_job-Advances}
use forge_ai.Control.Tables.{World, JobRow}
use forge_ai.Control.Tx.{Environment, one_or-split, ok_pair}
use forge_ai.Control.State.{
  stored_at, logical_fields, request_of, write_row, update_job, change_state,
}
use forge_ai.Control.State.Change.{change_at-Stored}

update_job-state :
    (env : Environment) (s : Option Subject) (c : Job) (now : ℕ) (j k : JobRow) (w v : World)
    → update_job env s c now j w ≡ ok (k, v)
    → k.state ≡ c.state
unfolding update_job write_row
update_job-state env s c now j k w v e =
    let (r, found, e1) =
      one_or-split conflict (λ x. find (stored_at j (c.state_version - 1)) x.jobs) _ w v k e in
    ap (λ (x : JobRow). x.state) (ok_pair e1).0

pub change_state-target :
    (env : Environment) (j k : JobRow) (target : JobState) (reason : Reason)
    (review : Option Subject) (proof : Option ApprovalProof) (at : ℕ) (w v : World)
    → change_state env j target reason review proof (some at) w ≡ ok (k, v)
    → k.state ≡ target
unfolding change_state request_of logical_fields
change_state-target env j k target reason review proof at w v e =
    let d = change_at-Stored env j target reason review proof at w v k e in
    let (x, y, jobs, up) = d.found in
    let (a, schema, later) =
      transition_job-Advances env.hashing (logical_fields j) _ _ d.changed d.accepted in
    ap (λ (r : JobRow). r.state) d.returned
    ∙ update_job-state env d.subject d.changed at d.logged d.row x y up
    ∙ a.state
