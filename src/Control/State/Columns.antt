-- ===== src/Control/State/Columns.antt =====
-- engine/control/state.ts: the columns that changeState writes read back as the logical job.
use forge_ai.Prelude.{ℕ, ◌≡◌, sym, Bool, ◌||◌, Option, none, some, arith, is_some, if◌then◌else◌}
use mathlib.Core.Option
use forge_ai.Contracts.Primitives.{iso, Timestamp}
use forge_ai.Contracts.Review.{Subject}
use forge_ai.Jobs.{
  JobState, Transition, apply_transition, is_terminal, is_review, cancelling, same_state,
}
use forge_ai.Control.Tables.{JobRow}
use forge_ai.Control.Tx.{Environment}
use forge_ai.Control.State.{logical_fields, iso_option, instant_of, is_cancelling, write_row}

expiry_back :
    (b : Bool) (x : ℕ)
    → iso_option (instant_of (if b then some (iso x) else none))
      ≡ (if b then some (iso x) else none)
expiry_back b x = ground arith

finish_back :
    (b : Bool) (t : Timestamp) (now : ℕ)
    → t ≡ iso now
    → iso_option (instant_of (if b then some t else none)) ≡ (if b then some t else none)
finish_back b t now e = ground (arith, e)

mark_back :
    (s : JobState) (c : Option ℕ) (now : ℕ)
    → is_some (if is_cancelling s then some (Option.get_or c now) else c)
      ≡ (is_some c || same_state s cancelling)
mark_back s c now = ground arith

-- The columns that are written read back as the reducer's result.
pub write_row-logical :
    (env : Environment) (s : Option Subject) (r : JobRow) (t : Transition) (now n : ℕ)
    → t.now ≡ iso now
    → logical_fields (write_row env s (apply_transition (logical_fields r) t) now n r)
      ≡ apply_transition (logical_fields r) t
unfolding write_row logical_fields apply_transition
write_row-logical env s r t now n e =
    let x = expiry_back (is_review t.target) _ in
    let f = finish_back (is_terminal t.target) t.now now e in
    let c = mark_back t.target r.cancel_requested_at now in
    λ i. record (apply_transition (logical_fields r) t) {
      updated_at = sym e i;
      review_expires_at = x i;
      finished_at = f i;
      cancel_requested = c i;
    }
