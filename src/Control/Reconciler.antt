-- ===== src/Control/Reconciler.antt =====
-- engine/control/reconciler.ts: the operator's settlement of an uncertain provider attempt.
--
-- The checks of the tables (a quota and a reservation never fall short) are the guards that the
-- statements below carry.
pub mod Resolution
pub mod Rounds
use forge_ai.Prelude.{
  ℕ, ◌+◌, ◌-◌, Bool, ◌&&◌, ◌||◌, not, some, [], ◌∷◌, ◌++◌, ltb, ◌==◌, ◌!=◌, if◌then◌else◌, find,
  update, invalid_amount, not_terminal, resolution_conflict, unbounded_resolution, unsafe_integer,
}
use mathlib.Core.Option
use forge_ai.Contracts.Primitives.{uint}
use forge_ai.Jobs.{is_terminal}
use forge_ai.Control.Tables.{
  by_resolution, World, JobRow, AttemptRow, AttemptState, is_resolved, is_liability, ReservationRow,
  QuotaRow, liability_resolved,
}
use forge_ai.Control.Tx.{Environment, Tx, ◌>>=◌, ◌>>◌, reject_if, one, read, write}
use forge_ai.Control.State.{job_is, audit}
use forge_ai.Control.Reservations.{in_period, is_short, reservation_of, release_reservation}

abbrev pub attempt_is : ℕ → ℕ → AttemptRow → Bool
attempt_is operation job a = a.operation_id == operation && a.job_id == job

abbrev pub resolve_attempt : ℕ → AttemptRow → AttemptRow
resolve_attempt amount a = record a { state = AttemptState.resolved; amount_micros = some amount }

-- What the reservation held is spent.
abbrev pub spend : ℕ → QuotaRow → QuotaRow
spend amount q = record q {
  reserved_micros = q.reserved_micros - amount;
  spent_micros = q.spent_micros + amount;
}

abbrev pub settle : ℕ → ReservationRow → ReservationRow
settle amount r = record r { settled_micros = r.settled_micros + amount }

-- `settled_micros + released_micros <= reserved_micros`
abbrev pub overdrawn : ReservationRow → ℕ → Bool
overdrawn r amount = ltb r.reserved_micros (r.settled_micros + amount + r.released_micros)

-- The statements on the quota, the reservation, the attempt and the ledger.
abbrev pub resolve_rows : JobRow → ReservationRow → ℕ → ℕ → World → World
resolve_rows j r operation amount w = record w {
  quotas = update (in_period j r) (spend amount) w.quotas;
  reservations = update (reservation_of j.id) (settle amount) w.reservations;
  attempts = update (attempt_is operation j.id) (resolve_attempt amount) w.attempts;
  ledger =
      w.ledger
      ++ record {
        id = operation;
        dedupe_key = by_resolution operation;
        job_id = j.id;
        amount_micros = amount;
      }
        ∷ [];
}

-- The attempt cannot be settled at this amount.
abbrev pub unbounded : AttemptRow → ℕ → Bool
unbounded a amount = not (is_liability a.state) || ltb a.maximum_micros amount

-- `self` is the reconciler's own identifier.
module _ (env : Environment) (self : ℕ) where
  -- The part of `resolveUncertain` that settles an open attempt.
  unfoldable pub settle_attempt : JobRow → AttemptRow → ℕ → ℕ → Tx (Unit {0})
  settle_attempt j a operation amount = do
    reject_if (unbounded a amount) unbounded_resolution
    r ← one (λ w. find (reservation_of j.id) w.reservations)
    short ← read (is_short j r amount)
    reject_if short unsafe_integer
    reject_if (overdrawn r amount) unsafe_integer
    write (resolve_rows j r operation amount)
    audit env j.workspace_id j.id self liability_resolved
    release_reservation j

  -- What follows the two rows and the test of the job.
  unfoldable pub resolve_found : JobRow → AttemptRow → ℕ → ℕ → Tx (Unit {0})
  unfolding settle_attempt
  resolve_found j a operation amount =
      if is_resolved a.state
      then reject_if (Option.get_or a.amount_micros 0 != amount) resolution_conflict
      else settle_attempt j a operation amount

  unfoldable pub resolve_uncertain : ℕ → ℕ → ℕ → Tx (Unit {0})
  unfolding resolve_found
  resolve_uncertain job operation amount = do
    reject_if (not (uint amount)) invalid_amount
    j ← one (λ w. find (job_is job) w.jobs)
    a ← one (λ w. find (attempt_is operation job) w.attempts)
    reject_if (not (is_terminal j.state)) not_terminal
    resolve_found j a operation amount
