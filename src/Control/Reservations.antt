-- ===== src/Control/Reservations.antt =====
-- engine/control/state.ts, releaseReservation: the rest of a reservation goes back to its quota.
pub mod Released
use forge_ai.Prelude.{
  ℕ, ◌+◌, ◌-◌, Bool, ◌&&◌, List, ltb, ◌==◌, if◌then◌else◌, keep, find, update, count, total, any,
  unsafe_integer,
}
use forge_ai.Control.Tables.{
  World, JobRow, QuotaRow, ReservationRow, AttemptRow, is_liability, ReservationStatus,
}
use forge_ai.Control.Tx.{Tx, ◌>>=◌, ◌>>◌, reject_if, one, read, write}

-- The unspent rest of a reservation that no open provider attempt may still charge.
unfoldable pub unspent : ReservationRow → ℕ → ℕ
unspent r liability = r.reserved_micros - r.settled_micros - r.released_micros - liability

unfoldable pub liability_of : ℕ → List AttemptRow → ℕ
liability_of job attempts =
    total (λ (a : AttemptRow). a.maximum_micros)
      (keep (λ (a : AttemptRow). a.job_id == job && is_liability a.state) attempts)

abbrev pub in_period : JobRow → ReservationRow → QuotaRow → Bool
in_period j r q = q.workspace_id == j.workspace_id && q.period_start == r.period_start

abbrev pub reservation_of : ℕ → ReservationRow → Bool
reservation_of job x = x.job_id == job

-- The open attempts of the job, `count(*)`
abbrev pub pending_of : ℕ → List AttemptRow → ℕ
pending_of job attempts =
    count (λ (a : AttemptRow). a.job_id == job && is_liability a.state) attempts

abbrev pub take_back : ℕ → QuotaRow → QuotaRow
take_back amount q = record q { reserved_micros = q.reserved_micros - amount }

abbrev pub release_row : ℕ → ℕ → ReservationRow → ReservationRow
release_row amount pending x = record x {
  released_micros = x.released_micros + amount;
  status = if ltb 0 pending then ReservationStatus.uncertain else ReservationStatus.settled;
}

-- The two statements of the release.
abbrev pub release_rows : JobRow → ReservationRow → ℕ → ℕ → World → World
release_rows j r amount pending w = record w {
  quotas = update (in_period j r) (take_back amount) w.quotas;
  reservations = update (reservation_of j.id) (release_row amount pending) w.reservations;
}

-- A quota of the reservation's period holds less than the amount.
abbrev pub is_short : JobRow → ReservationRow → ℕ → World → Bool
is_short j r amount w = any (λ q. in_period j r q && ltb q.reserved_micros amount) w.quotas

-- `releaseReservation`: the rest goes back to the quota of the reservation's period. A
-- quota that would fall below zero is refused by its domain.
unfoldable pub release_reservation : JobRow → Tx (Unit {0})
unfolding unspent liability_of
release_reservation j = do
  r ← one (λ w. find (reservation_of j.id) w.reservations)
  liability ← read (λ w. liability_of j.id w.attempts)
  pending ← read (λ w. pending_of j.id w.attempts)
  short ← read (is_short j r (unspent r liability))
  reject_if short unsafe_integer
  write (release_rows j r (unspent r liability) pending)
