-- ===== src/Control/Reservations/Released.antt =====
-- engine/control/state.ts, releaseReservation: what goes back to the quota, and what stays reserved.
use Prim.Native.Nat.{min}
use forge_ai.Prelude.{
  not_found, ℕ, ◌+◌, ◌-◌, ◌≤◌, ◌≡◌, refl, ◌∙◌, Bool, false, ◌&&◌, ◌||◌, List, [], ◌∷◌, some, arith,
  find, find-update, any, ltb, ok, Bool-cases, inl, inr,
}
use forge_ai.Control.Tables.{World, JobRow, QuotaRow, ReservationRow}
use forge_ai.Control.Tx.{one, >>=-ok, one_or-some}
use forge_ai.Control.Reservations.{
  release_reservation, reservation_of, is_short, release_row, release_rows, take_back, pending_of,
  unspent, liability_of, in_period,
}

-- What a reservation still holds of the quota.
abbrev pub outstanding : ReservationRow → ℕ
outstanding r = r.reserved_micros - r.settled_micros - r.released_micros

any-find :
    {A : Type 0} (p s : A → Bool) (xs : List A) (x : A)
    → find p xs ≡ some x
    → any (λ y. p y && s y) xs ≡ false
    → s x ≡ false
any-find p s [] x e a = cc
any-find p s (y ∷ ys) x e a = elim (Bool-cases (p y)) [
  | inl h ↦ here (rw h at e) (rw h at a)
  | inr h ↦ any-find p s ys x (rw h at e) (rw h at a)
]
  where
    here : some y ≡ some x → (s y || any (λ z. p z && s z) ys) ≡ false → s x ≡ false
    here q b = ground (arith, q, b)

-- What a release leaves: the reservation keeps what the open attempts may still charge and no more,
-- and the quota loses exactly what the reservation gives up.
pub record Released (j : JobRow) (r : ReservationRow) (q : QuotaRow) (w w' : World) : Type 0 where
  pub reservation : ReservationRow
  pub quota : QuotaRow
  pub stored : find (reservation_of j.id) w'.reservations ≡ some reservation
  pub charged : find (in_period j r) w'.quotas ≡ some quota
  pub kept : outstanding reservation ≡ min (outstanding r) (liability_of j.id w.attempts)
  pub balanced : quota.reserved_micros + outstanding r ≡ q.reserved_micros + outstanding reservation
  pub spent : quota.spent_micros ≡ q.spent_micros

enough : (a b : ℕ) → ltb a b ≡ false → b ≤ a
enough a b e = ground arith

held_after : (o a b c l : ℕ) → o ≡ a - b - c → a - b - (c + (a - b - c - l)) ≡ min o l
held_after o a b c l e = ground (arith, e)

balance :
    (q a b c l : ℕ)
    → a - b - c - l ≤ q
    → q - (a - b - c - l) + (a - b - c) ≡ q + (a - b - (c + (a - b - c - l)))
balance q a b c l h = omega (arith, h)

-- Releasing the reservation of a job succeeds where there are a reservation and a quota of its period,
-- and no such quota holds less than what is released. The reservation then
-- holds the smaller of what it held and of what the job's open attempts may still charge, and the
-- quota's reserved amount falls by exactly what the reservation gave up; nothing is spent.
pub release_reservation-Released :
    (j : JobRow) (r : ReservationRow) (q : QuotaRow) (w : World)
    → find (reservation_of j.id) w.reservations ≡ some r
    → find (in_period j r) w.quotas ≡ some q
    → is_short j r (unspent r (liability_of j.id w.attempts)) w ≡ false
    → (w' : World) × (release_reservation j w ≡ ok (tt, w')) × Released j r q w w'
unfolding release_reservation unspent
release_reservation-Released j r q w f g e =
    let l = liability_of j.id w.attempts in
    let amount = unspent r l in
    let n = pending_of j.id w.attempts in
    (
      release_rows j r amount n w,
      >>=-ok (one (λ v. find (reservation_of j.id) v.reservations)) _ w w r
            (one_or-some not_found (λ v. find (reservation_of j.id) v.reservations) w r f)
          ∙ rw e refl,
      record {
        reservation = release_row amount n r;
        quota = take_back amount q;
        stored =
            find-update (reservation_of j.id) (release_row amount n) w.reservations r (λ y. refl) f;
        charged = find-update (in_period j r) (take_back amount) w.quotas q (λ y. refl) g;
        kept =
            held_after (outstanding r) r.reserved_micros r.settled_micros r.released_micros l refl;
        balanced =
            balance q.reserved_micros r.reserved_micros r.settled_micros r.released_micros l (
              enough q.reserved_micros amount (
                any-find (in_period j r) (λ (x : QuotaRow). ltb x.reserved_micros amount) w.quotas q
                  g e));
        spent = refl;
      },
    )
