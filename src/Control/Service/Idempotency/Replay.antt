-- ===== src/Control/Service/Idempotency/Replay.antt =====
-- engine/control/service.ts, idempotent: the second answer to a request.
use mathlib.Core.Path.{subst}
use forge_ai.Prelude.{
  inl, inr, ℕ, ◌+◌, ◌≡◌, refl, sym, ap, ◌∙◌, arith, Bool, true, false, not, Option, none, some,
  List, [], ◌∷◌, ◌++◌, Result, ok, err, keep, find, if◌then◌else◌, ◌==◌, ◌!=◌, Bool-cases,
  Option-cases, same_text_iff, invalid, idempotency_conflict, not-false,
}
use forge_ai.Control.Tables.{World, Response, RecordRow, Route}
use forge_ai.Control.Tx.{
  Environment, Tx, ◌>>◌, return, reject_if, reject_if-split, >>=-split, ok_pair,
}
use forge_ai.Control.Service.Idempotency.{
  key_schema, record_is, is_live, record_for, run_recorded, answer, idempotent,
}

-- The record that a response left.
pub record Recorded (workspace actor : ℕ) (route : Route) (key : List ℕ) (digest : ℕ) (r : Response)
    (v : World) : Type 0 where
  pub row : RecordRow
  pub found : find (record_is workspace actor route key) v.records ≡ some row
  pub response : row.response ≡ r
  pub digest_kept : row.request_digest ≡ digest
  pub key_ok : key_schema key ≡ true

find-keep : {A : Type 0} (p : A → Bool) (xs : List A) → find p (keep (λ x. not (p x)) xs) ≡ none
find-keep p [] = refl
find-keep p (x ∷ xs) = elim (Bool-cases (p x)) [
  | inl h ↦ rw h (find-keep p xs)
  | inr h ↦ rw h (rw h (find-keep p xs))
]

find-append_last :
    {A : Type 0} (p : A → Bool) (xs : List A) (x : A)
    → find p xs ≡ none
    → p x ≡ true
    → find p (xs ++ x ∷ []) ≡ some x
find-append_last p [] x h t = rw t refl
find-append_last p (y ∷ ys) x h t = elim (Bool-cases (p y)) [
  | inl a ↦ absurd (ground (arith, rw a at h))
  | inr a ↦ rw a (find-append_last p ys x (rw a at h) t)
]

record_for-is :
    (env : Environment) (workspace actor : ℕ) (route : Route) (key : List ℕ) (digest : ℕ)
    (r : Response)
    → record_is workspace actor route key (record_for env workspace actor route key digest r) ≡ true
unfolding record_is
record_for-is env workspace actor route key digest r = ground (arith, same_text_iff key key)

module _ (env : Environment) (workspace actor : ℕ) (route : Route) (key : List ℕ) where
  -- A response that is recorded where no other record of the request is left.
  stored :
      (digest : ℕ) (r result : Response) (u v : World) (xs : List RecordRow)
      → key_schema key ≡ true
      → u.records ≡ xs
      → find (record_is workspace actor route key) xs ≡ none
      → ◌≡◌ {A = Result (Response × World)}
          (ok (
            result,
            record u {
              records = u.records ++ record_for env workspace actor route key digest result ∷ [];
            },
          ))
          (ok (r, v))
      → Recorded workspace actor route key digest r v
  stored digest r result u v xs sound same missing e =
      let new = record_for env workspace actor route key digest result in
      let (a, b) = ok_pair {a = result} {w = record u { records = u.records ++ new ∷ [] }} e in
      record {
        row = new;
        found =
            ap (λ (x : World). find (record_is workspace actor route key) x.records) b
            ∙ ap (λ ys. find (record_is workspace actor route key) (ys ++ new ∷ [])) same
            ∙ find-append_last (record_is workspace actor route key) xs new missing
                (record_for-is env workspace actor route key digest result);
        response = sym a;
        digest_kept = refl;
        key_ok = sound;
      }

  run_recorded-Recorded :
      (digest : ℕ) (action : Tx Response) (prior : Option RecordRow) (w v : World) (r : Response)
      → ((x y : World) (a : Response) → action x ≡ ok (a, y) → y.records ≡ x.records)
      → key_schema key ≡ true
      → find (record_is workspace actor route key) w.records ≡ prior
      → run_recorded env workspace actor route key digest action prior w ≡ ok (r, v)
      → Recorded workspace actor route key digest r v
  unfolding run_recorded
  run_recorded-Recorded digest action none w v r keeps sound none_left e =
      let (result, u, ran, e1) = >>=-split action _ w v r e in
      stored digest r result u v w.records sound (keeps w u result ran) none_left e1
  run_recorded-Recorded digest action (some x) w v r keeps sound old e =
      let left = keep (λ y. not (record_is workspace actor route key y)) w.records in
      let (result, u, ran, e1) = >>=-split action _ (record w { records = left }) v r e in
      stored digest r result u v left sound (keeps (record w { records = left }) u result ran)
        (find-keep (record_is workspace actor route key) w.records) e1

  same_digest : (a b : ℕ) → (a != b) ≡ false → a ≡ b
  same_digest a b e = ground (arith, e)

  -- A response has a record of its request when it is given.
  pub idempotent-Recorded :
      (digest : ℕ) (action : Tx Response) (w v : World) (r : Response)
      → ((x y : World) (a : Response) → action x ≡ ok (a, y) → y.records ≡ x.records)
      → idempotent env workspace actor route key digest action w ≡ ok (r, v)
      → Recorded workspace actor route key digest r v
  unfolding idempotent answer
  idempotent-Recorded digest action w v r keeps e =
      let now = env.clock w.reads in
      let u = record w { reads = w.reads + 1 } in
      let (sound, e1) = reject_if-split (not (key_schema key)) invalid _ w v r e in
      let good = not-false (key_schema key) sound in
      elim (Option-cases (find (record_is workspace actor route key) w.records)) [
        | inl f ↦ run_recorded-Recorded digest action none u v r keeps good f (
            subst
              (λ (o : Option RecordRow).
                answer env workspace actor route key digest action o now u ≡ ok (r, v))
              f e1)
        | inr (x, f) ↦
            let e2 =
              subst
                (λ (o : Option RecordRow).
                  answer env workspace actor route key digest action o now u ≡ ok (r, v))
                f e1 in
            elim (Bool-cases (is_live (some x) now)) [
              | inl live ↦
                  let e3 =
                    subst
                      (λ (b : Bool).
                        (if b
                            then reject_if (x.request_digest != digest) idempotency_conflict
                              >> return x.response
                            else run_recorded env workspace actor route key digest action (some x))
                          u
                        ≡ ok (r, v))
                      live e2 in
                  let (same, e4) =
                    reject_if-split (x.request_digest != digest) idempotency_conflict
                      (return x.response) u v r e3 in
                  let (a, b) = ok_pair {a = x.response} {w = u} e4 in
                  record {
                    row = x;
                    found =
                        ap (λ (y : World). find (record_is workspace actor route key) y.records) b
                        ∙ f;
                    response = sym a;
                    digest_kept = same_digest x.request_digest digest same;
                    key_ok = good;
                  }
              | inr dead ↦ run_recorded-Recorded digest action (some x) u v r keeps good f (
                  subst
                    (λ (b : Bool).
                      (if b
                          then reject_if (x.request_digest != digest) idempotency_conflict
                            >> return x.response
                          else run_recorded env workspace actor route key digest action (some x))
                        u
                      ≡ ok (r, v))
                    dead e2)
            ]
      ]

equal_tests : (a b : ℕ) → (b == a) ≡ true → (a != b) ≡ false
equal_tests a b e = ground (arith, e)

other_tests : (a b : ℕ) → (b == a) ≡ false → (a != b) ≡ true
other_tests a b e = ground (arith, e)

-- A live record answers: the response that it holds, or the conflict.
answer-live :
    (env : Environment) (workspace actor : ℕ) (route : Route) (key : List ℕ) (digest digest' : ℕ)
    (action : Tx Response) (x : RecordRow) (now : ℕ) (u : World) (r : Response)
    → x.request_digest ≡ digest
    → x.response ≡ r
    → is_live (some x) now ≡ true
    → answer env workspace actor route key digest' action (some x) now u
      ≡ (if digest' == digest then ok (r, u) else err idempotency_conflict)
unfolding answer
answer-live env workspace actor route key digest digest' action x now u r same given live =
    rw live (
      rw given (
        rw same (elim (Bool-cases (digest' == digest)) [
          | inl h ↦ rw h (rw (equal_tests digest digest' h) refl)
          | inr h ↦ rw h (rw (other_tests digest digest' h) refl)
        ])))

-- A request whose key was answered before, and whose record is still there and live, runs nothing,
-- whatever its action is: with the same digest it gets the same response, and with another one
-- the conflict. The action of the first request must leave the records alone.
pub idempotent-again :
    (env : Environment) (workspace actor : ℕ) (route : Route) (key : List ℕ) (digest digest' : ℕ)
    (action action' : Tx Response) (w v u : World) (r : Response)
    → ((x y : World) (a : Response) → action x ≡ ok (a, y) → y.records ≡ x.records)
    → idempotent env workspace actor route key digest action w ≡ ok (r, v)
    → u.records ≡ v.records
    → is_live (find (record_is workspace actor route key) u.records) (env.clock u.reads) ≡ true
    → idempotent env workspace actor route key digest' action' u ≡ (
        if digest' == digest
        then ok (r, record u { reads = u.reads + 1 })
        else err idempotency_conflict)
unfolding idempotent answer
idempotent-again env workspace actor route key digest digest' action action' w v u r keeps e same
      live =
    let d = idempotent-Recorded env workspace actor route key digest action w v r keeps e in
    let f = ap (λ xs. find (record_is workspace actor route key) xs) same ∙ d.found in
    rw d.key_ok (
      subst
        (λ (o : Option RecordRow).
          answer env workspace actor route key digest' action' o (env.clock u.reads)
            (record u { reads = u.reads + 1 })
          ≡ (if digest' == digest
              then ok (r, record u { reads = u.reads + 1 })
              else err idempotency_conflict))
        (sym f)
        (answer-live env workspace actor route key digest digest' action' d.row (env.clock u.reads)
          (record u { reads = u.reads + 1 }) r d.digest_kept d.response
          (subst (λ (o : Option RecordRow). is_live o (env.clock u.reads) ≡ true) f live)))
