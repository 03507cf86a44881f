-- ===== src/Control/Service/Events.antt =====
-- engine/control/service.ts, events: the events of a job behind a cursor.
--
-- `spelled` is the text of an identifier and `is_uuid` zod's schema of it. The schema of an event is
-- carried by the type of its payload.
use forge_ai.Prelude.{
  ℕ, ◌+◌, ◌-◌, Bool, ◌&&◌, Option, none, some, List, [], ◌∷◌, leb, ltb, ◌==◌, if◌then◌else◌, keep,
  find, take, min, max, Result, ok, err, event_cursor_expired, invalid_event_cursor,
}
use forge_ai.Contracts.Events.{parse_event_cursor}
use forge_ai.Jobs.{is_terminal}
use forge_ai.Control.Tables.{JobRow, EventRow}
use forge_ai.Control.Tx.{Environment, Tx, ◌>>=◌, ◌>>◌, return, reject_if, one, lift, read, clock}
use forge_ai.Control.State.{job_is}
use forge_ai.Control.Service.Pages.{in_order}

pub record EventPage : Type 0 where
  pub events : List EventRow
  pub terminal : Bool
  pub latest_seq : ℕ
  pub earliest_seq : ℕ

-- The `try` around `parseEventCursor`.
abbrev pub or_invalid : Result ℕ → Result ℕ
or_invalid (ok n) = ok n
or_invalid (err e) = err invalid_event_cursor

-- `cursor ? parseEventCursor(…) : 0`
abbrev pub cursor_seq : (List ℕ → Bool) → Option (List ℕ) → List ℕ → ℕ → Result ℕ
cursor_seq is_uuid none job latest = ok 0
cursor_seq is_uuid (some []) job latest = ok 0
cursor_seq is_uuid (some (c ∷ s)) job latest =
    or_invalid (parse_event_cursor is_uuid (c ∷ s) job latest)

abbrev least : ℕ → Option ℕ → Option ℕ
least n none = some n
least n (some m) = some (min n m)

-- `min(seq)` of the events that are kept: those of the last thirty days.
abbrev pub retained : ℕ → ℕ → List EventRow → Option ℕ
retained id now [] = none
retained id now (e ∷ es) =
    let rest = retained id now es in
    if e.job_id == id && leb now (e.created_at + 2592000000) then least e.seq rest else rest

abbrev pub earliest_of : JobRow → Option ℕ → ℕ
earliest_of j none = max j.earliest_event_seq j.next_event_seq
earliest_of j (some n) = max j.earliest_event_seq n

abbrev pub seq_of : EventRow → ℕ
seq_of e = e.seq

-- `WHERE job_id=$1 AND seq>$2 ORDER BY seq LIMIT 100`
unfoldable pub events_after : ℕ → ℕ → List EventRow → List EventRow
events_after id seq es =
    take 100 (keep (λ (e : EventRow). e.job_id == id && ltb seq e.seq) (in_order seq_of es))

unfoldable pub events :
    Environment → (List ℕ → Bool) → (ℕ → List ℕ) → ℕ → Option (List ℕ) → Tx EventPage
unfolding events_after
events env is_uuid spelled id cursor = do
  j ← one (λ w. find (job_is id) w.jobs)
  seq ← lift (cursor_seq is_uuid cursor (spelled id) (j.next_event_seq - 1))
  now ← clock env
  kept ← read (λ w. retained id now w.events)
  reject_if (ltb seq (earliest_of j kept - 1)) event_cursor_expired
  rows ← read (λ w. events_after id seq w.events)
  return (record {
    events = rows;
    terminal = is_terminal j.state;
    latest_seq = j.next_event_seq - 1;
    earliest_seq = earliest_of j kept;
  })
