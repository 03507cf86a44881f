-- ===== src/Contracts/Events/Tests.antt =====
-- engine/contracts/events.ts: the cursor of an event, printed and read.
use forge_ai.Prelude.{ℕ, ◌≡◌, ◌≤◌, refl, arith, true, ok, err, List, codes, invalid_event_cursor}
use forge_ai.Contracts.Primitives.{max_safe}
use forge_ai.Contracts.Events.{parse_event_cursor, checked_cursor, cursor_match, print_cursor}
use forge_ai.Contracts.Events.Cursor.{parse_event_cursor-print_cursor, parse_event_cursor-ok}

abbrev job : List ℕ
job = codes "018f4a3c-9c1b-7a2e-8d5f-0123456789ab"

leading_zero :
    parse_event_cursor (λ s. true) (codes "018f4a3c-9c1b-7a2e-8d5f-0123456789ab:042") job 99
    ≡ err invalid_event_cursor
unfolding parse_event_cursor checked_cursor cursor_match
leading_zero = refl

parse_event_cursor-print_cursor_example :
    parse_event_cursor (λ s. true) (print_cursor job 42) job 99 ≡ ok 42
parse_event_cursor-print_cursor_example =
    parse_event_cursor-print_cursor (λ s. true) job 42 99 refl refl refl (omega arith) (omega arith)
      (omega arith)

parse_event_cursor-ok_example :
    (codes "018f4a3c-9c1b-7a2e-8d5f-0123456789ab:42" ≡ print_cursor job 42)
    × (1 ≤ 42)
    × (42 ≤ 99)
    × (42 ≤ max_safe)
unfolding parse_event_cursor checked_cursor cursor_match
parse_event_cursor-ok_example =
    parse_event_cursor-ok (λ s. true) (codes "018f4a3c-9c1b-7a2e-8d5f-0123456789ab:42") job 99 42
      refl
