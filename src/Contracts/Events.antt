-- ===== src/Contracts/Events.antt =====
-- engine/contracts/events.ts, parseEventCursor: the cursor of an event stream.
--
-- The schema of a UUID is zod's, a parameter. `print_cursor` is the text that engine/control/http.ts
-- sends as the identifier of an event.
pub mod Cursor
mod Tests
use forge_ai.Prelude.{
  ℕ, zero, suc, ◌+◌, ◌-◌, ◌*◌, ◌/◌, ◌%◌, Bool, ◌&&◌, ◌||◌, not, Option, none, some, List, [], ◌∷◌,
  ◌++◌, ltb, ◌==◌, if◌then◌else◌, all, length, take, drop, in_range, is_digit, same_text, Result,
  err, ok, throw_if, invalid, ◌>>◌, invalid_event_cursor,
}
use forge_ai.Contracts.Primitives.{uint, max_safe}

-- `[a-f0-9-]`
abbrev pub cursor_char : ℕ → Bool
cursor_char c = in_range b'a' b'f' c || is_digit c || c == b'-'

-- `:([1-9][0-9]*)$`
abbrev pub digits_after : List ℕ → Option (List ℕ)
digits_after [] = none
digits_after (c ∷ []) = none
digits_after (c ∷ d ∷ s) =
    if c == b':' && in_range b'1' b'9' d && all is_digit s then some (d ∷ s) else none

-- The groups of the regular expression.
unfoldable pub cursor_match : List ℕ → Option (List ℕ × List ℕ)
cursor_match s =
    if length (take 36 s) == 36 && all cursor_char (take 36 s)
    then elim (digits_after (drop 36 s)) [ none ↦ none | some n ↦ some (take 36 s, n) ]
    else none

-- `Number(digits)`, behind the number `n`; exact where the result is a safe integer.
abbrev pub number : ℕ → List ℕ → ℕ
number n [] = n
number n (c ∷ s) = number (n * 10 + (c - b'0')) s

-- The tests on the groups.
unfoldable pub checked_cursor : Option (List ℕ × List ℕ) → List ℕ → ℕ → Result ℕ
checked_cursor none job latest = err invalid_event_cursor
checked_cursor (some (id, digits)) job latest =
    if not (same_text id job) || ltb max_safe (number 0 digits) || ltb latest (number 0 digits)
    then err invalid_event_cursor
    else ok (number 0 digits)

unfoldable pub parse_event_cursor : (List ℕ → Bool) → List ℕ → List ℕ → ℕ → Result ℕ
unfolding cursor_match checked_cursor
parse_event_cursor is_uuid cursor job latest = do
  throw_if (not (is_uuid job)) invalid
  throw_if (not (uint latest)) invalid
  checked_cursor (cursor_match cursor) job latest

-- The digits of a number before a text; `fuel` rounds, of which a number needs fewer than itself.
abbrev pub digits : ℕ → ℕ → List ℕ → List ℕ
digits zero n out = out
digits (suc fuel) n out =
    let rest = digits fuel (n / 10) ((b'0' + n % 10) ∷ out) in if n == 0 then out else rest

-- `${id}:${seq}`, for a positive number
unfoldable pub print_cursor : List ℕ → ℕ → List ℕ
print_cursor job seq = job ++ b':' ∷ digits seq seq []
