-- ===== src/Contracts/Events/Cursor.antt =====
-- engine/contracts/events.ts, parseEventCursor: a cursor is read back, and what is read is in bounds.
use mathlib.Core.Path.{subst}
use forge_ai.Prelude.{
  ℕ, zero, suc, ◌+◌, ◌-◌, ◌*◌, ◌/◌, ◌%◌, ◌≤◌, ◌<◌, ◌≡◌, refl, sym, ap, ◌∙◌, arith, inl, inr, Bool,
  true, false, ◌&&◌, not, Option, some, List, [], ◌∷◌, ◌++◌, leb, ltb, ◌==◌, if◌then◌else◌, all,
  throw_if_bind, invalid, length, take, drop, in_range, is_digit, same_text_iff, ok, Bool-cases,
  and_true, Option-cases,
}
use forge_ai.Contracts.Primitives.{uint, max_safe}
use forge_ai.Contracts.Events.{
  cursor_char, digits_after, cursor_match, number, checked_cursor, parse_event_cursor, digits,
  print_cursor,
}

number-digits : (fuel n : ℕ) (out : List ℕ) → n ≤ fuel → number 0 (digits fuel n out) ≡ number n out
number-digits zero n out h = ground arith
number-digits (suc fuel) n out h =
    ground (arith, number-digits fuel (n / 10) ((b'0' + n % 10) ∷ out))

ltb_lt : (a b : ℕ) → ltb a b ≡ true → a < b
ltb_lt a b e = ground (arith, e)

no_tens : (n : ℕ) → n < 10 → n / 10 ≡ 0
no_tens n h = omega arith

-- What the second group of the expression matches.
abbrev is_number : List ℕ → Bool
is_number [] = false
is_number (d ∷ s) = in_range b'1' b'9' d && all is_digit s

leb_holds : (a b : ℕ) → a ≤ b → leb a b ≡ true
leb_holds a b h = ground arith

ltb_fails : (a b : ℕ) → a ≤ b → ltb b a ≡ false
ltb_fails a b h = ground arith

digits_zero : (fuel : ℕ) (out : List ℕ) → digits fuel 0 out ≡ out
digits_zero zero out = refl
digits_zero (suc fuel) out = refl

-- A number of one digit.
is_number-last :
    (n : ℕ) (rest out : List ℕ)
    → 1 ≤ n
    → n < 10
    → rest ≡ (b'0' + n % 10) ∷ out
    → all is_digit out ≡ true
    → is_number (if n == 0 then out else rest) ≡ true
is_number-last n rest out p q e t = rw e (ground (arith, t))

digits-is_number :
    (fuel n : ℕ) (out : List ℕ)
    → n ≤ fuel
    → 1 ≤ n
    → all is_digit out ≡ true
    → is_number (digits fuel n out) ≡ true
digits-is_number zero n out h p t = absurd (omega arith)
digits-is_number (suc fuel) n out h p t = elim (Bool-cases (ltb n 10)) [
  | inl small ↦
      let d = b'0' + n % 10 in
      is_number-last n (digits fuel (n / 10) (d ∷ out)) out p (ltb_lt n 10 small)
        (ap (λ m. digits fuel m (d ∷ out)) (no_tens n (ltb_lt n 10 small))
          ∙ digits_zero fuel (d ∷ out))
        t
  | inr large ↦ ground (arith, digits-is_number fuel (n / 10) ((b'0' + n % 10) ∷ out))
]

digits_after-number : (s : List ℕ) → is_number s ≡ true → digits_after (b':' ∷ s) ≡ some s
digits_after-number [] h = ground arith
digits_after-number (d ∷ s) h = ground arith

take-append : (xs ys : List ℕ) (n : ℕ) → length xs ≡ n → take n (xs ++ ys) ≡ xs
take-append [] ys zero e = refl
take-append [] ys (suc n) e = absurd (omega (arith, e))
take-append (x ∷ xs) ys zero e = absurd (omega (arith, e))
take-append (x ∷ xs) ys (suc n) e = ap (λ zs. x ∷ zs) (take-append xs ys n (omega (arith, e)))

drop-append : (xs ys : List ℕ) (n : ℕ) → length xs ≡ n → drop n (xs ++ ys) ≡ ys
drop-append [] ys zero e = refl
drop-append [] ys (suc n) e = absurd (omega (arith, e))
drop-append (x ∷ xs) ys zero e = absurd (omega (arith, e))
drop-append (x ∷ xs) ys (suc n) e = drop-append xs ys n (omega (arith, e))

-- The groups of a printed cursor.
cursor_match-print :
    (job : List ℕ) (seq : ℕ)
    → length job ≡ 36
    → all cursor_char job ≡ true
    → 1 ≤ seq
    → cursor_match (print_cursor job seq) ≡ some (job, digits seq seq [])
unfolding cursor_match print_cursor
cursor_match-print job seq n c p =
    let s = digits seq seq [] in
    rw (take-append job (b':' ∷ s) 36 n) (
      rw (drop-append job (b':' ∷ s) 36 n) (
        rw (digits_after-number s (digits-is_number seq seq [] (omega arith) p refl))
          (rw (n, c) (ap (λ i. some (i, s)) (take-append job (b':' ∷ s) 36 n)))))

-- A cursor that is printed for an event is read back as the event's number: for a job whose
-- identifier is a UUID of 36 lower-case characters, and a positive number that is at most the
-- latest one, itself a safe integer.
pub parse_event_cursor-print_cursor :
    (is_uuid : List ℕ → Bool) (job : List ℕ) (seq latest : ℕ)
    → is_uuid job ≡ true
    → length job ≡ 36
    → all cursor_char job ≡ true
    → 1 ≤ seq
    → seq ≤ latest
    → latest ≤ max_safe
    → parse_event_cursor is_uuid (print_cursor job seq) job latest ≡ ok seq
unfolding parse_event_cursor checked_cursor
parse_event_cursor-print_cursor is_uuid job seq latest u n c p q r =
    rw (u, leb_holds latest max_safe r, cursor_match-print job seq n c p)
      (rw (number-digits seq seq [] (omega arith)) (
        rw
          (
            (same_text_iff job job).1 refl,
            ltb_fails seq max_safe (omega arith),
            ltb_fails seq latest q,
          )
          refl))

digits_fuel : (f g n : ℕ) (out : List ℕ) → n ≤ f → n ≤ g → digits f n out ≡ digits g n out
digits_fuel zero g n out p q =
    ap (λ m. digits 0 m out) (none_left n p)
    ∙ sym (digits_zero g out)
    ∙ ap (λ m. digits g m out) (sym (none_left n p))
  where
    none_left : (m : ℕ) → m ≤ 0 → m ≡ 0
    none_left m h = omega arith
digits_fuel (suc f) zero n out p q =
    ap (λ m. digits (suc f) m out) (none_left n q) ∙ ap (λ m. digits 0 m out) (sym (none_left n q))
  where
    none_left : (m : ℕ) → m ≤ 0 → m ≡ 0
    none_left m h = omega arith
digits_fuel (suc f) (suc g) n out p q =
    ground (arith, digits_fuel f g (n / 10) ((b'0' + n % 10) ∷ out))

-- A digit more, read and printed again.
digits_push :
    (fuel n c : ℕ) (out : List ℕ)
    → is_digit c ≡ true
    → 1 ≤ n * 10 + (c - b'0')
    → n * 10 + (c - b'0') ≤ fuel
    → digits fuel (n * 10 + (c - b'0')) out ≡ digits fuel n (c ∷ out)
digits_push zero n c out d p h = absurd (omega arith)
digits_push (suc f) n c out d p h = rw (positive_test (n * 10 + (c - b'0')) p) (
    ap (λ m. digits f m ((b'0' + (n * 10 + (c - b'0')) % 10) ∷ out)) (tens n c d)
    ∙ ap (λ m. digits f n (m ∷ out)) (units n c d)
    ∙ digits_fuel f (suc f) n (c ∷ out) (omega arith) (omega arith))
  where
    positive_test : (m : ℕ) → 1 ≤ m → (m == 0) ≡ false
    positive_test m q = ground arith

    tens : (m e : ℕ) → is_digit e ≡ true → (m * 10 + (e - b'0')) / 10 ≡ m
    tens m e q = ground (arith, q)

    units : (m e : ℕ) → is_digit e ≡ true → b'0' + (m * 10 + (e - b'0')) % 10 ≡ e
    units m e q = ground (arith, q)

le-number : (s : List ℕ) (n : ℕ) → n ≤ number n s
le-number [] n = omega arith
le-number (c ∷ s) n = omega (arith, le-number s (n * 10 + (c - b'0')))

digits-number :
    (s : List ℕ) (fuel n : ℕ)
    → all is_digit s ≡ true
    → 1 ≤ n
    → number n s ≤ fuel
    → digits fuel (number n s) [] ≡ digits fuel n s
digits-number [] fuel n d p h = refl
digits-number (c ∷ s) fuel n d p h =
    let (here, rest) = and_true (is_digit c) (all is_digit s) d in
    let m = n * 10 + (c - b'0') in
    let enough = le-number s m in
    digits-number s fuel m rest (omega arith) h
    ∙ digits_push fuel n c s here (omega arith) (omega (arith, enough, h))

first_digit :
    (c : ℕ) (s : List ℕ)
    → is_number (c ∷ s) ≡ true
    → (is_digit c ≡ true) × (1 ≤ 0 * 10 + (c - b'0')) × (all is_digit s ≡ true)
first_digit c s h = ground (arith, h)

print-number : (s : List ℕ) → is_number s ≡ true → digits (number 0 s) (number 0 s) [] ≡ s
print-number [] h = absurd (ground (arith, h))
print-number (c ∷ s) h =
    let (here, p, rest) = first_digit c s h in
    let m = 0 * 10 + (c - b'0') in
    digits-number s (number m s) m rest p (omega arith)
    ∙ digits_push (number m s) 0 c s here p (le-number s m)
    ∙ digits_zero (number m s) (c ∷ s)

take-drop : (n : ℕ) (s : List ℕ) → take n s ++ drop n s ≡ s
take-drop zero s = refl
take-drop (suc n) [] = refl
take-drop (suc n) (c ∷ s) = ap (λ t. c ∷ t) (take-drop n s)

digits_after-split :
    (s t : List ℕ) → digits_after s ≡ some t → (s ≡ b':' ∷ t) × (is_number t ≡ true)
digits_after-split [] t h = absurd (ground (arith, h))
digits_after-split (c ∷ []) t h = absurd (ground (arith, h))
digits_after-split (c ∷ d ∷ s) t h = ground (arith, h)

some_pair :
    {a c b d : List ℕ}
    → ◌≡◌ {A = Option (List ℕ × List ℕ)} (some (a, b)) (some (c, d))
    → (a ≡ c) × (b ≡ d)
some_pair e = ground (arith, e)

cursor_match-split :
    (s job t : List ℕ)
    → cursor_match s ≡ some (job, t)
    → (s ≡ job ++ b':' ∷ t) × (is_number t ≡ true)
unfolding cursor_match
cursor_match-split s job t h =
    elim (Bool-cases (length (take 36 s) == 36 && all cursor_char (take 36 s))) [
      | inl e ↦ elim (Option-cases (digits_after (drop 36 s))) [
        | inl none_found ↦ absurd (ground (arith, rw none_found at (rw e at h)))
        | inr (u, found) ↦
            let (head, tail) = some_pair (rw found at (rw e at h)) in
            let (rest, good) = digits_after-split (drop 36 s) u found in
            subst (λ (p : List ℕ × List ℕ). (s ≡ p.0 ++ b':' ∷ p.1) × (is_number p.1 ≡ true))
              (ap (λ p. (p, u)) head ∙ ap (λ q. (job, q)) tail)
              (sym (take-drop 36 s) ∙ ap (λ q. take 36 s ++ q) rest, good)
      ]
      | inr e ↦ absurd (ground (arith, rw e at h))
    ]

checked_cursor-ok :
    (id t job : List ℕ) (latest n : ℕ)
    → checked_cursor (some (id, t)) job latest ≡ ok n
    → (id ≡ job) × (n ≡ number 0 t) × (n ≤ max_safe) × (n ≤ latest)
unfolding checked_cursor
checked_cursor-ok id t job latest n e = ground (arith, same_text_iff id job, e)

positive_number : (t : List ℕ) → is_number t ≡ true → 1 ≤ number 0 t
positive_number [] h = absurd (ground (arith, h))
positive_number (c ∷ s) h =
    let (here, p, rest) = first_digit c s h in omega (arith, le-number s (0 * 10 + (c - b'0')), p)

-- What is read from a cursor is a positive safe integer, at most the latest one, and the cursor is
-- the text that is printed for it: no other text of the job is accepted for the same event.
pub parse_event_cursor-ok :
    (is_uuid : List ℕ → Bool) (cursor job : List ℕ) (latest n : ℕ)
    → parse_event_cursor is_uuid cursor job latest ≡ ok n
    → (cursor ≡ print_cursor job n) × (1 ≤ n) × (n ≤ latest) × (n ≤ max_safe)
unfolding parse_event_cursor print_cursor checked_cursor
parse_event_cursor-ok is_uuid cursor job latest n e =
    let (a, e1) = throw_if_bind (not (is_uuid job)) invalid _ e in
    let (b, e2) = throw_if_bind (not (uint latest)) invalid _ e1 in
    elim (Option-cases (cursor_match cursor)) [
      | inl missed ↦ absurd (
          ground (
            arith,
            subst (λ (o : Option (List ℕ × List ℕ)). checked_cursor o job latest ≡ ok n) missed e2,
          ))
      | inr ((id, t), found) ↦
          let (text, good) = cursor_match-split cursor id t found in
          let (same, value, safe, late) = checked_cursor-ok id t job latest n (
            subst (λ (o : Option (List ℕ × List ℕ)). checked_cursor o job latest ≡ ok n) found
              e2) in
          (
            text
                ∙ ap (λ i. i ++ b':' ∷ t) same
                ∙ ap (λ s. job ++ b':' ∷ s)
                    (sym (print-number t good) ∙ ap (λ m. digits m m []) (sym value)),
            subst (λ m. 1 ≤ m) (sym value) (positive_number t good),
            late,
            safe,
          )
    ]
