-- ===== src/Prelude/Pigeonhole.antt =====
-- Distinct numbers below a bound: as many as the bound, they are all of them.
use Prim.Native.Nat.{ℕ, zero, suc, ◌≤◌, ◌<◌}
use mathlib.Core.Path.{◌≡◌, refl}
use mathlib.Core.Bool.{true, false}
use mathlib.Core.Logic.{inl, inr}
use mathlib.Core.List.{List, [], ◌∷◌}
use native.Mathlib.Omega.{arith}
use forge_ai.Prelude.Tests.{if◌then◌else◌, ◌==◌, Bool-cases}
use forge_ai.Prelude.Lists.{length, includes, distinct, All}

abbrev Below : ℕ → List ℕ → Type 0
Below n = All (λ x. x < n)

-- The list without a number.
without : ℕ → List ℕ → List ℕ
without a [] = []
without a (x ∷ xs) = let rest = without a xs in if x == a then rest else x ∷ rest

includes-without :
    (a b : ℕ) (xs : List ℕ) → includes xs b ≡ false → includes (without a xs) b ≡ false
unfolding without
includes-without a b [] h = refl
includes-without a b (x ∷ xs) h = ground (arith, includes-without a b xs)

distinct-without : (a : ℕ) (xs : List ℕ) → distinct xs ≡ true → distinct (without a xs) ≡ true
unfolding without
distinct-without a [] h = refl
distinct-without a (x ∷ xs) h = ground (arith, distinct-without a xs, includes-without a x xs)

without_self : (a : ℕ) (xs : List ℕ) → includes xs a ≡ false → without a xs ≡ xs
unfolding without
without_self a [] h = refl
without_self a (x ∷ xs) h = ground (arith, without_self a xs)

length-without :
    (a : ℕ) (xs : List ℕ) → distinct xs ≡ true → length xs ≤ suc (length (without a xs))
unfolding without
length-without a [] h = omega arith
length-without a (x ∷ xs) h = elim (Bool-cases (x == a)) [
  | inl e ↦ ground (arith, without_self a xs)
  | inr e ↦ ground (arith, length-without a xs)
]

Below-without : (n : ℕ) (xs : List ℕ) → Below (suc n) xs → Below n (without n xs)
unfolding without
Below-without n [] h = tt
Below-without n (x ∷ xs) (h, hs) = elim (Bool-cases (x == n)) [
  | inl e ↦ rw e (Below-without n xs hs)
  | inr e ↦ rw e (ground (arith), Below-without n xs hs)
]

pub distinct-length : (n : ℕ) (xs : List ℕ) → distinct xs ≡ true → Below n xs → length xs ≤ n
distinct-length zero [] d b = omega arith
distinct-length zero (x ∷ xs) d (b, bs) = elim b [ ]
distinct-length (suc n) xs d b = omega (
  arith,
  length-without n xs d,
  distinct-length n (without n xs) (distinct-without n xs d) (Below-without n xs b),
)

pub distinct_covers :
    (n i : ℕ) (xs : List ℕ)
    → distinct xs ≡ true
    → Below n xs
    → length xs ≡ n
    → i < n
    → includes xs i ≡ true
distinct_covers n i xs d b l lt = elim (Bool-cases (includes xs i)) [
  | inl found ↦ found
  | inr missing ↦ absurd (omega (arith, l, distinct-length n (i ∷ xs) (ground arith) (lt, b)))
]
