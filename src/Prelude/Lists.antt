-- ===== src/Prelude/Lists.antt =====
-- Lists measured by native numbers, and the array methods that the source uses.
use Prim.Native.Nat.{ℕ, zero, suc, ◌+◌}
use mathlib.Core.Path.{◌≡◌, refl, ap}
use mathlib.Core.Bool.{Bool, true, false, ◌&&◌, ◌||◌}
use mathlib.Core.List.{List, [], ◌∷◌, ◌++◌}
use mathlib.Core.Option.{Option, none, some}
use native.Mathlib.Omega.{arith}
use mathlib.Core.Logic.{inl, inr}
use forge_ai.Prelude.Tests.{if◌then◌else◌, ◌==◌, Bool-cases}

module _ {ℓ} {A : Type ℓ} where
  abbrev pub length : List A → ℕ
  length [] = 0
  length (_ ∷ xs) = suc (length xs)

  -- `every`
  abbrev pub all : (A → Bool) → List A → Bool
  all p [] = true
  all p (x ∷ xs) = p x && all p xs

  -- `some`
  abbrev pub any : (A → Bool) → List A → Bool
  any p [] = false
  any p (x ∷ xs) = p x || any p xs

  -- `filter`
  abbrev pub keep : (A → Bool) → List A → List A
  keep p [] = []
  keep p (x ∷ xs) = let rest = keep p xs in if p x then x ∷ rest else rest

  -- `find`
  abbrev pub find : (A → Bool) → List A → Option A
  find p [] = none
  find p (x ∷ xs) = let rest = find p xs in if p x then some x else rest

  -- `UPDATE … SET … WHERE …`
  abbrev pub update : (A → Bool) → (A → A) → List A → List A
  update p f [] = []
  update p f (x ∷ xs) = (if p x then f x else x) ∷ update p f xs

  -- `slice(0, n)`, and `slice(n)`
  abbrev pub take : ℕ → List A → List A
  take zero xs = []
  take (suc n) [] = []
  take (suc n) (x ∷ xs) = x ∷ take n xs

  abbrev pub drop : ℕ → List A → List A
  drop zero xs = xs
  drop (suc n) [] = []
  drop (suc n) (x ∷ xs) = drop n xs

  abbrev pub count : (A → Bool) → List A → ℕ
  count p [] = 0
  count p (x ∷ xs) = let rest = count p xs in if p x then suc rest else rest

  -- `reduce((n, x) => n + f(x), 0)`, and `sum(…)` of a column
  abbrev pub total : (A → ℕ) → List A → ℕ
  total f [] = 0
  total f (x ∷ xs) = f x + total f xs

module _ {ℓ κ} {A : Type ℓ} (P : A → Type κ) where
  abbrev pub All : List A → Type κ
  All [] = Unit
  All (x ∷ xs) = P x × All xs

module _ {ℓ} {A : Type ℓ} where
  pub length-append : (xs ys : List A) → length (xs ++ ys) ≡ length xs + length ys
  length-append [] ys = omega arith
  length-append (x ∷ xs) ys = omega (arith, length-append xs ys)

  pub length-update : (p : A → Bool) (f : A → A) (xs : List A) → length (update p f xs) ≡ length xs
  length-update p f [] = refl
  length-update p f (x ∷ xs) = omega (arith, length-update p f xs)

-- Membership of a number, `includes`.
abbrev pub includes : List ℕ → ℕ → Bool
includes [] a = false
includes (x ∷ xs) a = x == a || includes xs a

-- `new Set(xs).size === xs.length`
abbrev pub distinct : List ℕ → Bool
distinct [] = true
distinct (x ∷ xs) = if includes xs x then false else distinct xs

module _ {ℓ} {A : Type ℓ} where
  -- What holds after an `UPDATE`: of the rows that it changes, and of the others.
  pub All-update {κ} :
      (P : A → Type κ) (p : A → Bool) (f : A → A) (xs : List A)
      → ((x : A) → p x ≡ true → P (f x))
      → ((x : A) → p x ≡ false → P x)
      → All P (update p f xs)
  All-update P p f [] yes_ no_ = tt
  All-update P p f (x ∷ xs) yes_ no_ = (
    elim (Bool-cases (p x)) [ inl e ↦ rw e (yes_ x e) | inr e ↦ rw e (no_ x e) ],
    All-update P p f xs yes_ no_,
  )

  -- A test that an `UPDATE` does not touch.
  pub any-update :
      (q p : A → Bool) (f : A → A) (xs : List A)
      → ((x : A) → q (f x) ≡ q x)
      → any q (update p f xs) ≡ any q xs
  any-update q p f [] same = refl
  any-update q p f (x ∷ xs) same = elim (Bool-cases (p x)) [
    | inl e ↦ rw e (rw (same x) (ap (λ b. q x || b) (any-update q p f xs same)))
    | inr e ↦ rw e (ap (λ b. q x || b) (any-update q p f xs same))
  ]

  -- A row that an `UPDATE` is not for is found as before.
  pub total-update :
      (m : A → ℕ) (p : A → Bool) (f : A → A) (xs : List A)
      → ((x : A) → m (f x) ≡ m x)
      → total m (update p f xs) ≡ total m xs
  total-update m p f [] same = refl
  total-update m p f (x ∷ xs) same = elim (Bool-cases (p x)) [
    | inl e ↦ rw e (rw (same x, total-update m p f xs same))
    | inr e ↦ rw e (rw (total-update m p f xs same))
  ]

-- What is found passes the test.
pub find-true : {A : Type 0} (p : A → Bool) (xs : List A) (x : A) → find p xs ≡ some x → p x ≡ true
find-true p [] x e = absurd (ground (arith, e))
find-true p (y ∷ ys) x e = elim (Bool-cases (p y)) [
  | inl h ↦ here h (rw h at e)
  | inr h ↦ find-true p ys x (rw h at e)
]
  where
    here : p y ≡ true → some y ≡ some x → p x ≡ true
    here h q = cc

-- A row that an `UPDATE` changes is found changed, where the test reads nothing that it changes.
pub find-update :
    {A : Type 0} (p : A → Bool) (f : A → A) (xs : List A) (x : A)
    → ((y : A) → p (f y) ≡ p y)
    → find p xs ≡ some x
    → find p (update p f xs) ≡ some (f x)
find-update p f [] x k e = cc
find-update p f (y ∷ ys) x k e = elim (Bool-cases (p y)) [
  | inl h ↦ rw h (rw (k y) (rw h (some_f (rw h at e))))
  | inr h ↦ rw h (rw h (find-update p f ys x k (rw h at e)))
]
  where
    some_f : some y ≡ some x → some (f y) ≡ some (f x)
    some_f q = cc
