-- ===== src/Control/Tx.antt =====
-- engine/control/database.ts: a transaction as a computation over the tables.
--
-- The clock and the random identifiers are the environment's: its `n`-th reading of the clock and its
-- `n`-th identifier. Hashing of JSON values is a parameter too.
use mathlib.Core.Path.{subst}
use forge_ai.Prelude.{
  ℕ, ◌+◌, ◌≡◌, refl, ap, sym, ◌∙◌, arith, Bool, true, false, List, Option, none, some, Result, ok,
  err, Fault, not_found, if◌then◌else◌,
}
use forge_ai.Contracts.Review.{Hashing, Verification, Migration, CommandPolicy}
use forge_ai.Contracts.Source.{SourceHashing}
use forge_ai.Jobs.{JobState}
use forge_ai.Control.Tables.{World}

pub record Environment : Type 0 where
  pub hashing : Hashing
  pub clock : ℕ → ℕ
  -- `now()`: when the transaction began
  pub begun : ℕ
  pub uuid : ℕ → ℕ
  pub source : SourceHashing
  -- `operationId` of a job, a step and an attempt, and `canonicalHash` of a verification and of a
  -- list of migrations
  pub operation_id : ℕ → ℕ → ℕ → ℕ
  pub verification_hash : Verification → ℕ
  pub bundle_hash : List Migration → ℕ
  -- `fixturePolicy(maxCostMicros)`
  pub fixture_commands : ℕ → CommandPolicy
  -- `fixtureImageDigest`
  pub fixture_image : ℕ
  -- `canonicalHash` of a step's input: job, state, version, candidate and plan.
  pub input_hash : ℕ → JobState → ℕ → Option ℕ → Option ℕ → ℕ
  -- `policyDigest(maxCostMicros)`, and the digest of the fixture template
  pub fixture_policy : ℕ → ℕ
  pub fixture_template : ℕ

abbrev pub Tx : Type 0 → Type 0
Tx A = World → Result (A × World)

infixl 5 ◌>>=◌ ◌>>◌
abbrev pub ◌>>=◌ : {A B : Type 0} → Tx A → (A → Tx B) → Tx B
◌>>=◌ m f w = elim (m w) [ ok (a, w') ↦ f a w' | err e ↦ err e ]

abbrev pub ◌>>◌ : {A B : Type 0} → Tx A → Tx B → Tx B
m >> k = m >>= λ _. k

abbrev pub return : {A : Type 0} → A → Tx A
return a w = ok (a, w)

abbrev pub throw : {A : Type 0} → Fault → Tx A
throw e w = err e

-- `if (bad) throw e`
abbrev pub reject_if : Bool → Fault → Tx (Unit {0})
reject_if b e = if b then throw e else return tt

abbrev pub when : Bool → Tx (Unit {0}) → Tx (Unit {0})
when b m = if b then m else return tt

-- A statement that must give a row.
abbrev pub one_or : {A : Type 0} → Fault → (World → Option A) → Tx A
one_or x select w = elim (select w) [ none ↦ err x | some a ↦ ok (a, w) ]

-- `one`: the row, or 404.
abbrev pub one : {A : Type 0} → (World → Option A) → Tx A
one = one_or not_found

abbrev pub lift : {A : Type 0} → Result A → Tx A
lift r w = elim r [ ok a ↦ ok (a, w) | err e ↦ err e ]

abbrev pub read : {A : Type 0} → (World → A) → Tx A
read f w = ok (f w, w)

-- A statement that changes the tables.
abbrev pub write : (World → World) → Tx (Unit {0})
write f w = ok (tt, f w)

module _ (env : Environment) where
  -- `clock(c)`, and `clock_timestamp()` in a statement
  abbrev pub clock : Tx ℕ
  clock w = ok (env.clock w.reads, record w { reads = w.reads + 1 })

  -- `randomUUID()`
  abbrev pub random_uuid : Tx ℕ
  random_uuid w = ok (env.uuid w.made, record w { made = w.made + 1 })

-- `tx`: COMMIT with the tables of the body, or ROLLBACK to those before it.
pub transaction : {A : Type 0} → Tx A → World → Result A × World
transaction m w = elim (m w) [ ok (a, w') ↦ (ok a, w') | err e ↦ (err e, w) ]

module _ {A B : Type 0} where
  -- A computation goes on from what its first step returns.
  pub >>=-ok :
      (m : Tx A) (f : A → Tx B) (w w' : World) (a : A) → m w ≡ ok (a, w') → (m >>= f) w ≡ f a w'
  >>=-ok m f w w' a e =
      ap (λ (r : Result (A × World)). elim r [ ok (b, v) ↦ f b v | err x ↦ err x ]) e

  -- What succeeds has succeeded at its first step.
  pub >>=-split :
      (m : Tx A) (f : A → Tx B) (w v : World) (b : B)
      → (m >>= f) w ≡ ok (b, v)
      → (a : A) × (w' : World) × (m w ≡ ok (a, w')) × (f a w' ≡ ok (b, v))
  >>=-split m f w v b e = go (m w) refl e
    where
      go :
          (r : Result (A × World))
          → m w ≡ r
          → (elim r [ ok (a, w') ↦ f a w' | err x ↦ err x ]) ≡ ok (b, v)
          → (a : A) × (w' : World) × (m w ≡ ok (a, w')) × (f a w' ≡ ok (b, v))
      go (ok (a, w')) q s = (a, w', q, s)
      go (err x) q s = cc

pub one_or-some :
    {A : Type 0} (x : Fault) (select : World → Option A) (w : World) (a : A)
    → select w ≡ some a
    → one_or x select w ≡ ok (a, w)
one_or-some {A} x select w a e =
    ap (λ (o : Option A). elim o [ none ↦ err x | some b ↦ ok (b, w) ]) e

pub ok_pair :
    {A : Type 0} {a b : A} {w v : World}
    → ◌≡◌ {A = Result (A × World)} (ok (a, w)) (ok (b, v))
    → (b ≡ a) × (v ≡ w)
ok_pair e = ground (arith, e)

-- A computation that leaves the jobs alone, and what it returns when it succeeds.
abbrev pub Ensures : {A : Type 0} → (A → Type 0) → Tx A → Type 0
Ensures {A} P m = (w v : World) (a : A) → m w ≡ ok (a, v) → (v.jobs ≡ w.jobs) × P a

module _ {A : Type 0} (P : A → Type 0) where
  pub return-Ensures : (a : A) → P a → Ensures P (return a)
  return-Ensures a p w v b e =
      let (x, y) = ok_pair e in (ap (λ (u : World). u.jobs) y, subst P (sym x) p)

  pub if-Ensures :
      (b : Bool) (m k : Tx A) → Ensures P m → Ensures P k → Ensures P (if b then m else k)
  if-Ensures true m k p q = p
  if-Ensures false m k p q = q

  pub >>=-Ensures :
      {B : Type 0} (Q : B → Type 0) (m : Tx B) (f : B → Tx A)
      → Ensures Q m
      → ((b : B) → Q b → Ensures P (f b))
      → Ensures P (m >>= f)
  >>=-Ensures Q m f p q w v a e =
      let (b, u, e1, e2) = >>=-split m f w v a e in
      let (same, holds) = p w u b e1 in
      let (same', holds') = q b holds u v a e2 in (same' ∙ same, holds')

abbrev pub Any : {A : Type 0} → A → Type 0
Any a = Unit

pub one-Ensures : {A : Type 0} (select : World → Option A) → Ensures Any (one select)
one-Ensures {A} select w v a e = go (select w) refl e
  where
    go :
        (o : Option A)
        → select w ≡ o
        → (elim o as (λ _. Result (A × World)) [ none ↦ err not_found | some b ↦ ok (b, w) ])
          ≡ ok (a, v)
        → (v.jobs ≡ w.jobs) × Unit {0}
    go none s q = absurd (ground (arith, q))
    go (some b) s q = (ap (λ (u : World). u.jobs) (ok_pair q).1, tt)

pub read-Ensures : {A : Type 0} (f : World → A) → Ensures Any (read f)
read-Ensures f w v a e = (ap (λ (u : World). u.jobs) (ok_pair e).1, tt)

pub write-Ensures :
    (f : World → World) → ((w : World) → (f w).jobs ≡ w.jobs) → Ensures Any (write f)
write-Ensures f k w v a e = (ap (λ (u : World). u.jobs) (ok_pair e).1 ∙ k w, tt)

pub reject_if-Ensures : (b : Bool) (x : Fault) → Ensures Any (reject_if b x)
reject_if-Ensures true x w v u e = absurd (ground (arith, e))
reject_if-Ensures false x w v u e = (ap (λ (u : World). u.jobs) (ok_pair e).1, tt)

pub clock-Ensures : (env : Environment) → Ensures Any (clock env)
clock-Ensures env w v a e = (ap (λ (u : World). u.jobs) (ok_pair e).1, tt)

pub one_or-none :
    {A : Type 0} (x : Fault) (select : World → Option A) (w : World)
    → select w ≡ none
    → one_or x select w ≡ err x
one_or-none {A} x select w e = ap (λ (o : Option A). elim o [ none ↦ err x | some b ↦ ok (b, w) ]) e

-- A computation stops where its first step fails.
pub >>=-err :
    {A B : Type 0} (m : Tx A) (f : A → Tx B) (w : World) (x : Fault)
    → m w ≡ err x
    → (m >>= f) w ≡ err x
>>=-err {A} m f w x e =
    ap (λ (r : Result (A × World)). elim r [ ok (b, v) ↦ f b v | err y ↦ err y ]) e

-- What succeeds has met its guards, and goes on from the same tables.
pub reject_if-split :
    {A : Type 0} (b : Bool) (x : Fault) (k : Tx A) (w v : World) (a : A)
    → (reject_if b x >> k) w ≡ ok (a, v)
    → (b ≡ false) × (k w ≡ ok (a, v))
reject_if-split true x k w v a e = absurd (ground (arith, e))
reject_if-split false x k w v a e = (refl, e)

-- What succeeds has found its rows.
pub one_or-split :
    {A B : Type 0} (x : Fault) (select : World → Option A) (f : A → Tx B) (w v : World) (b : B)
    → (one_or x select >>= f) w ≡ ok (b, v)
    → (a : A) × (select w ≡ some a) × (f a w ≡ ok (b, v))
one_or-split {A} {B} x select f w v b e = go (select w) refl e
  where
    go :
        (o : Option A)
        → select w ≡ o
        → (elim (elim o as (λ _. Result (A × World)) [ none ↦ err x | some c ↦ ok (c, w) ])
            as (λ _. Result (B × World)) [ ok (c, u) ↦ f c u | err y ↦ err y ])
          ≡ ok (b, v)
        → (a : A) × (select w ≡ some a) × (f a w ≡ ok (b, v))
    go none s q = absurd (ground (arith, q))
    go (some c) s q = (c, s, q)

pub reject_if-ok :
    (b : Bool) (x : Fault) (w v : World) (u : Unit {0})
    → reject_if b x w ≡ ok (u, v)
    → (b ≡ false) × (v ≡ w)
reject_if-ok true x w v u e = absurd (ground (arith, e))
reject_if-ok false x w v u e = (refl, (ok_pair e).1)

-- What succeeds has succeeded at its pure step.
pub lift-split :
    {A B : Type 0} (r : Result A) (f : A → Tx B) (w v : World) (b : B)
    → (lift r >>= f) w ≡ ok (b, v)
    → (a : A) × (r ≡ ok a) × (f a w ≡ ok (b, v))
lift-split (ok a) f w v b e = (a, refl, e)
lift-split (err x) f w v b e = absurd (ground (arith, e))
