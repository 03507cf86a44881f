-- ===== src/Prelude/Results.antt =====
-- Thrown errors as values: each message that the modelled code throws is a constructor.
use mathlib.Core.Path.{◌≡◌, refl}
use mathlib.Core.Bool.{Bool, true, false}
use mathlib.Core.Logic.{inl, inr}
use native.Mathlib.Omega.{arith}
use forge_ai.Prelude.Tests.{if◌then◌else◌, Bool-cases}

-- `invalid` is zod's error.
pub data Fault : Type 0 where
  cleanup_pending revision_mismatch revalidation_required : Fault
  invalid state_conflict paused_time missing_approval context_mismatch : Fault
  forbidden_transition unauthorized stale_approval scope_mismatch binding_mismatch : Fault
  expired_approval descriptor_mismatch descriptor_scope bad_verification : Fault
  duplicate_path path_collision not_found conflict capacity_unavailable lease_lost : Fault
  dispatch_fenced policy_revoked expiry_mismatch unsafe_integer invalid_amount : Fault
  not_terminal resolution_conflict unbounded_resolution : Fault
  admission_disabled template_revalidation quota_exceeded idempotency_conflict : Fault
  operation_changed uncertain_operation candidate_changed binding_failed : Fault
  repair_exhausted stage_mismatch missing_candidate lost_step : Fault
  template_mismatch incomplete_proposal operation_cap batch_mismatch unowned_path : Fault
  base_mismatch source_cap : Fault
  constraint_violation event_cursor_expired invalid_event_cursor : Fault

-- A value, or the error that was thrown instead of it.
pub data Result {ℓ} (A : Type ℓ) : Type ℓ where
  err : Fault → Result A
  ok : A → Result A

-- `if (bad) throw e`
abbrev pub throw_if : Bool → Fault → Result (Unit {0})
throw_if true e = err e
throw_if false e = ok tt

-- `schema.parse`
abbrev pub parse {ℓ} : {A : Type ℓ} → (A → Bool) → A → Result A
parse schema a = if schema a then ok a else err invalid

infixl 5 ◌>>=◌ ◌>>◌
abbrev pub ◌>>=◌ {ℓ κ} : {A : Type ℓ} {B : Type κ} → Result A → (A → Result B) → Result B
err fault >>= next = err fault
ok value >>= next = next value

-- A statement, and what comes after it.
abbrev pub ◌>>◌ {ℓ} : {B : Type ℓ} → Result (Unit {0}) → Result B → Result B
first >> second = first >>= λ done. second

-- What a chain that succeeds has found at its first step.
pub >>=-eq-ok {ℓ κ} :
    {A : Type ℓ} {B : Type κ} (first : Result A) (next : A → Result B) {result : B}
    → (first >>= next) ≡ ok result
    → (value : A) × (first ≡ ok value) × (next value ≡ ok result)
>>=-eq-ok (err fault) next e = cc
>>=-eq-ok (ok value) next e = (value, refl, e)

-- Inversions of the two guards, and the guards passed.
module _ {ℓ κ} {A : Type ℓ} {B : Type κ} where
  pub parse_bind :
      (p : A → Bool) (a : A) (f : A → Result B) {b : B}
      → (parse p a >>= f) ≡ ok b
      → (p a ≡ true) × (f a ≡ ok b)
  parse_bind p a f h = elim (Bool-cases (p a)) [
    | inl accepted ↦ (accepted, ground arith)
    | inr refused ↦ ground arith
  ]

  pub parse_pass : (p : A → Bool) (a : A) (f : A → Result B) → p a ≡ true → (parse p a >>= f) ≡ f a
  parse_pass p a f h = rw h

module _ {ℓ} {B : Type ℓ} where
  pub throw_if_bind :
      (c : Bool) (e : Fault) (k : Result B) {b : B}
      → (throw_if c e >> k) ≡ ok b
      → (c ≡ false) × (k ≡ ok b)
  throw_if_bind true e k h = cc
  throw_if_bind false e k h = (refl, h)

  pub throw_if_pass : (c : Bool) (e : Fault) (k : Result B) → c ≡ false → (throw_if c e >> k) ≡ k
  throw_if_pass c e k h = rw h

pub parse-ok {ℓ} :
    {A : Type ℓ} (p : A → Bool) (a : A) {b : A} → parse p a ≡ ok b → (p a ≡ true) × (b ≡ a)
parse-ok p a h = elim (Bool-cases (p a)) [
  | inl accepted ↦ (accepted, ground arith)
  | inr refused ↦ ground arith
]
