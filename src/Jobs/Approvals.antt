-- ===== src/Jobs/Approvals.antt =====
-- engine/workflows/jobs.ts: a job leaves a review only with an approval of that very review.
use forge_ai.Prelude.{
  ◌≡◌, ◌≢◌, refl, ap, sym, ◌∙◌, Bool, true, false, Option, none, some, arith, ok, parse_bind, ◌>>=◌,
  not, throw_if_bind, >>=-eq-ok, Bool-cases, inl, inr, same_option_iff, not-false,
}
use forge_ai.Contracts.Review.{
  Hashing, Approval, ApprovalContext, Decision, approve, is_approve, validate_approval,
  context_schema,
}
use forge_ai.Contracts.Review.Bindings.{
  Binds, validate_approval-Binds, kind_eq, timestamp_eq, scope_eq,
}
use forge_ai.Jobs.{
  Job, Transition, ApprovalProof, is_review, cancelling, failed, expired, approved, context_matches,
  expected_kind, allowed, transition_job, approval, apply_transition, same_reason,
}
use forge_ai.Jobs.Outcomes.{transition_job-Accepted}

-- The ways out of a review that need no approval.
pub record Leaves (t : Transition) : Type 0 where
  pub not_cancelled : t.target ≢ cancelling
  pub not_failed : t.target ≢ failed
  pub not_expired : t.target ≢ expired

-- The approval that a request carries is an approving one, valid for the job's own open review.
pub record Granted (h : Hashing) (j : Job) (t : Transition) (p : Option ApprovalProof)
    : Type 0 where
  pub proof : ApprovalProof
  pub carried : p ≡ some proof
  pub binds : Binds h proof.approval proof.subject proof.context
  pub approves : proof.approval.decision ≡ approve
  pub kind : proof.context.kind ≡ expected_kind j.state
  pub now : proof.context.now ≡ t.now
  pub version : proof.context.state_version ≡ j.state_version
  pub digest : j.review_digest ≡ some proof.context.subject_digest
  pub deadline : j.review_expires_at ≡ some proof.context.review_expires_at
  pub revision : proof.context.base_revision ≡ j.base_revision
  pub snapshot : proof.context.base_snapshot_id ≡ j.base_snapshot_id
  pub scope : proof.context.scope ≡ j.scope
  pub template : proof.context.template_digest ≡ j.template_digest
  pub policy : proof.context.policy_digest ≡ j.policy_digest

module _ (j : Job) (t : Transition) (c : ApprovalContext) where
  matches :
      context_matches j t c ≡ true
      → (c.kind ≡ expected_kind j.state)
        × (c.now ≡ t.now)
        × (c.state_version ≡ j.state_version)
        × (j.review_digest ≡ some c.subject_digest)
        × (j.review_expires_at ≡ some c.review_expires_at)
        × (c.base_revision ≡ j.base_revision)
        × (c.base_snapshot_id ≡ j.base_snapshot_id)
        × (c.scope ≡ j.scope)
        × (c.template_digest ≡ j.template_digest)
        × (c.policy_digest ≡ j.policy_digest)
  unfolding context_matches
  matches e = ground (
    arith,
    kind_eq c.kind (expected_kind j.state),
    timestamp_eq c.now t.now,
    same_option_iff c.base_snapshot_id j.base_snapshot_id,
    scope_eq c.scope j.scope,
  )

approves_of : (d : Decision) → is_approve d ≡ true → d ≡ approve
approves_of d e = ground arith

ok_injective : {a b : Bool} → ok a ≡ ok b → a ≡ b
ok_injective e = cc

approved-Granted :
    (h : Hashing) (j : Job) (t : Transition) (p : Option ApprovalProof)
    → approved h j t p ≡ ok true
    → Granted h j t p
unfolding approved
approved-Granted h j t none e = cc
approved-Granted h j t (some q) e =
    let (p1, e1) = parse_bind context_schema q.context _ e in
    let (p2, e2) = throw_if_bind _ _ _ e1 in
    elim (Bool-cases (same_reason t.reason approval)) [
      | inl asked ↦ granted p2 (rw asked at e2)
      | inr other ↦ absurd (no_grant (rw other at e2))
    ]
  where
    no_grant : ok false ≡ ok true → ⊥
    no_grant f = cc

    granted :
        (not (context_matches j t q.context)) ≡ false
        → (validate_approval h q.approval q.subject q.context >>= λ a. ok (is_approve a.decision))
          ≡ ok true
        → Granted h j t (some q)
    granted m g =
        let (a, v, d) = >>=-eq-ok (validate_approval h q.approval q.subject q.context) _ g in
        let (same, binds) = validate_approval-Binds h q.approval q.subject q.context v in
        let (kind, now, version, digest, deadline, revision, snapshot, scope, template, policy) =
          matches j t q.context (not-false _ m) in
        record {
          proof = q;
          carried = refl;
          binds = binds;
          approves =
              approves_of q.approval.decision
                (ap (λ (b : Approval). is_approve b.decision) (sym same) ∙ ok_injective d);
          kind = kind;
          now = now;
          version = version;
          digest = digest;
          deadline = deadline;
          revision = revision;
          snapshot = snapshot;
          scope = scope;
          template = template;
          policy = policy;
        }

-- In a review state only an approval permits a request, cancelling, failing and expiring apart.
allowed-approved :
    (h : Hashing) (j : Job) (t : Transition) (p : Option ApprovalProof)
    → is_review j.state ≡ true
    → Leaves t
    → allowed h j t p ≡ ok true
    → approved h j t p ≡ ok true
unfolding allowed
allowed-approved h j t p r l e = ground (arith, l.not_cancelled, l.not_failed, l.not_expired)

-- A job leaves a review state, other than by a cancellation, a failure or an expiry, only if the
-- request carries an approving approval that an owner or editor gave for this review: the kind, the
-- version, the digest of the subject, the deadline, the base, the scope and the policy are the job's.
pub transition_job-Granted :
    (h : Hashing) (j : Job) (t : Transition) (p : Option ApprovalProof) (k : Job)
    → is_review j.state ≡ true
    → k.state ≢ cancelling
    → k.state ≢ failed
    → k.state ≢ expired
    → transition_job h j t p ≡ ok k
    → Granted h j t p
unfolding apply_transition
transition_job-Granted h j t p k r c f x e =
    let (a, q) = transition_job-Accepted h j t p k e in
    let to : k.state ≡ t.target = ap (λ (k' : Job). k'.state) a.result in
    let out : Leaves t = record {
      not_cancelled = λ b. c (to ∙ b);
      not_failed = λ b. f (to ∙ b);
      not_expired = λ b. x (to ∙ b);
    } in
    approved-Granted h j t p (allowed-approved h j t p r out a.permitted)
