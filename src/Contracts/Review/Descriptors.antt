-- ===== src/Contracts/Review/Descriptors.antt =====
-- engine/contracts/review.ts: what a runner descriptor and a verification establish.
use forge_ai.Prelude.{
  ℕ, suc, ◌+◌, ◌<◌, ◌≤◌, ◌≡◌, refl, ap, ◌∙◌, Bool, true, false, List, [], ◌∷◌, map, arith, ok,
  invalid, descriptor_mismatch, descriptor_scope, parse_bind, throw_if_bind, >>=-eq-ok, or_false,
  not, not-false, ◌==◌, ◌&&◌, ◌||◌, any, All, length, distinct, includes,
}
use forge_ai.Prelude.Pigeonhole.{distinct_covers}
use forge_ai.Contracts.Primitives.{CheckId, check_index, positive}
use forge_ai.Contracts.Review.{
  Hashing, Descriptor, execution_review, ExecutionReview, Approval, ApprovalContext, execution,
  approve, descriptor_schema, context_schema, parse_execution, execution_schema, mismatched,
  validate_approval, validate_descriptor, Verification, CheckResult, verification_schema,
  validate_passing_verification, check_failed, runner, unproven,
}
use forge_ai.Contracts.Review.Bindings.{Binds, validate_approval-Binds, scope_eq}

-- The lease and the content that an accepted descriptor is bound to.
pub record Leased (h : Hashing) (d : Descriptor) (r : ExecutionReview) (a : Approval)
    (c : ApprovalContext) (epoch : ℕ) : Type 0 where
  pub approval : Binds h a (execution_review r) c
  pub kind : c.kind ≡ execution
  pub approved : a.decision ≡ approve
  pub approval_id : d.approval_id ≡ a.id
  pub lease_epoch : d.lease_epoch ≡ epoch
  pub issued : d.issued_at.instant ≤ c.now.instant
  pub in_force : c.now.instant < d.expires_at.instant
  pub short : d.expires_at.instant ≤ d.issued_at.instant + 60000
  pub review : d.execution_review_digest ≡ h.subject_hash (execution_review r)
  pub source : d.source_manifest_digest ≡ r.candidate_digest
  pub template : d.template_digest ≡ r.base.template_digest
  pub image : d.image_digest ≡ r.image_digest
  pub policy : d.command_policy_digest ≡ r.base.policy_digest
  pub resources : h.resources_hash d.resources ≡ h.resources_hash r.command_policy.resources
  pub scope : d.scope ≡ c.scope

module _ (h : Hashing) (d : Descriptor) (r : ExecutionReview) (a : Approval) (c : ApprovalContext)
    (n : ℕ) where
  lease_time : descriptor_schema h d ≡ true → d.expires_at.instant ≤ d.issued_at.instant + 60000
  unfolding descriptor_schema
  lease_time e = ground arith

  not_mismatched :
      mismatched h d r a c n ≡ false
      → (c.kind ≡ execution)
        × (a.decision ≡ approve)
        × (d.approval_id ≡ a.id)
        × (d.lease_epoch ≡ n)
        × (d.issued_at.instant ≤ c.now.instant)
        × (c.now.instant < d.expires_at.instant)
        × (d.execution_review_digest ≡ h.subject_hash (execution_review r))
        × (d.source_manifest_digest ≡ r.candidate_digest)
        × (d.template_digest ≡ r.base.template_digest)
        × (d.image_digest ≡ r.image_digest)
        × (d.command_policy_digest ≡ r.base.policy_digest)
        × (h.resources_hash d.resources ≡ h.resources_hash r.command_policy.resources)
  unfolding mismatched
  not_mismatched e = ground arith

-- An accepted descriptor is returned unchanged and holds a lease: the review it names is approved by
-- a binding approval in the context, its lease is at the current epoch, in force and of a minute at
-- most, and its source, template, image, policy, resources and scope are those of the review.
pub validate_descriptor-Leased :
    (h : Hashing) (d : Descriptor) (r : ExecutionReview) (a : Approval) (c : ApprovalContext)
    (n : ℕ) {e : Descriptor}
    → validate_descriptor h d (execution_review r) a c n ≡ ok e
    → (e ≡ d) × Leased h d r a c n
unfolding validate_descriptor parse_execution
validate_descriptor-Leased h d r a c n e =
    let (p1, e1) = parse_bind (descriptor_schema h) d _ e in
    let (p2, e2) = parse_bind (execution_schema h) r _ e1 in
    let (p3, e3) = parse_bind context_schema c _ e2 in
    let (a', v, e4) = >>=-eq-ok (validate_approval h a (execution_review r) c) _ e3 in
    let (same, binds) = validate_approval-Binds h a (execution_review r) c v in
    let (p5, e5) = throw_if_bind (not (positive n)) invalid _ (rw same at e4) in
    let (p6, e6) = throw_if_bind (mismatched h d r a c n) descriptor_mismatch _ e5 in
    let (p7, e7) = throw_if_bind _ descriptor_scope (ok d) e6 in
    let (
      kind, approved, id, epoch, issued, in_force, review, source, template, image, policy,
      resources,
    ) =
      not_mismatched h d r a c n p6 in
    (
      ground arith,
      record {
        approval = binds;
        kind = kind;
        approved = approved;
        approval_id = id;
        lease_epoch = epoch;
        issued = issued;
        in_force = in_force;
        short = lease_time h d r a c n p1;
        review = review;
        source = source;
        template = template;
        image = image;
        policy = policy;
        resources = resources;
        scope = scope_eq d.scope c.scope (not-false _ p7);
      },
    )

-- A result of the check that passed.
abbrev pub passed : CheckId → CheckResult → Bool
passed id c = check_index c.check_id == check_index id && not (check_failed c)

abbrev indices : List CheckResult → List ℕ
indices = map (λ (c : CheckResult). check_index c.check_id)

check_index-lt : (id : CheckId) → check_index id < 14
check_index-lt id = ground arith

indices-Below : (cs : List CheckResult) → All (λ x. x < 14) (indices cs)
indices-Below [] = tt
indices-Below (c ∷ cs) = (check_index-lt c.check_id, indices-Below cs)

length-indices : (cs : List CheckResult) → length (indices cs) ≡ length cs
length-indices [] = refl
length-indices (c ∷ cs) = ap suc (length-indices cs)

found_step :
    (same bad later listed rest : Bool)
    → (bad || later) ≡ false
    → (same || listed) ≡ true
    → (later ≡ false → listed ≡ true → rest ≡ true)
    → (same && not bad || rest) ≡ true
found_step true bad later listed rest n i f = ground arith
found_step false bad later listed rest n i f = ground (arith, f (or_false bad later n).1 i)

found_passed :
    (id : CheckId) (cs : List CheckResult)
    → any check_failed cs ≡ false
    → includes (indices cs) (check_index id) ≡ true
    → any (passed id) cs ≡ true
found_passed id [] n i = cc
found_passed id (c ∷ cs) n i =
    found_step (check_index c.check_id == check_index id) (check_failed c) (any check_failed cs)
      (includes (indices cs) (check_index id)) (any (passed id) cs) n i (found_passed id cs)

checks_ok :
    (v : Verification)
    → verification_schema v ≡ true
    → (length v.checks ≡ 14) × (distinct (indices v.checks) ≡ true)
unfolding verification_schema
checks_ok v e = ground arith

not_unproven :
    (v : Verification) (d : Descriptor)
    → unproven v d ≡ false
    → (v.origin ≡ runner)
      × (v.candidate_digest ≡ d.source_manifest_digest)
      × (v.template_digest ≡ d.template_digest)
      × (v.image_digest ≡ d.image_digest)
      × (v.policy_digest ≡ d.command_policy_digest)
      × (v.lease_epoch ≡ d.lease_epoch)
      × (v.scope ≡ d.scope)
      × (any check_failed v.checks ≡ false)
unfolding unproven
not_unproven v d e = ground (arith, scope_eq v.scope d.scope)

-- A verification that is accepted as passing is the runner's own, of the descriptor's source, policy,
-- lease and scope, and holds a passed result (exit code 0, in time, in memory) of every mandatory
-- check.
pub validate_passing_verification-passed :
    (h : Hashing) (v : Verification) (d : Descriptor) (id : CheckId) {w : Verification}
    → validate_passing_verification h v d ≡ ok w
    → (w ≡ v)
      × (v.origin ≡ runner)
      × (v.candidate_digest ≡ d.source_manifest_digest)
      × (v.policy_digest ≡ d.command_policy_digest)
      × (v.lease_epoch ≡ d.lease_epoch)
      × (v.scope ≡ d.scope)
      × (any (passed id) v.checks ≡ true)
unfolding validate_passing_verification
validate_passing_verification-passed h v d id e =
    let (p1, e1) = parse_bind verification_schema v _ e in
    let (p2, e2) = parse_bind (descriptor_schema h) d _ e1 in
    let (p3, e3) = throw_if_bind _ _ _ e2 in
    let (origin, candidate, template, image, policy, lease, scope, clean) = not_unproven v d p3 in
    let (full, once) = checks_ok v p1 in
    let covered =
      distinct_covers 14 (check_index id) (indices v.checks) once (indices-Below v.checks)
        (length-indices v.checks ∙ full) (check_index-lt id) in
    (ground arith, origin, candidate, policy, lease, scope, found_passed id v.checks clean covered)
