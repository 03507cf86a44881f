-- ===== src/Jobs/Outcomes.antt =====
-- What an accepted transition of engine/workflows/jobs.ts has passed, and that nothing else refuses it.
use mathlib.Core.Path.{subst}
use forge_ai.Prelude.{
  ◌<◌, ◌≤◌, ◌↔◌, ◌≡◌, refl, ap, sym, ◌∙◌, both_hold, ◌-◌, ◌+◌, true, false, Option, arith, ok,
  parse_bind, throw_if_bind, >>=-eq-ok, parse-ok, is_some, ◌||◌, ◌&&◌, same_bool, ◌!=◌, Bool, ltb,
  not,
}
use forge_ai.Contracts.Review.{Hashing}
use forge_ai.Contracts.Primitives.{datetime, calendar_end}
use Prim.Native.Nat.{min}
use forge_ai.Jobs.{
  is_dated, Job, Transition, ApprovalProof, job_schema, transition_schema, conflicts, allowed,
  apply_transition, transition_job, is_review, same_state, queued, edge_allowed, repairing,
  generate,
}
use forge_ai.Jobs.WellFormed.{job_schema→WellFormed, WellFormed→job_schema}

-- The expiry of the review that a request opens, if it opens one, is in a year of four digits.
abbrev pub expiry_dated : Job → Transition → Bool
expiry_dated j t =
    not (is_review t.target)
    || ltb (min (t.now.instant + 86400000) (j.created_at.instant + 604800000)) calendar_end

-- The guards of `transitionJob`, the date of the review that it opens, and the job that it returns.
pub record Accepted (h : Hashing) (j : Job) (t : Transition) (p : Option ApprovalProof) (k : Job)
    : Type 0 where
  pub well_formed : job_schema j ≡ true
  pub request_ok : transition_schema t ≡ true
  pub no_conflict : conflicts j t ≡ false
  pub not_paused :
      ((is_review j.state || same_state j.state queued) && t.elapsed_active_ms != 0) ≡ false
  pub permitted : allowed h j t p ≡ ok true
  pub review_bound : same_bool (is_review t.target) (is_some t.next_review_digest) ≡ true
  pub in_calendar : expiry_dated j t ≡ true
  pub result : k ≡ apply_transition j t

dated_expiry :
    (j : Job) (t : Transition) → job_schema (apply_transition j t) ≡ true → expiry_dated j t ≡ true
unfolding apply_transition
dated_expiry j t e =
    let w = job_schema→WellFormed (apply_transition j t) e in ground (arith, w.dated)

pub transition_job-Accepted :
    (h : Hashing) (j : Job) (t : Transition) (p : Option ApprovalProof) (k : Job)
    → transition_job h j t p ≡ ok k
    → Accepted h j t p k × (job_schema k ≡ true)
unfolding transition_job
transition_job-Accepted h j t p k e =
    let (p1, e1) = parse_bind job_schema j _ e in
    let (p2, e2) = parse_bind transition_schema t _ e1 in
    let (p3, e3) = throw_if_bind _ _ _ e2 in
    let (p4, e4) = throw_if_bind _ _ _ e3 in
    let (permitted, p5, e5) = >>=-eq-ok (allowed h j t p) _ e4 in
    let (p6, e6) = throw_if_bind _ _ _ e5 in
    let (p7, e7) = parse-ok job_schema (apply_transition j t) e6 in
    (
      record {
        well_formed = p1;
        request_ok = p2;
        no_conflict = p3;
        not_paused = p4;
        permitted = p5 ∙ ap ok (both_hold _ _ p6).0;
        review_bound = (both_hold _ _ p6).1;
        in_calendar = dated_expiry j t p7;
        result = e7;
      },
      rw e7 p7,
    )

-- A job goes to repair only under the conditions of that edge.
pub allowed-repairing :
    (h : Hashing) (j : Job) (t : Transition) (p : Option ApprovalProof)
    → allowed h j t p ≡ ok true
    → t.target ≡ repairing
    → (j.kind ≡ generate) × (j.repair_count < 2)
unfolding allowed edge_allowed
allowed-repairing h j t p e r = ground arith

request_dated : (t : Transition) → transition_schema t ≡ true → datetime t.now ≡ true
unfolding transition_schema
request_dated t e = ground (arith, e)

dated_after :
    (j : Job) (t : Transition)
    → is_dated j ≡ true
    → datetime t.now ≡ true
    → expiry_dated j t ≡ true
    → is_dated (apply_transition j t) ≡ true
unfolding apply_transition
dated_after j t a b c = ground (arith, a, b, c)

-- The guards suffice where a review's expiry is dated: the last parse then throws nothing.
pub apply_transition-job_schema :
    (h : Hashing) (j : Job) (t : Transition) (p : Option ApprovalProof)
    → Accepted h j t p (apply_transition j t)
    → job_schema (apply_transition j t) ≡ true
unfolding conflicts apply_transition
apply_transition-job_schema h j t p a =
    let w = job_schema→WellFormed j a.well_formed in
    WellFormed→job_schema (apply_transition j t) (record {
      version_low = omega arith;
      version_high = ground (arith, w.version_high, a.no_conflict);
      revision_low = w.revision_low;
      revision_high = w.revision_high;
      repairs = ground (arith, allowed-repairing h j t p a.permitted, w.repairs);
      active = omega (arith, w.active);
      finished = ground arith;
      expires = ground arith;
      reviewed = ground (arith, a.review_bound);
      updated = ground (arith, w.updated, a.no_conflict);
      closed = ground (arith, w.updated, a.no_conflict);
      cancels = ground (arith);
      restores = ground (arith, allowed-repairing h j t p a.permitted, w.restores);
      dated = dated_after j t w.dated (request_dated t a.request_ok) a.in_calendar;
    })

-- An accepted request advances the version by one, stamps the job with its time, charges the active
-- time to the budget, and leaves the identity, the base and the policy of the job alone; the
-- returned job meets its schema.
pub record Advances (j : Job) (t : Transition) (k : Job) : Type 0 where
  pub version : k.state_version ≡ j.state_version + 1
  pub state : k.state ≡ t.target
  pub stamped : k.updated_at ≡ t.now
  pub charged : k.active_remaining_ms ≡ j.active_remaining_ms - t.elapsed_active_ms
  pub scope : k.scope ≡ j.scope
  pub kind : k.kind ≡ j.kind
  pub base_revision : k.base_revision ≡ j.base_revision
  pub base_snapshot : k.base_snapshot_id ≡ j.base_snapshot_id
  pub template : k.template_digest ≡ j.template_digest
  pub policy : k.policy_digest ≡ j.policy_digest
  pub created : k.created_at ≡ j.created_at

-- An accepted request yields a well-formed job with the next version, the target state, the
-- request's time and the reduced budget, and keeps the job's identity, base, kind and digests.
pub transition_job-Advances :
    (h : Hashing) (j : Job) (t : Transition) (p : Option ApprovalProof) (k : Job)
    → transition_job h j t p ≡ ok k
    → Advances j t k × (job_schema k ≡ true) × (j.updated_at.instant ≤ k.updated_at.instant)
unfolding apply_transition conflicts
transition_job-Advances h j t p k e =
    let (a, q) = transition_job-Accepted h j t p k e in
    let r = a.result in
    (
      rw r (record {
        version = refl;
        state = refl;
        stamped = refl;
        charged = refl;
        scope = refl;
        kind = refl;
        base_revision = refl;
        base_snapshot = refl;
        template = refl;
        policy = refl;
        created = refl;
      }),
      q,
      rw r (ground (arith, a.no_conflict)),
    )

-- A request is accepted exactly when the job and the request meet their schemas, the guards pass and
-- the expiry of a review that it opens is in a year of four digits: of what the guards let
-- through, the last parse of the reducer refuses only a later expiry.
pub transition_job-ok_iff :
    (h : Hashing) (j : Job) (t : Transition) (p : Option ApprovalProof) (k : Job)
    → (transition_job h j t p ≡ ok k) ↔ Accepted h j t p k
unfolding transition_job
transition_job-ok_iff h j t p k = (
  λ e. (transition_job-Accepted h j t p k e).0,
  λ a.
      let met = apply_transition-job_schema h j t p (subst (λ x. Accepted h j t p x) a.result a) in
      rw (a.well_formed) (
        rw (a.request_ok) (
          rw (a.no_conflict) (
            rw (a.not_paused)
              (rw (a.permitted) (rw (a.review_bound) (rw met (ap ok (sym a.result)))))))),
)
